-- ===== src/Engine/Retallied.antt =====
-- internal/engine: the writes to the tallies of collections that declaring, sealing and builders make, and
-- the Tasks that they wake.
use evident_output.Prelude.{
  ℕ, suc, ◌+◌, ◌≤◌, Bool, true, false, not, ◌||◌, List, [], ◌∷◌, ◌++◌, ◌≡◌, refl, arith, ◌==◌,
  if◌then◌else◌, if_cases,
}
use evident_output.Core.State.{EntityState}
use evident_output.Engine.CollectionTally.{
  pred_pending, state_outcome, States, CollectionTally, seal, release, fail_builder, total,
}
use evident_output.Engine.Eligibility.{Predecessor, task, collection, undeclared, close_membership}
use evident_output.Engine.Accounted.{
  occurrences, occurrences-append, waiting_as, settle-IsAccounted,
}
use evident_output.Engine.Unresolved.{
  IsUnresolved, seal-IsUnresolved, release-IsUnresolved, fail_builder-IsUnresolved,
  held-IsUnresolved, declare-IsUnresolved, declare-waiting_as,
}
use evident_output.Engine.Schedule.{Layout, Sched, run_of, set_at, waits_parked}
use evident_output.Engine.Chains.{declare_chain, conclude_chain, hold_chain}
use evident_output.Engine.Awaited.{
  Awaited-grows, set_at_all, set_at-waiting_as, worklist_occurrences,
}
use evident_output.Engine.Watched.{IsWatched, keeps_pending}

abbrev pub Tallies : Type 0
Tallies = ℕ → CollectionTally

-- What waited on a collection is among the woken or still waits, and no edge that is waited for is
-- resolved.
pub record IsKept (tally : Tallies) (woken : List ℕ) (after : Tallies) : Type 0 where
  pub kept : (i c : ℕ) → waiting_as i (tally c) ≤ occurrences i woken + waiting_as i (after c)
  pub unresolved : ((c : ℕ) → IsUnresolved (tally c)) → (c : ℕ) → IsUnresolved (after c)

same-IsKept : (tally : Tallies) → IsKept tally [] tally
same-IsKept tally = record { kept = λ i c. omega arith; unresolved = λ u. u }

-- A write to one collection.
write-IsKept :
    (tally : Tallies) (d : ℕ) (woken : List ℕ) (t : CollectionTally)
    → ((i : ℕ) → waiting_as i (tally d) ≤ occurrences i woken + waiting_as i t)
    → (IsUnresolved (tally d) → IsUnresolved t)
    → IsKept tally woken (set_at d t tally)
write-IsKept tally d woken t k u = record {
  kept = λ i. set_at-waiting_as i (occurrences i woken) d t tally (k i);
  unresolved = λ us. set_at_all IsUnresolved d t tally (u (us d)) us;
}

then-IsKept :
    (tally middle after : Tallies) (first rest : List ℕ)
    → IsKept tally first middle
    → IsKept middle rest after
    → IsKept tally (first ++ rest) after
then-IsKept tally middle after first rest k l = record {
  kept = λ i c. omega (arith, k.kept i c, l.kept i c, occurrences-append i first rest);
  unresolved = λ u. l.unresolved (k.unresolved u);
}

pub seal-IsKept :
    (tally : Tallies) (c cursor : ℕ)
    → IsKept tally (seal (tally c) cursor).0 (set_at c (seal (tally c) cursor).1 tally)
seal-IsKept tally c cursor =
    write-IsKept tally c _ _
      (λ i.
        omega (arith, (settle-IsAccounted (λ m. EntityState.pending) (tally c) 0 cursor true).1 i))
      (seal-IsUnresolved (tally c) cursor)

pub close_membership-IsKept :
    (decl_seq : ℕ) (tally : Tallies) (p : Predecessor)
    → IsKept tally (close_membership decl_seq tally p).1.0 (close_membership decl_seq tally p).1.1
unfolding close_membership
close_membership-IsKept decl_seq tally (task m) = same-IsKept tally
close_membership-IsKept decl_seq tally undeclared = same-IsKept tally
close_membership-IsKept decl_seq tally (collection c through) =
    if_cases (λ (r : Predecessor × (List ℕ × Tallies)). IsKept tally r.1.0 r.1.1)
      (not (through == 0) || total (tally c) == 0 || not ((tally c).holds == 0)) _ _
      (λ _. same-IsKept tally) (λ _. seal-IsKept tally c decl_seq)

pub hold_chain-IsKept : (cs : List ℕ) (tally : Tallies) → IsKept tally [] (hold_chain cs tally)
unfolding hold_chain
hold_chain-IsKept [] tally = same-IsKept tally
hold_chain-IsKept (c ∷ cs) tally =
    then-IsKept tally _ _ [] []
      (write-IsKept tally c [] _ (λ i. omega arith)
        (held-IsUnresolved (tally c) (suc (tally c).holds)))
      (hold_chain-IsKept cs _)

pub declare_chain-IsKept :
    (σ : States) (st : ℕ) (cs : List ℕ) (tally : Tallies)
    → state_outcome (σ st) ≡ pred_pending
    → IsKept tally [] (declare_chain σ st cs tally)
unfolding declare_chain
declare_chain-IsKept σ st [] tally e = same-IsKept tally
declare_chain-IsKept σ st (c ∷ cs) tally e =
    then-IsKept tally _ _ [] []
      (write-IsKept tally c [] _ (λ i. omega (arith, declare-waiting_as σ (tally c) st i e))
        (declare-IsUnresolved σ (tally c) st))
      (declare_chain-IsKept σ st cs _ e)

-- What a failed builder wakes of one collection, with the tally after it.
lost-IsKept :
    (failed : Bool) (t : CollectionTally)
    → let r = if failed then fail_builder t else ([], t) in
      ((i : ℕ) → waiting_as i t ≤ occurrences i r.0 + waiting_as i r.1)
      × (IsUnresolved t → IsUnresolved r.1)
unfolding fail_builder
lost-IsKept true t = (
  λ i. omega (arith, (settle-IsAccounted (λ m. EntityState.pending) t 0 0 true).3 i),
  λ u. fail_builder-IsUnresolved t,
)
lost-IsKept false t = (λ i. omega arith, λ u. u)

pub conclude_chain-IsKept :
    (own failed : Bool) (cursor : ℕ) (cs : List ℕ) (tally : Tallies)
    → IsKept tally
        (conclude_chain own failed cursor cs tally).0
        (conclude_chain own failed cursor cs tally).1
unfolding conclude_chain
conclude_chain-IsKept own failed cursor [] tally = same-IsKept tally
conclude_chain-IsKept own failed cursor (c ∷ cs) tally =
    let (lost, t) = if failed then fail_builder (tally c) else ([], tally c) in
    let (freed, t') = release t own cursor in
    let (kept, unresolved) = lost-IsKept failed (tally c) in
    let rest = conclude_chain-IsKept false failed cursor cs (set_at c t' tally) in
    let accounted = λ (i : ℕ). (settle-IsAccounted (λ m. EntityState.pending) t 0 cursor own).2 i in
    record {
      kept = λ i d.
          let here =
            set_at-waiting_as i (occurrences i lost + occurrences i freed) c t' tally
              (omega (arith, kept i, accounted i)) d in
          omega (
            arith,
            here,
            rest.kept i d,
            worklist_occurrences lost freed
                (conclude_chain false failed cursor cs (set_at c t' tally)).0 i,
          );
      unresolved = λ us. rest.unresolved (
          set_at_all IsUnresolved c t' tally (release-IsUnresolved t own cursor (unresolved (us c)))
            us);
    }

-- A step that only moves Tasks from the tallies to the worklist.
pub retallied-IsWatched :
    (layout : Layout) (extra woken : List ℕ) (tally : Tallies) (s : Sched)
    → IsKept s.tally woken tally
    → IsWatched layout extra s
    → IsWatched layout extra (record s { tally = tally; woken = s.woken ++ woken })
unfolding waits_parked
retallied-IsWatched layout extra woken tally s k w = record {
  awaited = λ m p.
      let count = occurrences-append m s.woken woken in
      Awaited-grows extra extra s.woken (s.woken ++ woken) s.dependents s.dependents s.tally tally m
        (λ h. h) (λ h. omega (arith, h, count)) (λ b. omega arith)
        (λ c. omega (arith, count, k.kept m c)) (w.awaited m p);
  alive = λ b m h.
      keeps_pending (run_of layout s) (record (run_of layout s) { tally = tally }) b refl (λ d. d)
        refl (w.alive b m h);
  unresolved = k.unresolved w.unresolved;
  fresh = w.fresh;
}
