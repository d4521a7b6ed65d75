-- ===== src/Engine/Opened.antt =====
-- internal/engine/collection_tally.go: a Task that waits on an open edge waits for a membership that is
-- not taken as declared, except where a builder ends on a collection that was sealed before.
use evident_output.Prelude.{
  ℕ, ◌<◌, Bool, true, false, not, ◌&&◌, ◌||◌, List, [], ◌∷◌, ◌++◌, ◌≡◌, refl, arith, ◌==◌,
  if◌then◌else◌, if_cases, All, any,
}
use evident_output.Engine.CollectionTally.{
  States, CollectionTally, total, settle, declare, seal, park, unpark, release, fail_builder,
}
use evident_output.Engine.Eligibility.{
  Predecessor, task, collection, undeclared, edge_cursor, close_membership,
}
use evident_output.Engine.Chains.{declare_chain, conclude_chain, hold_chain}
use evident_output.Engine.Accounted.{occurrences}
use evident_output.Engine.Schedule.{Layout, Sched, set_at, settle_chain, enter_phase, run_of}
use evident_output.Engine.Operations.{Op, concluding, run_ops}
use evident_output.Engine.Awaited.{Lands}
use evident_output.Engine.Retallied.{Tallies}
use evident_output.Engine.Rule.{
  Write, settling, declaring_into, parking, closing, sealing_one, holding_all, concluding_all,
  unparking, Permits, written, Fits, Rule, run_ops-Rule,
}
use evident_output.Engine.Counted.{IsCounted, counting, new_output-IsCounted}
use evident_output.Engine.Scheduled.{new_output}

-- An edge without a cursor of its own reads this collection as open.
abbrev pub stays_open : Bool → CollectionTally → Bool
stays_open draining t = not (t.holds == 0) || not t.sealed && not draining

-- `ended` says whether a builder of this collection may have ended.
abbrev pub IsOpen : Bool → Bool → CollectionTally → Type 0
IsOpen draining ended t =
    (i : ℕ) → 0 < occurrences i t.open_edges → (stays_open draining t || ended && t.sealed) ≡ true

module _ (d b : Bool) where
  settle-IsOpen :
      (σ : States) (t : CollectionTally) (st : ℕ) → IsOpen d b t → IsOpen d b (settle σ t st).1
  unfolding settle
  settle-IsOpen σ t st h i = ground (arith, h i)

  declare-IsOpen :
      (σ : States) (t : CollectionTally) (st : ℕ) → IsOpen d b t → IsOpen d b (declare σ t st)
  unfolding declare
  declare-IsOpen σ t st h = settle-IsOpen σ (record t { members = t.members ++ st ∷ [] }) st h

  seal-IsOpen : (t : CollectionTally) (cursor : ℕ) → IsOpen d b t → IsOpen d b (seal t cursor).1
  unfolding seal
  seal-IsOpen t cursor h i = ground (arith, h i)

  park-IsOpen :
      (t : CollectionTally) (st cursor : ℕ) (is_open : Bool)
      → (is_open ≡ true → stays_open d t ≡ true)
      → IsOpen d b t
      → IsOpen d b (park t st cursor is_open)
  unfolding park
  park-IsOpen t st cursor true o h i k = ground (arith, o refl)
  park-IsOpen t st cursor false o h i k = h i k

  release-IsOpen :
      (t : CollectionTally) (own : Bool) (cursor : ℕ)
      → (own ≡ true → b ≡ true)
      → IsOpen d b t
      → IsOpen d b (release t own cursor).1
  unfolding release seal
  release-IsOpen t true cursor o h i k = ground (arith, o refl)
  release-IsOpen t false cursor o h i k = released i k
    where
      released :
          (i : ℕ)
          → 0 < occurrences i (release t false cursor).1.open_edges
          → (stays_open d (release t false cursor).1 || b && (release t false cursor).1.sealed)
            ≡ true
      released i = ground (arith, h i)

  fail_builder-IsOpen : (t : CollectionTally) → IsOpen d b (fail_builder t).1
  unfolding fail_builder
  fail_builder-IsOpen t i = ground arith

  unpark-IsOpen : (t : CollectionTally) → IsOpen d b (unpark t)
  unfolding unpark
  unpark-IsOpen t i = ground arith

-- The collection whose own builder a step ends.
abbrev pub own_builder : Op → ℕ → Bool
own_builder (concluding failed (d ∷ ds)) c = c == d
own_builder _ c = false

abbrev pub ends_builder : List Op → ℕ → Bool
ends_builder ops c = any (λ op. own_builder op c) ops

-- The builders that may end are those of these collections.
abbrev pub MayEnd : (ℕ → Bool) → List ℕ → Type 0
MayEnd ended [] = Unit
MayEnd ended (c ∷ cs) = ended c ≡ true

abbrev pub Open : Bool → (ℕ → Bool) → Tallies → Type 0
Open draining ended tally = (c : ℕ) → IsOpen draining (ended c) (tally c)

module _ (d : Bool) (ended : ℕ → Bool) where
  set_at-Open :
      (c : ℕ) (t : CollectionTally) (tally : Tallies)
      → IsOpen d (ended c) t
      → Open d ended tally
      → Open d ended (set_at c t tally)
  set_at-Open c t tally h hs m =
      if_cases (IsOpen d (ended m)) (m == c) _ _
        (λ e. let same : m ≡ c = ground (arith, e) in rw same h) (λ _. hs m)

  settle_chain-Open :
      (σ : States) (st : ℕ) (cs : List ℕ) (tally : Tallies)
      → Open d ended tally
      → Open d ended (settle_chain σ st cs tally).1
  unfolding settle_chain
  settle_chain-Open σ st [] tally h = h
  settle_chain-Open σ st (c ∷ cs) tally h =
      settle_chain-Open σ st cs _
        (set_at-Open c _ tally (settle-IsOpen d (ended c) σ (tally c) st (h c)) h)

  declare_chain-Open :
      (σ : States) (st : ℕ) (cs : List ℕ) (tally : Tallies)
      → Open d ended tally
      → Open d ended (declare_chain σ st cs tally)
  unfolding declare_chain
  declare_chain-Open σ st [] tally h = h
  declare_chain-Open σ st (c ∷ cs) tally h =
      declare_chain-Open σ st cs _
        (set_at-Open c _ tally (declare-IsOpen d (ended c) σ (tally c) st (h c)) h)

  hold_chain-Open :
      (cs : List ℕ) (tally : Tallies) → Open d ended tally → Open d ended (hold_chain cs tally)
  unfolding hold_chain
  hold_chain-Open [] tally h = h
  hold_chain-Open (c ∷ cs) tally h =
      hold_chain-Open cs _ (set_at-Open c _ tally (λ i k. ground (arith, h c i k)) h)

  close_membership-Open :
      (decl_seq : ℕ) (p : Predecessor) (tally : Tallies)
      → Open d ended tally
      → Open d ended (close_membership decl_seq tally p).1.1
  unfolding close_membership
  close_membership-Open decl_seq (task m) tally h = h
  close_membership-Open decl_seq undeclared tally h = h
  close_membership-Open decl_seq (collection c through) tally h =
      if_cases (λ (r : Predecessor × (List ℕ × Tallies)). Open d ended r.1.1)
        (not (through == 0) || total (tally c) == 0 || not ((tally c).holds == 0)) _ _ (λ _. h)
        (λ _. set_at-Open c _ tally (seal-IsOpen d (ended c) (tally c) decl_seq (h c)) h)

  conclude_chain-Open :
      (own failed : Bool) (cursor : ℕ) (cs : List ℕ) (tally : Tallies)
      → (own ≡ true → MayEnd ended cs)
      → Open d ended tally
      → Open d ended (conclude_chain own failed cursor cs tally).1
  unfolding conclude_chain
  conclude_chain-Open own failed cursor [] tally o h = h
  conclude_chain-Open own failed cursor (c ∷ cs) tally o h =
      let t = if failed then fail_builder (tally c) else ([], tally c) in
      conclude_chain-Open false failed cursor cs _ (λ e. absurd (cc e))
        (set_at-Open c _ tally
          (release-IsOpen d (ended c) t.1 own cursor o (
            if_cases (λ (r : List ℕ × CollectionTally). IsOpen d (ended c) r.1) failed _ _
              (λ _. fail_builder-IsOpen d (ended c) (tally c)) (λ _. h c)))
          h)

module _ (layout : Layout) (ended : ℕ → Bool) where
  abbrev pub EdgesOpen : Sched → Type 0
  EdgesOpen s = Open s.draining ended s.tally

  written-EdgesOpen :
      (w : Write) (s : Sched)
      → Permits (MayEnd ended) w
      → EdgesOpen s
      → EdgesOpen (written layout w s)
  unfolding edge_cursor
  written-EdgesOpen (settling σ st cs) s f h = settle_chain-Open s.draining ended σ st cs s.tally h
  written-EdgesOpen (declaring_into σ st cs) s f h =
      declare_chain-Open s.draining ended σ st cs s.tally h
  written-EdgesOpen (parking st c through) s f h =
      let (cursor, is_open) = edge_cursor (run_of layout s) c through in
      set_at-Open s.draining ended c _ s.tally
        (park-IsOpen s.draining (ended c) (s.tally c) st cursor is_open (λ o. ground (arith, o))
          (h c))
        h
  written-EdgesOpen (closing p) s f h =
      close_membership-Open s.draining ended s.decl_seq p s.tally h
  written-EdgesOpen (sealing_one c) s f h =
      set_at-Open s.draining ended c _ s.tally
        (seal-IsOpen s.draining (ended c) (s.tally c) s.decl_seq (h c)) h
  written-EdgesOpen (holding_all cs) s f h = hold_chain-Open s.draining ended cs s.tally h
  written-EdgesOpen (concluding_all failed cs) s f h =
      conclude_chain-Open s.draining ended true failed s.decl_seq cs s.tally (λ _. f) h
  written-EdgesOpen unparking s f h = λ c. unpark-IsOpen true (ended c) (s.tally c)

  opening : Rule layout (MayEnd ended) (λ s. IsCounted s × EdgesOpen s)
  unfolding enter_phase
  opening =
      let counted = counting layout (MayEnd ended) in
      record {
        enters = λ st phase s k f h. (counted.enters st phase s k f h.0, h.1);
        known = λ st s f h. counted.known st s f h.0;
        begins = λ s h. (counted.begins s h.0, h.1);
        writes = λ w s f h. (counted.writes w s f h.0, written-EdgesOpen w s f h.1);
        moves = λ s s' phases seq count tally draining h.
            (counted.moves s s' phases seq count tally draining h.0, rw (tally, draining) h.1);
      }

builders_fit :
    (ended : ℕ → Bool) (ops : List Op)
    → ((c : ℕ) → ends_builder ops c ≡ true → ended c ≡ true)
    → All (Fits (MayEnd ended)) ops
builders_fit ended [] h = tt
builders_fit ended (op ∷ ops) h = (
  one op (λ c e. h c (ground (arith, e))),
  builders_fit ended ops (λ c e. h c (ground (arith, e))),
)
  where
    one : (op : Op) → ((c : ℕ) → own_builder op c ≡ true → ended c ≡ true) → Fits (MayEnd ended) op
    one op h failed [] e = tt
    one op h failed (c ∷ cs) e = h c (rw e (ground arith))

-- Whatever steps are taken, a Task that waits on an open edge of a collection waits for a membership
-- that is not taken as declared, unless the collection is sealed and a builder of it ended among the
-- steps.
pub run_ops-EdgesOpen :
    (layout : Layout) (depth fuel : ℕ) (ops : List Op)
    → Lands
        (λ s. IsCounted s × EdgesOpen layout (ends_builder ops) s)
        (run_ops layout depth fuel ops new_output)
run_ops-EdgesOpen layout depth fuel ops =
    let ended = ends_builder ops in
    run_ops-Rule layout (MayEnd ended) (λ s. IsCounted s × EdgesOpen layout ended s)
      (opening layout ended) depth fuel ops new_output (builders_fit ended ops (λ c e. e))
      (new_output-IsCounted, λ c i k. absurd (omega (arith, k)))
