-- ===== src/Engine/Watched.antt =====
-- internal/engine: each parked Task is on the worklist or waits on something that is pending, through
-- settling, placing and the drain of the worklist.
use evident_output.Prelude.{
  ℕ, ◌<◌, true, false, List, [], ◌∷◌, ◌++◌, ◌≡◌, inl, inr, refl, ◌∙◌, arith, ◌==◌, if_cases,
  Bool-cases,
}
use evident_output.Core.State.{EntityState}
use evident_output.Engine.CollectionTally.{pred_pending, state_outcome, States}
use evident_output.Engine.Eligibility.{Run, task_outcome}
use evident_output.Engine.Accounted.{occurrences}
use evident_output.Engine.Unresolved.{IsUnresolved}
use evident_output.Engine.Schedule.{
  Phase, declared, is_parked, awaiting_start, Layout, Sched, set_at, enter_phase, settle_chain,
  run_of, propagate_settle, settle_task, waits_parked, is_known,
}
use evident_output.Engine.Awaited.{
  Awaited, set_at-occurrences, settle_chain-IsUnresolved, settle_chain-occurrences, Awaited-grows,
  worklist_occurrences,
}

-- Each parked Task that has not settled is in `extra`, on the worklist, or parked on a Task or a
-- collection, and whatever a Task is parked on is pending. What was not declared is untouched.
pub record IsWatched (layout : Layout) (extra : List ℕ) (s : Sched) : Type 0 where
  pub awaited : (m : ℕ) → waits_parked m s ≡ true → Awaited extra s.woken s.dependents s.tally m
  pub alive :
      (b m : ℕ)
      → 0 < occurrences m (s.dependents b)
      → task_outcome (run_of layout s) b ≡ pred_pending
  pub unresolved : (c : ℕ) → IsUnresolved (s.tally c)
  pub fresh :
      (m : ℕ) → is_known m s ≡ false → (s.states m ≡ EntityState.pending) × (s.phase m ≡ declared)

pub keeps_pending :
    (r r' : Run) (b : ℕ)
    → r'.states b ≡ r.states b
    → (r.defined b ≡ true → r'.defined b ≡ true)
    → r'.draining ≡ r.draining
    → task_outcome r b ≡ pred_pending
    → task_outcome r' b ≡ pred_pending
unfolding task_outcome state_outcome
keeps_pending r r' b e d q h = ground (arith, e, d, q, h)

-- A Task that is on its way to a terminal state: nothing else is wrong.
record IsLeaving (layout : Layout) (st : ℕ) (extra : List ℕ) (s : Sched) : Type 0 where
  off : is_parked (s.phase st) ≡ false
  awaited :
      (m : ℕ)
      → (m == st) ≡ false
      → waits_parked m s ≡ true
      → Awaited extra s.woken s.dependents s.tally m
  alive :
      (b m : ℕ)
      → (b == st) ≡ false
      → 0 < occurrences m (s.dependents b)
      → task_outcome (run_of layout s) b ≡ pred_pending
  unresolved : (c : ℕ) → IsUnresolved (s.tally c)
  fresh :
      (m : ℕ) → is_known m s ≡ false → (s.states m ≡ EntityState.pending) × (s.phase m ≡ declared)

module _ (layout : Layout) where
  propagate_settle-IsWatched :
      (st : ℕ) (extra : List ℕ) (s : Sched)
      → IsLeaving layout st extra s
      → IsWatched layout extra (propagate_settle layout st s)
  unfolding propagate_settle waits_parked
  propagate_settle-IsWatched st extra s w =
      let (told, tally) = settle_chain s.states st (layout.chain st) s.tally in
      let deps = s.dependents st in
      let r = run_of layout s in
      let count = worklist_occurrences s.woken deps told in
      record {
        awaited = λ m p. elim (Bool-cases (m == st)) [
          | inl e ↦ let same : m ≡ st = ground (arith, e) in absurd (cc (rw (same, w.off) at p))
          | inr e ↦
              Awaited-grows extra extra s.woken (s.woken ++ (deps ++ told)) s.dependents
                (set_at st [] s.dependents) s.tally tally m (λ h. h)
                (λ h. omega (arith, h, count m))
                (set_at-occurrences m (occurrences m (s.woken ++ (deps ++ told))) st [] s.dependents
                  (omega (arith, count m)))
                (λ c. omega (
                  arith,
                  count m,
                  settle_chain-occurrences s.states st (layout.chain st) s.tally c m,
                ))
                (w.awaited m e p)
        ];
        alive = λ b m.
            if_cases
              (λ x.
                0 < occurrences m x → task_outcome (record r { tally = tally }) b ≡ pred_pending)
              (b == st) _ _ (λ _ h. absurd (omega (arith, h)))
              (λ e h.
                keeps_pending r (record r { tally = tally }) b refl (λ d. d) refl
                  (w.alive b m e h));
        unresolved = settle_chain-IsUnresolved s.states st (layout.chain st) s.tally w.unresolved;
        fresh = w.fresh;
      }

  leaves :
      (st : ℕ) (extra : List ℕ) (s : Sched) (σ : States) (phase : ℕ → Phase) (count : ℕ)
      → IsWatched layout (st ∷ extra) s
      → is_known st s ≡ true
      → ((m : ℕ) → (m == st) ≡ false → (σ m ≡ s.states m) × (phase m ≡ s.phase m))
      → is_parked (phase st) ≡ false
      → IsLeaving layout st extra (record s { states = σ; phase = phase; parked_count = count })
  unfolding waits_parked
  leaves st extra s σ phase count w known others off = record {
    off = off;
    awaited = λ m e p.
        let (same_state, same_phase) = others m e in
        Awaited-grows (st ∷ extra) extra s.woken s.woken s.dependents s.dependents s.tally s.tally m
          (λ h. ground (arith, e, h)) (λ h. h) (λ b. omega arith) (λ c. omega arith)
          (w.awaited m (rw (same_state, same_phase) at p));
    alive = λ b m e h.
        let (same_state, same_phase) = others b e in
        keeps_pending (run_of layout s) _ b same_state (λ d. rw same_phase d) refl (w.alive b m h);
    unresolved = w.unresolved;
    fresh = λ m k.
        let e : (m == st) ≡ false = ground (arith, k, known) in
        let (same_state, same_phase) = others m e in
        let (state, declared_only) = w.fresh m k in
        (same_state ∙ state, same_phase ∙ declared_only);
  }

  pub settle_task-IsWatched :
      (st : ℕ) (state : EntityState) (extra : List ℕ) (s : Sched)
      → IsWatched layout (st ∷ extra) s
      → is_known st s ≡ true
      → IsWatched layout extra (settle_task layout st state s)
  unfolding settle_task enter_phase awaiting_start
  settle_task-IsWatched st state extra s w known =
      if_cases (λ x. IsWatched layout extra (propagate_settle layout st x))
        (awaiting_start (s.phase st)) _ _
        (λ _.
          propagate_settle-IsWatched st extra _
            (leaves st extra s _ _ _ w known (λ m e. (rw e refl, rw e refl)) (ground arith)))
        (λ stays.
          propagate_settle-IsWatched st extra _
            (leaves st extra s _ _ _ w known (λ m e. (rw e refl, refl)) (ground (arith, stays))))
