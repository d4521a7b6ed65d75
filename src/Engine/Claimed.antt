-- ===== src/Engine/Claimed.antt =====
-- internal/engine/execution.go: starting a Task leaves each parked Task with something pending to wait
-- for.
use evident_output.Prelude.{
  ℕ, zero, suc, true, false, not, ◌&&◌, List, [], ◌∷◌, ◌≡◌, inl, inr, refl, subst, arith, ◌==◌,
  if_cases, Bool-cases,
}
use evident_output.Core.State.{EntityState, is_terminal_task}
use evident_output.Engine.CollectionTally.{state_outcome, is_succeeded}
use evident_output.Engine.Eligibility.{
  Predecessor, task_outcome, Scan, scan_to_blocker, preds_outcome, outcome,
}
use evident_output.Engine.Schedule.{
  running, is_queued, Layout, Sched, set_at, enter_phase, run_of, waits_parked, is_known,
}
use evident_output.Engine.Operations.{
  live_queue, is_pending, promote_running, claim, claim_next, take_eligible,
}
use evident_output.Engine.Awaited.{and_then-Lands}
use evident_output.Engine.Watched.{IsWatched}
use evident_output.Engine.Routed.{enter_phase-IsWatched}
use evident_output.Engine.Framed.{Lands-any}
use evident_output.Engine.Rested.{IsAtRest, Rests, also, place_now-Rests}

module _ (layout : Layout) (depth fuel : ℕ) where
  pub promoted :
      (st k : ℕ) (s : Sched)
      → is_pending (s.states st) ≡ true
      → let σ = set_at st EntityState.running s.states in
        (state_outcome (σ k) ≡ state_outcome (s.states k))
        × (is_terminal_task (σ k) ≡ is_terminal_task (s.states k))
  unfolding state_outcome is_terminal_task
  promoted st k s h = elim (Bool-cases (k == st)) [
    | inl e ↦ let same : k ≡ st = ground (arith, e) in rw same (ground (arith, h))
    | inr e ↦ rw e (refl, refl)
  ]

  pub promote_running-Rests :
      (st : ℕ) (s : Sched)
      → is_known st s ≡ true
      → IsAtRest layout [] s
      → IsAtRest layout [] (promote_running st s)
  unfolding promote_running waits_parked task_outcome
  promote_running-Rests st s known (w, idle) =
      if_cases (IsAtRest layout []) (is_pending (s.states st)) _ _
        (λ h. (
          record {
            awaited = λ m p. w.awaited m (rw (promoted st m s h).1 at p);
            alive = λ b m k. rw (promoted st b s h).0 (w.alive b m k);
            unresolved = w.unresolved;
            fresh =
                λ m k. let e : (m == st) ≡ false = ground (arith, k, known) in rw e (w.fresh m k);
          },
          idle,
        ))
        (λ _. (w, idle))

  pub claim-Rests :
      (st : ℕ) (s : Sched)
      → is_known st s ≡ true
      → IsAtRest layout [] s
      → IsAtRest layout [] (claim st s)
  unfolding claim enter_phase
  claim-Rests st s known (w, idle) = promote_running-Rests st (enter_phase st running s) known (
    enter_phase-IsWatched layout st running [] s (also layout depth fuel st [] s w) known refl refl,
    idle,
  )

  -- The queue is nothing that a Task waits on.
  pub requeued :
      (s : Sched) (queue : List ℕ) (preds : ℕ → List Predecessor)
      → IsAtRest layout [] s
      → IsAtRest layout [] (record s { queue = queue; preds = preds })
  unfolding waits_parked
  requeued s queue preds (w, idle) = (
    record { awaited = w.awaited; alive = w.alive; unresolved = w.unresolved; fresh = w.fresh },
    idle,
  )

  pub live_queue-known :
      (s : Sched) (qs rest : List ℕ) (st : ℕ)
      → IsWatched layout [] s
      → live_queue s qs ≡ st ∷ rest
      → is_known st s ≡ true
  unfolding live_queue
  live_queue-known s [] rest st w e = absurd (cc e)
  live_queue-known s (q ∷ qs) rest st w e =
      if_cases (λ x. x ≡ st ∷ rest → is_known st s ≡ true)
        (is_queued (s.phase q) && not (is_terminal_task (s.states q))) _ _
        (λ live e'.
          let same : q ≡ st = cc e' in
          subst (λ m. is_known m s ≡ true) same
            (elim (Bool-cases (is_known q s)) [
              | inl k ↦ k
              | inr k ↦ absurd (cc (rw (w.fresh q k).1 at live))
            ]))
        (λ _ e'. live_queue-known s qs rest st w e') e

  pub claim_next-Rests :
      (n : ℕ) (s : Sched)
      → IsAtRest layout [] s
      → Rests layout [] (claim_next layout depth fuel n s)
  unfolding claim_next
  claim_next-Rests zero s h = tt
  claim_next-Rests (suc n) s h = by_queue (live_queue s s.queue) refl (claim_next-Rests n)
    where
      by_queue :
          (qs : List ℕ)
          → live_queue s s.queue ≡ qs
          → ((s' : Sched)
              → IsAtRest layout [] s'
              → Rests layout [] (claim_next layout depth fuel n s'))
          → Rests layout [] (claim_next layout depth fuel (suc n) s)
      by_queue [] e more = rw (e, claim_next) (requeued s [] s.preds h)
      by_queue (st ∷ rest) e more =
          let known = live_queue-known s s.queue rest st h.0 e in
          rw (e, claim_next)
            (and_then-Lands (λ (x : Scan). Unit) (IsAtRest layout []) _ _
              (Lands-any (λ (x : Scan). Unit)
                (preds_outcome (outcome depth (run_of layout s)) scan_to_blocker (s.preds st))
                (λ x. tt))
              (λ (x : Scan) u.
                let s' : Sched = record s { queue = st ∷ rest; preds = set_at st x.kept s.preds } in
                let here = requeued s (st ∷ rest) (set_at st x.kept s.preds) h in
                let there = requeued s rest (set_at st x.kept s.preds) h in
                elim (Bool-cases (is_succeeded x.verdict)) [
                  | inl v ↦ rw v (claim-Rests st s' known here)
                  | inr v ↦ rw v (
                      and_then-Lands (IsAtRest layout []) (IsAtRest layout []) _ _
                        (place_now-Rests layout depth fuel st scan_to_blocker []
                          (record s' { queue = rest }) (also layout depth fuel st [] _ there.0)
                          known)
                        more)
                ]))

  pub take_eligible-Rests :
      (s : Sched) → IsAtRest layout [] s → Rests layout [] (take_eligible layout depth fuel s)
  unfolding take_eligible
  take_eligible-Rests s h =
      if_cases (Rests layout []) s.cancelled _ _ (λ _. h) (λ _. claim_next-Rests fuel s h)
