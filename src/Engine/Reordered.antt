-- ===== src/Engine/Reordered.antt =====
-- internal/engine: naming predecessors, defining a Task and starting one keep the order in which Tasks
-- start.
use evident_output.Prelude.{
  ℕ, zero, suc, false, not, ◌||◌, List, [], ◌∷◌, Option, none, some, ◌≡◌, inl, inr, refl, ◌∙◌, ap,
  arith, if_cases, Bool-cases,
}
use evident_output.Core.State.{EntityState, not_started, is_terminal_task}
use evident_output.Engine.CollectionTally.{is_succeeded, CollectionTally}
use evident_output.Engine.Eligibility.{
  Predecessor, outcome, PredScan, scan_to_blocker, scan_all, Scan, preds_outcome,
}
use evident_output.Engine.Schedule.{
  queued, submitted, Layout, Sched, and_then, set_at, enter_phase, run_of, settle_task,
  mark_not_started, waits_parked, is_known, place, drain_woken,
}
use evident_output.Engine.Operations.{
  live_queue, close_edge, add_preds, add_steps, define_work, claim_next,
}
use evident_output.Engine.Awaited.{Lands, and_then-Lands}
use evident_output.Engine.Framed.{Lands-mono, IsSame, drain_woken-IsSame}
use evident_output.Engine.Taken.{live_queue-open}
use evident_output.Engine.Rested.{both_land}
use evident_output.Engine.Ordered.{
  IsOrdered, settle_task-IsOrdered, Recalls, scan-Recalls, reread-IsOrdered, place-IsOrdered,
  drain_woken-IsOrdered,
}
use evident_output.Engine.Begun.{
  enter_phase-IsOrdered, claim-IsOrdered, unsubmitted, joined-IsOrdered, stepped-IsOrdered,
}

module _ (layout : Layout) (depth fuel : ℕ) where
  pub drained : (s : Sched) → IsOrdered s → Lands IsOrdered (drain_woken layout depth fuel s)
  drained s o = drain_woken-IsOrdered layout depth fuel s o

  -- What an operation writes besides states, phases and predecessors.
  pub retallied :
      (tally : ℕ → CollectionTally) (woken : List ℕ) (s : Sched)
      → IsOrdered s
      → IsOrdered (record s { tally = tally; woken = woken })
  retallied tally woken s o = record { asked = o.asked; started = o.started }

  pub settled-IsOrdered :
      (st : ℕ) (state : EntityState) (s : Sched)
      → is_terminal_task (s.states st) ≡ false
      → IsOrdered s
      → Lands IsOrdered (drain_woken layout depth fuel (settle_task layout st state s))
  settled-IsOrdered st state s h o = drained _ (settle_task-IsOrdered layout st state s h o)

  pub place_now-IsOrdered :
      (st : ℕ) (scan : PredScan) (s : Sched)
      → is_terminal_task (s.states st) ≡ false
      → IsOrdered s
      → Lands IsOrdered (and_then (place layout depth st scan s) (drain_woken layout depth fuel))
  place_now-IsOrdered st scan s h o =
      and_then-Lands IsOrdered IsOrdered _ _ (place-IsOrdered layout depth st scan s h o) drained

  pub close_edge-IsOrdered :
      (p : Predecessor) (s : Sched)
      → IsOrdered s
      → Lands (λ r. IsOrdered r.1) (close_edge layout depth fuel p s)
  unfolding close_edge
  close_edge-IsOrdered p s o =
      and_then-Lands IsOrdered (λ (r : Predecessor × Sched). IsOrdered r.1) _ _
        (drained _ (retallied _ _ s o)) (λ s' h. h)

  pub close_edge-IsSame :
      (st : ℕ) (p : Predecessor) (s : Sched)
      → submitted (s.phase st) ≡ false
      → Lands (λ r. submitted (r.1.phase st) ≡ false) (close_edge layout depth fuel p s)
  unfolding close_edge submitted waits_parked
  close_edge-IsSame st p s h =
      and_then-Lands (λ (x : Sched). submitted (x.phase st) ≡ false)
        (λ (r : Predecessor × Sched). submitted (r.1.phase st) ≡ false) _ _
        (Lands-mono (IsSame layout st s) _ _ (λ x same. ap submitted same.0 ∙ h)
          (drain_woken-IsSame layout st depth fuel _ (ground (arith, h))))
        (λ s' k. k)

  pub add_preds-IsOrdered :
      (st : ℕ) (ps : List Predecessor) (s : Sched)
      → submitted (s.phase st) ≡ false
      → IsOrdered s
      → Lands IsOrdered (add_preds layout depth fuel st ps s)
  unfolding add_preds submitted
  add_preds-IsOrdered st [] s h o = o
  add_preds-IsOrdered st (p ∷ ps) s h o =
      and_then-Lands
        (λ (r : Predecessor × Sched). IsOrdered r.1 × (submitted (r.1.phase st) ≡ false)) IsOrdered
        _ _
        (both_land layout depth fuel (λ (r : Predecessor × Sched). IsOrdered r.1)
          (λ (r : Predecessor × Sched). submitted (r.1.phase st) ≡ false) _
          (close_edge-IsOrdered p s o) (close_edge-IsSame st p s h))
        (λ r k.
          add_preds-IsOrdered st ps _ k.1
            (joined-IsOrdered st r.0 r.1 (unsubmitted (r.1.phase st) k.1) k.0))

  pub add_steps-IsOrdered :
      (st : ℕ) (ps : List Predecessor) (s : Sched)
      → IsOrdered s
      → Lands IsOrdered (add_steps layout depth fuel st ps s)
  unfolding add_steps
  add_steps-IsOrdered st [] s o = o
  add_steps-IsOrdered st (p ∷ ps) s o =
      and_then-Lands (λ (r : Predecessor × Sched). IsOrdered r.1) IsOrdered _ _
        (close_edge-IsOrdered p s o)
        (λ r k. add_steps-IsOrdered st ps _ (stepped-IsOrdered st p r.1 k))

  pub define_work-IsOrdered :
      (st : ℕ) (s : Sched) → IsOrdered s → Lands IsOrdered (define_work layout depth fuel st s)
  unfolding define_work mark_not_started enter_phase
  define_work-IsOrdered st s o =
      let s' = enter_phase st queued s in
      let o' = enter_phase-IsOrdered st queued s refl o in
      if_cases (Lands IsOrdered)
        (not (is_known st s) || is_terminal_task (s.states st) || submitted (s.phase st)) _ _
        (λ _. o)
        (λ fits.
          let open_still : is_terminal_task (s.states st) ≡ false = ground (arith, fits) in
          if_cases (Lands IsOrdered) s.cancelled _ _
            (λ _. settled-IsOrdered st not_started s' open_still o')
            (λ _. place_now-IsOrdered st scan_all s' open_still o'))

  pub claim_next-IsOrdered :
      (n : ℕ) (s : Sched) → IsOrdered s → Lands IsOrdered (claim_next layout depth fuel n s)
  unfolding claim_next
  claim_next-IsOrdered zero s o = tt
  claim_next-IsOrdered (suc n) s o = by_queue (live_queue s s.queue) refl (claim_next-IsOrdered n)
    where
      found :
          (st : ℕ) (y : Option Scan)
          → ((x : Scan) → y ≡ some x → Recalls layout s st x)
          → Lands (Recalls layout s st) y
      found st none h = tt
      found st (some x) h = h x refl

      by_queue :
          (qs : List ℕ)
          → live_queue s s.queue ≡ qs
          → ((s' : Sched) → IsOrdered s' → Lands IsOrdered (claim_next layout depth fuel n s'))
          → Lands IsOrdered (claim_next layout depth fuel (suc n) s)
      by_queue [] e more = rw (e, claim_next) (record { asked = o.asked; started = o.started })
      by_queue (st ∷ rest) e more =
          rw (e, claim_next)
            (and_then-Lands (Recalls layout s st) IsOrdered _ _
              (found st
                (preds_outcome (outcome depth (run_of layout s)) scan_to_blocker (s.preds st))
                (λ x e'. scan-Recalls layout depth st scan_to_blocker s x e'))
              (λ (x : Scan) recalls. elim (Bool-cases (is_succeeded x.verdict)) [
                | inl v ↦ rw v (
                    claim-IsOrdered st
                      (record s { queue = st ∷ rest; preds = set_at st x.kept s.preds })
                      (λ b n. elim (o.asked st b n) [
                        | inl k ↦ elim (recalls b k) [ inl h ↦ absurd (cc (v, h.1)) | inr h ↦ h ]
                        | inr k ↦ k
                      ])
                      (reread-IsOrdered layout st x (st ∷ rest) s recalls o))
                | inr v ↦ rw v (
                    and_then-Lands IsOrdered IsOrdered _ _
                      (place_now-IsOrdered st scan_to_blocker
                        (record s { queue = rest; preds = set_at st x.kept s.preds })
                        (live_queue-open s s.queue rest st e)
                        (reread-IsOrdered layout st x rest s recalls o))
                      more)
              ]))
