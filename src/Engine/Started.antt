-- ===== src/Engine/Started.antt =====
-- internal/engine: no Task starts before those it was placed after have succeeded.
use evident_output.Prelude.{
  ℕ, suc, Bool, true, not, ◌&&◌, ◌||◌, List, [], ◌∷◌, ◌≡◌, arith, if_cases,
}
use evident_output.Core.State.{EntityState, not_started, is_terminal_task}
use evident_output.Engine.CollectionTally.{pred_succeeded, state_outcome}
use evident_output.Engine.Eligibility.{scan_all}
use evident_output.Engine.Schedule.{
  is_running, submitted, Layout, Sched, set_at, mark_not_started, waits_parked, is_known,
  declares_success,
}
use evident_output.Engine.Operations.{
  declare_task, add_after, take_eligible, resolve, stop_unstarted, block_each, block_cycle,
  seal_collection, conclude_builder, parked_tasks, place_each, start_drain, Op, declaring,
  adding_after, defining, promoting, stopping, sealing, taking, start_draining, interrupting,
  resolving, blocking, holding, concluding, run_op, run_ops,
}
use evident_output.Engine.Awaited.{Lands, and_then-Lands}
use evident_output.Engine.Framed.{Lands-mono}
use evident_output.Engine.Recalled.{names}
use evident_output.Engine.Ordered.{IsOrdered, settle_task-IsOrdered}
use evident_output.Engine.Scheduled.{new_output}
use evident_output.Engine.Begun.{promote_running-IsOrdered}
use evident_output.Engine.Reordered.{
  drained, retallied, settled-IsOrdered, place_now-IsOrdered, add_preds-IsOrdered,
  add_steps-IsOrdered, define_work-IsOrdered, claim_next-IsOrdered,
}

module _ (layout : Layout) (depth fuel : ℕ) where
  resolve-IsOrdered :
      (by_caller problem : Bool) (st : ℕ) (state : EntityState) (s : Sched)
      → IsOrdered s
      → Lands IsOrdered (resolve layout depth fuel by_caller problem st state s)
  unfolding resolve
  resolve-IsOrdered by_caller problem st state s o =
      if_cases (Lands IsOrdered) (not (is_known st s) || is_terminal_task (s.states st)) _ _
        (λ _. o)
        (λ unresolved.
          if_cases (Lands IsOrdered) (submitted (s.phase st) && by_caller && declares_success state)
            _ _ (λ _. o)
            (λ _.
              settled-IsOrdered layout depth fuel st state
                (record s { has_problem = set_at st (s.has_problem st || problem) s.has_problem })
                (ground (arith, unresolved)) (record { asked = o.asked; started = o.started })))

  stop_unstarted-IsOrdered :
      (st : ℕ) (s : Sched) → IsOrdered s → Lands IsOrdered (stop_unstarted layout depth fuel st s)
  unfolding stop_unstarted mark_not_started
  stop_unstarted-IsOrdered st s o =
      if_cases (Lands IsOrdered) (is_terminal_task (s.states st) || is_running (s.phase st)) _ _
        (λ _. o) (λ h. settled-IsOrdered layout depth fuel st not_started s (ground (arith, h)) o)

  block_each-IsOrdered :
      (sts : List ℕ) (s : Sched) → IsOrdered s → IsOrdered (block_each layout sts s)
  unfolding block_each waits_parked
  block_each-IsOrdered [] s o = o
  block_each-IsOrdered (st ∷ sts) s o = block_each-IsOrdered sts _ (
      if_cases IsOrdered (waits_parked st s) _ _
        (λ p.
          settle_task-IsOrdered layout st EntityState.blocked
            (record s { has_problem = set_at st true s.has_problem }) (ground (arith, p))
            (record { asked = o.asked; started = o.started }))
        (λ _. o))

  place_each-IsOrdered :
      (sts : List ℕ) (s : Sched)
      → IsOrdered s
      → Lands IsOrdered (place_each layout depth fuel sts s)
  unfolding place_each waits_parked
  place_each-IsOrdered [] s o = o
  place_each-IsOrdered (st ∷ sts) s o =
      and_then-Lands IsOrdered IsOrdered _ _
        (if_cases (Lands IsOrdered) (waits_parked st s) _ _
          (λ p. place_now-IsOrdered layout depth fuel st scan_all s (ground (arith, p)) o) (λ _. o))
        (place_each-IsOrdered sts)

  run_op-IsOrdered :
      (op : Op) (s : Sched) → IsOrdered s → Lands IsOrdered (run_op layout depth fuel op s)
  unfolding run_op declare_task add_after take_eligible block_cycle seal_collection conclude_builder
      start_drain
  run_op-IsOrdered (declaring steps) s o =
      and_then-Lands IsOrdered IsOrdered _ _
        (add_steps-IsOrdered layout depth fuel (suc s.decl_seq) steps
          (record s { decl_seq = suc s.decl_seq })
          (record { asked = o.asked; started = o.started }))
        (λ s' o'. record { asked = o'.asked; started = o'.started })
  run_op-IsOrdered (adding_after st ps) s o =
      if_cases (Lands IsOrdered) (not (is_known st s) || submitted (s.phase st)) _ _ (λ _. o)
        (λ h. add_preds-IsOrdered layout depth fuel st ps s (ground (arith, h)) o)
  run_op-IsOrdered (defining st) s o = define_work-IsOrdered layout depth fuel st s o
  run_op-IsOrdered (promoting st) s o =
      if_cases IsOrdered (is_known st s) _ _ (λ _. promote_running-IsOrdered st s o) (λ _. o)
  run_op-IsOrdered (stopping st) s o =
      if_cases (Lands IsOrdered) (is_known st s) _ _ (λ _. stop_unstarted-IsOrdered st s o) (λ _. o)
  run_op-IsOrdered (sealing c) s o =
      drained layout depth fuel _ (retallied layout depth fuel _ _ s o)
  run_op-IsOrdered taking s o =
      if_cases (Lands IsOrdered) s.cancelled _ _ (λ _. o)
        (λ _. claim_next-IsOrdered layout depth fuel fuel s o)
  run_op-IsOrdered start_draining s o =
      place_each-IsOrdered (parked_tasks s s.decl_seq) _
        (record { asked = o.asked; started = o.started })
  run_op-IsOrdered interrupting s o = record { asked = o.asked; started = o.started }
  run_op-IsOrdered (resolving by_caller problem st state) s o =
      resolve-IsOrdered by_caller problem st state s o
  run_op-IsOrdered (blocking sts) s o = drained layout depth fuel _ (block_each-IsOrdered sts s o)
  run_op-IsOrdered (holding cs) s o = record { asked = o.asked; started = o.started }
  run_op-IsOrdered (concluding failed cs) s o =
      drained layout depth fuel _ (retallied layout depth fuel _ _ s o)

  run_ops-IsOrdered :
      (ops : List Op) (s : Sched) → IsOrdered s → Lands IsOrdered (run_ops layout depth fuel ops s)
  unfolding run_ops
  run_ops-IsOrdered [] s o = o
  run_ops-IsOrdered (op ∷ ops) s o =
      and_then-Lands IsOrdered IsOrdered _ _ (run_op-IsOrdered op s o) (run_ops-IsOrdered ops)

-- Each Task that `After` named for a Task that runs has succeeded.
abbrev pub StartsAfter : Sched → Type 0
StartsAfter s =
    (m b : ℕ)
    → is_running (s.phase m) ≡ true
    → names b (s.after m) ≡ true
    → state_outcome (s.states b) ≡ pred_succeeded

-- After every sequence of steps that returns, each Task that runs, or has run, had all the Tasks
-- succeed that `After` named for it, and they stay so.
pub run_ops-StartsAfter :
    (layout : Layout) (depth fuel : ℕ) (ops : List Op)
    → Lands StartsAfter (run_ops layout depth fuel ops new_output)
run_ops-StartsAfter layout depth fuel ops =
    Lands-mono IsOrdered StartsAfter (run_ops layout depth fuel ops new_output) (λ s o. o.started)
      (run_ops-IsOrdered layout depth fuel ops new_output
        (record { asked = λ m b n. absurd (cc n); started = λ m b r n. absurd (cc n) }))
