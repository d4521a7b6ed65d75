-- ===== src/Engine/Scenarios.antt =====
-- A Group of two Tasks with a Task that starts after it, and a builder of a sealed collection.
use evident_output.Prelude.{
  ℕ, false, List, [], ◌∷◌, Option, none, some, ◌≡◌, refl, ltb, if◌then◌else◌,
}
use evident_output.Core.State.{EntityState, done, not_started, is_terminal_task}
use evident_output.Engine.CollectionTally.{
  state_outcome, leading, has_member_through, failed_through, succeeded_through, split_from,
  split_succeeded, total, settle, declare, seal, insert_after_order, park, release, pred_succeeded,
}
use evident_output.Engine.Eligibility.{
  task, collection, undeclared, Answer, edge_cursor, task_outcome, collection_outcome,
  entry_outcome, outcome, scan_preds, preds_outcome, close_membership,
}
use evident_output.Engine.Schedule.{
  Layout, run_of, enter_phase, settle_chain, propagate_settle, settle_task, mark_not_started, push,
  route, place, waits_parked, wake_one, drain_woken, honest_outcome, declares_success, submitted,
  awaiting_start,
}
use evident_output.Engine.Chains.{declare_chain, hold_chain, conclude_chain}
use evident_output.Engine.Operations.{
  live_queue, close_edge, add_preds, add_steps, declare_task, add_after, define_work,
  promote_running, claim, claim_next, take_eligible, resolve, Op, declaring, adding_after, defining,
  taking, resolving, sealing, holding, concluding, seal_collection, conclude_builder, run_op,
  run_ops,
}
use evident_output.Engine.Awaited.{Lands}
use evident_output.Engine.Counted.{IsCounted, run_ops-IsCounted}
use evident_output.Engine.Started.{StartsAfter, run_ops-StartsAfter}
use evident_output.Engine.Scheduled.{new_output}

-- Tasks 1 and 2 are the members of collection 1.
abbrev grouped : Layout
grouped = record { chain = λ m. if ltb m 3 then 1 ∷ [] else []; entry = λ c. [] }

-- Task 3 is defined while the Group runs; then the second member fails.
abbrev group_fails : List Op
group_fails =
    declaring []
    ∷ declaring []
    ∷ declaring []
    ∷ adding_after 3 (collection 1 0 ∷ [])
    ∷ defining 1
    ∷ defining 2
    ∷ defining 3
    ∷ taking
    ∷ taking
    ∷ resolving false false 1 done
    ∷ resolving false false 2 EntityState.failed
    ∷ []

abbrev state_after : ℕ → List Op → Option EntityState
state_after m ops = elim (run_ops grouped 1 9 ops new_output) [
  | none ↦ none
  | some s ↦ some (s.states m)
]

third-not_started : state_after 3 group_fails ≡ some not_started
unfolding state_outcome leading has_member_through failed_through succeeded_through split_from
    split_succeeded total settle declare seal insert_after_order park edge_cursor task_outcome
    collection_outcome entry_outcome outcome scan_preds preds_outcome close_membership enter_phase
    settle_chain propagate_settle settle_task mark_not_started push route place waits_parked
    wake_one drain_woken honest_outcome declares_success submitted awaiting_start declare_chain
    live_queue close_edge add_preds add_steps declare_task add_after define_work promote_running
    claim claim_next take_eligible resolve run_op run_ops is_terminal_task
third-not_started = refl

-- Task 2 is defined while Task 1 is open, and starts once that is done.
abbrev one_after_another : List Op
one_after_another =
    declaring []
    ∷ declaring []
    ∷ adding_after 2 (task 1 ∷ [])
    ∷ defining 1
    ∷ defining 2
    ∷ taking
    ∷ taking
    ∷ resolving false false 1 done
    ∷ taking
    ∷ []

run_ops-StartsAfter_example : Lands StartsAfter (run_ops grouped 1 9 one_after_another new_output)
run_ops-StartsAfter_example = run_ops-StartsAfter grouped 1 9 one_after_another

second-running : state_after 2 one_after_another ≡ some EntityState.running
unfolding state_outcome leading has_member_through failed_through succeeded_through split_from
    split_succeeded total settle declare seal insert_after_order park edge_cursor task_outcome
    collection_outcome entry_outcome outcome scan_preds preds_outcome close_membership enter_phase
    settle_chain propagate_settle settle_task mark_not_started push route place waits_parked
    wake_one drain_woken honest_outcome declares_success submitted awaiting_start declare_chain
    live_queue close_edge add_preds add_steps declare_task add_after define_work promote_running
    claim claim_next take_eligible resolve run_op run_ops is_terminal_task
second-running = refl

run_ops-IsCounted_example : Lands IsCounted (run_ops grouped 1 9 group_fails new_output)
run_ops-IsCounted_example = run_ops-IsCounted grouped 1 9 group_fails

-- Collection 1 is sealed while it is empty, for Task 1. Then a builder is defined on it, Task 2 is
-- defined after it, and the builder ends.
abbrev sealed_before : List Op
sealed_before =
    declaring []
    ∷ adding_after 1 (collection 1 0 ∷ [])
    ∷ defining 1
    ∷ sealing 1
    ∷ holding (1 ∷ [])
    ∷ declaring []
    ∷ adding_after 2 (collection 1 0 ∷ [])
    ∷ defining 2
    ∷ concluding false (1 ∷ [])
    ∷ sealing 1
    ∷ []

abbrev ungrouped : Layout
ungrouped = record { chain = λ m. []; entry = λ c. [] }

-- What Task 2 waits for, with what its predecessor answers.
abbrev left_behind : Option (List ℕ × Option Answer)
left_behind = elim (run_ops ungrouped 1 9 sealed_before new_output) [
  | none ↦ none
  | some s ↦ some ((s.tally 1).open_edges, outcome 1 (run_of ungrouped s) (collection 1 0))
]

-- Task 2 stays parked, though the collection answers that it succeeded.
second-left_behind : left_behind ≡ some (2 ∷ [], some (pred_succeeded, undeclared))
unfolding state_outcome leading has_member_through failed_through succeeded_through split_from
    split_succeeded total settle declare seal insert_after_order park edge_cursor task_outcome
    collection_outcome entry_outcome outcome scan_preds preds_outcome close_membership enter_phase
    settle_chain propagate_settle settle_task mark_not_started push route place waits_parked
    wake_one drain_woken honest_outcome declares_success submitted awaiting_start declare_chain
    live_queue close_edge add_preds add_steps declare_task add_after define_work promote_running
    claim claim_next take_eligible resolve run_op run_ops is_terminal_task release hold_chain
    conclude_chain seal_collection conclude_builder
second-left_behind = refl
