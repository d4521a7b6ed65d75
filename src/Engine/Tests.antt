-- ===== src/Engine/Tests.antt =====
-- A Group of three Tasks whose second one fails, and Tasks that wait for it and for each other.
use evident_output.Prelude.{
  Bool, ◌<◌, ◌⊎◌, List, ℕ, some, All, if_cases, true, false, [], ◌∷◌, ◌≡◌, refl, arith, ◌==◌,
  if◌then◌else◌,
}
use evident_output.Core.State.{EntityState, done}
use evident_output.Engine.CollectionTally.{
  PredOutcome, has_member_through, pred_pending, pred_failed, state_outcome, States,
  CollectionTally, leading, failed_through, succeeded_through, settle, seal, release, fail_builder,
  declare, split_from,
}
use evident_output.Engine.Readings.{
  IsCurrent, Moves, all_succeeded, some_failed, settle-IsCurrent, settle-readings,
}
use evident_output.Engine.Accounted.{IsAccounted, settle-IsAccounted, occurrences, waiting_as}
use evident_output.Engine.Unresolved.{IsUnresolved}
use evident_output.Engine.Woken.{WaitsFor, settle-WaitsFor}
use evident_output.Engine.Eligibility.{
  Predecessor, task, collection, Run, edge_cursor, task_outcome, collection_outcome, entry_outcome,
  outcome, Scan, scan_all, scan_preds, preds_outcome, eligible,
}
use evident_output.Engine.Ungated.{declare-ungated}
use evident_output.Engine.Verdicts.{
  all_done, some_lost, whole_outcome, verdict_of, preds_outcome-whole,
}
use evident_output.Engine.Kept.{preds_outcome-kept}
use evident_output.Engine.Depth.{IsBelow, IsRanked, eligible-decided}
use evident_output.Engine.Cycle.{
  Node, task_node, collection_node, no_node, Waits, pending_nodes, waits_for, cycle_from,
  cycle_through, follow, walk_step, walk, walk_root, walk_tasks, dependency_cycles,
}
use evident_output.Engine.Waiting.{has, IsCycle}
use evident_output.Engine.Rounds.{IsClosed}
use evident_output.Engine.Walked.{dependency_cycles-none, dependency_cycles-IsCycle}

abbrev first_done : States
first_done m = if m == 1 then done else EntityState.pending

abbrev second_failed : States
second_failed m = if m == 2 then EntityState.failed else first_done m

-- Task 8 waits for all three members, and Task 9 for a membership that is not closed yet.
abbrev group : CollectionTally
group = record {
  members = 1 ∷ 2 ∷ 3 ∷ [];
  succeeded_prefix = 1;
  first_failed = 0;
  sealed = false;
  sealed_through = 0;
  parked = record { st = 8; cursor = 3 } ∷ [];
  open_edges = 9 ∷ [];
  holds = 0;
  builder_failed = false;
}

group-woken : (settle second_failed group 2).0 ≡ 9 ∷ 8 ∷ []
unfolding settle state_outcome split_from
group-woken = refl

group-IsCurrent : IsCurrent first_done group
unfolding leading state_outcome failed_through
group-IsCurrent = record {
  ordered = (omega arith, (omega arith, (omega arith, tt)));
  prefix = refl;
  failure = λ cursor. ground arith;
}

second_failed-Moves : Moves 2 first_done second_failed
unfolding state_outcome
second_failed-Moves = record { others = λ m e. ground arith; was_pending = refl }

settle-IsCurrent_example : IsCurrent second_failed (settle second_failed group 2).1
settle-IsCurrent_example =
    settle-IsCurrent first_done second_failed group 2 group-IsCurrent second_failed-Moves refl
      (omega arith)

settle-readings_example :
    (succeeded_through (settle second_failed group 2).1 2
      ≡ all_succeeded second_failed 2 group.members)
    × (failed_through (settle second_failed group 2).1 2
        ≡ some_failed second_failed 2 group.members)
settle-readings_example =
    settle-readings first_done second_failed group 2 2 group-IsCurrent second_failed-Moves refl
      (omega arith)

group-IsUnresolved : IsUnresolved group
unfolding succeeded_through failed_through
group-IsUnresolved = record {
  none_missed = record { sorted = (omega arith, tt); waiting = ((refl, refl), tt) };
  open_alive = λ i h. refl;
  building = λ i h. refl;
}

settle-WaitsFor_example :
    (0 < waiting_as 8 group
      → (0 < occurrences 8 (settle second_failed group 2).0)
        ⊎ WaitsFor (settle second_failed group 2).1 8)
    × (0 < occurrences 8 (settle second_failed group 2).0 → 0 < waiting_as 8 group)
settle-WaitsFor_example = settle-WaitsFor second_failed group 2 8 group-IsUnresolved

settle-IsAccounted_example :
    IsAccounted group (settle second_failed group 2)
    × IsAccounted group (seal group 3)
    × IsAccounted group (release group true 3)
    × IsAccounted group (fail_builder group)
settle-IsAccounted_example = settle-IsAccounted second_failed group 2 3 true

-- Collection 1 is the Group, and collection 2 is an empty step that starts after Task 1.
abbrev empty_step : CollectionTally
empty_step = record group {
  members = [];
  succeeded_prefix = 0;
  sealed = true;
  parked = [];
  open_edges = [];
}

abbrev run : Run
run = record {
  states = second_failed;
  defined = λ m. true;
  tally = λ c. if c == 1 then group else empty_step;
  entry = λ c. if c == 2 then task 1 ∷ [] else [];
  draining = false;
}

abbrev depth : ℕ → ℕ
depth c = 0

run-IsRanked : IsRanked run depth
run-IsRanked c = if_cases (All (IsBelow depth 0)) (c == 2) _ _ (λ _. (tt, tt)) (λ _. tt)

eligible-decided_example : eligible (outcome 1 run) (task 1 ∷ collection 2 0 ∷ []) ≡ some true
unfolding outcome task_outcome collection_outcome entry_outcome edge_cursor state_outcome all_done
    failed_through has_member_through
eligible-decided_example =
    eligible-decided run depth run-IsRanked 1 (task 1 ∷ collection 2 0 ∷ []) (tt, (omega arith, tt))

abbrev state_of : Predecessor → PredOutcome
state_of (task m) = task_outcome run m
state_of _ = pred_failed

preds_outcome-whole_example :
    verdict_of (preds_outcome (λ p. some (state_of p, p)) scan_all (task 1 ∷ task 3 ∷ task 2 ∷ []))
    ≡ some pred_failed
unfolding task_outcome state_outcome whole_outcome all_done some_lost
preds_outcome-whole_example =
    preds_outcome-whole (λ p. some (state_of p, p)) state_of (λ p. p)
      (task 1 ∷ task 3 ∷ task 2 ∷ []) (refl, (refl, (refl, tt)))

-- The first Task is forgotten, and the scan parks on the third.
abbrev after_scan : Scan
after_scan = record { verdict = pred_pending; blocker = task 3; kept = task 3 ∷ []; checks = 2 }

scan-after_scan :
    preds_outcome (λ p. some (state_of p, p)) scan_all (task 1 ∷ task 3 ∷ []) ≡ some after_scan
unfolding preds_outcome scan_preds task_outcome state_outcome
scan-after_scan = refl

preds_outcome-kept_example :
    whole_outcome state_of (task 3 ∷ []) ≡ whole_outcome state_of (task 1 ∷ task 3 ∷ [])
preds_outcome-kept_example =
    preds_outcome-kept (λ p. some (state_of p, p)) state_of state_of (λ p. p) (λ m h. h) scan_all
      (task 1 ∷ task 3 ∷ []) after_scan (refl, (refl, tt)) scan-after_scan

-- Two Tasks that each start after the other.
abbrev crossed : Waits
crossed = record {
  states = λ m. EntityState.pending;
  parked = λ m. true;
  preds = λ m. if m == 1 then task 2 ∷ [] else if m == 2 then task 1 ∷ [] else [];
  is_empty = λ c. true;
  entry = λ c. [];
  tasks = λ c. [];
  children = λ c. [];
  worth = λ p. pred_pending;
}

abbrev both : List Node
both = task_node 1 ∷ task_node 2 ∷ []

crossed-found :
    dependency_cycles 9 crossed (1 ∷ 2 ∷ [])
    ≡ some ((task_node 1 ∷ task_node 2 ∷ task_node 1 ∷ []) ∷ [])
unfolding dependency_cycles walk_tasks walk_root walk walk_step follow cycle_through cycle_from
    waits_for pending_nodes
crossed-found = refl

crossed-IsClosed : IsClosed (waits_for crossed) both
unfolding waits_for pending_nodes
crossed-IsClosed (task_node m) =
    if_cases (λ ps. All (λ e. has both e ≡ true) (pending_nodes crossed ps)) (m == 1) _ _
      (λ _. (refl, tt))
      (λ _.
        if_cases (λ ps. All (λ e. has both e ≡ true) (pending_nodes crossed ps)) (m == 2) _ _
          (λ _. (refl, tt)) (λ _. tt))
crossed-IsClosed (collection_node c) = tt
crossed-IsClosed no_node = tt

dependency_cycles-IsCycle_example :
    (cycles : List (List Node)) × (dependency_cycles 9 crossed (1 ∷ 2 ∷ []) ≡ some cycles)
    × All (IsCycle (waits_for crossed)) cycles
unfolding waits_for pending_nodes
dependency_cycles-IsCycle_example =
    dependency_cycles-IsCycle crossed both (1 ∷ 2 ∷ []) 9 crossed-IsClosed (refl, (refl, tt))
      (omega arith)

-- The second Task does not wait for the first.
abbrev in_line : Waits
in_line = record crossed { preds = λ m. if m == 1 then task 2 ∷ [] else [] }

in_line-found : dependency_cycles 9 in_line (1 ∷ 2 ∷ []) ≡ some []
unfolding dependency_cycles walk_tasks walk_root walk walk_step follow cycle_through cycle_from
    waits_for pending_nodes
in_line-found = refl

in_line-IsClosed : IsClosed (waits_for in_line) both
unfolding waits_for pending_nodes
in_line-IsClosed (task_node m) =
    if_cases (λ ps. All (λ e. has both e ≡ true) (pending_nodes in_line ps)) (m == 1) _ _
      (λ _. (refl, tt)) (λ _. tt)
in_line-IsClosed (collection_node c) = tt
in_line-IsClosed no_node = tt

dependency_cycles-none_example :
    (reached : Node → Bool) × (rank : Node → ℕ) × All
      (λ m. in_line.parked m ≡ true → reached (task_node m) ≡ true)
      (1 ∷ 2 ∷ [])
    × ((n : Node)
        → reached n ≡ true
        → All (λ e. (reached e ≡ true) × (rank e < rank n)) (waits_for in_line n))
unfolding waits_for pending_nodes
dependency_cycles-none_example =
    dependency_cycles-none in_line both (1 ∷ 2 ∷ []) 9 in_line-IsClosed (refl, (refl, tt))
      (omega arith) in_line-found

-- A fourth member is declared after the edges through the third.
declare-ungated_example :
    (succeeded_through (declare first_done group 4) 3 ≡ succeeded_through group 3)
    × (failed_through (declare first_done group 4) 3 ≡ failed_through group 3)
    × (has_member_through (declare first_done group 4) 3 ≡ has_member_through group 3)
declare-ungated_example =
    declare-ungated first_done group 4 3 group-IsCurrent
      (omega arith, (omega arith, (omega arith, (omega arith, tt)))) (omega arith)
