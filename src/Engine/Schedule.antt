-- ===== src/Engine/Schedule.antt =====
-- internal/engine/task_schedule.go, eligibility.go and settle.go: the scheduling state of the Tasks, and
-- how a settled Task moves those that wait for it. A Task is known by its declaration number, and
-- every pointer to it by that number.
use evident_output.Prelude.{
  ℕ, zero, suc, ◌-◌, Bool, true, false, not, ◌&&◌, List, [], ◌∷◌, ◌++◌, Option, none, some, leb,
  ◌==◌, if◌then◌else◌,
}
use evident_output.Core.State.{EntityState, done, skipped, not_started, is_terminal_task}
use evident_output.Engine.CollectionTally.{
  PredOutcome, pred_pending, pred_succeeded, pred_failed, States, CollectionTally, settle, park,
}
use evident_output.Engine.Eligibility.{
  Predecessor, task, collection, undeclared, Run, edge_cursor, outcome, PredScan, scan_to_blocker,
  preds_outcome,
}

-- `schedPhase`
pub data Phase : Type 0 where
  declared queued parked running abandoned : Phase

abbrev pub is_declared : Phase → Bool
is_declared declared = true
is_declared _ = false

abbrev pub is_parked : Phase → Bool
is_parked parked = true
is_parked _ = false

abbrev pub is_queued : Phase → Bool
is_queued queued = true
is_queued _ = false

abbrev pub is_running : Phase → Bool
is_running running = true
is_running _ = false

unfoldable pub submitted : Phase → Bool
submitted queued = true
submitted parked = true
submitted running = true
submitted _ = false

unfoldable pub awaiting_start : Phase → Bool
awaiting_start queued = true
awaiting_start parked = true
awaiting_start _ = false

-- The collections around a Task, nearest first, and the entry of a collection, which is fixed before
-- its first member.
pub record Layout : Type 0 where
  pub chain : ℕ → List ℕ
  pub entry : ℕ → List Predecessor

-- What an Output keeps of its Tasks for the scheduler. `has_problem` says whether a Task holds
-- blocking evidence, and `parked_count` is the scheduler's field `parked`.
pub record Sched : Type 0 where
  pub states : States
  pub has_problem : ℕ → Bool
  pub phase : ℕ → Phase
  pub preds : ℕ → List Predecessor
  pub after : ℕ → List Predecessor
  pub dependents : ℕ → List ℕ
  pub tally : ℕ → CollectionTally
  pub queue : List ℕ
  pub woken : List ℕ
  pub parked_count : ℕ
  pub decl_seq : ℕ
  pub draining : Bool
  pub cancelled : Bool

-- One step after another, where the first has a result.
abbrev pub and_then : {A B : Type 0} → Option A → (A → Option B) → Option B
and_then none f = none
and_then (some a) f = f a

-- A write to one Task or collection.
abbrev pub set_at {ℓ} : {A : Type ℓ} → ℕ → A → (ℕ → A) → ℕ → A
set_at k x f m = if m == k then x else f m

unfoldable pub declares_success : EntityState → Bool
declares_success done = true
declares_success skipped = true
declares_success _ = false

unfoldable pub honest_outcome : Bool → EntityState → EntityState
unfolding declares_success
honest_outcome has_problem state =
    if declares_success state && has_problem then EntityState.failed else state

-- `enterPhaseLocked`
unfoldable pub enter_phase : ℕ → Phase → Sched → Sched
enter_phase st phase s =
    let left = if is_parked (s.phase st) then s.parked_count - 1 else s.parked_count in
    record s {
      phase = set_at st phase s.phase;
      parked_count = if is_parked phase then suc left else left;
    }

-- The loop of `propagateSettleLocked` over the collections around `st`: the Tasks it wakes, and the
-- tallies after it.
unfoldable pub settle_chain :
    States → ℕ → List ℕ → (ℕ → CollectionTally) → List ℕ × (ℕ → CollectionTally)
unfolding settle
settle_chain σ st [] tally = ([], tally)
settle_chain σ st (c ∷ cs) tally =
    let (woken, t) = settle σ (tally c) st in
    let (more, after) = settle_chain σ st cs (set_at c t tally) in (woken ++ more, after)

-- A Task that is parked and has not settled.
unfoldable pub waits_parked : ℕ → Sched → Bool
unfolding is_terminal_task
waits_parked st s = is_parked (s.phase st) && not (is_terminal_task (s.states st))

-- A Task that this run declared, which is what `taskByRef` knows.
abbrev pub is_known : ℕ → Sched → Bool
is_known st s = not (st == 0) && leb st s.decl_seq

module _ (layout : Layout) where
  abbrev pub run_of : Sched → Run
  run_of s = record {
    states = s.states;
    defined = λ m. not (is_declared (s.phase m));
    tally = s.tally;
    entry = layout.entry;
    draining = s.draining;
  }

  -- `propagateSettleLocked` up to the worklist, which `wakeLocked` appends to and which
  -- `drain_woken` empties when no wake is under way.
  unfoldable pub propagate_settle : ℕ → Sched → Sched
  unfolding settle_chain
  propagate_settle st s =
      let (woken, tally) = settle_chain s.states st (layout.chain st) s.tally in
      record s {
        dependents = set_at st [] s.dependents;
        tally = tally;
        woken = s.woken ++ (s.dependents st ++ woken);
      }

  -- `settleLocked` of a Task, up to the worklist. The counts of the live frame, the heartbeat, the
  -- journal and the waiters' channel are left out.
  unfoldable pub settle_task : ℕ → EntityState → Sched → Sched
  unfolding honest_outcome awaiting_start enter_phase propagate_settle
  settle_task st state s =
      let settled = record s {
        states = set_at st (honest_outcome (s.has_problem st) state) s.states;
      } in
      propagate_settle st
        (if awaiting_start (s.phase st) then enter_phase st abandoned settled else settled)

  -- `markNotStartedLocked`, up to the worklist.
  unfoldable pub mark_not_started : ℕ → Sched → Sched
  unfolding settle_task
  mark_not_started st s = settle_task st not_started s

  -- `schedQueue.push` on the entries in order of declaration.
  unfoldable pub push : ℕ → List ℕ → List ℕ
  push st [] = st ∷ []
  push st (q ∷ qs) = let rest = push st qs in if leb q st then q ∷ rest else st ∷ q ∷ qs

  -- What `placeLocked` does with the verdict. A Task that is pending on nothing is the source's
  -- nil dereference.
  unfoldable pub route : ℕ → PredOutcome → Predecessor → Sched → Option Sched
  unfolding enter_phase mark_not_started push edge_cursor park
  route st pred_succeeded blocker s =
      let s' = enter_phase st queued s in some (record s' { queue = push st s'.queue })
  route st pred_failed blocker s = some (mark_not_started st s)
  route st pred_pending (task b) s =
      let s' = enter_phase st parked s in
      some (record s' { dependents = set_at b (s'.dependents b ++ st ∷ []) s'.dependents })
  route st pred_pending (collection c through) s =
      let s' = enter_phase st parked s in
      let (cursor, is_open) = edge_cursor (run_of s') c through in
      some (record s' { tally = set_at c (park (s'.tally c) st cursor is_open) s'.tally })
  route st pred_pending undeclared s = none

  -- `placeLocked`, up to the worklist. `depth` is the fuel of `outcome`.
  unfoldable pub place : ℕ → ℕ → PredScan → Sched → Option Sched
  unfolding preds_outcome outcome route
  place depth st scan s =
      and_then (preds_outcome (outcome depth (run_of s)) scan (s.preds st))
        (λ r. route st r.verdict r.blocker (record s { preds = set_at st r.kept s.preds }))

  -- The body of the loop of `drainWokenLocked`.
  unfoldable pub wake_one : ℕ → ℕ → Sched → Option Sched
  unfolding place waits_parked
  wake_one depth st s = if waits_parked st s then place depth st scan_to_blocker s else some s

  -- `drainWokenLocked`, which takes the first Task of the worklist until none is left.
  unfoldable pub drain_woken : ℕ → ℕ → Sched → Option Sched
  unfolding wake_one
  drain_woken depth zero s = none
  drain_woken depth (suc fuel) s = elim s.woken [
    | [] ↦ some s
    | st ∷ rest ↦ and_then (wake_one depth st (record s { woken = rest })) (drain_woken depth fuel)
  ]
