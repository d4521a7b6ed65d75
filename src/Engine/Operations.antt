-- ===== src/Engine/Operations.antt =====
-- internal/engine: what declares, defines, starts and settles Tasks, each as one step under the lock of
-- the Output, with the cascade of wake-ups that it ends in. Painting, events, the summaries and the
-- callbacks themselves are left out, and so are the counts of slots and of running callbacks.
use evident_output.Prelude.{
  ℕ, zero, suc, Bool, true, false, not, ◌&&◌, ◌||◌, List, [], ◌∷◌, ◌++◌, Option, none, some,
  if◌then◌else◌,
}
use evident_output.Core.State.{EntityState, is_terminal_task}
use evident_output.Engine.CollectionTally.{seal, unpark, is_succeeded}
use evident_output.Engine.Eligibility.{
  Predecessor, outcome, scan_all, scan_to_blocker, preds_outcome, close_membership,
}
use evident_output.Engine.Chains.{declare_chain, conclude_chain, hold_chain}
use evident_output.Engine.Schedule.{
  queued, running, is_parked, is_queued, is_running, submitted, awaiting_start, Layout, Sched,
  set_at, and_then, declares_success, is_known, enter_phase, run_of, settle_task, mark_not_started,
  place, waits_parked, drain_woken,
}

-- A step under the lock of the Output. What the source takes from its own lists of Tasks was
-- declared.
pub data Op : Type 0 where
  declaring : List Predecessor → Op
  adding_after : ℕ → List Predecessor → Op
  defining promoting stopping sealing : ℕ → Op
  taking start_draining interrupting : Op
  resolving : Bool → Bool → ℕ → EntityState → Op
  blocking holding : List ℕ → Op
  concluding : Bool → List ℕ → Op

-- The queue from its first live entry on (`schedQueue.head`).
unfoldable pub live_queue : Sched → List ℕ → List ℕ
unfolding awaiting_start is_terminal_task
live_queue s [] = []
live_queue s (q ∷ qs) =
    let rest = live_queue s qs in
    if is_queued (s.phase q) && not (is_terminal_task (s.states q)) then q ∷ qs else rest

abbrev pub is_pending : EntityState → Bool
is_pending EntityState.pending = true
is_pending _ = false

-- What `promoteRunningLocked` does to a Task that is pending.
unfoldable pub promote_running : ℕ → Sched → Sched
promote_running st s =
    if is_pending (s.states st)
    then record s { states = set_at st EntityState.running s.states }
    else s

-- `claimLocked`
unfoldable pub claim : ℕ → Sched → Sched
unfolding enter_phase promote_running
claim st s = promote_running st (enter_phase st running s)

-- The parked Tasks among the first `n`, in order of declaration.
unfoldable pub parked_tasks : Sched → ℕ → List ℕ
parked_tasks s zero = []
parked_tasks s (suc n) =
    parked_tasks s n ++ (if is_parked (s.phase (suc n)) then suc n ∷ [] else [])

-- The loop of `blockCyclesLocked` over the Tasks of one cycle, whose wakes are held.
unfoldable pub block_each : Layout → List ℕ → Sched → Sched
unfolding settle_task waits_parked
block_each layout [] s = s
block_each layout (st ∷ sts) s = block_each layout sts (
    if waits_parked st s
    then settle_task layout st EntityState.blocked
        (record s { has_problem = set_at st true s.has_problem })
    else s)

module _ (layout : Layout) (depth fuel : ℕ) where
  -- The end of `wakeLocked` where no wake is under way.
  abbrev pub woken_placed : Sched → Option Sched
  woken_placed s = drain_woken layout depth fuel s

  abbrev pub settled : ℕ → EntityState → Sched → Option Sched
  settled st state s = woken_placed (settle_task layout st state s)

  -- `closeMembershipLocked` with the wake-ups of the seal.
  unfoldable pub close_edge : Predecessor → Sched → Option (Predecessor × Sched)
  unfolding close_membership drain_woken
  close_edge p s =
      let (edge, (woken, tally)) = close_membership s.decl_seq s.tally p in
      and_then (woken_placed (record s { tally = tally; woken = s.woken ++ woken }))
        (λ s'. some (edge, s'))

  -- The loop of `TaskHandle.After`.
  unfoldable pub add_preds : ℕ → List Predecessor → Sched → Option Sched
  unfolding close_edge
  add_preds st [] s = some s
  add_preds st (p ∷ ps) s = and_then (close_edge p s) (λ r.
      let (edge, s') = r in
      add_preds st ps (record s' {
        preds = set_at st (s'.preds st ++ edge ∷ []) s'.preds;
        after = set_at st (s'.after st ++ edge ∷ []) s'.after;
      }))

  -- The loop of `appendStepPredsLocked`, which keeps each step as it is.
  unfoldable pub add_steps : ℕ → List Predecessor → Sched → Option Sched
  unfolding close_edge
  add_steps st [] s = some s
  add_steps st (p ∷ ps) s = and_then (close_edge p s) (λ r.
      let (edge, s') = r in
      add_steps st ps (record s' { preds = set_at st (s'.preds st ++ p ∷ []) s'.preds }))

  -- `declareTaskLocked` of the next Task, which starts after `steps`: what `nextStepPreds` says of the
  -- collections that it joins. The stop of a follower of a failed step is a step of its own.
  unfoldable pub declare_task : List Predecessor → Sched → Option Sched
  unfolding add_steps declare_chain
  declare_task steps s =
      let st = suc s.decl_seq in
      and_then (add_steps st steps (record s { decl_seq = st }))
        (λ s'. some (record s' { tally = declare_chain s'.states st (layout.chain st) s'.tally }))

  unfoldable pub add_after : ℕ → List Predecessor → Sched → Option Sched
  unfolding add_preds submitted
  add_after st ps s =
      if not (is_known st s) || submitted (s.phase st) then some s else add_preds st ps s

  abbrev pub place_now : ℕ → Sched → Option Sched
  place_now st s = and_then (place layout depth st scan_all s) woken_placed

  -- `submitWork` on an open Output.
  unfoldable pub define_work : ℕ → Sched → Option Sched
  unfolding submitted is_terminal_task enter_phase mark_not_started place drain_woken
  define_work st s =
      let s' = enter_phase st queued s in
      if not (is_known st s) || is_terminal_task (s.states st) || submitted (s.phase st)
      then some s
      else if s.cancelled
      then woken_placed (mark_not_started layout st s')
      else place_now st s'

  -- The loop of `nextEligibleLocked`, with the claim that `takeEligible` ends in.
  unfoldable pub claim_next : ℕ → Sched → Option Sched
  unfolding live_queue preds_outcome outcome claim place drain_woken
  claim_next zero s = none
  claim_next (suc n) s = elim (live_queue s s.queue) [
    | [] ↦ some (record s { queue = [] })
    | st ∷ rest ↦
        and_then (preds_outcome (outcome depth (run_of layout s)) scan_to_blocker (s.preds st))
          (λ r.
            let s' = record s { queue = st ∷ rest; preds = set_at st r.kept s.preds } in
            elim (is_succeeded r.verdict) [
              | true ↦ some (claim st s')
              | false ↦
                  and_then
                    (and_then (place layout depth st scan_to_blocker (record s' { queue = rest }))
                      woken_placed)
                    (claim_next n)
            ])
  ]

  -- `takeEligible` where a slot is free.
  unfoldable pub take_eligible : Sched → Option Sched
  unfolding claim_next
  take_eligible s = if s.cancelled then some s else claim_next fuel s

  -- `TaskHandle.resolve`: a caller's claim of success for submitted work is kept for the scheduler
  -- to judge. The stops of the followers in a Sequence are steps of their own.
  unfoldable pub resolve : Bool → Bool → ℕ → EntityState → Sched → Option Sched
  unfolding is_terminal_task submitted declares_success settle_task drain_woken
  resolve by_caller problem st state s =
      if not (is_known st s) || is_terminal_task (s.states st)
      then some s
      else if submitted (s.phase st) && by_caller && declares_success state
      then some s
      else settled st state
          (record s { has_problem = set_at st (s.has_problem st || problem) s.has_problem })

  -- `stopUnstartedLocked`
  unfoldable pub stop_unstarted : ℕ → Sched → Option Sched
  unfolding is_terminal_task mark_not_started drain_woken
  stop_unstarted st s =
      if is_terminal_task (s.states st) || is_running (s.phase st)
      then some s
      else woken_placed (mark_not_started layout st s)

  unfoldable pub block_cycle : List ℕ → Sched → Option Sched
  unfolding block_each drain_woken
  block_cycle sts s = woken_placed (block_each layout sts s)

  -- `sealCollectionLocked`
  unfoldable pub seal_collection : ℕ → Sched → Option Sched
  unfolding seal drain_woken
  seal_collection c s =
      let (woken, t) = seal (s.tally c) s.decl_seq in
      woken_placed (record s { tally = set_at c t s.tally; woken = s.woken ++ woken })

  -- `concludeGateLocked` but for the gate itself: a builder's end, for the container and those around
  -- it.
  unfoldable pub conclude_builder : Bool → List ℕ → Sched → Option Sched
  unfolding conclude_chain drain_woken
  conclude_builder failed cs s =
      let (woken, tally) = conclude_chain true failed s.decl_seq cs s.tally in
      woken_placed (record s { tally = tally; woken = s.woken ++ woken })

  unfoldable pub place_each : List ℕ → Sched → Option Sched
  unfolding place drain_woken waits_parked
  place_each [] s = some s
  place_each (st ∷ sts) s =
      and_then (if waits_parked st s then place_now st s else some s) (place_each sts)

  -- `drainScheduler` up to the kick, with `replaceParkedLocked`.
  unfoldable pub start_drain : Sched → Option Sched
  unfolding parked_tasks place_each unpark
  start_drain s =
      place_each (parked_tasks s s.decl_seq)
        (record s { draining = true; dependents = λ m. []; tally = λ c. unpark (s.tally c) })

  unfoldable pub run_op : Op → Sched → Option Sched
  unfolding declare_task add_after define_work promote_running take_eligible resolve stop_unstarted
      block_cycle seal_collection hold_chain conclude_builder start_drain
  run_op (declaring steps) s = declare_task steps s
  run_op (adding_after st ps) s = add_after st ps s
  run_op (defining st) s = define_work st s
  run_op (promoting st) s = some (if is_known st s then promote_running st s else s)
  run_op (stopping st) s = if is_known st s then stop_unstarted st s else some s
  run_op (sealing c) s = seal_collection c s
  run_op taking s = take_eligible s
  run_op start_draining s = start_drain s
  run_op interrupting s = some (record s { cancelled = true })
  run_op (resolving by_caller problem st state) s = resolve by_caller problem st state s
  run_op (blocking sts) s = block_cycle sts s
  run_op (holding cs) s = some (record s { tally = hold_chain cs s.tally })
  run_op (concluding failed cs) s = conclude_builder failed cs s

  unfoldable pub run_ops : List Op → Sched → Option Sched
  unfolding run_op
  run_ops [] s = some s
  run_ops (op ∷ ops) s = and_then (run_op op s) (run_ops ops)
