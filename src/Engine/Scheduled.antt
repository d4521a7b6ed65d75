-- ===== src/Engine/Scheduled.antt =====
-- internal/engine: any sequence of steps of the scheduler returns, and leaves each parked Task with
-- something pending to wait for.
use evident_output.Prelude.{ℕ, true, false, List, [], ◌∷◌, Option, ◌≡◌, refl, arith, All, if_cases}
use evident_output.Core.State.{EntityState}
use evident_output.Engine.CollectionTally.{CollectionTally}
use evident_output.Engine.Depth.{IsBelow}
use evident_output.Engine.Schedule.{declared, Layout, Sched, waits_parked, is_known}
use evident_output.Engine.Operations.{
  promote_running, block_cycle, seal_collection, conclude_builder, Op, declaring, adding_after,
  defining, promoting, stopping, sealing, taking, start_draining, interrupting, resolving, blocking,
  holding, concluding, run_op, run_ops, add_after, is_pending,
}
use evident_output.Engine.Retallied.{seal-IsKept, conclude_chain-IsKept, retallied-IsWatched}
use evident_output.Engine.Rested.{IsAtRest}
use evident_output.Engine.Unmissed.{block_each-IsWatched, run_op-Rests}
use evident_output.Engine.Effects.{Ends}
use evident_output.Engine.Returned.{
  Ends-Lands, and_then-Ends, now-Ends, choose-Ends, IsSound, Below, drain-Ends, declare_task-Ends,
  define_work-Ends, add_preds-Ends,
}
use evident_output.Engine.Completed.{
  resolve-Ends, stop_unstarted-Ends, block_each-preds, start_drain-Ends,
}
use evident_output.Engine.Taken.{take_eligible-Ends}

-- The predecessors that a step names stand below the depth.
abbrev pub FitsDepth : (ℕ → ℕ) → ℕ → Op → Type 0
FitsDepth rank depth (declaring steps) = All (IsBelow rank depth) steps
FitsDepth rank depth (adding_after st ps) = All (IsBelow rank depth) ps
FitsDepth rank depth _ = Unit

module _ (layout : Layout) (rank : ℕ → ℕ) (depth : ℕ)
    (ranked : (c : ℕ) → All (IsBelow rank (rank c)) (layout.entry c)) where
  abbrev Sound : Sched → Type 0
  Sound = IsSound layout rank depth ranked []

  abbrev Fits : Sched → Type 0
  Fits = Below layout rank depth ranked

  then-Fits : (f : ℕ → Option Sched) → Ends Sound f → Ends Fits f
  then-Fits f (a, n, sound, h) = (a, n, sound.1, h)

  promote_running-preds : (st : ℕ) (s : Sched) → (promote_running st s).preds ≡ s.preds
  unfolding promote_running
  promote_running-preds st s =
      if_cases (λ (x : Sched). x.preds ≡ s.preds) (is_pending (s.states st)) _ _ (λ _. refl)
        (λ _. refl)

  run_op-Ends :
      (op : Op) (s : Sched)
      → FitsDepth rank depth op
      → Sound s
      → Ends Fits (λ m. run_op layout depth m op s)
  unfolding run_op add_after block_cycle seal_collection conclude_builder
  run_op-Ends (declaring steps) s f h = declare_task-Ends layout rank depth ranked steps s f h
  run_op-Ends (adding_after st ps) s f h =
      choose-Ends Fits _ _ _ (λ _. now-Ends Fits s h.1)
        (λ _. then-Fits _ (add_preds-Ends layout rank depth ranked st ps s f h))
  run_op-Ends (defining st) s f h = then-Fits _ (define_work-Ends layout rank depth ranked st s h)
  run_op-Ends (promoting st) s f h = now-Ends Fits _ (
      if_cases Fits (is_known st s) _ _ (λ _ m. rw (promote_running-preds st s) (h.1 m)) (λ _. h.1))
  run_op-Ends (stopping st) s f h =
      choose-Ends Fits (is_known st s) _ _
        (λ k. then-Fits _ (stop_unstarted-Ends layout rank depth ranked st s k h))
        (λ _. now-Ends Fits s h.1)
  run_op-Ends (sealing c) s f ((w, idle), b) = then-Fits _ (
      drain-Ends layout rank depth ranked [] _
        (retallied-IsWatched layout [] _ _ s (seal-IsKept s.tally c s.decl_seq) w) b)
  run_op-Ends taking s f h = take_eligible-Ends layout rank depth ranked s h
  run_op-Ends start_draining s f h = then-Fits _ (start_drain-Ends layout rank depth ranked s h)
  run_op-Ends interrupting s f h = now-Ends Fits _ h.1
  run_op-Ends (resolving by_caller problem st state) s f h =
      then-Fits _ (resolve-Ends layout rank depth ranked by_caller problem st state s h)
  run_op-Ends (blocking sts) s f ((w, idle), b) = then-Fits _ (
      drain-Ends layout rank depth ranked [] _ (block_each-IsWatched layout depth 0 sts s w)
        (λ m. rw (block_each-preds layout rank depth ranked sts s) (b m)))
  run_op-Ends (holding cs) s f h = now-Ends Fits _ h.1
  run_op-Ends (concluding failed cs) s f ((w, idle), b) = then-Fits _ (
      drain-Ends layout rank depth ranked [] _
        (retallied-IsWatched layout [] _ _ s
          (conclude_chain-IsKept true failed s.decl_seq cs s.tally) w)
        b)

  run_ops-Ends :
      (ops : List Op) (s : Sched)
      → All (FitsDepth rank depth) ops
      → Sound s
      → Ends Sound (λ m. run_ops layout depth m ops s)
  unfolding run_ops
  run_ops-Ends [] s f h = now-Ends Sound s h
  run_ops-Ends (op ∷ ops) s (f, fs) h =
      and_then-Ends Sound Sound _ _
        (Ends-Lands Fits (IsAtRest layout []) _ (run_op-Ends op s f h)
          (λ m. run_op-Rests layout depth m op s h.0))
        (λ s' h'. run_ops-Ends ops s' fs h')

abbrev no_members : CollectionTally
no_members = record {
  members = [];
  succeeded_prefix = 0;
  first_failed = 0;
  sealed = false;
  sealed_through = 0;
  parked = [];
  open_edges = [];
  holds = 0;
  builder_failed = false;
}

-- An Output before anything is declared.
abbrev pub new_output : Sched
new_output = record {
  states = λ m. EntityState.pending;
  has_problem = λ m. false;
  phase = λ m. declared;
  preds = λ m. [];
  after = λ m. [];
  dependents = λ m. [];
  tally = λ c. no_members;
  queue = [];
  woken = [];
  parked_count = 0;
  decl_seq = 0;
  draining = false;
  cancelled = false;
}

new_output-IsAtRest : (layout : Layout) → IsAtRest layout [] new_output
unfolding waits_parked
new_output-IsAtRest layout = (
  record {
    awaited = λ m p. absurd (cc p);
    alive = λ b m h. absurd (omega (arith, h));
    unresolved = λ c. record {
      none_missed = record { sorted = tt; waiting = tt };
      open_alive = λ i h. refl;
      building = λ i h. refl;
    };
    fresh = λ m k. (refl, refl);
  },
  refl,
)

-- Every sequence of steps ends in a state in which the parked Tasks are watched.
pub run_ops-IsAtRest :
    (layout : Layout) (rank : ℕ → ℕ) (depth : ℕ)
    (ranked : (c : ℕ) → All (IsBelow rank (rank c)) (layout.entry c)) (ops : List Op)
    → All (FitsDepth rank depth) ops
    → Ends (IsAtRest layout []) (λ fuel. run_ops layout depth fuel ops new_output)
run_ops-IsAtRest layout rank depth ranked ops fits =
    let (s, n, sound, h) =
      run_ops-Ends layout rank depth ranked ops new_output fits
        (new_output-IsAtRest layout, λ m. tt) in
    (s, n, sound.0, h)
