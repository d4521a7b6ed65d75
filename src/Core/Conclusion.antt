-- ===== src/Core/Conclusion.antt =====
-- internal/core/conclusion.go: the meaning of a finished command.
use evident_output.Prelude.{
  ℕ, Bool, true, false, not, ◌&&◌, ◌||◌, List, [], ◌∷◌, Option, none, some, String, ◌==◌,
  if◌then◌else◌, is_empty,
}
use evident_output.Core.State.{
  EntityState, pending, running, done, skipped, empty, incomplete, not_started, ConclusionState,
  ready, changed, warning, planned,
}
use evident_output.Core.Snapshot.{
  Fact, Action, TaskSnapshot, TasksSnapshot, tasks_snapshot, Collections, nil, cons, EffectSection,
  Snapshot,
}

-- Explanation, run identity and wall-clock bounds are set by the engine, not here.
pub record Conclusion : Type 0 where
  pub state : ConclusionState
  pub subject : String
  pub changed : Bool
  pub partial : Bool
  pub warned : Bool
  pub cancelled : Bool
  pub explanation : String
  pub tasks : List TaskSnapshot
  pub collections : Collections
  pub changes : List EffectSection
  pub plans : List EffectSection
  pub actions : List Action
  pub exit_code : ℕ
  pub dry_run : Bool
  pub facts : List Fact

abbrev pub exit_ok : ℕ
exit_ok = 0

abbrev pub exit_blocked : ℕ
exit_blocked = 1

abbrev pub exit_failed : ℕ
exit_failed = 2

abbrev pub exit_cancelled : ℕ
exit_cancelled = 130

abbrev pub is_state_failed : ConclusionState → Bool
is_state_failed ConclusionState.failed = true
is_state_failed _ = false

abbrev pub is_state_blocked : ConclusionState → Bool
is_state_blocked ConclusionState.blocked = true
is_state_blocked _ = false

abbrev pub is_blocked : EntityState → Bool
is_blocked EntityState.blocked = true
is_blocked _ = false

unfoldable pub any_task_blocked : List TaskSnapshot → Bool
any_task_blocked [] = false
any_task_blocked (t ∷ tasks) = if is_blocked t.state then true else any_task_blocked tasks

unfoldable pub any_blocked : Conclusion → Bool
unfolding any_task_blocked
any_blocked c = if is_state_blocked c.state then true else any_task_blocked c.tasks

unfoldable pub exit_code_for : ConclusionState → ℕ
exit_code_for ConclusionState.failed = exit_failed
exit_code_for ConclusionState.blocked = exit_blocked
exit_code_for ConclusionState.cancelled = exit_cancelled
exit_code_for _ = exit_ok

-- `none` is a nil pointer: both functions leave it alone.
unfoldable pub apply_failed_exit_code : Option Conclusion → ℕ → Option Conclusion
apply_failed_exit_code none code = none
apply_failed_exit_code (some c) code =
    if code == 0 || not (is_state_failed c.state)
    then some c
    else some (record c { exit_code = code })

-- `misuse` says that the error is not nil.
unfoldable pub fold_leftover_misuse : Option Conclusion → Bool → Option Conclusion
fold_leftover_misuse none misuse = none
fold_leftover_misuse (some c) misuse =
    if not misuse || not (c.exit_code == exit_ok)
    then some c
    else some (record c { state = ConclusionState.failed; exit_code = exit_failed })

unfoldable pub any_task_warned : List TaskSnapshot → Bool
any_task_warned [] = false
any_task_warned (t ∷ tasks) = if not (is_empty t.warnings) then true else any_task_warned tasks

unfoldable mutual
  unfolding any_task_warned

  pub any_collection_warned : Collections → Bool
  any_collection_warned nil = false
  any_collection_warned (cons col collections) =
      if collection_warned col then true else any_collection_warned collections

  pub collection_warned : TasksSnapshot → Bool
  collection_warned (tasks_snapshot c tasks collections) =
      any_task_warned tasks || any_collection_warned collections

-- The local variables of `InferConclusion` that its loops set.
pub record Flags : Type 0 where
  pub has_failed : Bool
  pub has_blocked : Bool
  pub has_cancelled : Bool
  pub has_incomplete : Bool
  pub has_done : Bool

abbrev pub no_flags : Flags
no_flags = record {
  has_failed = false;
  has_blocked = false;
  has_cancelled = false;
  has_incomplete = false;
  has_done = false;
}

-- The switch on a root Task's state.
unfoldable pub flag_task : EntityState → Flags → Flags
flag_task EntityState.failed f = record f { has_failed = true }
flag_task EntityState.blocked f = record f { has_blocked = true }
flag_task EntityState.cancelled f = record f { has_cancelled = true }
flag_task pending f = record f { has_incomplete = true }
flag_task running f = record f { has_incomplete = true }
flag_task incomplete f = record f { has_incomplete = true }
flag_task not_started f = record f { has_incomplete = true }
flag_task done f = record f { has_done = true }
flag_task skipped f = record f { has_done = true }
flag_task _ f = f

-- The switch on a root collection's state, which also knows an empty one.
unfoldable pub flag_collection : EntityState → Flags → Flags
flag_collection EntityState.failed f = record f { has_failed = true }
flag_collection EntityState.blocked f = record f { has_blocked = true }
flag_collection EntityState.cancelled f = record f { has_cancelled = true }
flag_collection incomplete f = record f { has_incomplete = true }
flag_collection running f = record f { has_incomplete = true }
flag_collection pending f = record f { has_incomplete = true }
flag_collection not_started f = record f { has_incomplete = true }
flag_collection done f = record f { has_done = true }
flag_collection skipped f = record f { has_done = true }
flag_collection empty f = record f { has_done = true }

unfoldable pub flag_tasks : List TaskSnapshot → Flags → Flags
unfolding flag_task
flag_tasks [] f = f
flag_tasks (t ∷ tasks) f = flag_tasks tasks (flag_task t.state f)

abbrev pub state_of : TasksSnapshot → EntityState
state_of (tasks_snapshot c tasks collections) = c.state

unfoldable pub flag_collections : Collections → Flags → Flags
unfolding flag_collection
flag_collections nil f = f
flag_collections (cons col collections) f =
    flag_collections collections (flag_collection (state_of col) f)

-- The loop that finds a changes section with a record.
unfoldable pub any_recorded : List EffectSection → Bool
any_recorded [] = false
any_recorded (ch ∷ changes) = if not (is_empty ch.records) then true else any_recorded changes

-- The headline: the switch by precedence, of which the case for plans repeats what the cases above
-- it exclude.
unfoldable pub headline : Flags → Bool → Bool → Bool → ConclusionState
headline f has_changed has_plans has_warning =
    if f.has_failed
    then ConclusionState.failed
    else if f.has_blocked
    then ConclusionState.blocked
    else if f.has_cancelled
    then ConclusionState.cancelled
    else if has_changed
    then changed
    else if has_plans && not has_changed && not f.has_failed && not f.has_blocked
    then planned
    else if f.has_done
    then ready
    else if has_warning
    then warning
    else ready

-- A dry run reads as planned where it would read as done.
unfoldable pub dry_headline : Bool → ConclusionState → ConclusionState
dry_headline true changed = planned
dry_headline true ready = planned
dry_headline _ s = s

abbrev pub is_warning : ConclusionState → Bool
is_warning warning = true
is_warning _ = false

unfoldable pub infer_conclusion : Snapshot → Conclusion
unfolding headline dry_headline exit_code_for
infer_conclusion s =
    let has_changed = any_recorded s.changes in
    let f = flag_collections s.collections (flag_tasks s.tasks no_flags) in
    let has_warning = any_task_warned s.tasks || any_collection_warned s.collections in
    let state = headline f has_changed (not (is_empty s.plans)) has_warning in
    let final = dry_headline s.dry_run state in
    record {
      state = final;
      subject = s.subject;
      changed = has_changed;
      partial = f.has_incomplete;
      warned = (has_warning || not (is_empty s.warnings)) && not (is_warning state);
      cancelled = f.has_cancelled;
      explanation = "";
      tasks = s.tasks;
      collections = s.collections;
      changes = s.changes;
      plans = s.plans;
      actions = s.actions;
      exit_code = exit_code_for final;
      dry_run = s.dry_run;
      facts = s.facts;
    }
