-- ===== src/Core/Verdict.antt =====
-- The verdict of internal/core/conclusion.go against a direct reading of the root Tasks and
-- collections.
use evident_output.Prelude.{
  Bool, true, false, not, ◌&&◌, ◌||◌, List, [], ◌∷◌, some, ◌≡◌, arith, ◌==◌, if◌then◌else◌,
  is_empty,
}
use evident_output.Core.State.{
  EntityState, pending, running, incomplete, not_started, ConclusionState, changed, planned,
}
use evident_output.Core.Snapshot.{TaskSnapshot, Collections, nil, cons, Snapshot}
use evident_output.Core.Conclusion.{
  Conclusion, Flags, no_flags, flag_task, flag_collection, flag_tasks, flag_collections, state_of,
  exit_code_for, any_recorded, infer_conclusion, is_blocked, fold_leftover_misuse, exit_ok,
  exit_failed, exit_blocked, exit_cancelled,
}

abbrev pub is_failed : EntityState → Bool
is_failed EntityState.failed = true
is_failed _ = false

abbrev pub is_cancelled : EntityState → Bool
is_cancelled EntityState.cancelled = true
is_cancelled _ = false

-- A Task or a collection that has no outcome yet.
abbrev pub is_incomplete : EntityState → Bool
is_incomplete pending = true
is_incomplete running = true
is_incomplete incomplete = true
is_incomplete not_started = true
is_incomplete _ = false

-- A root Task's or a root collection's state passes the test.
abbrev pub any_task_state : (EntityState → Bool) → List TaskSnapshot → Bool
any_task_state p [] = false
any_task_state p (t ∷ tasks) = p t.state || any_task_state p tasks

abbrev pub any_collection_state : (EntityState → Bool) → Collections → Bool
any_collection_state p nil = false
any_collection_state p (cons col collections) =
    p (state_of col) || any_collection_state p collections

abbrev pub any_root : (EntityState → Bool) → Snapshot → Bool
any_root p s = any_task_state p s.tasks || any_collection_state p s.collections

-- The flags after a loop are those before it, or what some state shows.
record Shows (f g : Flags) (any : (EntityState → Bool) → Bool) : Type 0 where
  failed_shown : g.has_failed ≡ (f.has_failed || any is_failed)
  blocked_shown : g.has_blocked ≡ (f.has_blocked || any is_blocked)
  cancelled_shown : g.has_cancelled ≡ (f.has_cancelled || any is_cancelled)
  incomplete_shown : g.has_incomplete ≡ (f.has_incomplete || any is_incomplete)

flag_task-Shows : (s : EntityState) (f : Flags) → Shows f (flag_task s f) (λ p. p s)
unfolding flag_task
flag_task-Shows pending f = ground arith
flag_task-Shows _ f = ground arith

flag_collection-Shows : (s : EntityState) (f : Flags) → Shows f (flag_collection s f) (λ p. p s)
unfolding flag_collection
flag_collection-Shows pending f = ground arith
flag_collection-Shows _ f = ground arith

flag_tasks-Shows :
    (tasks : List TaskSnapshot) (f : Flags)
    → Shows f (flag_tasks tasks f) (λ p. any_task_state p tasks)
unfolding flag_tasks
flag_tasks-Shows [] f = ground arith
flag_tasks-Shows (t ∷ tasks) f =
    ground (arith, flag_task-Shows t.state f, flag_tasks-Shows tasks (flag_task t.state f))

flag_collections-Shows :
    (cs : Collections) (f : Flags)
    → Shows f (flag_collections cs f) (λ p. any_collection_state p cs)
unfolding flag_collections
flag_collections-Shows nil f = ground arith
flag_collections-Shows (cons col cs) f =
    let g = flag_collection (state_of col) f in
    ground (arith, flag_collection-Shows (state_of col) f, flag_collections-Shows cs g)

-- The exit code is 2 when a root Task or collection failed, else 1 when one is blocked, else 130
-- when one was cancelled, and 0 otherwise: changes, plans, warnings and dry runs do not move it. The
-- conclusion is partial exactly when a root Task or collection is pending, running or incomplete or
-- never started, and cancelled
-- exactly when one was cancelled, whatever the headline is.
pub infer_conclusion-exit_code :
    (s : Snapshot)
    → ((infer_conclusion s).exit_code ≡ (
        if any_root is_failed s
        then exit_failed
        else if any_root is_blocked s
        then exit_blocked
        else if any_root is_cancelled s
        then exit_cancelled
        else exit_ok))
      × ((infer_conclusion s).partial ≡ any_root is_incomplete s)
      × ((infer_conclusion s).cancelled ≡ any_root is_cancelled s)
unfolding infer_conclusion
infer_conclusion-exit_code s =
    let f = flag_tasks s.tasks no_flags in
    let w = flag_tasks-Shows s.tasks no_flags in
    let v = flag_collections-Shows s.collections f in ground (arith, w, v)

abbrev pub is_changed : ConclusionState → Bool
is_changed changed = true
is_changed _ = false

abbrev pub is_planned : ConclusionState → Bool
is_planned planned = true
is_planned _ = false

-- Nothing of what overrides success happened to a root Task or collection.
abbrev pub all_well : Snapshot → Bool
all_well s =
    not (any_root is_failed s) && not (any_root is_blocked s) && not (any_root is_cancelled s)

-- A run reads as changed exactly when it is no dry run, nothing failed, was blocked or was
-- cancelled, and a changes section holds a record. A run that is no dry run reads as planned exactly
-- when nothing failed, was blocked or was cancelled, no change was recorded, and there are plans. A
-- dry run reads as planned at least where that holds or a change was recorded.
pub infer_conclusion-headline :
    (s : Snapshot)
    → (is_changed (infer_conclusion s).state
        ≡ (all_well s && any_recorded s.changes && not s.dry_run))
      × ((is_planned (infer_conclusion s).state && not s.dry_run)
          ≡ (all_well s && not (any_recorded s.changes) && not (is_empty s.plans) && not s.dry_run))
      × ((not (all_well s && (any_recorded s.changes || not (is_empty s.plans)) && s.dry_run)
            || is_planned (infer_conclusion s).state)
          ≡ true)
unfolding infer_conclusion
infer_conclusion-headline s =
    let f = flag_tasks s.tasks no_flags in
    let w = flag_tasks-Shows s.tasks no_flags in
    let v = flag_collections-Shows s.collections f in
    (ground (arith, w, v), ground (arith, w, v), ground (arith, w, v))

-- The conclusion after leftover misuse was folded in.
misuse_folded : Conclusion → Bool → Conclusion
misuse_folded c misuse =
    if misuse && c.exit_code == exit_ok
    then record c { state = ConclusionState.failed; exit_code = exit_failed }
    else c

-- Folding in leftover misuse: the exit code stays that of the headline; the run exits cleanly
-- exactly when it did before and there was no misuse; and a run that already exits with an error
-- keeps its exit code.
pub fold_leftover_misuse_lem :
    (c : Conclusion) (misuse : Bool)
    → c.exit_code ≡ exit_code_for c.state
    → (d : Conclusion) × (fold_leftover_misuse (some c) misuse ≡ some d)
      × (d.exit_code ≡ exit_code_for d.state)
      × ((d.exit_code == exit_ok) ≡ (c.exit_code == exit_ok && not misuse))
      × ((c.exit_code == exit_ok || d.exit_code == c.exit_code) ≡ true)
unfolding fold_leftover_misuse exit_code_for misuse_folded
fold_leftover_misuse_lem c misuse e =
    (misuse_folded c misuse, ground arith, ground arith, ground arith, ground arith)
