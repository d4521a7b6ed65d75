-- ===== src/Render/ZeroInformation.antt =====
-- internal/core/zero_information.go and internal/render/zero_information.go: the rows of Tasks that had
-- nothing to do, which human output leaves out.
use text.Mathlib.Text.{◌==◌ as str_eq}
use evident_output.Prelude.{
  ℕ, suc, ◌+◌, Bool, true, false, not, ◌&&◌, ◌||◌, List, [], ◌∷◌, ◌++◌, String, any, is_empty,
  length, map, ◌==◌, if◌then◌else◌,
}
use evident_output.Core.State.{EntityState, done, Resolution, no_work, already_satisfied}
use evident_output.Core.Snapshot.{
  TaskSnapshot, Container, TasksSnapshot, tasks_snapshot, Collections, nil, cons, Snapshot,
}

abbrev pub is_done : EntityState → Bool
is_done done = true
is_done _ = false

abbrev pub is_no_op : Resolution → Bool
is_no_op no_work = true
is_no_op already_satisfied = true
is_no_op _ = false

abbrev pub is_proven : Resolution → Bool
is_proven already_satisfied = true
is_proven _ = false

unfoldable pub is_zero_information_task : TaskSnapshot → Bool
is_zero_information_task t =
    if not (is_done t.state) || t.synthetic
    then false
    else if not (is_no_op t.resolution)
    then false
    else str_eq t.summary ""
      && str_eq t.phase ""
      && t.progress.total == 0
      && t.progress.completed == 0
      && is_empty t.problems
      && is_empty t.warnings
      && is_empty t.facts
      && is_empty t.skipped
      && is_empty t.kept
      && is_empty t.actions
      && is_empty t.verification

unfoldable pub is_proven_no_op_task : TaskSnapshot → Bool
unfolding is_zero_information_task
is_proven_no_op_task t = is_zero_information_task t && is_proven t.resolution

pub data HideScope : Type 0 where
  hide_nothing hide_proven_no_op hide_any_no_op : HideScope

unfoldable pub admits : HideScope → TaskSnapshot → Bool
unfolding is_proven_no_op_task
admits hide_any_no_op t = is_zero_information_task t
admits hide_proven_no_op t = is_proven_no_op_task t
admits hide_nothing t = false

abbrev pub hides_nothing : HideScope → Bool
hides_nothing hide_nothing = true
hides_nothing _ = false

-- `candidates` is the set's elements in the order in which they were found.
pub record ZeroScan : Type 0 where
  pub candidates : List String
  pub visible : ℕ
  pub stopped : Bool

abbrev pub stops_hiding : EntityState → Bool
stops_hiding EntityState.failed = true
stops_hiding EntityState.blocked = true
stops_hiding EntityState.cancelled = true
stops_hiding _ = false

abbrev pub holds : List String → String → Bool
holds ids id = any (λ i. str_eq i id) ids

module _ (owners : List String) where
  unfoldable pub visit : ZeroScan → TaskSnapshot → HideScope → ZeroScan
  unfolding admits
  visit scan t scope =
      let stopped = scan.stopped || stops_hiding t.state in
      if admits scope t && not (holds owners t.id)
      then record scan { candidates = scan.candidates ++ t.id ∷ []; stopped = stopped }
      else record scan { visible = suc scan.visible; stopped = stopped }

  unfoldable pub visit_tasks : ZeroScan → List TaskSnapshot → HideScope → ZeroScan
  unfolding visit
  visit_tasks scan [] scope = scan
  visit_tasks scan (t ∷ ts) scope = visit_tasks (visit scan t scope) ts scope

  abbrev pub inner_scope : Container → HideScope → HideScope
  inner_scope c parent =
      if c.sequential || hides_nothing parent then hide_nothing else hide_any_no_op

  abbrev pub with_summary : Container → ZeroScan → ZeroScan
  with_summary c scan =
      if not (str_eq c.summary "") then record scan { visible = suc scan.visible } else scan

  unfoldable mutual
    unfolding visit_tasks

    pub visit_collection : TasksSnapshot → HideScope → ZeroScan → ZeroScan
    visit_collection (tasks_snapshot c ts cs) parent scan =
        let scope = inner_scope c parent in
        visit_collections cs scope (visit_tasks (with_summary c scan) ts scope)

    pub visit_collections : Collections → HideScope → ZeroScan → ZeroScan
    visit_collections nil parent scan = scan
    visit_collections (cons col cols) parent scan =
        visit_collections cols parent (visit_collection col parent scan)

unfoldable pub ledger_owners : Snapshot → List String
ledger_owners s = map (λ e. e.owner) s.changes ++ map (λ e. e.owner) s.plans

unfoldable pub scan_snapshot : Snapshot → ZeroScan
unfolding visit_tasks visit_collections ledger_owners
scan_snapshot s =
    let owners = ledger_owners s in
    let start : ZeroScan = record {
      candidates = [];
      visible =
          length s.lines + length s.warnings + length s.facts + length s.changes + length s.plans;
      stopped = false;
    } in
    visit_collections owners s.collections hide_proven_no_op
      (visit_tasks owners start s.tasks hide_proven_no_op)

-- The empty list stands for nil.
unfoldable pub zero_information_task_ids : Snapshot → List String
unfolding scan_snapshot
zero_information_task_ids s =
    let scan = scan_snapshot s in
    if scan.stopped || scan.visible == 0 || is_empty scan.candidates then [] else scan.candidates

unfoldable pub kept_rows : List String → List TaskSnapshot → List TaskSnapshot
kept_rows hidden [] = []
kept_rows hidden (t ∷ ts) =
    let rest = kept_rows hidden ts in if holds hidden t.id then rest else t ∷ rest

unfoldable mutual
  unfolding kept_rows

  pub collection_without : List String → TasksSnapshot → TasksSnapshot
  collection_without hidden (tasks_snapshot c ts cs) =
      tasks_snapshot c (kept_rows hidden ts) (collections_without hidden cs)

  pub collections_without : List String → Collections → Collections
  collections_without hidden nil = nil
  collections_without hidden (cons col cols) =
      cons (collection_without hidden col) (collections_without hidden cols)

unfoldable pub without_tasks : Snapshot → List String → Snapshot
unfolding kept_rows collections_without
without_tasks s hidden = if is_empty hidden then s else record s {
  tasks = kept_rows hidden s.tasks;
  collections = collections_without hidden s.collections;
}
