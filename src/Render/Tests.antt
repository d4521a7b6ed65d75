-- ===== src/Render/Tests.antt =====
-- A run with a Task that changed files and one that had nothing to do.
use evident_output.Prelude.{true, false, [], ◌∷◌, String, All, ◌≡◌, refl}
use evident_output.Core.State.{
  EntityState, done, indeterminate, Resolution, executed, already_satisfied, no_work,
}
use evident_output.Core.Snapshot.{TaskSnapshot, tasks_snapshot, nil, cons, Snapshot}
use evident_output.Render.ZeroInformation.{
  is_zero_information_task, is_proven_no_op_task, admits, visit, visit_tasks, visit_collections,
  ledger_owners, scan_snapshot, zero_information_task_ids, kept_rows, collections_without,
  without_tasks,
}
use evident_output.Render.Hidden.{IsHidable, any_stops, all_rows, zero_information_task_ids-hidden}

abbrev row : String → EntityState → Resolution → TaskSnapshot
row name state resolution = record {
  id = name;
  key = name;
  name = name;
  state = state;
  phase = "";
  activity_at = 0;
  live_first_seen_at = 0;
  progress = record { kind = indeterminate; completed = 0; total = 0 };
  summary = "";
  problems = [];
  warnings = [];
  facts = [];
  verification = [];
  actions = [];
  skipped = [];
  kept = [];
  collection = "";
  declaration = 0;
  resolution = resolution;
  synthetic = false;
}

-- At the root, a Task without work stays; in a Group it is hidden.
abbrev quiet : EntityState → Snapshot
quiet last = record {
  subject = "build";
  tasks =
      row "fetch" done no_work ∷ row "check" done already_satisfied ∷ row "last" last executed ∷ [];
  collections =
      cons
        (tasks_snapshot
          (record {
            id = "g";
            key = "g";
            name = "g";
            state = done;
            summary = "";
            sequential = false;
            declaration = 1;
          })
          (row "clean" done no_work ∷ []) nil)
        nil;
  changes =
      record { id = "e"; subject = "s"; records = []; intended_verb = ""; owner = "other" } ∷ [];
  plans = [];
  lines = [];
  actions = [];
  dry_run = false;
  warnings = [];
  facts = [];
}

quiet-hidden : zero_information_task_ids (quiet done) ≡ "check" ∷ "clean" ∷ []
unfolding zero_information_task_ids scan_snapshot visit_tasks visit_collections visit admits
    is_proven_no_op_task is_zero_information_task ledger_owners
quiet-hidden = refl

quiet-rows :
    (without_tasks (quiet done) ("check" ∷ "clean" ∷ [])).tasks
    ≡ row "fetch" done no_work ∷ row "last" done executed ∷ []
unfolding without_tasks kept_rows collections_without
quiet-rows = refl

zero_information_task_ids-hidden_example :
    All
      (IsHidable (quiet EntityState.failed))
      (zero_information_task_ids (quiet EntityState.failed))
    × (any_stops (all_rows (quiet EntityState.failed)) ≡ true
        → zero_information_task_ids (quiet EntityState.failed) ≡ [])
zero_information_task_ids-hidden_example =
    zero_information_task_ids-hidden (quiet EntityState.failed)
