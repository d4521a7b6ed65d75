-- ===== src/Core/Tests.antt =====
-- A small run of internal/core: its verdict, its tallies and its counts.
use evident_output.Prelude.{
  Bool, true, false, not, ◌&&◌, ◌||◌, List, [], ◌∷◌, String, ◌≡◌, refl, if◌then◌else◌, is_empty,
}
use evident_output.Core.State.{EntityState, done, planned, indeterminate, unresolved}
use evident_output.Core.Snapshot.{
  TaxonomyRecord, TaskSnapshot, TasksSnapshot, tasks_snapshot, Collections, nil, cons,
  EffectSection, Snapshot, Fact,
}
use evident_output.Core.Tally.{tally_of}
use evident_output.Core.Shares.{WellFormed, names_under, names_with, tally_of_lem}
use evident_output.Core.Conclusion.{
  infer_conclusion, flag_collections, flag_tasks, exit_code_for, any_recorded, exit_ok, exit_failed,
  exit_blocked, exit_cancelled, is_blocked,
}
use evident_output.Core.Verdict.{
  any_root, is_failed, is_cancelled, is_incomplete, is_changed, is_planned, all_well,
  infer_conclusion-exit_code, infer_conclusion-headline,
}

abbrev kept_twice : List TaxonomyRecord
kept_twice =
    record { reason = "in use"; name = "a"; causes = [] }
    ∷ record { reason = "pinned"; name = "b"; causes = "policy" ∷ [] }
    ∷ record { reason = "in use"; name = "c"; causes = [] }
    ∷ []

abbrev task : String → EntityState → TaskSnapshot
task name state = record {
  id = name;
  key = name;
  name = name;
  state = state;
  phase = "";
  activity_at = 0;
  live_first_seen_at = 0;
  progress = record { kind = indeterminate; completed = 0; total = 0 };
  summary = "";
  problems = [];
  warnings = [];
  facts = [];
  verification = [];
  actions = [];
  skipped = [];
  kept = kept_twice;
  collection = "";
  declaration = 0;
  resolution = unresolved;
  synthetic = false;
}

abbrev finished : List TaskSnapshot
finished = task "fetch" done ∷ task "build" done ∷ []

abbrev waiting : List TaskSnapshot
waiting = task "deploy" EntityState.pending ∷ []

abbrev stopped : TasksSnapshot
stopped =
    tasks_snapshot
      (record {
        id = "c";
        key = "c";
        name = "release";
        state = EntityState.blocked;
        summary = "";
        sequential = true;
        declaration = 3;
      })
      waiting nil

abbrev wrote_files : EffectSection
wrote_files = record {
  id = "e";
  subject = "files";
  records = record { verb = "wrote"; quantity = 2; has_qty = true; object = "files" } ∷ [];
  intended_verb = "write";
  owner = "build";
}

abbrev run : List TaskSnapshot → Collections → Bool → Snapshot
run tasks collections dry_run = record {
  subject = "build";
  tasks = tasks;
  collections = collections;
  changes = wrote_files ∷ [];
  plans = [];
  lines = [];
  actions = [];
  dry_run = dry_run;
  warnings = [];
  facts = [];
}

abbrev stopped_run : Snapshot
stopped_run = run finished (cons stopped nil) false

abbrev rehearsed : Snapshot
rehearsed = run finished nil true

stopped_run-exit_code : (infer_conclusion stopped_run).exit_code ≡ 1
unfolding infer_conclusion flag_collections flag_tasks
stopped_run-exit_code = refl

rehearsed-state : (infer_conclusion rehearsed).state ≡ planned
unfolding infer_conclusion flag_collections flag_tasks any_recorded
rehearsed-state = refl

infer_conclusion-exit_code_example :
    ((infer_conclusion stopped_run).exit_code ≡ (
      if any_root is_failed stopped_run
      then exit_failed
      else if any_root is_blocked stopped_run
      then exit_blocked
      else if any_root is_cancelled stopped_run
      then exit_cancelled
      else exit_ok))
    × ((infer_conclusion stopped_run).partial ≡ any_root is_incomplete stopped_run)
    × ((infer_conclusion stopped_run).cancelled ≡ any_root is_cancelled stopped_run)
infer_conclusion-exit_code_example = infer_conclusion-exit_code stopped_run

infer_conclusion-headline_example :
    (is_changed (infer_conclusion rehearsed).state
      ≡ (all_well rehearsed && any_recorded rehearsed.changes && not rehearsed.dry_run))
    × ((is_planned (infer_conclusion rehearsed).state && not rehearsed.dry_run) ≡ (
        all_well rehearsed
        && not (any_recorded rehearsed.changes)
        && not (is_empty rehearsed.plans)
        && not rehearsed.dry_run))
    × ((not (
            all_well rehearsed
            && (any_recorded rehearsed.changes || not (is_empty rehearsed.plans))
            && rehearsed.dry_run)
          || is_planned (infer_conclusion rehearsed).state)
        ≡ true)
infer_conclusion-headline_example = infer_conclusion-headline rehearsed

rehearsed-exit_code :
    (infer_conclusion rehearsed).exit_code ≡ exit_code_for (infer_conclusion rehearsed).state
unfolding infer_conclusion
rehearsed-exit_code = refl

tally_of_lem_example :
    WellFormed (tally_of kept_twice)
    × ((tally_of kept_twice).total ≡ 3)
    × ((s : String) → names_under s (tally_of kept_twice).reasons ≡ names_with s kept_twice)
tally_of_lem_example = tally_of_lem kept_twice

abbrev owner : List Fact
owner = record { name = "owner"; value = "ci" } ∷ []

names_in_use : names_with "in use" kept_twice ≡ "a" ∷ "c" ∷ []
names_in_use = refl
