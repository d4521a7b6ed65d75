-- ===== src/Render/Silent.antt =====
-- internal/core/zero_information.go: what a Task without information looks like.
use text.Mathlib.TextEquality.{eq_iff}
use evident_output.Prelude.{true, false, List, [], ◌∷◌, is_empty, ◌≡◌, ◌⊎◌, inl, inr, refl, arith}
use evident_output.Core.State.{EntityState, done, Resolution, no_work, already_satisfied}
use evident_output.Core.Snapshot.{TaskSnapshot}
use evident_output.Render.ZeroInformation.{is_done, is_no_op, is_zero_information_task}

-- The Task is done without work, is a Task of the program, and holds no text, no progress and no
-- record of anything.
pub record IsSilent (t : TaskSnapshot) : Type 0 where
  pub state : t.state ≡ done
  pub resolution : (t.resolution ≡ no_work) ⊎ (t.resolution ≡ already_satisfied)
  pub synthetic : t.synthetic ≡ false
  pub summary : t.summary ≡ ""
  pub phase : t.phase ≡ ""
  pub total : t.progress.total ≡ 0
  pub completed : t.progress.completed ≡ 0
  pub problems : t.problems ≡ []
  pub warnings : t.warnings ≡ []
  pub facts : t.facts ≡ []
  pub skipped : t.skipped ≡ []
  pub kept : t.kept ≡ []
  pub actions : t.actions ≡ []
  pub verification : t.verification ≡ []

is_done-done : (x : EntityState) → is_done x ≡ true → x ≡ done
is_done-done x h = ground (arith, h)

is_no_op-cases : (x : Resolution) → is_no_op x ≡ true → (x ≡ no_work) ⊎ (x ≡ already_satisfied)
is_no_op-cases no_work h = inl refl
is_no_op-cases already_satisfied h = inr refl
is_no_op-cases Resolution.unresolved h = absurd (cc h)
is_no_op-cases Resolution.executed h = absurd (cc h)

is_empty-nil : {A : Type 0} (xs : List A) → is_empty xs ≡ true → xs ≡ []
is_empty-nil [] h = refl
is_empty-nil (x ∷ xs) h = absurd (cc h)

pub is_zero_information_task-IsSilent :
    (t : TaskSnapshot) → is_zero_information_task t ≡ true → IsSilent t
unfolding is_zero_information_task
is_zero_information_task-IsSilent t h = record {
  state = is_done-done t.state (ground (arith, h));
  resolution = is_no_op-cases t.resolution (ground (arith, h));
  synthetic = ground (arith, h);
  summary = (eq_iff t.summary "").0 (ground (arith, h));
  phase = (eq_iff t.phase "").0 (ground (arith, h));
  total = ground (arith, h);
  completed = ground (arith, h);
  problems = is_empty-nil t.problems (ground (arith, h));
  warnings = is_empty-nil t.warnings (ground (arith, h));
  facts = is_empty-nil t.facts (ground (arith, h));
  skipped = is_empty-nil t.skipped (ground (arith, h));
  kept = is_empty-nil t.kept (ground (arith, h));
  actions = is_empty-nil t.actions (ground (arith, h));
  verification = is_empty-nil t.verification (ground (arith, h));
}
