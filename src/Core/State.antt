-- ===== src/Core/State.antt =====
-- internal/core/state.go and internal/core/resolution.go: lifecycle states, headlines, measurements.
use evident_output.Prelude.{ℕ, Bool, true, false}

pub data EntityState : Type 0 where
  pending running done blocked failed skipped cancelled empty incomplete not_started : EntityState

pub data ConclusionState : Type 0 where
  ready changed warning blocked failed cancelled planned : ConclusionState

pub data ProgressKind : Type 0 where
  indeterminate determinate bytes_kind : ProgressKind

pub record Progress : Type 0 where
  pub kind : ProgressKind
  pub completed : ℕ
  pub total : ℕ

unfoldable pub is_terminal_task : EntityState → Bool
is_terminal_task done = true
is_terminal_task EntityState.blocked = true
is_terminal_task EntityState.failed = true
is_terminal_task EntityState.cancelled = true
is_terminal_task skipped = true
is_terminal_task not_started = true
is_terminal_task _ = false

-- `unresolved` is the empty string of a Task that has not settled.
pub data Resolution : Type 0 where
  unresolved executed already_satisfied no_work : Resolution
