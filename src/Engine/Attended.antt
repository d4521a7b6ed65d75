-- ===== src/Engine/Attended.antt =====
-- internal/engine: any sequence of steps of the scheduler returns, and leaves each parked Task with
-- something pending to wait for.
use evident_output.Prelude.{ℕ, ◌<◌, Bool, true, ◌&&◌, ◌||◌, [], ◌≡◌, ◌⊎◌}
use evident_output.Engine.CollectionTally.{pred_pending}
use evident_output.Engine.Eligibility.{task_outcome}
use evident_output.Engine.Accounted.{occurrences}
use evident_output.Engine.Awaited.{Awaited}
use evident_output.Engine.Schedule.{Layout, Sched, run_of, waits_parked}
use evident_output.Engine.Opened.{stays_open}
use evident_output.Engine.Woken.{WaitsFor}

-- Task `m` waits on a pending edge of collection `c`, and the membership that an open edge reads is not
-- taken as declared, unless the collection is sealed and `ended` says that its builder ended.
abbrev pub WaitsAt : (ℕ → Bool) → Sched → ℕ → ℕ → Type 0
WaitsAt ended s m c =
    WaitsFor (s.tally c) m
    × (0 < occurrences m (s.tally c).open_edges
        → (stays_open s.draining (s.tally c) || ended c && (s.tally c).sealed) ≡ true)

-- Task `m` is parked on a Task that may still succeed, or on a pending edge of a collection.
abbrev pub WaitsOn : Layout → (ℕ → Bool) → Sched → ℕ → Type 0
WaitsOn layout ended s m =
    ((b : ℕ) × (0 < occurrences m (s.dependents b))
      × (task_outcome (run_of layout s) b ≡ pred_pending))
    ⊎ ((c : ℕ) × WaitsAt ended s m c)

abbrev pub NoneForgotten : Layout → (ℕ → Bool) → Sched → Type 0
NoneForgotten layout ended s =
    (s.woken ≡ []) × ((m : ℕ) → waits_parked m s ≡ true → WaitsOn layout ended s m)
