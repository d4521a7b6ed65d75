-- ===== src/Engine/Woken.antt =====
-- internal/engine/collection_tally.go: settling a member wakes each Task whose edge it resolved.
use evident_output.Prelude.{
  ℕ, ◌<◌, List, [], ◌∷◌, ◌≡◌, ◌⊎◌, inl, inr, arith, ◌==◌, false, Bool-cases, All,
}
use evident_output.Engine.CollectionTally.{States, ParkedTask, CollectionTally, tasks_of, settle}
use evident_output.Engine.Accounted.{occurrences, waiting_as, settle-IsAccounted}
use evident_output.Engine.Awaited.{either_positive}
use evident_output.Engine.Unresolved.{IsUnresolved, settle-IsUnresolved}
use evident_output.Engine.Wakeups.{StillPending}

-- One of the parked Tasks is `i`, and its edge is neither resolved by success nor by a failure.
abbrev pub ParksPending : CollectionTally → ℕ → List ParkedTask → Type 0
ParksPending t i [] = ⊥
ParksPending t i (p ∷ ps) = ((p.st ≡ i) × StillPending t p) ⊎ ParksPending t i ps

-- Task `i` waits on an open edge while no member has failed, or on a closed one that is pending, and
-- no builder has failed.
abbrev pub WaitsFor : CollectionTally → ℕ → Type 0
WaitsFor t i =
    (t.builder_failed ≡ false)
    × (((0 < occurrences i t.open_edges) × (t.first_failed ≡ 0)) ⊎ ParksPending t i t.parked)

parks_pending :
    (t : CollectionTally) (i : ℕ) (ps : List ParkedTask)
    → All (StillPending t) ps
    → 0 < occurrences i (tasks_of ps)
    → ParksPending t i ps
parks_pending t i [] w h = absurd (omega (arith, h))
parks_pending t i (p ∷ ps) (w, ws) h = elim (Bool-cases (p.st == i)) [
  | inl e ↦ inl (ground (arith, e), w)
  | inr e ↦ inr (parks_pending t i ps ws (omega (arith, rw e at h)))
]

-- Whoever waits on a collection all of whose waiting edges are unresolved waits for a pending edge.
pub IsUnresolved-WaitsFor :
    (t : CollectionTally) (i : ℕ) → IsUnresolved t → 0 < waiting_as i t → WaitsFor t i
IsUnresolved-WaitsFor t i u h = (
  u.building i h,
  elim (either_positive (occurrences i t.open_edges) (occurrences i (tasks_of t.parked)) h) [
    | inl k ↦ inl (k, u.open_alive i k)
    | inr k ↦ inr (parks_pending t i t.parked u.none_missed.waiting k)
  ],
)

-- No wake-up is missed: where the Tasks that wait on a collection wait for unresolved edges, settling
-- a member wakes each of them or leaves it waiting for an edge that is still pending, and wakes no
-- Task that did not wait.
pub settle-WaitsFor :
    (σ : States) (t : CollectionTally) (st i : ℕ)
    → IsUnresolved t
    → (0 < waiting_as i t → (0 < occurrences i (settle σ t st).0) ⊎ WaitsFor (settle σ t st).1 i)
      × (0 < occurrences i (settle σ t st).0 → 0 < waiting_as i t)
settle-WaitsFor σ t st i u =
    let accounted = (settle-IsAccounted σ t st 0 false).0 i in
    (
      λ h.
          elim (either_positive (occurrences i (settle σ t st).0) (waiting_as i (settle σ t st).1)
            (omega (arith, h, accounted))) [
              | inl k ↦ inl k
              | inr k ↦
                  inr (IsUnresolved-WaitsFor (settle σ t st).1 i (settle-IsUnresolved σ t st u) k)
            ],
      λ h. omega (arith, h, accounted),
    )
