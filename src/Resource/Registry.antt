-- ===== src/Resource/Registry.antt =====
-- internal/resource/registry.go: the registry that grants claims in arrival order. Each function
-- here runs under the registry's lock, so it is one indivisible step.
use evident_output.Prelude.{
  ℕ, ◌+◌, Bool, true, false, not, ◌&&◌, List, [], ◌∷◌, ◌++◌, Option, none, some, ◌==◌,
  if◌then◌else◌, delete_func, any, length,
}
use evident_output.Resource.Key.{key_eq}
use evident_output.Resource.Claim.{is_write, Claim, conflicts, Hold}

-- `released` and `woken` are the identities of the holds whose `released` flag is set and whose
-- `ready` channel is closed.
pub record Registry : Type 0 where
  pub held : List Hold
  pub queue : List Hold
  pub visits : ℕ
  pub released : List ℕ
  pub woken : List ℕ

unfoldable pub new_registry : Registry
new_registry = record { held = []; queue = []; visits = 0; released = []; woken = [] }

-- The two loops of `conflictsLocked`: `r.visits++` for each claim compared.
unfoldable pub scan : Claim → List Hold → ℕ → Bool × ℕ
scan c [] visits = (false, visits)
scan c (g ∷ gs) visits =
    let rest = scan c gs (visits + 1) in if conflicts g.claim c then (true, visits + 1) else rest

unfoldable pub conflicts_locked : Registry → Hold → List Hold → Bool × Registry
unfolding scan
conflicts_locked r h ahead =
    let (hit, visits) = scan h.claim r.held r.visits in
    if hit
    then (true, record r { visits = visits })
    else (let (hit', visits') = scan h.claim ahead visits in (hit', record r { visits = visits' }))

unfoldable pub grant : Registry → Hold → Registry
grant r h = record r { held = r.held ++ h ∷ []; woken = r.woken ++ h.id ∷ [] }

unfoldable pub admit_locked : Registry → Hold → Registry
unfolding conflicts_locked grant
admit_locked r h =
    let (blocked, r') = conflicts_locked r h r.queue in
    if blocked then record r' { queue = r'.queue ++ h ∷ [] } else grant r' h

unfoldable pub may_unblock : Registry → Hold → Claim → Bool × Registry
may_unblock r q released = (conflicts q.claim released, record r { visits = r.visits + 1 })

-- The test that ends the scan: a waiting write on the released key itself.
abbrev pub ends_scan : Option Claim → Hold → Bool
ends_scan none q = false
ends_scan (some released) q = is_write q.claim.mode && key_eq q.claim.key released.key

-- The test that skips a waiter, with the comparison it counts.
unfoldable pub skips : Option Claim → Hold → Registry → Bool × Registry
unfolding may_unblock
skips none q r = (false, r)
skips (some released) q r = let (may, r') = may_unblock r q released in (not may, r')

-- The loop of `regrantLocked` over what is left of the queue; `waiting` is the slice it rebuilds.
unfoldable pub regrant_loop : Option Claim → List Hold → Registry → List Hold → Registry
unfolding skips conflicts_locked grant
regrant_loop released [] r waiting = record r { queue = waiting }
regrant_loop released (q ∷ rest) r waiting =
    let (skip, r₁) = skips released q r in
    let (blocked, r₂) = conflicts_locked r₁ q waiting in
    let skipped = regrant_loop released rest r₁ (waiting ++ q ∷ []) in
    let granted = regrant_loop released rest (grant r₂ q) waiting in
    let kept = regrant_loop released rest r₂ (waiting ++ q ∷ []) in
    if skip
    then skipped
    else if not blocked
    then granted
    else if ends_scan released q
    then record r₂ { queue = (waiting ++ q ∷ []) ++ rest }
    else kept

unfoldable pub regrant_locked : Registry → Option Claim → Registry
unfolding regrant_loop
regrant_locked r released = regrant_loop released r.queue r []

unfoldable pub grant_locked : Registry → Registry
unfolding regrant_locked
grant_locked r = regrant_locked r none

unfoldable pub abandon : Registry → Hold → Registry
unfolding grant_locked
abandon r h = grant_locked (record r {
  released = h.id ∷ r.released;
  queue = delete_func (λ q. q.id == h.id) r.queue;
  held = delete_func (λ g. g.id == h.id) r.held;
})

unfoldable pub release : Registry → Hold → Registry
unfolding regrant_locked
release r h =
    regrant_locked
      (record r { released = h.id ∷ r.released; held = delete_func (λ g. g.id == h.id) r.held })
      (some h.claim)

unfoldable pub occupancy : Registry → ℕ × ℕ
occupancy r = (length r.held, length r.queue)

-- A receive from a hold's `ready` channel would not block.
abbrev pub is_ready : Registry → Hold → Bool
is_ready r h = any (λ i. i == h.id) r.woken

-- `h.released.Load()`
abbrev pub is_released : Registry → Hold → Bool
is_released r h = any (λ i. i == h.id) r.released
