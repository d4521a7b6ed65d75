-- ===== src/Resource/Leak.antt =====
-- No path through an acquisition of internal/resource/registry.go leaks its claim.
use evident_output.Prelude.{
  ℕ, ◌≤◌, true, List, [], ◌∷◌, none, some, ◌≡◌, arith, any, ◌==◌, if◌then◌else◌,
}
use evident_output.Resource.Claim.{Claim, Hold}
use evident_output.Resource.Registry.{Registry, admit_locked, is_ready, is_released}
use evident_output.Resource.Rescan.{view}
use evident_output.Resource.Exclusion.{Inv, count_holds, count_ids, admit_locked-Inv}
use evident_output.Resource.Run.{release-gone, abandon-gone}
use evident_output.Resource.Hold.{Wake, ready, Context, nested, check_free, hold}

-- Nothing of the registry's lists names the hold.
abbrev pub IsGone : Hold → Registry → Type 0
IsGone h r = (count_holds h.id r.held ≡ 0) × (count_holds h.id r.queue ≡ 0)

-- The invariant, and that the hold's channel is closed.
abbrev pub IsGranted : (ℕ → Claim) → Hold → Registry → Type 0
IsGranted claim_of h r = Inv claim_of (view r) × (count_ids h.id r.woken ≡ 1)

count_ids-any : (i : ℕ) (js : List ℕ) → any (λ j. j == i) js ≡ true → 1 ≤ count_ids i js
count_ids-any i [] e = ground arith
count_ids-any i (j ∷ js) e = ground (arith, count_ids-any i js)

is_ready-IsGranted :
    (claim_of : ℕ → Claim) (r : Registry) (h : Hold)
    → Inv claim_of (view r)
    → is_ready r h ≡ true
    → IsGranted claim_of h r
is_ready-IsGranted claim_of r h v e = (v, omega (arith, v.once h.id, count_ids-any h.id r.woken e))

-- The other goroutines keep the invariant, and wake this one only by closing its channel.
pub record IsFair (claim_of : ℕ → Claim) (h : Hold) (env : Registry → Registry × Wake)
    : Type 0 where
  pub keeps : (r : Registry) → Inv claim_of (view r) → Inv claim_of (view (env r).0)
  pub wakes : (r : Registry) → (env r).1 ≡ ready → is_ready (env r).0 h ≡ true

module _ {R : Type 0} (claim_of : ℕ → Claim) (r : Registry) (ctx : Context) (h : Hold) where
  -- However an acquisition goes (the context ended before it, the claim was granted at once or after
  -- a wait, or the context ended during the wait), its claim is neither held nor waiting when it
  -- returns. The claim is new and makes its identity's claim, the registry satisfies the invariant,
  -- other goroutines keep it and wake the waiter only by closing its channel, and the callback keeps
  -- it and does not reopen the channel.
  pub hold-IsGone :
      (env : Registry → Registry × Wake) (fn : Context → Registry → Registry × R)
      → h.claim ≡ claim_of h.id
      → Inv claim_of (view r)
      → IsGone h r
      → count_ids h.id r.woken ≡ 0
      → IsFair claim_of h env
      → ((c : Context) (s : Registry) → IsGranted claim_of h s → IsGranted claim_of h (fn c s).0)
      → IsGone h (hold r ctx h env fn).0
  unfolding hold
  hold-IsGone env fn named v gone fresh fair keeps =
      let admitted = admit_locked r h in
      let later = env admitted in
      let c = record ctx { holds = some h } in
      let va = admit_locked-Inv claim_of r h named v (omega (arith, gone.1, fresh)) in
      let release_of = λ (s : Registry) (g : IsGranted claim_of h s).
        (let (w, n) = keeps c s g in release-gone claim_of (fn c s).0 h w named n) in
      ground (
        arith,
        abandon-gone later.0 h,
        λ (e : is_ready admitted h ≡ true).
            release_of admitted (is_ready-IsGranted claim_of admitted h va e),
        λ (e : later.1 ≡ ready). release_of later.0 (
            is_ready-IsGranted claim_of later.0 h (fair.keeps admitted va) (fair.wakes admitted e)),
      )

-- A context that carries a live claim is refused, and the refusal names that claim; one whose claim
-- was released is free.
pub check_free_iff :
    (r : Registry) (ctx : Context) (h : Hold)
    → ctx.holds ≡ some h
    → check_free r ctx ≡ (if is_released r h then none else some (nested h))
unfolding check_free
check_free_iff r ctx h e = ground arith
