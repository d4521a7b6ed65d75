-- ===== src/Resource/Run.antt =====
-- Goroutines sharing the registry of internal/resource/registry.go, as interleavings of the three
-- operations that run under its lock.
use evident_output.Prelude.{ℕ, ◌+◌, ◌≤◌, List, [], ◌∷◌, ◌≡◌, refl, ap, arith, delete_func, ◌==◌}
use evident_output.Resource.Claim.{Claim, Hold}
use evident_output.Resource.Registry.{Registry, admit_locked, abandon, release, new_registry}
use evident_output.Resource.Rescan.{View, view, Stuck, release-rescan, grant_locked-rescan}
use evident_output.Resource.Exclusion.{
  Compatible, Inv, count_holds, count_ids, new_registry-Inv, admit_locked-Inv, release-Inv,
  abandon-Inv, rescan-count, Named-Agrees,
}

-- A hold's claim is fixed when it is made: `claim_of` is the claim of each identity. A hold that
-- arrives is new: nobody waits under its identity, and nobody was woken under it.
pub data Step (claim_of : ℕ → Claim) (r : Registry) (r' : Registry) : Type 0 where
  arrive :
      (h : Hold)
      → h.claim ≡ claim_of h.id
      → count_holds h.id r.queue + count_ids h.id r.woken ≡ 0
      → r' ≡ admit_locked r h
      → Step claim_of r r'
  finish : (h : Hold) → h.claim ≡ claim_of h.id → r' ≡ release r h → Step claim_of r r'
  give_up : (h : Hold) → h.claim ≡ claim_of h.id → r' ≡ abandon r h → Step claim_of r r'

pub data Reach (claim_of : ℕ → Claim) (r : Registry) : Registry → Type 0 where
  here : Reach claim_of r r
  next : {s t : Registry} → Reach claim_of r s → Step claim_of s t → Reach claim_of r t

module _ (claim_of : ℕ → Claim) where
  Step-Inv : {r r' : Registry} → Step claim_of r r' → Inv claim_of (view r) → Inv claim_of (view r')
  Step-Inv {r} (arrive h n fresh e) v = rw e (admit_locked-Inv claim_of r h n v fresh)
  Step-Inv {r} (finish h n e) v = rw e (release-Inv claim_of r h n v)
  Step-Inv {r} (give_up h n e) v = rw e (abandon-Inv claim_of r h n v)

  pub Reach-Inv : {r : Registry} → Reach claim_of new_registry r → Inv claim_of (view r)
  Reach-Inv here = new_registry-Inv claim_of
  Reach-Inv (next p s) = Step-Inv s (Reach-Inv p)

  -- In every state that goroutines can reach by arriving, releasing and giving up in any order, no
  -- two of the claims held at once conflict.
  pub held-Compatible : (r : Registry) → Reach claim_of new_registry r → Compatible r.held
  held-Compatible r p = (Reach-Inv p).apart

  -- In every reachable state each waiting claim conflicts with a held claim or with a claim waiting
  -- ahead of it: no grant is ever missed.
  pub queue-Stuck : (r : Registry) → Reach claim_of new_registry r → Stuck r.held r.queue
  queue-Stuck r p = (Reach-Inv p).stuck

  -- In every reachable state in which nothing is held, nobody waits.
  pub free-nobody_waits :
      (r : Registry) → Reach claim_of new_registry r → r.held ≡ [] → r.queue ≡ []
  free-nobody_waits r p e = no_waiter r.held r.queue e (queue-Stuck r p)
    where
      no_waiter : (held queue : List Hold) → held ≡ [] → Stuck held queue → queue ≡ []
      no_waiter held [] e s = refl
      no_waiter held (q ∷ queue) e (s, ss) = cc (s, e)

  -- In every reachable state each claim's channel was closed at most once, and that of a waiting
  -- claim not at all.
  pub woken_once :
      (r : Registry)
      → Reach claim_of new_registry r
      → (i : ℕ) → count_holds i r.queue + count_ids i r.woken ≤ 1
  woken_once r p i = (Reach-Inv p).once i

count_holds-delete_self :
    (h : Hold) (hs : List Hold) → count_holds h.id (delete_func (λ g. g.id == h.id) hs) ≡ 0
count_holds-delete_self h [] = refl
count_holds-delete_self h (g ∷ hs) = ground (arith, count_holds-delete_self h hs)

-- A claim that gives up is afterwards neither held nor waiting.
pub abandon-gone :
    (r : Registry) (h : Hold)
    → (count_holds h.id (abandon r h).held ≡ 0) × (count_holds h.id (abandon r h).queue ≡ 0)
unfolding abandon
abandon-gone r h =
    let p = λ (g : Hold). g.id == h.id in
    let e = grant_locked-rescan (record r {
      released = h.id ∷ r.released;
      queue = delete_func p r.queue;
      held = delete_func p r.held;
    }) in
    let n = (rescan-count h.id (delete_func p r.queue) (delete_func p r.held) [] r.woken).1 in
    let q = count_holds-delete_self h r.queue in
    let g = count_holds-delete_self h r.held in
    (
      omega (arith, ap (λ (v : View). count_holds h.id v.0) e, n, q, g),
      omega (arith, ap (λ (v : View). count_holds h.id v.1) e, n, q, g),
    )

-- A claim whose channel was closed is neither held nor waiting once it is released, in a registry
-- that satisfies the invariant, when the claim is that of its identity.
pub release-gone :
    (claim_of : ℕ → Claim) (r : Registry) (h : Hold)
    → Inv claim_of (view r)
    → h.claim ≡ claim_of h.id
    → count_ids h.id r.woken ≡ 1
    → (count_holds h.id (release r h).held ≡ 0) × (count_holds h.id (release r h).queue ≡ 0)
release-gone claim_of r h v named woken =
    let p = λ (g : Hold). g.id == h.id in
    let e = release-rescan r h v.stuck (Named-Agrees claim_of h r.held named v.held_named) in
    let n = (rescan-count h.id r.queue (delete_func p r.held) [] r.woken).1 in
    let g = count_holds-delete_self h r.held in
    let q = v.once h.id in
    (
      omega (arith, ap (λ (v : View). count_holds h.id v.0) e, n, q, g),
      omega (arith, ap (λ (v : View). count_holds h.id v.1) e, n, q, g),
    )
