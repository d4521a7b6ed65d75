-- ===== src/Resource/Exclusion.antt =====
-- What holds of the registry of internal/resource/registry.go between two of its operations.
use evident_output.Prelude.{
  ℕ, ◌+◌, ◌≤◌, Bool, true, false, ◌||◌, List, [], ◌∷◌, ◌++◌, ◌≡◌, refl, sym, ◌∙◌, ap, arith,
  if◌then◌else◌, Bool-cases, All, delete_func, ◌==◌, inl, inr,
}
use evident_output.Resource.Claim.{Claim, Hold, conflicts_comm, any_conflict, any_conflict-append}
use evident_output.Resource.Registry.{Registry, admit_locked, abandon, release, new_registry}
use evident_output.Resource.Rescan.{
  View, view, rescan, Stuck, Agrees, release-rescan, grant_locked-rescan, admit_locked-view,
}

-- No two of the holds conflict.
abbrev pub Compatible : List Hold → Type 0
Compatible [] = Unit
Compatible (h ∷ hs) = (any_conflict h.claim hs ≡ false) × Compatible hs

-- Each hold makes the claim that its identity stands for: a hold's claim never changes.
abbrev pub Named : (ℕ → Claim) → List Hold → Type 0
Named claim_of = All (λ g. g.claim ≡ claim_of g.id)

-- How many of the holds, or of the identities, are `i`.
abbrev pub count_holds : ℕ → List Hold → ℕ
count_holds i [] = 0
count_holds i (h ∷ hs) = (if h.id == i then 1 else 0) + count_holds i hs

abbrev pub count_ids : ℕ → List ℕ → ℕ
count_ids i [] = 0
count_ids i (j ∷ js) = (if j == i then 1 else 0) + count_ids i js

pub record Inv (claim_of : ℕ → Claim) (v : View) : Type 0 where
  pub apart : Compatible v.0
  pub stuck : Stuck v.0 v.1
  pub held_named : Named claim_of v.0
  pub queue_named : Named claim_of v.1
  pub once : (i : ℕ) → count_holds i v.1 + count_ids i v.2 ≤ 1

Compatible-snoc :
    (hs : List Hold) (q : Hold)
    → Compatible hs
    → any_conflict q.claim hs ≡ false
    → Compatible (hs ++ q ∷ [])
Compatible-snoc [] q c e = (refl, tt)
Compatible-snoc (h ∷ hs) q (c, cs) e = (
  ground (arith, any_conflict-append h.claim hs (q ∷ []), conflicts_comm q.claim h.claim),
  Compatible-snoc hs q cs (ground arith),
)

Stuck-mono :
    (ahead ahead' rest : List Hold)
    → ((c : Claim) → any_conflict c ahead ≡ true → any_conflict c ahead' ≡ true)
    → Stuck ahead rest
    → Stuck ahead' rest
Stuck-mono ahead ahead' [] f s = tt
Stuck-mono ahead ahead' (q ∷ rest) f (s, ss) =
    (f q.claim s, Stuck-mono (q ∷ ahead) (q ∷ ahead') rest (λ c e. ground (arith, f c)) ss)

Stuck-snoc :
    (ahead rest : List Hold) (q : Hold)
    → Stuck ahead rest
    → (any_conflict q.claim ahead || any_conflict q.claim rest) ≡ true
    → Stuck ahead (rest ++ q ∷ [])
Stuck-snoc ahead [] q s e = (ground arith, tt)
Stuck-snoc ahead (w ∷ rest) q (s, ss) e = (s, Stuck-snoc (w ∷ ahead) rest q ss (ground arith))

Stuck-grant : (held rest : List Hold) (q : Hold) → Stuck held rest → Stuck (held ++ q ∷ []) rest
Stuck-grant held rest q =
    Stuck-mono held (held ++ q ∷ []) rest
      (λ c e. ground (arith, any_conflict-append c held (q ∷ [])))

Named-snoc :
    (claim_of : ℕ → Claim) (hs : List Hold) (q : Hold)
    → Named claim_of hs
    → q.claim ≡ claim_of q.id
    → Named claim_of (hs ++ q ∷ [])
Named-snoc claim_of [] q n e = (e, tt)
Named-snoc claim_of (h ∷ hs) q (n, ns) e = (n, Named-snoc claim_of hs q ns e)

count_holds-snoc :
    (i : ℕ) (hs : List Hold) (q : Hold)
    → count_holds i (hs ++ q ∷ []) ≡ count_holds i hs + (if q.id == i then 1 else 0)
count_holds-snoc i [] q = omega arith
count_holds-snoc i (h ∷ hs) q = omega (arith, count_holds-snoc i hs q)

count_ids-snoc :
    (i : ℕ) (js : List ℕ) (j : ℕ)
    → count_ids i (js ++ j ∷ []) ≡ count_ids i js + (if j == i then 1 else 0)
count_ids-snoc i [] j = omega arith
count_ids-snoc i (k ∷ js) j = omega (arith, count_ids-snoc i js j)

-- A pass moves claims from the queue to the held list and to the woken, and neither loses nor
-- doubles one.
pub rescan-count :
    (i : ℕ) (rest held waiting : List Hold) (woken : List ℕ)
    → (count_holds i (rescan rest held woken waiting).1
          + count_ids i (rescan rest held woken waiting).2
        ≡ count_holds i waiting + count_holds i rest + count_ids i woken)
      × (count_holds i (rescan rest held woken waiting).1
            + count_holds i (rescan rest held woken waiting).0
          ≡ count_holds i waiting + count_holds i rest + count_holds i held)
unfolding rescan
rescan-count i [] held waiting woken = omega arith
rescan-count i (q ∷ rest) held waiting woken = ground (
  arith,
  rescan-count i rest held (waiting ++ q ∷ []) woken,
  rescan-count i rest (held ++ q ∷ []) waiting (woken ++ q.id ∷ []),
  count_holds-snoc i waiting q,
  count_holds-snoc i held q,
  count_ids-snoc i woken q.id,
)

module _ (claim_of : ℕ → Claim) where
  rescan-order :
      (rest held waiting : List Hold) (woken : List ℕ)
      → Compatible held
      → Stuck held waiting
      → Named claim_of held
      → Named claim_of waiting
      → Named claim_of rest
      → let v = rescan rest held woken waiting in
        Compatible v.0 × Stuck v.0 v.1 × Named claim_of v.0 × Named claim_of v.1
  unfolding rescan
  rescan-order [] held waiting woken c s nh nw nr = (c, s, nh, nw)
  rescan-order (q ∷ rest) held waiting woken c s nh nw (n, ns) =
      elim (Bool-cases (any_conflict q.claim held || any_conflict q.claim waiting)) [
        | inl blocked ↦ rw blocked (
            rescan-order rest held (waiting ++ q ∷ []) woken c (Stuck-snoc held waiting q s blocked)
              nh (Named-snoc claim_of waiting q nw n) ns)
        | inr free ↦ rw free (
            rescan-order rest (held ++ q ∷ []) waiting (woken ++ q.id ∷ [])
              (Compatible-snoc held q c (ground arith)) (Stuck-grant held waiting q s)
              (Named-snoc claim_of held q nh n) nw ns)
      ]

  rescan-Inv :
      (queue held : List Hold) (woken : List ℕ)
      → Compatible held
      → Named claim_of held
      → Named claim_of queue
      → ((i : ℕ) → count_holds i queue + count_ids i woken ≤ 1)
      → Inv claim_of (rescan queue held woken [])
  rescan-Inv queue held woken c nh nq once =
      let (c', s', nh', nq') = rescan-order queue held [] woken c tt nh tt nq in
      record {
        apart = c';
        stuck = s';
        held_named = nh';
        queue_named = nq';
        once = λ i. omega (arith, rescan-count i queue held [] woken, once i);
      }

-- What deleting a hold keeps.
any_conflict-delete_false :
    (p : Hold → Bool) (c : Claim) (hs : List Hold)
    → any_conflict c hs ≡ false
    → any_conflict c (delete_func p hs) ≡ false
any_conflict-delete_false p c [] e = refl
any_conflict-delete_false p c (h ∷ hs) e = ground (arith, any_conflict-delete_false p c hs)

Compatible-delete :
    (p : Hold → Bool) (hs : List Hold) → Compatible hs → Compatible (delete_func p hs)
Compatible-delete p [] c = tt
Compatible-delete p (h ∷ hs) (c, cs) = elim (Bool-cases (p h)) [
  | inl e ↦ rw e (Compatible-delete p hs cs)
  | inr e ↦ rw e (any_conflict-delete_false p h.claim hs c, Compatible-delete p hs cs)
]

Named-delete :
    (claim_of : ℕ → Claim) (p : Hold → Bool) (hs : List Hold)
    → Named claim_of hs
    → Named claim_of (delete_func p hs)
Named-delete claim_of p [] n = tt
Named-delete claim_of p (h ∷ hs) (n, ns) = elim (Bool-cases (p h)) [
  | inl e ↦ rw e (Named-delete claim_of p hs ns)
  | inr e ↦ rw e (n, Named-delete claim_of p hs ns)
]

count_holds-delete :
    (i : ℕ) (p : Hold → Bool) (hs : List Hold) → count_holds i (delete_func p hs) ≤ count_holds i hs
count_holds-delete i p [] = omega arith
count_holds-delete i p (h ∷ hs) = ground (arith, count_holds-delete i p hs)

pub Named-Agrees :
    (claim_of : ℕ → Claim) (h : Hold) (hs : List Hold)
    → h.claim ≡ claim_of h.id
    → Named claim_of hs
    → Agrees h hs
Named-Agrees claim_of h [] e n = tt
Named-Agrees claim_of h (g ∷ hs) e (n, ns) =
    (λ s. n ∙ (ap claim_of s ∙ sym e), Named-Agrees claim_of h hs e ns)

-- A new registry satisfies the invariant.
pub new_registry-Inv : (claim_of : ℕ → Claim) → Inv claim_of (view new_registry)
unfolding new_registry
new_registry-Inv claim_of = record {
  apart = tt;
  stuck = tt;
  held_named = tt;
  queue_named = tt;
  once = λ i. omega arith;
}

module _ (claim_of : ℕ → Claim) (r : Registry) (h : Hold) (named : h.claim ≡ claim_of h.id) where
  -- A claim that arrives with an identity of its own keeps the invariant, granted or queued.
  pub admit_locked-Inv :
      Inv claim_of (view r)
      → count_holds h.id r.queue + count_ids h.id r.woken ≡ 0
      → Inv claim_of (view (admit_locked r h))
  admit_locked-Inv v fresh =
      rw admit_locked-view
        (elim (Bool-cases (any_conflict h.claim r.held || any_conflict h.claim r.queue)) [
          | inl blocked ↦ rw blocked (record {
            apart = v.apart;
            stuck = Stuck-snoc r.held r.queue h v.stuck blocked;
            held_named = v.held_named;
            queue_named = Named-snoc claim_of r.queue h v.queue_named named;
            once = λ i. ground (arith, v.once i, count_holds-snoc i r.queue h);
          })
          | inr free ↦ rw free (record {
            apart = Compatible-snoc r.held h v.apart (ground arith);
            stuck = Stuck-grant r.held r.queue h v.stuck;
            held_named = Named-snoc claim_of r.held h v.held_named named;
            queue_named = v.queue_named;
            once = λ i. ground (arith, v.once i, count_ids-snoc i r.woken h.id);
          })
        ])

  -- Releasing a claim keeps the invariant, by the scan that skips and stops early.
  pub release-Inv : Inv claim_of (view r) → Inv claim_of (view (release r h))
  release-Inv v =
      rw (release-rescan r h v.stuck (Named-Agrees claim_of h r.held named v.held_named)) (
        rescan-Inv claim_of r.queue _ r.woken (Compatible-delete _ r.held v.apart)
          (Named-delete claim_of _ r.held v.held_named) v.queue_named v.once)

  -- So does withdrawing a claim whose context ended.
  pub abandon-Inv : Inv claim_of (view r) → Inv claim_of (view (abandon r h))
  unfolding abandon
  abandon-Inv v = rw grant_locked-rescan (
      rescan-Inv claim_of _ _ r.woken (Compatible-delete _ r.held v.apart)
        (Named-delete claim_of _ r.held v.held_named)
        (Named-delete claim_of _ r.queue v.queue_named)
        (λ i. omega (arith, v.once i, count_holds-delete i (λ q. q.id == h.id) r.queue)))
