-- ===== src/Core/Partition.antt =====
-- The index of internal/core/tally.go against a plain walk over the reasons, and the partition that
-- results.
use text.Mathlib.Text.{◌==◌ as str_eq}
use text.Mathlib.TextEquality.{eq_iff}
use evident_output.Prelude.{
  ℕ, zero, suc, List, [], ◌∷◌, ◌++◌, Option, none, some, String, ◌≡◌, refl, sym, ◌∙◌, ap, arith,
  if◌then◌else◌, length, inl, inr, Option-cases,
}
use evident_output.Core.Snapshot.{Fact, TaxonomyRecord}
use evident_output.Core.Tally.{ReasonTally, Tally, lookup, add_to, update_at, entry_of, add_item}

abbrev pub next_index : Option ℕ → Option ℕ
next_index none = none
next_index (some i) = some (suc i)

-- The first entry for a reason, found by walking.
abbrev pub position : String → List ReasonTally → Option ℕ
position s [] = none
position s (r ∷ rs) = if str_eq r.reason s then some 0 else next_index (position s rs)

abbrev new_reason : String → ReasonTally
new_reason s = record { reason = s; names = []; facts = [] }

-- A record added by walking to its reason's entry, or to the end.
unfoldable pub add_walking : TaxonomyRecord → List Fact → List ReasonTally → List ReasonTally
add_walking rec facts [] = add_to rec.name facts (new_reason rec.reason) ∷ []
add_walking rec facts (r ∷ rs) =
    if str_eq r.reason rec.reason
    then add_to rec.name facts r ∷ rs
    else r ∷ add_walking rec facts rs

-- The index sends each reason to its entry.
abbrev pub Indexed : Tally → Type 0
Indexed t = (s : String) → lookup s t.index ≡ position s t.reasons

update_at-found :
    (rec : TaxonomyRecord) (facts : List Fact) (rs : List ReasonTally) (i : ℕ)
    → position rec.reason rs ≡ some i
    → update_at i (add_to rec.name facts) rs ≡ add_walking rec facts rs
unfolding update_at add_walking
update_at-found rec facts [] i e = ground arith
update_at-found rec facts (r ∷ rs) zero e = ground arith
update_at-found rec facts (r ∷ rs) (suc i) e = ground (arith, update_at-found rec facts rs i)

update_at-new :
    (rec : TaxonomyRecord) (facts : List Fact) (rs : List ReasonTally)
    → position rec.reason rs ≡ none
    → update_at (length rs) (add_to rec.name facts) (rs ++ new_reason rec.reason ∷ [])
      ≡ add_walking rec facts rs
unfolding update_at add_walking
update_at-new rec facts [] e = refl
update_at-new rec facts (r ∷ rs) e = ground (arith, update_at-new rec facts rs)

pub add_to-reason :
    (name : String) (facts : List Fact) (r : ReasonTally) → (add_to name facts r).reason ≡ r.reason
unfolding add_to
add_to-reason name facts r = refl

-- Walking adds no entry for a reason that has one, and one at the end for a reason that has none.
position-add_walking :
    (s : String) (rec : TaxonomyRecord) (facts : List Fact) (rs : List ReasonTally)
    → position s (add_walking rec facts rs) ≡ (elim (position rec.reason rs) [
      | some i ↦ position s rs
      | none ↦ elim (position s rs) [
        | some i ↦ some i
        | none ↦ if str_eq rec.reason s then some (length rs) else none
      ]
    ])
unfolding add_walking
position-add_walking s rec facts [] =
    ground (arith, add_to-reason rec.name facts (new_reason rec.reason))
position-add_walking s rec facts (r ∷ rs) = ground (
  arith,
  add_to-reason rec.name facts r,
  position-add_walking s rec facts rs,
  eq_iff r.reason rec.reason,
  eq_iff r.reason s,
  eq_iff rec.reason s,
)

-- One record: the map lookup finds what a walk finds, and the map stays an index.
pub add_item-walking :
    (t : Tally) (rec : TaxonomyRecord) (facts : List Fact)
    → Indexed t
    → (add_item t rec facts).reasons ≡ add_walking rec facts t.reasons
unfolding add_item entry_of
add_item-walking t rec facts ix = elim (Option-cases (position rec.reason t.reasons)) [
  | inl e ↦ ground (arith, ix rec.reason, update_at-new rec facts t.reasons e)
  | inr (i, e) ↦ ground (arith, ix rec.reason, update_at-found rec facts t.reasons i e)
]

add_item-lookup :
    (t : Tally) (rec : TaxonomyRecord) (facts : List Fact) (s : String)
    → Indexed t
    → lookup s (add_item t rec facts).index ≡ (elim (position rec.reason t.reasons) [
      | some i ↦ position s t.reasons
      | none ↦ elim (position s t.reasons) [
        | some i ↦ some i
        | none ↦ if str_eq rec.reason s then some (length t.reasons) else none
      ]
    ])
unfolding add_item entry_of lookup
add_item-lookup t rec facts s ix = ground (
  arith,
  ix s,
  ix rec.reason,
  eq_iff rec.reason s,
  λ (e : rec.reason ≡ s). ap (λ k. position k t.reasons) e,
)

pub add_item-Indexed :
    (t : Tally) (rec : TaxonomyRecord) (facts : List Fact)
    → Indexed t
    → Indexed (add_item t rec facts)
add_item-Indexed t rec facts ix s =
    rw (add_item-walking t rec facts ix)
      (add_item-lookup t rec facts s ix ∙ sym (position-add_walking s rec facts t.reasons))
