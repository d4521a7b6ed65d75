-- ===== src/Core/Shares.antt =====
-- What a tally of internal/core/tally.go holds: the records, partitioned by reason.
use text.Mathlib.Text.{◌==◌ as str_eq}
use text.Mathlib.TextEquality.{eq_iff}
use evident_output.Prelude.{
  ℕ, zero, suc, ◌+◌, ◌-◌, ◌≤◌, true, ◌&&◌, List, [], ◌∷◌, ◌++◌, String, ◌==◌, ◌≡◌, refl, sym, ◌∙◌,
  ap, arith, if◌then◌else◌, length, length-append, is_empty, append_assoc, append-nil, inl, inr,
  ◌⊎◌, All, if_cases, ◌<◌,
}
use evident_output.Core.Snapshot.{Fact, TaxonomyRecord}
use evident_output.Core.Tally.{
  ReasonTally, Tally, empty_tally, lookup, entry_of, add_to, pad_facts, add_item, add, add_all,
  tally_of, add_items,
}
use evident_output.Core.Partition.{
  Indexed, add_walking, add_to-reason, add_item-walking, add_item-Indexed,
}

-- The names under a reason, in the tally and in the records.
abbrev pub names_under : String → List ReasonTally → List String
names_under s [] = []
names_under s (r ∷ rs) = if str_eq r.reason s then r.names else names_under s rs

abbrev pub names_with : String → List TaxonomyRecord → List String
names_with s [] = []
names_with s (rec ∷ records) =
    (if str_eq rec.reason s then rec.name ∷ [] else []) ++ names_with s records

abbrev pub count_names : List ReasonTally → ℕ
count_names [] = 0
count_names (r ∷ rs) = length r.names + count_names rs

-- How many entries a reason has.
abbrev pub count_entries : String → List ReasonTally → ℕ
count_entries s [] = 0
count_entries s (r ∷ rs) = (if str_eq r.reason s then 1 else 0) + count_entries s rs

-- A reason's item facts are absent, or one for each of its names.
abbrev pub IsAligned : ReasonTally → Type 0
IsAligned r = (is_empty r.facts ≡ true) ⊎ (length r.facts ≡ length r.names)

add_to-names :
    (name : String) (facts : List Fact) (r : ReasonTally)
    → (add_to name facts r).names ≡ r.names ++ name ∷ []
unfolding add_to
add_to-names name facts r = refl

names_under-add_walking :
    (s : String) (rec : TaxonomyRecord) (facts : List Fact) (rs : List ReasonTally)
    → names_under s (add_walking rec facts rs)
      ≡ names_under s rs ++ (if str_eq rec.reason s then rec.name ∷ [] else [])
unfolding add_walking
names_under-add_walking s rec facts [] =
    let r : ReasonTally = record { reason = rec.reason; names = []; facts = [] } in
    ground (arith, add_to-reason rec.name facts r, add_to-names rec.name facts r)
names_under-add_walking s rec facts (r ∷ rs) = ground (
  arith,
  names_under-add_walking s rec facts rs,
  eq_iff r.reason rec.reason,
  eq_iff r.reason s,
  eq_iff rec.reason s,
  append-nil r.names,
  add_to-reason rec.name facts r,
  add_to-names rec.name facts r,
  append-nil (names_under s rs),
)

count_names-add_walking :
    (rec : TaxonomyRecord) (facts : List Fact) (rs : List ReasonTally)
    → count_names (add_walking rec facts rs) ≡ count_names rs + 1
unfolding add_walking add_to
count_names-add_walking rec facts [] = refl
count_names-add_walking rec facts (r ∷ rs) =
    ground (arith, count_names-add_walking rec facts rs, length-append r.names (rec.name ∷ []))

count_entries-add_walking :
    (s : String) (rec : TaxonomyRecord) (facts : List Fact) (rs : List ReasonTally)
    → count_entries s (add_walking rec facts rs)
      ≡ count_entries s rs + (if str_eq rec.reason s && count_entries s rs == 0 then 1 else 0)
unfolding add_walking add_to
count_entries-add_walking s rec facts [] = ground arith
count_entries-add_walking s rec facts (r ∷ rs) = ground (
  arith,
  count_entries-add_walking s rec facts rs,
  eq_iff r.reason rec.reason,
  eq_iff r.reason s,
  eq_iff rec.reason s,
)

length-pad_facts :
    (missing : ℕ) (fs : List (List Fact)) → length (pad_facts missing fs) ≡ length fs + missing
unfolding pad_facts
length-pad_facts zero fs = omega arith
length-pad_facts (suc missing) fs =
    omega (arith, length-pad_facts missing (fs ++ [] ∷ []), length-append fs ([] ∷ []))

length-padded :
    (n : ℕ) (fs : List (List Fact)) (facts : List Fact)
    → length fs < n
    → length (pad_facts (n - 1 - length fs) fs ++ facts ∷ []) ≡ n
length-padded n fs facts lt = omega (
  arith,
  length-append (pad_facts (n - 1 - length fs) fs) (facts ∷ []),
  length-pad_facts (n - 1 - length fs) fs,
)

add_to-IsAligned :
    (name : String) (facts : List Fact) (r : ReasonTally)
    → IsAligned r
    → IsAligned (add_to name facts r)
unfolding add_to
add_to-IsAligned name facts r a = aligned facts r.facts a
  where
    aligned :
        (facts : List Fact) (fs : List (List Fact))
        → (is_empty fs ≡ true) ⊎ (length fs ≡ length r.names)
        → IsAligned (add_to name facts (record r { facts = fs }))
    aligned [] [] a' = inl refl
    aligned (f ∷ facts) [] a' =
        inr (length-padded _ [] (f ∷ facts) (omega (arith, length-append r.names (name ∷ []))))
    aligned facts (f ∷ fs) (inl a') = cc
    aligned [] (f ∷ fs) (inr a') =
        inr (length-padded _ (f ∷ fs) [] (omega (arith, length-append r.names (name ∷ []))))
    aligned (g ∷ facts) (f ∷ fs) (inr a') =
        inr
          (length-padded _ (f ∷ fs) (g ∷ facts) (omega (arith, length-append r.names (name ∷ []))))

All-IsAligned-add_walking :
    (rec : TaxonomyRecord) (facts : List Fact) (rs : List ReasonTally)
    → All IsAligned rs
    → All IsAligned (add_walking rec facts rs)
unfolding add_walking
All-IsAligned-add_walking rec facts [] a = (add_to-IsAligned rec.name facts _ (inl refl), tt)
All-IsAligned-add_walking rec facts (r ∷ rs) (a, as') =
    if_cases (All IsAligned) (str_eq r.reason rec.reason) _ _
      (λ _. (add_to-IsAligned rec.name facts r a, as'))
      (λ _. (a, All-IsAligned-add_walking rec facts rs as'))

-- The map is an index of the reasons, each of which has one entry; the total is the number of names;
-- and item facts stand beside their names.
pub record WellFormed (t : Tally) : Type 0 where
  pub indexed : Indexed t
  pub once : (s : String) → count_entries s t.reasons ≤ 1
  pub summed : t.total ≡ count_names t.reasons
  pub aligned : All IsAligned t.reasons

add_item-total :
    (t : Tally) (rec : TaxonomyRecord) (facts : List Fact)
    → (add_item t rec facts).total ≡ t.total + 1
unfolding add_item entry_of
add_item-total t rec facts = ground arith

pub add_item-WellFormed :
    (t : Tally) (rec : TaxonomyRecord) (facts : List Fact)
    → WellFormed t
    → WellFormed (add_item t rec facts)
add_item-WellFormed t rec facts w =
    let e = add_item-walking t rec facts w.indexed in
    record {
      indexed = add_item-Indexed t rec facts w.indexed;
      once = λ s. rw e (ground (arith, count_entries-add_walking s rec facts t.reasons, w.once s));
      summed = rw e (
          omega (
            arith,
            add_item-total t rec facts,
            count_names-add_walking rec facts t.reasons,
            w.summed,
          ));
      aligned = rw e (All-IsAligned-add_walking rec facts t.reasons w.aligned);
    }

empty_tally-WellFormed : WellFormed empty_tally
unfolding lookup
empty_tally-WellFormed = record {
  indexed = λ s. refl;
  once = λ s. omega arith;
  summed = refl;
  aligned = tt;
}

module _ (facts : List Fact) where
  -- Adding records to a well-formed tally keeps it well formed, adds their number to its total, and
  -- appends to the names under each reason those of the records with that reason, in their order.
  pub add_items_lem :
      (t : Tally) (records : List TaxonomyRecord)
      → WellFormed t
      → WellFormed (add_items t records facts)
        × ((add_items t records facts).total ≡ t.total + length records)
        × ((s : String)
            → names_under s (add_items t records facts).reasons
              ≡ names_under s t.reasons ++ names_with s records)
  unfolding add_items
  add_items_lem t [] w = (w, omega arith, λ s. sym (append-nil (names_under s t.reasons)))
  add_items_lem t (rec ∷ records) w =
      let t' = add_item t rec facts in
      let (w', n, names) = add_items_lem t' records (add_item-WellFormed t rec facts w) in
      (
        w',
        omega (arith, n, add_item-total t rec facts),
        λ s.
            names s
            ∙ ap (λ l. l ++ names_with s records)
                (ap (names_under s) (add_item-walking t rec facts w.indexed)
                  ∙ names_under-add_walking s rec facts t.reasons)
            ∙ append_assoc (names_under s t.reasons) _ (names_with s records),
      )

add_all-add_items :
    (t : Tally) (records : List TaxonomyRecord) → add_all t records ≡ add_items t records []
unfolding add_all add add_items
add_all-add_items t [] = refl
add_all-add_items t (rec ∷ records) = add_all-add_items (add_item t rec []) records

-- A tally of records counts them all, has one entry at most for each reason and under it exactly
-- the names of the records with that reason, in record order; and the shares sum to the total.
pub tally_of_lem :
    (records : List TaxonomyRecord)
    → WellFormed (tally_of records)
      × ((tally_of records).total ≡ length records)
      × ((s : String) → names_under s (tally_of records).reasons ≡ names_with s records)
unfolding tally_of
tally_of_lem records =
    let (w, n, names) = add_items_lem [] empty_tally records empty_tally-WellFormed in
    rw (add_all-add_items empty_tally records) (w, omega (arith, n), names)
