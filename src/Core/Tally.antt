-- ===== src/Core/Tally.antt =====
-- internal/core/tally.go: disposition records counted by reason.
use text.Mathlib.Text.{◌==◌ as str_eq}
use evident_output.Prelude.{
  ℕ, zero, suc, ◌+◌, ◌-◌, Bool, ◌&&◌, ◌||◌, not, List, [], ◌∷◌, ◌++◌, Option, none, some, String,
  ◌==◌, if◌then◌else◌, length, is_empty, any,
}
use evident_output.Core.Snapshot.{Fact, TaxonomyRecord, TaskSnapshot}

pub record ReasonTally : Type 0 where
  pub reason : String
  pub names : List String
  pub facts : List (List Fact)

-- The map `index` is an association list.
pub record Tally : Type 0 where
  pub reasons : List ReasonTally
  pub index : List (String × ℕ)
  pub causes : List String
  pub total : ℕ

abbrev pub empty_tally : Tally
empty_tally = record { reasons = []; index = []; causes = []; total = 0 }

unfoldable pub has_facts : ReasonTally → Bool
has_facts r = any (λ f. not (is_empty f)) r.facts

unfoldable pub lookup : String → List (String × ℕ) → Option ℕ
lookup s [] = none
lookup s ((k, i) ∷ m) = if str_eq k s then some i else lookup s m

-- The loop that appends empty entries until the facts are as many as `n`: `missing` rounds.
unfoldable pub pad_facts : ℕ → List (List Fact) → List (List Fact)
pad_facts zero fs = fs
pad_facts (suc missing) fs = pad_facts missing (fs ++ [] ∷ [])

-- The record's name and facts at the reason's entry `r`.
unfoldable pub add_to : String → List Fact → ReasonTally → ReasonTally
unfolding pad_facts
add_to name facts r =
    let names = r.names ++ name ∷ [] in
    record r {
      names = names;
      facts =
          if not (is_empty facts) || not (is_empty r.facts)
          then pad_facts (length names - 1 - length r.facts) r.facts ++ facts ∷ []
          else r.facts;
    }

-- `r := &t.reasons[i]` and the changes through that pointer.
unfoldable pub update_at : ℕ → (ReasonTally → ReasonTally) → List ReasonTally → List ReasonTally
update_at i f [] = []
update_at zero f (r ∷ rs) = f r ∷ rs
update_at (suc i) f (r ∷ rs) = r ∷ update_at i f rs

-- The entry for a reason: its place and the tally that has it.
unfoldable pub entry_of : String → Tally → ℕ × Tally
unfolding lookup
entry_of reason t = elim (lookup reason t.index) [
  | some i ↦ (i, t)
  | none ↦ (
    length t.reasons,
    record t {
      index = (reason, length t.reasons) ∷ t.index;
      reasons = t.reasons ++ record { reason = reason; names = []; facts = [] } ∷ [];
    },
  )
]

unfoldable pub add_item : Tally → TaxonomyRecord → List Fact → Tally
unfolding entry_of add_to update_at
add_item t rec facts =
    let (i, t') = entry_of rec.reason t in
    record t' {
      reasons = update_at i (add_to rec.name facts) t'.reasons;
      causes = t'.causes ++ rec.causes;
      total = t'.total + 1;
    }

unfoldable pub add : Tally → TaxonomyRecord → Tally
unfolding add_item
add t rec = add_item t rec []

unfoldable pub add_all : Tally → List TaxonomyRecord → Tally
unfolding add
add_all t [] = t
add_all t (rec ∷ records) = add_all (add t rec) records

unfoldable pub tally_of : List TaxonomyRecord → Tally
unfolding add_all
tally_of records = add_all empty_tally records

pub record Dispositions : Type 0 where
  pub skipped : Tally
  pub kept : Tally

unfoldable pub is_empty_dispositions : Dispositions → Bool
is_empty_dispositions d = d.skipped.total == 0 && d.kept.total == 0

-- The loop that adds each record with the Task's own facts.
unfoldable pub add_items : Tally → List TaxonomyRecord → List Fact → Tally
unfolding add_item
add_items t [] facts = t
add_items t (rec ∷ records) facts = add_items (add_item t rec facts) records facts

unfoldable pub add_task : Dispositions → TaskSnapshot → Dispositions
unfolding add_items
add_task d t = record {
  skipped = add_items d.skipped t.skipped t.facts;
  kept = add_items d.kept t.kept t.facts;
}
