-- ===== src/Engine/Depth.antt =====
-- internal/engine/eligibility.go: how deep the entries of collections lead.
use evident_output.Prelude.{
  ℕ, zero, suc, ◌<◌, ◌≤◌, not, ◌&&◌, ◌||◌, List, [], ◌∷◌, Option, none, some, ◌≡◌, refl, sym, ◌∙◌,
  ap, arith, if_cases, ◌==◌, All, All_mono,
}
use evident_output.Engine.CollectionTally.{
  PredOutcome, pred_pending, pred_succeeded, pred_failed, is_pred_failed,
}
use evident_output.Engine.Eligibility.{
  Predecessor, task, collection, undeclared, Run, Answer, collection_outcome, first_pending,
  entry_outcome, outcome, eligible,
}
use evident_output.Engine.CollectionTally.{has_member_through, failed_through, succeeded_through}
use evident_output.Engine.Eligibility.{edge_cursor}
use evident_output.Engine.Verdicts.{all_done, eligible-all_done}

-- The depth of nested entries: an edge's collection stands below `n`, and each entry below its own
-- collection.
abbrev pub IsBelow : (ℕ → ℕ) → ℕ → Predecessor → Type 0
IsBelow rank n (task m) = Unit
IsBelow rank n (collection c through) = rank c < n
IsBelow rank n undeclared = Unit

abbrev pub IsRanked : Run → (ℕ → ℕ) → Type 0
IsRanked r rank = (c : ℕ) → All (IsBelow rank (rank c)) (r.entry c)

abbrev pub IsSome : {A : Type 0} → Option A → Type 0
IsSome {A} x = (a : A) × (x ≡ some a)

-- An answer, or that nothing is known of `p`.
abbrev pub given : Predecessor → Option Answer → Answer
given p none = (pred_pending, p)
given p (some a) = a

module _ (r : Run) (rank : ℕ → ℕ) (ranked : IsRanked r rank) where
  entry_outcome-IsSome :
      (f : Predecessor → Option Answer) (ps : List Predecessor) (found : Answer)
      → All (λ p. IsSome (f p)) ps
      → IsSome (entry_outcome f ps found)
  unfolding entry_outcome
  entry_outcome-IsSome f [] found a = (found, refl)
  entry_outcome-IsSome f (p ∷ ps) found ((x, e), a) =
      rw (e, entry_outcome)
        (if_cases IsSome (is_pred_failed x.0) _ _ (λ _. ((pred_failed, x.1), refl))
          (λ _. entry_outcome-IsSome f ps (first_pending x found) a))

  collection_outcome-IsSome :
      (of_entry : Option Answer) (c through : ℕ)
      → IsSome of_entry
      → IsSome (collection_outcome of_entry r c through)
  unfolding collection_outcome
  collection_outcome-IsSome of_entry c through h =
      let t = r.tally c in
      let (cursor, is_open) = edge_cursor r c through in
      if_cases IsSome t.builder_failed _ _ (λ _. (_, refl))
        (λ _.
          if_cases IsSome
            (is_open && not (t.first_failed == 0) || not is_open && failed_through t cursor) _ _
            (λ _. (_, refl))
            (λ _.
              if_cases IsSome is_open _ _ (λ _. (_, refl))
                (λ _.
                  if_cases IsSome (not (has_member_through t cursor)) _ _ (λ _. h)
                    (λ _.
                      if_cases IsSome (succeeded_through t cursor) _ _ (λ _. (_, refl))
                        (λ _. (_, refl))))))

  IsBelow-mono : {m n : ℕ} (p : Predecessor) → IsBelow rank m p → m ≤ n → IsBelow rank n p
  IsBelow-mono (task i) h le = tt
  IsBelow-mono (collection c through) h le = ground (arith, h, le)
  IsBelow-mono undeclared h le = tt

  -- Fuel above the depth of a predecessor is enough.
  pub outcome-IsSome :
      (fuel : ℕ) (p : Predecessor) → IsBelow rank fuel p → IsSome (outcome fuel r p)
  unfolding outcome
  outcome-IsSome fuel (task m) h = (_, refl)
  outcome-IsSome fuel undeclared h = (_, refl)
  outcome-IsSome zero (collection c through) h = absurd (ground (arith, h))
  outcome-IsSome (suc fuel) (collection c through) h = collection_outcome-IsSome _ c through (
      entry_outcome-IsSome (outcome fuel r) (r.entry c) (pred_succeeded, undeclared)
        (All_mono (IsBelow rank (rank c)) _ (r.entry c)
          (λ p below. outcome-IsSome fuel p (IsBelow-mono p below (ground (arith, h)))) (ranked c)))

  -- What a predecessor is worth with this fuel.
  abbrev pub worth : ℕ → Predecessor → PredOutcome
  worth fuel p = (given p (outcome fuel r p)).0

  pub answers :
      (fuel : ℕ) (p : Predecessor)
      → IsSome (outcome fuel r p)
      → outcome fuel r p ≡ some (given p (outcome fuel r p))
  answers fuel p (a, e) = e ∙ ap (λ x. some (given p x)) (sym e)

  -- Whether a Task may start is decided with fuel above the depth of its predecessors, where each
  -- collection's entry stands below the collection: it may exactly when the outcome of every
  -- predecessor is success.
  pub eligible-decided :
      (fuel : ℕ) (ps : List Predecessor)
      → All (IsBelow rank fuel) ps
      → eligible (outcome fuel r) ps ≡ some (all_done (worth fuel) ps)
  eligible-decided fuel ps below =
      eligible-all_done (outcome fuel r) (worth fuel) (λ p. (given p (outcome fuel r p)).1) ps
        (All_mono (IsBelow rank fuel) _ ps (λ p h. answers fuel p (outcome-IsSome fuel p h)) below)
