-- ===== src/Engine/Kept.antt =====
-- internal/engine/eligibility.go: what the scan forgets of a Task's predecessors.
use evident_output.Prelude.{
  ℕ, true, false, ◌&&◌, ◌||◌, List, [], ◌∷◌, ◌++◌, Option, none, some, ◌≡◌, inl, inr, refl, ◌∙◌, ap,
  arith, if_cases, Bool-cases, subst,
}
use evident_output.Engine.CollectionTally.{
  PredOutcome, pred_succeeded, is_succeeded, is_pred_failed,
}
use evident_output.Engine.Eligibility.{
  Predecessor, task, collection, undeclared, Answer, first_pending, PredScan, stops, Scan, kept_one,
  with_kept, scan_preds, preds_outcome,
}
use evident_output.Engine.Verdicts.{all_done, some_lost, whole_outcome, Answers}

-- What is kept of the predecessors says later what all of them say, as long as a Task that succeeded
-- stays so.
module _ (outcome : Predecessor → Option Answer) (o later : Predecessor → PredOutcome)
    (parked : Predecessor → Predecessor)
    (stays : (m : ℕ)
      → is_succeeded (o (task m)) ≡ true
      → is_succeeded (later (task m)) ≡ true) where
  abbrev SaysSame : List Predecessor → List Predecessor → Type 0
  SaysSame ks ps =
      (all_done later ks ≡ all_done later ps) × (some_lost later ks ≡ some_lost later ps)

  abbrev KeepsEnough : Option Scan → List Predecessor → Type 0
  KeepsEnough none ps = ⊥
  KeepsEnough (some s) ps = SaysSame s.kept ps

  SaysSame-cons :
      (p : Predecessor) (ks ps : List Predecessor) → SaysSame ks ps → SaysSame (p ∷ ks) (p ∷ ps)
  unfolding all_done some_lost
  SaysSame-cons p ks ps (d, l) =
      (ap (◌&&◌ (is_succeeded (later p))) d, ap (◌||◌ (is_pred_failed (later p))) l)

  succeeded_only : (x : PredOutcome) → is_succeeded x ≡ true → is_pred_failed x ≡ false
  succeeded_only x h = ground (arith, h)

  kept_one-SaysSame :
      (out : PredOutcome) (p : Predecessor) (ks ps : List Predecessor)
      → o p ≡ out
      → SaysSame ks ps
      → SaysSame (kept_one out p ++ ks) (p ∷ ps)
  unfolding all_done some_lost
  kept_one-SaysSame out (task m) ks ps e h = elim (Bool-cases (is_succeeded out)) [
    | inl k ↦
        let d = stays m (ap is_succeeded e ∙ k) in rw (k, d, succeeded_only (later (task m)) d) h
    | inr k ↦ rw k (SaysSame-cons (task m) ks ps h)
  ]
  kept_one-SaysSame out (collection c t) ks ps e h = elim (Bool-cases (is_succeeded out)) [
    | inl k ↦ rw k (SaysSame-cons (collection c t) ks ps h)
    | inr k ↦ rw k (SaysSame-cons (collection c t) ks ps h)
  ]
  kept_one-SaysSame out undeclared ks ps e h = elim (Bool-cases (is_succeeded out)) [
    | inl k ↦ rw k (SaysSame-cons undeclared ks ps h)
    | inr k ↦ rw k (SaysSame-cons undeclared ks ps h)
  ]

  with_kept-KeepsEnough :
      (out : PredOutcome) (p : Predecessor) (rest : Option Scan) (ps : List Predecessor)
      → o p ≡ out
      → KeepsEnough rest ps
      → KeepsEnough (with_kept (kept_one out p) rest) (p ∷ ps)
  with_kept-KeepsEnough out p none ps e h = h
  with_kept-KeepsEnough out p (some s) ps e h = kept_one-SaysSame out p s.kept ps e h

  scan_preds-KeepsEnough :
      (scan : PredScan) (ps : List Predecessor) (found : Answer)
      → Answers outcome o parked ps
      → KeepsEnough (scan_preds outcome scan ps found) ps
  unfolding scan_preds
  scan_preds-KeepsEnough scan [] found a = (refl, refl)
  scan_preds-KeepsEnough scan (p ∷ ps) found (e, a) =
      let found' = first_pending (o p, parked p) found in
      rw (e, scan_preds)
        (if_cases (λ x. KeepsEnough x (p ∷ ps)) (is_pred_failed (o p)) _ _ (λ _. (refl, refl))
          (λ _.
            if_cases (λ x. KeepsEnough x (p ∷ ps)) (stops scan found'.0) _ _
              (λ _. kept_one-SaysSame (o p) p ps ps refl (refl, refl))
              (λ _.
                with_kept-KeepsEnough (o p) p _ ps refl (scan_preds-KeepsEnough scan ps found' a))))

  -- They are all done when all were.
  pub kept-all_done :
      (scan : PredScan) (ps : List Predecessor) (s : Scan)
      → Answers outcome o parked ps
      → preds_outcome outcome scan ps ≡ some s
      → all_done later s.kept ≡ all_done later ps
  unfolding preds_outcome
  kept-all_done scan ps s a e =
      (subst (λ x. KeepsEnough x ps) e
        (scan_preds-KeepsEnough scan ps (pred_succeeded, undeclared) a)).0

  whole_outcome-SaysSame :
      (ks ps : List Predecessor) → SaysSame ks ps → whole_outcome later ks ≡ whole_outcome later ps
  unfolding whole_outcome
  whole_outcome-SaysSame ks ps (d, l) = rw (d, l) refl

  -- The predecessors that a scan keeps deserve at any later time what all of them deserve then,
  -- as long as a Task that succeeded stays so, so that the Tasks it forgets need no second reading.
  -- Every predecessor has an outcome at the time of the scan.
  pub preds_outcome-kept :
      (scan : PredScan) (ps : List Predecessor) (s : Scan)
      → Answers outcome o parked ps
      → preds_outcome outcome scan ps ≡ some s
      → whole_outcome later s.kept ≡ whole_outcome later ps
  unfolding preds_outcome
  preds_outcome-kept scan ps s a e = whole_outcome-SaysSame s.kept ps (
      subst (λ x. KeepsEnough x ps) e
        (scan_preds-KeepsEnough scan ps (pred_succeeded, undeclared) a))
