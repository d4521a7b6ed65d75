-- ===== src/Engine/Verdicts.antt =====
-- What the scan over a Task's predecessors in internal/engine/eligibility.go answers, against what
-- the predecessors deserve as a whole.
use evident_output.Prelude.{
  Bool, true, false, ◌&&◌, ◌||◌, List, [], ◌∷◌, Option, none, some, ◌≡◌, ◌⊎◌, inl, inr, refl, ◌∙◌,
  arith, if◌then◌else◌, if_cases, All, Bool-cases,
}
use evident_output.Engine.CollectionTally.{
  PredOutcome, pred_pending, pred_succeeded, pred_failed, is_succeeded, is_pred_failed,
}
use evident_output.Engine.Eligibility.{
  Predecessor, undeclared, Answer, PredScan, scan_to_blocker, scan_all, stops, Scan, with_kept,
  scan_preds, preds_outcome, eligible,
}

-- Every predecessor succeeded, or some predecessor can never succeed.
unfoldable pub all_done : (Predecessor → PredOutcome) → List Predecessor → Bool
all_done o [] = true
all_done o (p ∷ ps) = is_succeeded (o p) && all_done o ps

unfoldable pub some_lost : (Predecessor → PredOutcome) → List Predecessor → Bool
some_lost o [] = false
some_lost o (p ∷ ps) = is_pred_failed (o p) || some_lost o ps

-- What the predecessors deserve as a whole.
unfoldable pub whole_outcome : (Predecessor → PredOutcome) → List Predecessor → PredOutcome
unfolding all_done some_lost
whole_outcome o ps =
    if some_lost o ps then pred_failed else if all_done o ps then pred_succeeded else pred_pending

abbrev pub verdict_of : Option Scan → Option PredOutcome
verdict_of none = none
verdict_of (some s) = some s.verdict

outcome-cases : (o : PredOutcome) → (o ≡ pred_failed) ⊎ ((o ≡ pred_succeeded) ⊎ (o ≡ pred_pending))
outcome-cases pred_failed = inl refl
outcome-cases pred_succeeded = inr (inl refl)
outcome-cases pred_pending = inr (inr refl)

module _ (outcome : Predecessor → Option Answer) (o : Predecessor → PredOutcome)
    (parked : Predecessor → Predecessor) where
  -- The outcomes of the predecessors are those of `o`, parked at `parked`.
  abbrev pub Answers : List Predecessor → Type 0
  Answers = All (λ p. outcome p ≡ some (o p, parked p))

  abbrev pub done_in : Option Scan → Option Bool
  done_in none = none
  done_in (some s) = some (is_succeeded s.verdict)

  done_in-with_kept :
      (ps : List Predecessor) (s : Option Scan) → done_in (with_kept ps s) ≡ done_in s
  done_in-with_kept ps none = refl
  done_in-with_kept ps (some s) = refl

  verdict_of-with_kept :
      (ps : List Predecessor) (s : Option Scan) → verdict_of (with_kept ps s) ≡ verdict_of s
  verdict_of-with_kept ps none = refl
  verdict_of-with_kept ps (some s) = refl

  stopped_done :
      (scan : PredScan) (verdict : PredOutcome)
      → stops scan verdict ≡ true
      → is_succeeded verdict ≡ false
  stopped_done scan_to_blocker verdict h = ground (arith, h)
  stopped_done scan_all verdict h = cc h

  -- The rest of the loop of `predsOutcomeLocked` after a predecessor that did not fail.
  onward :
      (scan : PredScan) (ps : List Predecessor) (verdict : PredOutcome) (kept : List Predecessor)
      (stop : Scan) (rest : Option Scan) (b : Bool)
      → stop.verdict ≡ verdict
      → done_in rest ≡ some (is_succeeded verdict && b)
      → done_in (if stops scan verdict then some stop else with_kept kept rest)
        ≡ some (is_succeeded verdict && b)
  onward scan ps verdict kept stop rest b e h =
      if_cases (λ x. done_in x ≡ some (is_succeeded verdict && b)) (stops scan verdict) _ _
        (λ k. let n = stopped_done scan verdict k in rw (e, n) refl)
        (λ _. done_in-with_kept kept rest ∙ h)

  scan_preds-done :
      (scan : PredScan) (ps : List Predecessor) (verdict : PredOutcome) (blocker : Predecessor)
      → Answers ps
      → done_in (scan_preds outcome scan ps (verdict, blocker))
        ≡ some (is_succeeded verdict && all_done o ps)
  unfolding scan_preds all_done
  scan_preds-done scan [] verdict blocker a = ground arith
  scan_preds-done scan (p ∷ ps) verdict blocker (e, a) = elim (outcome-cases (o p)) [
    | inl k ↦ rw (e, k, scan_preds) (ground arith)
    | inr (inl k) ↦
        rw (e, k, scan_preds)
          (onward scan ps verdict _ _ _ (all_done o ps) refl
            (scan_preds-done scan ps verdict blocker a))
    | inr (inr k) ↦
        rw (e, k, scan_preds)
          (elim (Bool-cases (is_succeeded verdict)) [
            | inl v ↦ rw v (
                onward scan ps pred_pending (p ∷ []) _ _ (all_done o ps) refl
                  (scan_preds-done scan ps pred_pending (parked p) a))
            | inr v ↦ rw v (
                onward scan ps verdict (p ∷ []) _ _ (all_done o ps) refl
                  (scan_preds-done scan ps verdict blocker a)
                ∙ rw v refl)
          ])
  ]

  scan_preds-whole :
      (ps : List Predecessor) (verdict : PredOutcome) (blocker : Predecessor)
      → Answers ps
      → is_pred_failed verdict ≡ false
      → verdict_of (scan_preds outcome scan_all ps (verdict, blocker))
        ≡ some (
            if some_lost o ps
            then pred_failed
            else if is_succeeded verdict && all_done o ps
            then pred_succeeded
            else pred_pending)
  unfolding scan_preds all_done some_lost
  scan_preds-whole [] verdict blocker a h = ground arith
  scan_preds-whole (p ∷ ps) verdict blocker (e, a) h = elim (outcome-cases (o p)) [
    | inl k ↦ rw (e, k, scan_preds) (ground arith)
    | inr (inl k) ↦
        rw (e, k, scan_preds) (verdict_of-with_kept _ _ ∙ scan_preds-whole ps verdict blocker a h)
    | inr (inr k) ↦
        rw (e, k, scan_preds)
          (elim (Bool-cases (is_succeeded verdict)) [
            | inl v ↦ rw v (
                verdict_of-with_kept (p ∷ []) _
                ∙ scan_preds-whole ps pred_pending (parked p) a refl)
            | inr v ↦ rw v (
                verdict_of-with_kept (p ∷ []) _
                ∙ scan_preds-whole ps verdict blocker a h
                ∙ rw v refl)
          ])
  ]

  -- A Task may start when all of its predecessors have succeeded, and not before, whatever else is
  -- pending or lost. Every predecessor has an outcome.
  pub eligible-all_done :
      (ps : List Predecessor) → Answers ps → eligible outcome ps ≡ some (all_done o ps)
  unfolding eligible preds_outcome
  eligible-all_done ps a =
      by_scan (preds_outcome outcome scan_to_blocker ps)
      ∙ scan_preds-done scan_to_blocker ps pred_succeeded undeclared a
    where
      by_scan :
          (x : Option Scan)
          → (elim x [ none ↦ none | some s ↦ some (is_succeeded s.verdict) ]) ≡ done_in x
      by_scan none = refl
      by_scan (some s) = refl

  -- The full scan of a settled wait answers what the predecessors deserve as a whole: failed when
  -- one of them can never succeed, wherever it stands, otherwise succeeded when all have, otherwise
  -- pending. Every predecessor has an outcome.
  pub preds_outcome-whole :
      (ps : List Predecessor)
      → Answers ps
      → verdict_of (preds_outcome outcome scan_all ps) ≡ some (whole_outcome o ps)
  unfolding preds_outcome whole_outcome
  preds_outcome-whole ps a = scan_preds-whole ps pred_succeeded undeclared a refl
