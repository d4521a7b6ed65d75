-- ===== src/Engine/Blockers.antt =====
-- What a Task of internal/engine parks on is pending.
use evident_output.Prelude.{
  ℕ, zero, suc, true, false, not, ◌&&◌, ◌||◌, List, [], ◌∷◌, Option, none, some, ◌≡◌, refl, arith,
  ◌==◌, if_cases, Option-cases, inl, inr,
}
use evident_output.Engine.CollectionTally.{
  PredOutcome, pred_pending, pred_succeeded, pred_failed, is_pred_failed, has_member_through,
  failed_through, succeeded_through,
}
use evident_output.Engine.Eligibility.{
  Predecessor, task, collection, undeclared, Run, edge_cursor, task_outcome, Answer,
  collection_outcome, first_pending, entry_outcome, outcome, PredScan, stops, Scan, kept_one,
  with_kept, scan_preds, preds_outcome,
}
use evident_output.Engine.Wakeups.{StillPending}

-- A Task that may still succeed, or a collection edge that is open or neither succeeded nor failed.
abbrev pub Blocks : Run → Predecessor → Type 0
Blocks r (task b) = task_outcome r b ≡ pred_pending
Blocks r (collection c through) =
    let t = r.tally c in
    let (cursor, is_open) = edge_cursor r c through in
    (t.builder_failed ≡ false)
    × (is_open ≡ true → t.first_failed ≡ 0)
    × (is_open ≡ false → StillPending t (record { st = 0; cursor = cursor }))
Blocks r undeclared = ⊥

module _ (r : Run) where
  abbrev pub PendingBlocks : Answer → Type 0
  PendingBlocks (pred_pending, b) = Blocks r b
  PendingBlocks (pred_succeeded, b) = Unit
  PendingBlocks (pred_failed, b) = Unit

  abbrev pub AnswerBlocks : Option Answer → Type 0
  AnswerBlocks none = Unit
  AnswerBlocks (some a) = PendingBlocks a

  abbrev pub ScanBlocks : Option Scan → Type 0
  ScanBlocks none = Unit
  ScanBlocks (some s) = PendingBlocks (s.verdict, s.blocker)

  task_outcome-AnswerBlocks :
      (b : ℕ) (o : PredOutcome) → task_outcome r b ≡ o → PendingBlocks (o, task b)
  task_outcome-AnswerBlocks b pred_pending e = e
  task_outcome-AnswerBlocks b pred_succeeded e = tt
  task_outcome-AnswerBlocks b pred_failed e = tt

  first_pending-PendingBlocks :
      (a found : Answer)
      → PendingBlocks a
      → PendingBlocks found
      → PendingBlocks (first_pending a found)
  first_pending-PendingBlocks (pred_pending, b) (pred_succeeded, b') h h' = h
  first_pending-PendingBlocks (pred_pending, b) (pred_pending, b') h h' = h'
  first_pending-PendingBlocks (pred_pending, b) (pred_failed, b') h h' = h'
  first_pending-PendingBlocks (pred_succeeded, b) found h h' = h'
  first_pending-PendingBlocks (pred_failed, b) found h h' = h'

  collection_outcome-AnswerBlocks :
      (of_entry : Option Answer) (c through : ℕ)
      → AnswerBlocks of_entry
      → AnswerBlocks (collection_outcome of_entry r c through)
  unfolding collection_outcome
  collection_outcome-AnswerBlocks of_entry c through h =
      let t = r.tally c in
      let (cursor, is_open) = edge_cursor r c through in
      if_cases AnswerBlocks t.builder_failed _ _ (λ _. tt)
        (λ building.
          if_cases AnswerBlocks
            (is_open && not (t.first_failed == 0) || not is_open && failed_through t cursor) _ _
            (λ _. tt)
            (λ alive.
              if_cases AnswerBlocks is_open _ _
                (λ o. (building, (λ _. ground (arith, alive, o)), λ n. absurd (cc (o, n))))
                (λ o.
                  if_cases AnswerBlocks (not (has_member_through t cursor)) _ _ (λ _. h)
                    (λ _.
                      if_cases AnswerBlocks (succeeded_through t cursor) _ _ (λ _. tt)
                        (λ waits. (
                          building,
                          (λ n. absurd (cc (o, n))),
                          λ _. (waits, ground (arith, alive, o)),
                        ))))))

  entry_outcome-AnswerBlocks :
      (f : Predecessor → Option Answer) (ps : List Predecessor) (found : Answer)
      → ((p : Predecessor) → AnswerBlocks (f p))
      → PendingBlocks found
      → AnswerBlocks (entry_outcome f ps found)
  unfolding entry_outcome
  entry_outcome-AnswerBlocks f [] found a h = h
  entry_outcome-AnswerBlocks f (p ∷ ps) found a h = elim (Option-cases (f p)) [
    | inl e ↦ rw (e, entry_outcome) tt
    | inr (x, e) ↦
        rw (e, entry_outcome)
          (if_cases AnswerBlocks (is_pred_failed x.0) _ _ (λ _. tt)
            (λ _.
              entry_outcome-AnswerBlocks f ps (first_pending x found) a
                (first_pending-PendingBlocks x found (rw e at (a p)) h)))
  ]

  pub outcome-AnswerBlocks : (depth : ℕ) (p : Predecessor) → AnswerBlocks (outcome depth r p)
  unfolding outcome
  outcome-AnswerBlocks depth (task b) = task_outcome-AnswerBlocks b (task_outcome r b) refl
  outcome-AnswerBlocks depth undeclared = tt
  outcome-AnswerBlocks zero (collection c through) = tt
  outcome-AnswerBlocks (suc depth) (collection c through) =
      collection_outcome-AnswerBlocks _ c through (
        entry_outcome-AnswerBlocks (outcome depth r) (r.entry c) (pred_succeeded, undeclared)
          (outcome-AnswerBlocks depth) tt)

  with_kept-ScanBlocks :
      (ps : List Predecessor) (s : Option Scan) → ScanBlocks s → ScanBlocks (with_kept ps s)
  with_kept-ScanBlocks ps none h = tt
  with_kept-ScanBlocks ps (some s) h = h

  scan_preds-ScanBlocks :
      (f : Predecessor → Option Answer) (scan : PredScan) (ps : List Predecessor) (found : Answer)
      → ((p : Predecessor) → AnswerBlocks (f p))
      → PendingBlocks found
      → ScanBlocks (scan_preds f scan ps found)
  unfolding scan_preds
  scan_preds-ScanBlocks f scan [] found a h = h
  scan_preds-ScanBlocks f scan (p ∷ ps) found a h = elim (Option-cases (f p)) [
    | inl e ↦ rw (e, scan_preds) tt
    | inr (x, e) ↦
        let h' = first_pending-PendingBlocks x found (rw e at (a p)) h in
        rw (e, scan_preds)
          (if_cases ScanBlocks (is_pred_failed x.0) _ _ (λ _. tt)
            (λ _.
              if_cases ScanBlocks (stops scan (first_pending x found).0) _ _ (λ _. h')
                (λ _.
                  with_kept-ScanBlocks (kept_one x.0 p) _
                    (scan_preds-ScanBlocks f scan ps (first_pending x found) a h'))))
  ]

  pub preds_outcome-ScanBlocks :
      (depth : ℕ) (scan : PredScan) (ps : List Predecessor)
      → ScanBlocks (preds_outcome (outcome depth r) scan ps)
  unfolding preds_outcome
  preds_outcome-ScanBlocks depth scan ps =
      scan_preds-ScanBlocks (outcome depth r) scan ps (pred_succeeded, undeclared)
        (outcome-AnswerBlocks depth) tt
