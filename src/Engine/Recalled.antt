-- ===== src/Engine/Recalled.antt =====
-- internal/engine/eligibility.go: the scan of a Task's predecessors forgets none that has not succeeded.
use evident_output.Prelude.{
  ℕ, ◌+◌, Bool, true, false, ◌&&◌, ◌||◌, List, [], ◌∷◌, ◌++◌, Option, none, some, ◌≡◌, ◌⊎◌, inl,
  inr, refl, sym, ◌∙◌, ap, subst, arith, ◌==◌, if_cases, Bool-cases, Option-cases,
}
use evident_output.Engine.CollectionTally.{
  PredOutcome, pred_pending, pred_succeeded, pred_failed, is_succeeded, is_pred_failed,
}
use evident_output.Engine.Eligibility.{
  Predecessor, task, collection, undeclared, Answer, first_pending, PredScan, scan_to_blocker,
  scan_all, stops, Scan, kept_one, with_kept, scan_preds,
}
use evident_output.Engine.Awaited.{Lands}
use evident_output.Engine.Framed.{Lands-any}

-- Task `b` is among the predecessors.
abbrev pub names : ℕ → List Predecessor → Bool
names b [] = false
names b (task m ∷ ps) = m == b || names b ps
names b (collection c through ∷ ps) = names b ps
names b (undeclared ∷ ps) = names b ps

pub names-append :
    (b : ℕ) (ps qs : List Predecessor) → names b (ps ++ qs) ≡ (names b ps || names b qs)
names-append b [] qs = refl
names-append b (task m ∷ ps) qs = ground (arith, names-append b ps qs)
names-append b (collection c through ∷ ps) qs = names-append b ps qs
names-append b (undeclared ∷ ps) qs = names-append b ps qs

succeeded_only : (o : PredOutcome) → is_succeeded o ≡ true → o ≡ pred_succeeded
succeeded_only o h = ground (arith, h)

module _ (f : Predecessor → Option Answer) (b : ℕ) (done_of : ℕ → PredOutcome)
    (asks : (m : ℕ) → f (task m) ≡ some (done_of m, task m)) where
  -- Task `b` is still asked for and not all succeeded, or it has succeeded.
  abbrev Remembers : Scan → Type 0
  Remembers x =
      ((names b x.kept ≡ true) × (is_succeeded x.verdict ≡ false)) ⊎ (done_of b ≡ pred_succeeded)

  with_kept-Lands :
      (P Q : Scan → Type 0) (ks : List Predecessor) (x : Option Scan)
      → ((s : Scan) → P s → Q (record s { kept = ks ++ s.kept; checks = s.checks + 1 }))
      → Lands P x
      → Lands Q (with_kept ks x)
  with_kept-Lands P Q ks none k h = tt
  with_kept-Lands P Q ks (some s) k h = k s h

  Unsucceeded : Scan → Type 0
  Unsucceeded x = is_succeeded x.verdict ≡ false

  first_pending-Unsucceeded :
      (out : PredOutcome) (parked : Predecessor) (found : Answer)
      → is_pred_failed out ≡ false
      → (is_succeeded out && is_succeeded found.0) ≡ false
      → is_succeeded (first_pending (out, parked) found).0 ≡ false
  first_pending-Unsucceeded pred_pending parked (verdict, blocker) n h =
      if_cases (λ (a : Answer). is_succeeded a.0 ≡ false) (is_succeeded verdict) _ _ (λ _. refl)
        (λ v. v)
  first_pending-Unsucceeded pred_succeeded parked (verdict, blocker) n h = h
  first_pending-Unsucceeded pred_failed parked found n h = absurd (cc n)

  scan-Unsucceeded :
      (scan : PredScan) (ps : List Predecessor) (found : Answer)
      → is_succeeded found.0 ≡ false
      → Lands Unsucceeded (scan_preds f scan ps found)
  unfolding scan_preds Unsucceeded
  scan-Unsucceeded scan [] found h = h
  scan-Unsucceeded scan (p ∷ ps) found h = elim (Option-cases (f p)) [
    | inl e ↦ rw (e, scan_preds) tt
    | inr ((out, parked), e) ↦
        rw (e, scan_preds)
          (if_cases (Lands Unsucceeded) (is_pred_failed out) _ _ (λ _. refl)
            (λ n.
              let h' = first_pending-Unsucceeded out parked found n (ground (arith, h)) in
              if_cases (Lands Unsucceeded) (stops scan (first_pending (out, parked) found).0) _ _
                (λ _. h')
                (λ _.
                  with_kept-Lands Unsucceeded Unsucceeded (kept_one out p) _ (λ s k. k)
                    (scan-Unsucceeded scan ps (first_pending (out, parked) found) h'))))
  ]

  stopped : (scan : PredScan) (v : PredOutcome) → stops scan v ≡ true → is_succeeded v ≡ false
  stopped scan_to_blocker v h = ground (arith, h)
  stopped scan_all v h = absurd (cc h)

  the_head :
      (p : Predecessor) (ps : List Predecessor)
      → names b (p ∷ ps) ≡ true
      → names b ps ≡ false
      → p ≡ task b
  the_head (task m) ps h n = ap task (ground (arith, h, n))
  the_head (collection c through) ps h n = absurd (cc (h, n))
  the_head undeclared ps h n = absurd (cc (h, n))

  here_named :
      (out : PredOutcome) (ps : List Predecessor)
      → is_succeeded out ≡ false
      → names b (kept_one out (task b) ++ ps) ≡ true
  here_named out ps v = rw v (ground arith)

  asked_last :
      (scan : PredScan) (ps : List Predecessor) (found : Answer)
      → is_succeeded (done_of b) ≡ false
      → Lands Remembers (scan_preds f scan (task b ∷ ps) found)
  unfolding scan_preds Unsucceeded
  asked_last scan ps found v =
      let out = done_of b in
      let found' = first_pending (out, task b) found in
      rw (asks b, scan_preds)
        (if_cases (Lands Remembers) (is_pred_failed out) _ _ (λ _. inl (ground arith, refl))
          (λ n.
            if_cases (Lands Remembers) (stops scan found'.0) _ _
              (λ k. inl (here_named out ps v, stopped scan found'.0 k))
              (λ _.
                with_kept-Lands Unsucceeded Remembers (kept_one out (task b)) _
                  (λ s u. inl (here_named out s.kept v, u))
                  (scan-Unsucceeded scan ps found'
                    (first_pending-Unsucceeded out (task b) found n (ground (arith, v)))))))

  -- The scan forgets no Task that has not succeeded.
  pub scan-Remembers :
      (scan : PredScan) (ps : List Predecessor) (found : Answer)
      → names b ps ≡ true
      → Lands Remembers (scan_preds f scan ps found)
  unfolding scan_preds Unsucceeded
  scan-Remembers scan [] found h = absurd (cc h)
  scan-Remembers scan (p ∷ ps) found h = elim (Option-cases (f p)) [
    | inl e ↦ rw (e, scan_preds) tt
    | inr ((out, parked), e) ↦
        let found' = first_pending (out, parked) found in
        elim (Bool-cases (names b ps)) [
          | inl later ↦
              rw (e, scan_preds)
                (if_cases (Lands Remembers) (is_pred_failed out) _ _ (λ _. inl (h, refl))
                  (λ n.
                    if_cases (Lands Remembers) (stops scan found'.0) _ _
                      (λ k. inl (
                        names-append b (kept_one out p) ps ∙ ground (arith, later),
                        stopped scan found'.0 k,
                      ))
                      (λ _.
                        with_kept-Lands Remembers Remembers (kept_one out p) _
                          (λ s r. elim r [
                            | inl (kept, v) ↦
                                inl
                                  (names-append b (kept_one out p) s.kept ∙ ground (arith, kept), v)
                            | inr d ↦ inr d
                          ])
                          (scan-Remembers scan ps found' later))))
          | inr last ↦ elim (Bool-cases (is_succeeded (done_of b))) [
            | inl v ↦
                Lands-any Remembers (scan_preds f scan (p ∷ ps) found)
                  (λ x. inr (succeeded_only (done_of b) v))
            | inr v ↦
                subst (λ q. Lands Remembers (scan_preds f scan (q ∷ ps) found))
                  (sym (the_head p ps h last)) (asked_last scan ps found v)
          ]
        ]
  ]
