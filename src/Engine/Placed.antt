-- ===== src/Engine/Placed.antt =====
-- internal/engine/eligibility.go: placing a Task and draining the worklist leave no parked Task without
-- something pending to wait for.
use evident_output.Prelude.{
  ℕ, zero, suc, true, false, List, [], ◌∷◌, Option, none, some, ◌≡◌, inl, inr, refl, arith, ◌==◌,
  if◌then◌else◌, if_cases, Bool-cases,
}
use evident_output.Engine.Eligibility.{Scan, PredScan, scan_to_blocker, preds_outcome, outcome}
use evident_output.Engine.Accounted.{occurrences}
use evident_output.Engine.Blockers.{PendingBlocks, ScanBlocks, preds_outcome-ScanBlocks}
use evident_output.Engine.Schedule.{
  Layout, Sched, set_at, run_of, waits_parked, is_known, place, wake_one, drain_woken,
}
use evident_output.Engine.Awaited.{Awaited, either_positive, Lands, and_then-Lands, Awaited-grows}
use evident_output.Engine.Watched.{IsWatched}
use evident_output.Engine.Routed.{route-IsWatched}

module _ (layout : Layout) where
  pub place-IsWatched :
      (depth st : ℕ) (scan : PredScan) (extra : List ℕ) (s : Sched)
      → IsWatched layout (st ∷ extra) s
      → is_known st s ≡ true
      → Lands (IsWatched layout extra) (place layout depth st scan s)
  unfolding place waits_parked
  place-IsWatched depth st scan extra s w known =
      let r = run_of layout s in
      and_then-Lands (λ x. PendingBlocks r (x.verdict, x.blocker)) (IsWatched layout extra)
        (preds_outcome (outcome depth r) scan (s.preds st)) _
        (read (preds_outcome (outcome depth r) scan (s.preds st))
          (preds_outcome-ScanBlocks r depth scan (s.preds st)))
        (λ x h.
          route-IsWatched layout st x.verdict x.blocker extra
            (record s { preds = set_at st x.kept s.preds })
            (record {
              awaited = w.awaited;
              alive = w.alive;
              unresolved = w.unresolved;
              fresh = w.fresh;
            })
            known h)
    where
      read :
          (x : Option Scan)
          → ScanBlocks (run_of layout s) x
          → Lands (λ y. PendingBlocks (run_of layout s) (y.verdict, y.blocker)) x
      read none h = tt
      read (some y) h = h

  -- A Task that is parked was declared.
  pub parked-known :
      (extra : List ℕ) (s : Sched) (m : ℕ)
      → IsWatched layout extra s
      → waits_parked m s ≡ true
      → is_known m s ≡ true
  unfolding waits_parked
  parked-known extra s m w p = elim (Bool-cases (is_known m s)) [
    | inl k ↦ k
    | inr k ↦ let (state, phase) = w.fresh m k in absurd (cc (rw (state, phase) at p))
  ]

  -- A Task that does not wait needs no wake.
  pub unneeded-IsWatched :
      (st : ℕ) (extra : List ℕ) (s : Sched)
      → waits_parked st s ≡ false
      → IsWatched layout (st ∷ extra) s
      → IsWatched layout extra s
  unneeded-IsWatched st extra s settled w = record {
    awaited = λ m p. elim (Bool-cases (m == st)) [
      | inl e ↦ let same : m ≡ st = ground (arith, e) in absurd (cc (rw same at p, settled))
      | inr e ↦
          Awaited-grows (st ∷ extra) extra s.woken s.woken s.dependents s.dependents s.tally s.tally
            m (λ h. ground (arith, e, h)) (λ h. h) (λ b. omega arith) (λ c. omega arith)
            (w.awaited m p)
    ];
    alive = w.alive;
    unresolved = w.unresolved;
    fresh = w.fresh;
  }

  pub wake_one-IsWatched :
      (depth st : ℕ) (extra : List ℕ) (s : Sched)
      → IsWatched layout (st ∷ extra) s
      → Lands (IsWatched layout extra) (wake_one layout depth st s)
  unfolding wake_one
  wake_one-IsWatched depth st extra s w =
      if_cases (Lands (IsWatched layout extra)) (waits_parked st s) _ _
        (λ p. place-IsWatched depth st scan_to_blocker extra s w (parked-known _ s st w p))
        (λ n. unneeded-IsWatched st extra s n w)

  pub popped-IsWatched :
      (st : ℕ) (rest extra : List ℕ) (s : Sched)
      → s.woken ≡ st ∷ rest
      → IsWatched layout extra s
      → IsWatched layout (st ∷ extra) (record s { woken = rest })
  unfolding waits_parked
  popped-IsWatched st rest extra s e w = record {
    awaited = λ m p. first m (rw e at (w.awaited m p));
    alive = w.alive;
    unresolved = w.unresolved;
    fresh = w.fresh;
  }
    where
      first :
          (m : ℕ)
          → Awaited extra (st ∷ rest) s.dependents s.tally m
          → Awaited (st ∷ extra) rest s.dependents s.tally m
      first m (inl h) = inl (omega (arith, h))
      first m (inr (inl h)) =
          elim (either_positive (if st == m then 1 else 0) (occurrences m rest) h) [
            | inl k ↦ inl (omega (arith, k))
            | inr k ↦ inr (inl k)
          ]
      first m (inr (inr h)) = inr (inr h)

  -- The drain empties the worklist.
  pub drain_woken-IsWatched :
      (depth fuel : ℕ) (extra : List ℕ) (s : Sched)
      → IsWatched layout extra s
      → Lands (λ s'. IsWatched layout extra s' × (s'.woken ≡ [])) (drain_woken layout depth fuel s)
  unfolding drain_woken
  drain_woken-IsWatched depth zero extra s w = tt
  drain_woken-IsWatched depth (suc fuel) extra s w =
      by_worklist s.woken refl (drain_woken-IsWatched depth fuel extra)
    where
      by_worklist :
          (ws : List ℕ)
          → s.woken ≡ ws
          → ((s' : Sched)
              → IsWatched layout extra s'
              → Lands
                  (λ x. IsWatched layout extra x × (x.woken ≡ []))
                  (drain_woken layout depth fuel s'))
          → Lands
              (λ x. IsWatched layout extra x × (x.woken ≡ []))
              (drain_woken layout depth (suc fuel) s)
      by_worklist [] e more = rw (e, drain_woken) (w, e)
      by_worklist (st ∷ rest) e more =
          rw (e, drain_woken)
            (and_then-Lands (IsWatched layout extra) _ _ _
              (wake_one-IsWatched depth st extra _ (popped-IsWatched st rest extra s e w)) more)
