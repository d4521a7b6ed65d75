-- ===== src/Engine/Effects.antt =====
-- internal/engine/eligibility.go: placing a Task has a result, and what it may change.
use evident_output.Prelude.{
  ℕ, zero, suc, ◌+◌, ◌<◌, ◌≤◌, false, List, [], ◌∷◌, Option, some, ◌≡◌, ◌⊎◌, inl, inr, refl, sym,
  ◌∙◌, ap, subst, arith, ◌==◌, if◌then◌else◌, if_cases, Bool-cases, All, All_mono, All-append,
}
use evident_output.Core.State.{not_started, is_terminal_task}
use evident_output.Engine.CollectionTally.{
  PredOutcome, pred_pending, pred_succeeded, pred_failed, States, is_pred_failed, is_succeeded,
}
use evident_output.Engine.Eligibility.{
  Predecessor, task, collection, undeclared, Answer, Scan, PredScan, preds_outcome, outcome,
  scan_preds, first_pending, stops, with_kept, kept_one,
}
use evident_output.Engine.Depth.{IsBelow, IsSome, outcome-IsSome}
use evident_output.Engine.Blockers.{PendingBlocks, ScanBlocks, preds_outcome-ScanBlocks}
use evident_output.Engine.Schedule.{
  Layout, Sched, set_at, enter_phase, run_of, propagate_settle, settle_task, mark_not_started,
  route, place, awaiting_start, honest_outcome, declares_success,
}

module _ (f : Predecessor → Option Answer) (P : Predecessor → Type 0) where
  with_kept-IsSome :
      (ks : List Predecessor) (x : Option Scan)
      → (s : Scan) × (x ≡ some s) × All P s.kept
      → All P ks
      → (s : Scan) × (with_kept ks x ≡ some s) × All P s.kept
  with_kept-IsSome ks x (s, e, a) k = rw e (_, refl, All-append P ks s.kept k a)

  kept_one-All : (o : PredOutcome) (p : Predecessor) → P p → All P (kept_one o p)
  kept_one-All o p h = ground (arith, h)

  -- The scan has a result where each predecessor has an outcome, and keeps some of them.
  pub scan_preds-IsSome :
      (scan : PredScan) (ps : List Predecessor) (found : Answer)
      → All (λ p. IsSome (f p)) ps
      → All P ps
      → (s : Scan) × (scan_preds f scan ps found ≡ some s) × All P s.kept
  unfolding scan_preds
  scan_preds-IsSome scan [] found a h = (_, refl, tt)
  scan_preds-IsSome scan (p ∷ ps) found ((x, e), a) (h, hs) =
      let found' = first_pending x found in
      rw (e, scan_preds)
        (if_cases (λ y. (s : Scan) × (y ≡ some s) × All P s.kept) (is_pred_failed x.0) _ _
          (λ _. (_, refl, (h, hs)))
          (λ _.
            if_cases (λ y. (s : Scan) × (y ≡ some s) × All P s.kept) (stops scan found'.0) _ _
              (λ _. (_, refl, All-append P (kept_one x.0 p) ps (kept_one-All x.0 p h) hs))
              (λ _.
                with_kept-IsSome (kept_one x.0 p) _ (scan_preds-IsSome scan ps found' a hs)
                  (kept_one-All x.0 p h))))

-- How many of the first `n` Tasks have not settled.
pub count_open : States → ℕ → ℕ
unfolding is_terminal_task
count_open σ zero = 0
count_open σ (suc n) = count_open σ n + (if is_terminal_task (σ (suc n)) then 0 else 1)

abbrev pub open_tasks : Sched → ℕ
open_tasks s = count_open s.states s.decl_seq

pub count_open-settled :
    (σ : States) (st n : ℕ)
    → count_open (set_at st not_started σ) n ≤ count_open σ n
      × (is_terminal_task (σ st) ≡ false
          → 0 < st
          → st ≤ n
          → count_open (set_at st not_started σ) n < count_open σ n)
unfolding count_open is_terminal_task
count_open-settled σ st zero = (omega arith, λ open_still positive le. omega (arith, positive, le))
count_open-settled σ st (suc n) = elim (Bool-cases (suc n == st)) [
  | inl e ↦
      let same : st ≡ suc n = ground (arith, e) in
      let le = (count_open-settled σ st n).0 in
      rw e (
        omega (arith, le),
        λ still positive bound.
            let here : is_terminal_task (σ (suc n)) ≡ false =
              ap (λ m. is_terminal_task (σ m)) (sym same) ∙ still in
            rw here (omega (arith, le)),
      )
  | inr e ↦
      let (le, lt) = count_open-settled σ st n in
      rw e (
        omega (arith, le),
        λ still positive bound. omega (arith, lt still positive (ground (arith, e, bound))),
      )
]

-- What placing the Task `st` may change: the Task settled, or no state and no wake did.
record IsRouted (st : ℕ) (verdict : PredOutcome) (s s' : Sched) : Type 0 where
  same_queue : is_succeeded verdict ≡ false → s'.queue ≡ s.queue
  same_preds : s'.preds ≡ s.preds
  same_seq : s'.decl_seq ≡ s.decl_seq
  effect :
      (s'.states ≡ set_at st not_started s.states) ⊎ ((s'.states ≡ s.states) × (s'.woken ≡ s.woken))

module _ (layout : Layout) where
  settle_task-IsRouted :
      (st : ℕ) (s : Sched) → IsRouted st pred_failed s (settle_task layout st not_started s)
  unfolding settle_task honest_outcome declares_success enter_phase propagate_settle
  settle_task-IsRouted st s =
      if_cases (λ x. IsRouted st pred_failed s (propagate_settle layout st x))
        (awaiting_start (s.phase st)) _ _
        (λ _. record {
          same_queue = λ v. refl;
          same_preds = refl;
          same_seq = refl;
          effect = inl refl;
        })
        (λ _. record {
          same_queue = λ v. refl;
          same_preds = refl;
          same_seq = refl;
          effect = inl refl;
        })

  route-IsRouted :
      (st : ℕ) (verdict : PredOutcome) (blocker : Predecessor) (s : Sched)
      → PendingBlocks (run_of layout s) (verdict, blocker)
      → (s' : Sched) × (route layout st verdict blocker s ≡ some s') × IsRouted st verdict s s'
  unfolding route enter_phase mark_not_started
  route-IsRouted st pred_succeeded blocker s h = (
    _,
    refl,
    record {
      same_queue = λ v. absurd (cc v);
      same_preds = refl;
      same_seq = refl;
      effect = inr (refl, refl);
    },
  )
  route-IsRouted st pred_failed blocker s h = (_, refl, settle_task-IsRouted st s)
  route-IsRouted st pred_pending (task b) s h = (
    _,
    refl,
    record {
      same_queue = λ v. refl;
      same_preds = refl;
      same_seq = refl;
      effect = inr (refl, refl);
    },
  )
  route-IsRouted st pred_pending (collection c through) s h = (
    _,
    refl,
    record {
      same_queue = λ v. refl;
      same_preds = refl;
      same_seq = refl;
      effect = inr (refl, refl);
    },
  )
  route-IsRouted st pred_pending undeclared s h = absurd h

-- The result `a` of a computation on fuel, from some fuel on.
abbrev pub Ends : {A : Type 0} → (A → Type 0) → (ℕ → Option A) → Type 0
Ends {A} P f = (a : A) × (n : ℕ) × P a × ((m : ℕ) → n ≤ m → f m ≡ some a)

module _ (layout : Layout) (rank : ℕ → ℕ) (depth : ℕ)
    (ranked : (c : ℕ) → All (IsBelow rank (rank c)) (layout.entry c)) where
  -- The collections that a Task waits for stand below the depth.
  abbrev pub AreBelow : Sched → Type 0
  AreBelow s = (m : ℕ) → All (IsBelow rank depth) (s.preds m)

  pub kept_below :
      (s : Sched) (ps : List Predecessor)
      → All (IsBelow rank depth) ps
      → All (λ p. IsSome (outcome depth (run_of layout s) p)) ps
  kept_below s ps h =
      All_mono (IsBelow rank depth) _ ps
        (λ p b. outcome-IsSome (run_of layout s) rank ranked depth p b) h

  -- Placing a Task has a result.
  pub place-IsRouted :
      (st : ℕ) (scan : PredScan) (s : Sched)
      → AreBelow s
      → (s' : Sched) × (place layout depth st scan s ≡ some s')
        × AreBelow s'
        × (s'.decl_seq ≡ s.decl_seq)
        × ((s'.states ≡ set_at st not_started s.states)
            ⊎ ((s'.states ≡ s.states) × (s'.woken ≡ s.woken)))
        × ((x : Scan)
            → preds_outcome (outcome depth (run_of layout s)) scan (s.preds st) ≡ some x
            → is_succeeded x.verdict ≡ false
            → s'.queue ≡ s.queue)
  unfolding place preds_outcome
  place-IsRouted st scan s below =
      let r = run_of layout s in
      let (x, e, kept) =
        scan_preds-IsSome (outcome depth r) (IsBelow rank depth) scan (s.preds st)
          (pred_succeeded, undeclared) (kept_below s (s.preds st) (below st)) (below st) in
      let blocks : ScanBlocks r (some x) =
        subst (ScanBlocks r) e (preds_outcome-ScanBlocks r depth scan (s.preds st)) in
      let (s', e', routed) =
        route-IsRouted layout st x.verdict x.blocker (record s { preds = set_at st x.kept s.preds })
          blocks in
      (
        s',
        rw e e',
        (λ m.
            rw routed.same_preds
              (if_cases (All (IsBelow rank depth)) (m == st) _ _ (λ _. kept) (λ _. below m))),
        routed.same_seq,
        routed.effect,
        (λ y e'' v.
            let same : x ≡ y = cc (sym e ∙ e'') in
            routed.same_queue (ap (λ z. is_succeeded z.verdict) same ∙ v)),
      )
