-- ===== src/Engine/Completed.antt =====
-- internal/engine: each operation of the scheduler returns.
use evident_output.Prelude.{
  ℕ, Bool, true, false, not, ◌&&◌, ◌||◌, List, [], ◌∷◌, some, ◌≡◌, refl, sym, ◌∙◌, subst, arith,
  if_cases, All, All_mono,
}
use evident_output.Core.State.{EntityState, not_started, is_terminal_task}
use evident_output.Engine.CollectionTally.{is_succeeded, pred_succeeded}
use evident_output.Engine.Eligibility.{
  Predecessor, undeclared, Scan, scan_all, scan_to_blocker, outcome, preds_outcome, eligible,
}
use evident_output.Engine.Depth.{IsBelow}
use evident_output.Engine.Schedule.{
  submitted, Layout, Sched, set_at, run_of, mark_not_started, waits_parked, is_known, is_running,
  declares_success,
}
use evident_output.Engine.Operations.{resolve, stop_unstarted, block_each, place_each, start_drain}
use evident_output.Engine.Effects.{Ends}
use evident_output.Engine.Kept.{kept-all_done}
use evident_output.Engine.Depth.{IsSome, worth, given, answers, eligible-decided}
use evident_output.Engine.Verdicts.{all_done}
use evident_output.Engine.Effects.{scan_preds-IsSome, kept_below}
use evident_output.Engine.Unmissed.{unparked-IsAtRest}
use evident_output.Engine.Placed.{parked-known, unneeded-IsWatched}
use evident_output.Engine.Returned.{
  and_then-Ends, now-Ends, choose-Ends, IsSound, Below, place_now-Ends, settled-Ends,
  settle_task-preds,
}

module _ (layout : Layout) (rank : ℕ → ℕ) (depth : ℕ)
    (ranked : (c : ℕ) → All (IsBelow rank (rank c)) (layout.entry c)) where
  abbrev Sound : List ℕ → Sched → Type 0
  Sound = IsSound layout rank depth ranked

  abbrev Fits : Sched → Type 0
  Fits = Below layout rank depth ranked

  pub resolve-Ends :
      (by_caller problem : Bool) (st : ℕ) (state : EntityState) (s : Sched)
      → Sound [] s
      → Ends (Sound []) (λ m. resolve layout depth m by_caller problem st state s)
  unfolding resolve waits_parked
  resolve-Ends by_caller problem st state s ((w, idle), b) =
      choose-Ends (Sound []) (not (is_known st s) || is_terminal_task (s.states st)) _ _
        (λ _. now-Ends (Sound []) s ((w, idle), b))
        (λ unresolved.
          choose-Ends (Sound []) (submitted (s.phase st) && by_caller && declares_success state) _ _
            (λ _. now-Ends (Sound []) s ((w, idle), b))
            (λ _.
              settled-Ends layout rank depth ranked st state
                (record s { has_problem = set_at st (s.has_problem st || problem) s.has_problem })
                (record {
                  awaited = w.awaited;
                  alive = w.alive;
                  unresolved = w.unresolved;
                  fresh = w.fresh;
                })
                (ground (arith, unresolved)) b))

  pub stop_unstarted-Ends :
      (st : ℕ) (s : Sched)
      → is_known st s ≡ true
      → Sound [] s
      → Ends (Sound []) (λ m. stop_unstarted layout depth m st s)
  unfolding stop_unstarted mark_not_started
  stop_unstarted-Ends st s known ((w, idle), b) =
      choose-Ends (Sound []) (is_terminal_task (s.states st) || is_running (s.phase st)) _ _
        (λ _. now-Ends (Sound []) s ((w, idle), b))
        (λ _. settled-Ends layout rank depth ranked st not_started s w known b)

  pub block_each-preds : (sts : List ℕ) (s : Sched) → (block_each layout sts s).preds ≡ s.preds
  unfolding block_each
  block_each-preds [] s = refl
  block_each-preds (st ∷ sts) s =
      block_each-preds sts _
      ∙ if_cases (λ (x : Sched). x.preds ≡ s.preds) (waits_parked st s) _ _
          (λ _.
            settle_task-preds layout st EntityState.blocked
              (record s { has_problem = set_at st true s.has_problem }))
          (λ _. refl)

  place_each-Ends :
      (sts : List ℕ) (s : Sched)
      → Sound sts s
      → Ends (Sound []) (λ m. place_each layout depth m sts s)
  unfolding place_each
  place_each-Ends [] s h = now-Ends (Sound []) s h
  place_each-Ends (st ∷ sts) s ((w, idle), b) =
      and_then-Ends (Sound sts) (Sound []) _ _
        (choose-Ends (Sound sts) (waits_parked st s) _ _
          (λ p.
            place_now-Ends layout rank depth ranked st scan_all sts s w
              (parked-known layout (st ∷ sts) s st w p) b)
          (λ n. now-Ends (Sound sts) s ((unneeded-IsWatched layout st sts s n w, idle), b)))
        (place_each-Ends sts)

  pub start_drain-Ends :
      (s : Sched) → Sound [] s → Ends (Sound []) (λ m. start_drain layout depth m s)
  unfolding start_drain
  start_drain-Ends s (h, b) = place_each-Ends _ _ (unparked-IsAtRest layout depth 0 s h, b)

  -- Whether the scan succeeds is whether all predecessors have.
  scan-all_done :
      (s : Sched) (ps : List Predecessor) (x : Scan)
      → All (IsBelow rank depth) ps
      → preds_outcome (outcome depth (run_of layout s)) scan_to_blocker ps ≡ some x
      → is_succeeded x.verdict ≡ all_done (worth (run_of layout s) rank ranked depth) ps
  unfolding eligible
  scan-all_done s ps x below e =
      let decided = eligible-decided (run_of layout s) rank ranked depth ps below in
      let read : eligible (outcome depth (run_of layout s)) ps ≡ some (is_succeeded x.verdict) =
        rw (e, eligible) refl in
      cc (sym read ∙ decided)

  -- A Task that may not start yet may not start after it was read again.
  pub reread_pending :
      (s : Sched) (ps : List Predecessor) (x y : Scan)
      → All (IsBelow rank depth) ps
      → preds_outcome (outcome depth (run_of layout s)) scan_to_blocker ps ≡ some x
      → is_succeeded x.verdict ≡ false
      → preds_outcome (outcome depth (run_of layout s)) scan_to_blocker x.kept ≡ some y
      → is_succeeded y.verdict ≡ false
  unfolding preds_outcome
  reread_pending s ps x y below e v e' =
      let r = run_of layout s in
      let known = kept_below layout rank depth ranked s ps below in
      let (x', found, kept) =
        scan_preds-IsSome (outcome depth r) (IsBelow rank depth) scan_to_blocker ps
          (pred_succeeded, undeclared) known below in
      let same : x' ≡ x = cc (sym found ∙ e) in
      let kept' : All (IsBelow rank depth) x.kept =
        subst (λ z. All (IsBelow rank depth) z.kept) same kept in
      let o = worth r rank ranked depth in
      let fewer =
        kept-all_done (outcome depth r) o o (λ p. (given p (outcome depth r p)).1) (λ m h. h)
          scan_to_blocker ps x
          (All_mono (λ p. IsSome (outcome depth r p)) _ ps (λ p h. answers r rank ranked depth p h)
            known)
          e in
      scan-all_done s x.kept y kept' e' ∙ fewer ∙ sym (scan-all_done s ps x below e) ∙ v
