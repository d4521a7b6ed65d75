-- ===== src/Engine/Taken.antt =====
-- internal/engine/execution.go: the search for a Task to start ends.
use evident_output.Prelude.{
  ℕ, zero, suc, ◌+◌, ◌<◌, ◌≤◌, true, false, not, ◌&&◌, List, [], ◌∷◌, some, ◌≡◌, inl, inr, refl,
  ◌∙◌, subst, arith, ◌==◌, if_cases, Bool-cases, All, length,
}
use evident_output.Core.State.{is_terminal_task}
use evident_output.Engine.CollectionTally.{is_succeeded, pred_succeeded}
use evident_output.Engine.Eligibility.{undeclared, Scan, scan_to_blocker, outcome, preds_outcome}
use evident_output.Engine.Depth.{IsBelow}
use evident_output.Engine.Schedule.{
  Layout, Sched, and_then, set_at, run_of, is_queued, enter_phase, place, drain_woken,
}
use evident_output.Engine.Operations.{is_pending, promote_running, claim, claim_next, take_eligible}
use evident_output.Engine.Awaited.{Lands}
use evident_output.Engine.Watched.{IsWatched}
use evident_output.Engine.Effects.{Ends, open_tasks, place-IsRouted}
use evident_output.Engine.Placed.{place-IsWatched}
use evident_output.Engine.Rested.{also}
use evident_output.Engine.Effects.{scan_preds-IsSome, kept_below}
use evident_output.Engine.Claimed.{requeued, live_queue-known}
use evident_output.Engine.Returned.{now-Ends, choose-Ends, IsSound, Below}
use evident_output.Engine.Completed.{reread_pending}
use evident_output.Engine.Effects.{count_open-settled}
use evident_output.Engine.Drained.{drain_woken-idle}
use evident_output.Engine.Returned.{drain-Outlasts}
use evident_output.Engine.Operations.{live_queue}

live_queue-shorter :
    (s : Sched) (qs rest : List ℕ) (st : ℕ)
    → live_queue s qs ≡ st ∷ rest
    → suc (length rest) ≤ length qs
unfolding live_queue
live_queue-shorter s [] rest st e = absurd (cc e)
live_queue-shorter s (q ∷ qs) rest st e =
    if_cases (λ x. x ≡ st ∷ rest → suc (length rest) ≤ suc (length qs))
      (is_queued (s.phase q) && not (is_terminal_task (s.states q))) _ _
      (λ live e'. let same : rest ≡ qs = cc e' in rw same (omega arith))
      (λ _ e'. omega (arith, live_queue-shorter s qs rest st e')) e

pub live_queue-open :
    (s : Sched) (qs rest : List ℕ) (st : ℕ)
    → live_queue s qs ≡ st ∷ rest
    → is_terminal_task (s.states st) ≡ false
unfolding live_queue
live_queue-open s [] rest st e = absurd (cc e)
live_queue-open s (q ∷ qs) rest st e =
    if_cases (λ x. x ≡ st ∷ rest → is_terminal_task (s.states st) ≡ false)
      (is_queued (s.phase q) && not (is_terminal_task (s.states q))) _ _
      (λ live e'.
        let same : q ≡ st = cc e' in
        subst (λ m. is_terminal_task (s.states m) ≡ false) same (ground (arith, live)))
      (λ _ e'. live_queue-open s qs rest st e') e

same_number : (n : ℕ) → (n == n) ≡ true
same_number n = ground arith

module _ (layout : Layout) (rank : ℕ → ℕ) (depth : ℕ)
    (ranked : (c : ℕ) → All (IsBelow rank (rank c)) (layout.entry c)) where
  abbrev Sound : Sched → Type 0
  Sound = IsSound layout rank depth ranked []

  abbrev Fits : Sched → Type 0
  Fits = Below layout rank depth ranked

  -- A result, with enough fuel for the wakes and for the queue.
  abbrev ClaimEnds : Sched → Type 0
  ClaimEnds s =
      (a : Sched) × (n : ℕ) × Fits a
      × ((fuel m : ℕ) → n ≤ fuel → n ≤ m → claim_next layout depth fuel m s ≡ some a)

  no_more : (s : Sched) → live_queue s s.queue ≡ [] → Fits s → ClaimEnds s
  unfolding claim_next
  no_more s e b = (record s { queue = [] }, 1, b, at)
    where
      at :
          (fuel m : ℕ)
          → 1 ≤ fuel
          → 1 ≤ m
          → claim_next layout depth fuel m s ≡ some (record s { queue = [] })
      at fuel zero f le = absurd (omega (arith, le))
      at fuel (suc m) f le = rw (e, claim_next) refl

  claim-preds : (st : ℕ) (s : Sched) → (claim st s).preds ≡ s.preds
  unfolding claim promote_running enter_phase
  claim-preds st s =
      if_cases (λ (x : Sched). x.preds ≡ s.preds) (is_pending (s.states st)) _ _ (λ _. refl)
        (λ _. refl)

  abbrev reread : Sched → ℕ → List ℕ → Scan → Sched
  reread s st queue x = record s { queue = queue; preds = set_at st x.kept s.preds }

  claimed :
      (s : Sched) (st : ℕ) (rest : List ℕ) (x : Scan)
      → live_queue s s.queue ≡ st ∷ rest
      → preds_outcome (outcome depth (run_of layout s)) scan_to_blocker (s.preds st) ≡ some x
      → is_succeeded x.verdict ≡ true
      → Fits (reread s st (st ∷ rest) x)
      → ClaimEnds s
  unfolding claim_next
  claimed s st rest x e found v b = (
    claim st (reread s st (st ∷ rest) x),
    1,
    (λ m. rw (claim-preds st (reread s st (st ∷ rest) x)) (b m)),
    at,
  )
    where
      at :
          (fuel m : ℕ)
          → 1 ≤ fuel
          → 1 ≤ m
          → claim_next layout depth fuel m s ≡ some (claim st (reread s st (st ∷ rest) x))
      at fuel zero f le = absurd (omega (arith, le))
      at fuel (suc m) f le = rw (e, found, claim_next) (rw (v, and_then) refl)

  onward :
      (s s' s'' : Sched) (st : ℕ) (rest : List ℕ) (x : Scan) (n : ℕ)
      → live_queue s s.queue ≡ st ∷ rest
      → preds_outcome (outcome depth (run_of layout s)) scan_to_blocker (s.preds st) ≡ some x
      → is_succeeded x.verdict ≡ false
      → place layout depth st scan_to_blocker (reread s st rest x) ≡ some s'
      → ((m : ℕ) → n ≤ m → drain_woken layout depth m s' ≡ some s'')
      → ClaimEnds s''
      → ClaimEnds s
  unfolding claim_next
  onward s s' s'' st rest x n e found v placed drained (a, n', b, h) = (a, suc (n + n'), b, at)
    where
      at :
          (fuel m : ℕ)
          → suc (n + n') ≤ fuel
          → suc (n + n') ≤ m
          → claim_next layout depth fuel m s ≡ some a
      at fuel zero f le = absurd (omega (arith, le))
      at fuel (suc m) f le =
          rw (e, found, claim_next)
            (rw (v, and_then)
              (rw (placed, and_then)
                (rw (drained fuel (omega (arith, f)), and_then)
                  (h fuel m (omega (arith, f)) (omega (arith, le))))))

  -- The Task at the head may not start: it is placed again.
  not_yet :
      (s : Sched) (st : ℕ) (rest : List ℕ) (x : Scan)
      → live_queue s s.queue ≡ st ∷ rest
      → preds_outcome (outcome depth (run_of layout s)) scan_to_blocker (s.preds st) ≡ some x
      → is_succeeded x.verdict ≡ false
      → Sound s
      → Fits (reread s st rest x)
      → ((s' : Sched) → Sound s' → open_tasks s' < open_tasks s → ClaimEnds s')
      → ((s' : Sched)
          → Sound s'
          → open_tasks s' ≤ open_tasks s
          → length s'.queue ≤ length rest
          → ClaimEnds s')
      → ClaimEnds s
  unfolding preds_outcome
  not_yet s st rest x e found v ((w, idle), b) b' less more =
      let s1 = reread s st rest x in
      let (s2, placed, b2, seq, effect, queue) =
        place-IsRouted layout rank depth ranked st scan_to_blocker s1 b' in
      let known = live_queue-known layout depth 0 s s.queue rest st w e in
      let there = requeued layout depth 0 s rest (set_at st x.kept s.preds) (w, idle) in
      let w2 = subst (Lands (IsWatched layout [])) placed (
        place-IsWatched layout depth st scan_to_blocker [] s1 (also layout depth 0 st [] s1 there.0)
          known) in
      let (y, again, kept) =
        scan_preds-IsSome (outcome depth (run_of layout s)) (IsBelow rank depth) scan_to_blocker
          (s1.preds st) (pred_succeeded, undeclared)
          (kept_below layout rank depth ranked s1 (s1.preds st) (b' st)) (b' st) in
      let same_list : s1.preds st ≡ x.kept = rw (same_number st) refl in
      let still =
        reread_pending layout rank depth ranked s (s.preds st) x y (b st) found v
          (rw same_list at again) in
      elim effect [
        | inl now ↦
            let (s3, n, (rest3, (b3, fewer)), drained) =
              drain-Outlasts layout rank depth ranked [] s2 w2 b2 in
            let settled : open_tasks s2 < open_tasks s =
              rw (now, seq)
                ((count_open-settled s.states st s.decl_seq).1 (live_queue-open s s.queue rest st e)
                  (ground (arith, known)) (ground (arith, known))) in
            onward s s2 s3 st rest x n e found v placed drained
              (less s3 (rest3, b3) (omega (arith, fewer, settled)))
        | inr (states, same) ↦
            let idle2 = same ∙ idle in
            onward s s2 s2 st rest x 1 e found v placed
              (λ m le. drain_woken-idle layout rank depth ranked [] s2 m idle2 le)
              (more s2 ((w2, idle2), b2) (rw (states, seq) (omega arith))
                (rw (queue y again still) (omega arith)))
      ]

  -- One turn of the loop, from what follows it.
  turn :
      (s : Sched) (st : ℕ) (rest : List ℕ)
      → live_queue s s.queue ≡ st ∷ rest
      → Sound s
      → ((s' : Sched) → Sound s' → open_tasks s' < open_tasks s → ClaimEnds s')
      → ((s' : Sched)
          → Sound s'
          → open_tasks s' ≤ open_tasks s
          → length s'.queue ≤ length rest
          → ClaimEnds s')
      → ClaimEnds s
  unfolding preds_outcome
  turn s st rest e ((w, idle), b) less more =
      let r = run_of layout s in
      let (x, found, kept) =
        scan_preds-IsSome (outcome depth r) (IsBelow rank depth) scan_to_blocker (s.preds st)
          (pred_succeeded, undeclared) (kept_below layout rank depth ranked s (s.preds st) (b st))
          (b st) in
      let b' = λ (m : ℕ).
        if_cases (All (IsBelow rank depth)) (m == st) x.kept (s.preds m) (λ _. kept) (λ _. b m) in
      elim (Bool-cases (is_succeeded x.verdict)) [
        | inl v ↦ claimed s st rest x e found v b'
        | inr v ↦ not_yet s st rest x e found v ((w, idle), b) b' less more
      ]

  -- By the number of Tasks that have not settled, and then by the length of the queue.
  ends_below :
      (k q : ℕ) (s : Sched)
      → ((s' : Sched) → Sound s' → open_tasks s' < k → ClaimEnds s')
      → Sound s
      → open_tasks s ≤ k
      → length s.queue ≤ q
      → ClaimEnds s
  ends_below k zero s lower sound bound short = by_queue (live_queue s s.queue) refl
    where
      by_queue : (qs : List ℕ) → live_queue s s.queue ≡ qs → ClaimEnds s
      by_queue [] e = no_more s e sound.1
      by_queue (st ∷ rest) e = absurd (omega (arith, short, live_queue-shorter s s.queue rest st e))
  ends_below k (suc q) s lower sound bound short =
      by_queue (live_queue s s.queue) refl (λ s' sound' b l. ends_below k q s' lower sound' b l)
    where
      by_queue :
          (qs : List ℕ)
          → live_queue s s.queue ≡ qs
          → ((s' : Sched) → Sound s' → open_tasks s' ≤ k → length s'.queue ≤ q → ClaimEnds s')
          → ClaimEnds s
      by_queue [] e more = no_more s e sound.1
      by_queue (st ∷ rest) e more =
          turn s st rest e sound (λ s' sound' l. lower s' sound' (omega (arith, l, bound)))
            (λ s' sound' l short'.
              more s' sound' (omega (arith, l, bound))
                (omega (arith, short', short, live_queue-shorter s s.queue rest st e)))

  ends_by : (k : ℕ) (s : Sched) → Sound s → open_tasks s < k → ClaimEnds s
  ends_by zero s sound bound = absurd (omega (arith, bound))
  ends_by (suc k) s sound bound =
      ends_below k (length s.queue) s (ends_by k) sound (omega (arith, bound)) (omega arith)

  pub take_eligible-Ends : (s : Sched) → Sound s → Ends Fits (λ m. take_eligible layout depth m s)
  unfolding take_eligible
  take_eligible-Ends s sound =
      let (a, n, b, h) = ends_by (suc (open_tasks s)) s sound (omega arith) in
      choose-Ends Fits s.cancelled _ _ (λ _. now-Ends Fits s sound.1)
        (λ _. (a, n, b, λ m le. h m m le le))
