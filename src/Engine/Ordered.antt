-- ===== src/Engine/Ordered.antt =====
-- internal/engine: a Task that was placed after others, through settling, placing and the drain of the
-- worklist.
use evident_output.Prelude.{
  ℕ, true, false, List, Option, none, some, ◌≡◌, ◌⊎◌, inl, inr, refl, subst, arith, ◌==◌, if_cases,
  Bool-cases,
}
use evident_output.Core.State.{EntityState, not_started, is_terminal_task}
use evident_output.Engine.CollectionTally.{
  PredOutcome, pred_pending, pred_succeeded, pred_failed, state_outcome, is_succeeded,
}
use evident_output.Engine.Eligibility.{
  Predecessor, task, collection, undeclared, Run, task_outcome, outcome, PredScan, scan_to_blocker,
  Scan, preds_outcome,
}
use evident_output.Engine.Schedule.{
  Phase, is_running, Layout, Sched, set_at, enter_phase, run_of, propagate_settle, settle_task,
  mark_not_started, waits_parked, route, place, wake_one, drain_woken, awaiting_start,
}
use evident_output.Engine.Awaited.{Lands, and_then-Lands}
use evident_output.Engine.Framed.{drain_woken-keeps}
use evident_output.Engine.Recalled.{names, scan-Remembers}

outcome_succeeded :
    (r : Run) (b : ℕ)
    → task_outcome r b ≡ pred_succeeded
    → state_outcome (r.states b) ≡ pred_succeeded
unfolding task_outcome
outcome_succeeded r b k = ground (arith, k)

-- What the Tasks were placed after: each is still asked for or has succeeded, and has succeeded once
-- the Task runs.
pub record IsOrdered (s : Sched) : Type 0 where
  pub asked :
      (m b : ℕ)
      → names b (s.after m) ≡ true
      → (names b (s.preds m) ≡ true) ⊎ (state_outcome (s.states b) ≡ pred_succeeded)
  pub started :
      (m b : ℕ)
      → is_running (s.phase m) ≡ true
      → names b (s.after m) ≡ true
      → state_outcome (s.states b) ≡ pred_succeeded

open_unsucceeded :
    (x : EntityState) → is_terminal_task x ≡ false → state_outcome x ≡ pred_succeeded → ⊥
unfolding state_outcome is_terminal_task
open_unsucceeded x open_still k = ground (arith, open_still, k)

-- A step that settles no Task, starts none and keeps what they ask for.
pub same_states-IsOrdered :
    (s s' : Sched)
    → s'.states ≡ s.states
    → s'.preds ≡ s.preds
    → s'.after ≡ s.after
    → ((m : ℕ) → is_running (s'.phase m) ≡ true → is_running (s.phase m) ≡ true)
    → IsOrdered s
    → IsOrdered s'
same_states-IsOrdered s s' states preds after phases o = record {
  asked = λ m b n. elim (o.asked m b (rw⁻¹ after n)) [
    | inl k ↦ inl (rw preds k)
    | inr k ↦ inr (rw states k)
  ];
  started = λ m b r n. rw states (o.started m b (phases m r) (rw⁻¹ after n));
}

-- A step that settles no Task but an open one, starts none and keeps what they ask for.
pub keeps-IsOrdered :
    (st : ℕ) (s s' : Sched)
    → is_terminal_task (s.states st) ≡ false
    → ((m : ℕ) → (m == st) ≡ false → s'.states m ≡ s.states m)
    → s'.preds ≡ s.preds
    → s'.after ≡ s.after
    → ((m : ℕ) → is_running (s'.phase m) ≡ true → is_running (s.phase m) ≡ true)
    → IsOrdered s
    → IsOrdered s'
unfolding state_outcome is_terminal_task
keeps-IsOrdered st s s' open_still others preds after phases o = record {
  asked = λ m b n. elim (o.asked m b (rw⁻¹ after n)) [
    | inl k ↦ inl (rw preds k)
    | inr k ↦ inr (stays b k)
  ];
  started = λ m b r n. stays b (o.started m b (phases m r) (rw⁻¹ after n));
}
  where
    stays :
        (b : ℕ)
        → state_outcome (s.states b) ≡ pred_succeeded
        → state_outcome (s'.states b) ≡ pred_succeeded
    stays b k = elim (Bool-cases (b == st)) [
      | inl e ↦
          let same : b ≡ st = ground (arith, e) in
          absurd (
            open_unsucceeded (s.states st) open_still
              (subst (λ m. state_outcome (s.states m) ≡ pred_succeeded) same k))
      | inr e ↦ rw (others b e) k
    ]

pub entered :
    (st : ℕ) (phase : Phase) (s : Sched) (m : ℕ)
    → is_running phase ≡ false
    → is_running (set_at st phase s.phase m) ≡ true
    → is_running (s.phase m) ≡ true
entered st phase s m off =
    if_cases (λ p. is_running p ≡ true → is_running (s.phase m) ≡ true) (m == st) _ _
      (λ _ r. absurd (cc (off, r))) (λ _ r. r)

module _ (layout : Layout) where
  pub settle_task-IsOrdered :
      (st : ℕ) (state : EntityState) (s : Sched)
      → is_terminal_task (s.states st) ≡ false
      → IsOrdered s
      → IsOrdered (settle_task layout st state s)
  unfolding settle_task enter_phase propagate_settle
  settle_task-IsOrdered st state s open_still o =
      if_cases (λ x. IsOrdered (propagate_settle layout st x)) (awaiting_start (s.phase st)) _ _
        (λ _.
          keeps-IsOrdered st s _ open_still (λ m e. rw e refl) refl refl
            (λ m. entered st Phase.abandoned s m refl) o)
        (λ _. keeps-IsOrdered st s _ open_still (λ m e. rw e refl) refl refl (λ m r. r) o)

  pub route-IsOrdered :
      (st : ℕ) (verdict : PredOutcome) (blocker : Predecessor) (s : Sched)
      → is_terminal_task (s.states st) ≡ false
      → IsOrdered s
      → Lands IsOrdered (route layout st verdict blocker s)
  unfolding route enter_phase mark_not_started
  route-IsOrdered st pred_succeeded blocker s h o =
      same_states-IsOrdered s _ refl refl refl (λ m. entered st Phase.queued s m refl) o
  route-IsOrdered st pred_failed blocker s h o = settle_task-IsOrdered st not_started s h o
  route-IsOrdered st pred_pending (task b) s h o =
      same_states-IsOrdered s _ refl refl refl (λ m. entered st Phase.parked s m refl) o
  route-IsOrdered st pred_pending (collection c through) s h o =
      same_states-IsOrdered s _ refl refl refl (λ m. entered st Phase.parked s m refl) o
  route-IsOrdered st pred_pending undeclared s h o = tt

  -- What the scan leaves of a Task's predecessors still names each that has not succeeded.
  abbrev pub Recalls : Sched → ℕ → Scan → Type 0
  Recalls s st x =
      (b : ℕ)
      → names b (s.preds st) ≡ true
      → ((names b x.kept ≡ true) × (is_succeeded x.verdict ≡ false))
        ⊎ (state_outcome (s.states b) ≡ pred_succeeded)

  pub scan-Recalls :
      (depth st : ℕ) (scan : PredScan) (s : Sched) (x : Scan)
      → preds_outcome (outcome depth (run_of layout s)) scan (s.preds st) ≡ some x
      → Recalls s st x
  unfolding preds_outcome outcome
  scan-Recalls depth st scan s x e b n =
      elim (subst (Lands _) e (
        scan-Remembers (outcome depth (run_of layout s)) b (task_outcome (run_of layout s))
          (λ m. refl) scan (s.preds st) (pred_succeeded, undeclared) n)) [
            | inl k ↦ inl k
            | inr k ↦ inr (outcome_succeeded (run_of layout s) b k)
          ]

  pub reread-IsOrdered :
      (st : ℕ) (x : Scan) (queue : List ℕ) (s : Sched)
      → Recalls s st x
      → IsOrdered s
      → IsOrdered (record s { queue = queue; preds = set_at st x.kept s.preds })
  reread-IsOrdered st x queue s recalls o = record {
    asked = λ m b n. elim (Bool-cases (m == st)) [
      | inl e ↦
          let same : m ≡ st = ground (arith, e) in
          elim (o.asked m b n) [
            | inl k ↦ elim (recalls b (rw same at k)) [ inl h ↦ inl (rw e h.0) | inr h ↦ inr h ]
            | inr k ↦ inr k
          ]
      | inr e ↦ rw e (o.asked m b n)
    ];
    started = o.started;
  }

  pub place-IsOrdered :
      (depth st : ℕ) (scan : PredScan) (s : Sched)
      → is_terminal_task (s.states st) ≡ false
      → IsOrdered s
      → Lands IsOrdered (place layout depth st scan s)
  unfolding place
  place-IsOrdered depth st scan s open_still o =
      and_then-Lands (Recalls s st) IsOrdered _ _
        (read (preds_outcome (outcome depth (run_of layout s)) scan (s.preds st))
          (λ x e. scan-Recalls depth st scan s x e))
        (λ x recalls.
          route-IsOrdered st x.verdict x.blocker _ open_still
            (reread-IsOrdered st x s.queue s recalls o))
    where
      read : (y : Option Scan) → ((x : Scan) → y ≡ some x → Recalls s st x) → Lands (Recalls s st) y
      read none h = tt
      read (some x) h = h x refl

  pub drain_woken-IsOrdered :
      (depth fuel : ℕ) (s : Sched) → IsOrdered s → Lands IsOrdered (drain_woken layout depth fuel s)
  unfolding wake_one waits_parked
  drain_woken-IsOrdered depth fuel s o =
      drain_woken-keeps layout IsOrdered depth fuel
        (λ st rest s' o'.
          let o'' : IsOrdered (record s' { woken = rest }) = record {
            asked = o'.asked;
            started = o'.started;
          } in
          if_cases (Lands IsOrdered) (waits_parked st s') _ _
            (λ p.
              place-IsOrdered depth st scan_to_blocker (record s' { woken = rest })
                (ground (arith, p)) o'')
            (λ _. o''))
        s o
