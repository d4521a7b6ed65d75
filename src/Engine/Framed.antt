-- ===== src/Engine/Framed.antt =====
-- internal/engine: a wake touches no Task but those that are parked.
use evident_output.Prelude.{
  ℕ, zero, suc, true, false, List, [], ◌∷◌, Option, none, some, ◌≡◌, inl, inr, refl, ◌∙◌, arith,
  ◌==◌, if_cases, Bool-cases,
}
use evident_output.Core.State.{EntityState, not_started}
use evident_output.Engine.CollectionTally.{PredOutcome, pred_pending, pred_succeeded, pred_failed}
use evident_output.Engine.Eligibility.{
  Predecessor, task, collection, undeclared, PredScan, scan_to_blocker, preds_outcome,
}
use evident_output.Engine.Schedule.{
  Phase, Layout, Sched, enter_phase, propagate_settle, settle_task, mark_not_started, waits_parked,
  route, place, wake_one, drain_woken, awaiting_start,
}
use evident_output.Engine.Operations.{close_edge, add_steps}
use evident_output.Engine.Awaited.{Lands, and_then-Lands}

-- What holds of any result of a step that follows whatever it is.
pub Lands-any : {A : Type 0} (P : A → Type 0) (x : Option A) → ((a : A) → P a) → Lands P x
Lands-any P none h = tt
Lands-any P (some a) h = h a

pub Lands-mono :
    {A : Type 0} (P Q : A → Type 0) (x : Option A) → ((a : A) → P a → Q a) → Lands P x → Lands Q x
Lands-mono P Q none k h = tt
Lands-mono P Q (some a) k h = k a h

module _ (layout : Layout) where
  -- A property that each wake keeps, the drain keeps.
  pub drain_woken-keeps :
      (P : Sched → Type 0) (depth fuel : ℕ)
      → ((st : ℕ) (rest : List ℕ) (s : Sched)
          → P s
          → Lands P (wake_one layout depth st (record s { woken = rest })))
      → (s : Sched) → P s
      → Lands P (drain_woken layout depth fuel s)
  unfolding drain_woken
  drain_woken-keeps P depth zero k s h = tt
  drain_woken-keeps P depth (suc fuel) k s h =
      by_worklist s.woken refl (drain_woken-keeps P depth fuel k)
    where
      by_worklist :
          (ws : List ℕ)
          → s.woken ≡ ws
          → ((s' : Sched) → P s' → Lands P (drain_woken layout depth fuel s'))
          → Lands P (drain_woken layout depth (suc fuel) s)
      by_worklist [] e more = rw (e, drain_woken) h
      by_worklist (st ∷ rest) e more =
          rw (e, drain_woken) (and_then-Lands P P _ _ (k st rest s h) more)

  -- The phase and the state of the Task `k` are those of `s`.
  abbrev pub IsSame : ℕ → Sched → Sched → Type 0
  IsSame k s s' = (s'.phase k ≡ s.phase k) × (s'.states k ≡ s.states k)

  pub settle_task-IsSame :
      (k st : ℕ) (state : EntityState) (s : Sched)
      → (k == st) ≡ false
      → IsSame k s (settle_task layout st state s)
  unfolding settle_task enter_phase propagate_settle
  settle_task-IsSame k st state s e =
      if_cases (λ x. IsSame k s (propagate_settle layout st x)) (awaiting_start (s.phase st)) _ _
        (λ _. (rw e refl, rw e refl)) (λ _. (refl, rw e refl))

  route-IsSame :
      (k st : ℕ) (verdict : PredOutcome) (blocker : Predecessor) (s : Sched)
      → (k == st) ≡ false
      → Lands (IsSame k s) (route layout st verdict blocker s)
  unfolding route enter_phase mark_not_started
  route-IsSame k st pred_succeeded blocker s e = (rw e refl, refl)
  route-IsSame k st pred_failed blocker s e = settle_task-IsSame k st not_started s e
  route-IsSame k st pred_pending (task b) s e = (rw e refl, refl)
  route-IsSame k st pred_pending (collection c through) s e = (rw e refl, refl)
  route-IsSame k st pred_pending undeclared s e = tt

  pub place-IsSame :
      (k depth st : ℕ) (scan : PredScan) (s : Sched)
      → (k == st) ≡ false
      → Lands (IsSame k s) (place layout depth st scan s)
  unfolding place
  place-IsSame k depth st scan s e =
      and_then-Lands (λ x. Unit) (IsSame k s) (preds_outcome _ scan (s.preds st)) _
        (Lands-any (λ x. Unit) (preds_outcome _ scan (s.preds st)) (λ x. tt))
        (λ x h. route-IsSame k st x.verdict x.blocker _ e)

  -- A Task that is not parked stays as it is while the worklist is drained.
  pub drain_woken-IsSame :
      (k depth fuel : ℕ) (s : Sched)
      → waits_parked k s ≡ false
      → Lands (IsSame k s) (drain_woken layout depth fuel s)
  unfolding waits_parked wake_one
  drain_woken-IsSame k depth fuel s out =
      drain_woken-keeps (IsSame k s) depth fuel wake s (refl, refl)
    where
      wake :
          (st : ℕ) (rest : List ℕ) (s' : Sched)
          → IsSame k s s'
          → Lands (IsSame k s) (wake_one layout depth st (record s' { woken = rest }))
      wake st rest s' (p, q) =
          if_cases (Lands (IsSame k s)) (waits_parked st s') _ _
            (λ waits.
              Lands-mono (IsSame k s') (IsSame k s) _ (λ x h. (h.0 ∙ p, h.1 ∙ q))
                (place-IsSame k depth st scan_to_blocker (record s' { woken = rest })
                  (elim (Bool-cases (k == st)) [
                    | inl e ↦
                        let same : k ≡ st = ground (arith, e) in
                        let here : waits_parked k s' ≡ true = rw same waits in
                        let was : waits_parked k s' ≡ waits_parked k s =
                          rw (p, q, waits_parked) refl in
                        absurd (cc (here, was, out))
                    | inr e ↦ e
                  ])))
            (λ _. (p, q))

  abbrev pub IsUntouched : ℕ → Sched → Type 0
  IsUntouched k s = (s.phase k ≡ Phase.declared) × (s.states k ≡ EntityState.pending)

  drain_woken-IsUntouched :
      (k depth fuel : ℕ) (s : Sched)
      → IsUntouched k s
      → Lands (IsUntouched k) (drain_woken layout depth fuel s)
  unfolding waits_parked
  drain_woken-IsUntouched k depth fuel s (p, q) =
      Lands-mono (IsSame k s) (IsUntouched k) _ (λ x h. (h.0 ∙ p, h.1 ∙ q))
        (drain_woken-IsSame k depth fuel s (rw (p, waits_parked) refl))

  close_edge-IsUntouched :
      (k depth fuel : ℕ) (p : Predecessor) (s : Sched)
      → IsUntouched k s
      → Lands (λ r. IsUntouched k r.1) (close_edge layout depth fuel p s)
  unfolding close_edge
  close_edge-IsUntouched k depth fuel p s h =
      and_then-Lands (IsUntouched k) (λ (r : Predecessor × Sched). IsUntouched k r.1) _ _
        (drain_woken-IsUntouched k depth fuel _ h) (λ s' h'. h')

  -- A Task that was not defined yet stays so while the steps before it are read.
  pub add_steps-IsUntouched :
      (k depth fuel st : ℕ) (ps : List Predecessor) (s : Sched)
      → IsUntouched k s
      → Lands (IsUntouched k) (add_steps layout depth fuel st ps s)
  unfolding add_steps
  add_steps-IsUntouched k depth fuel st [] s h = h
  add_steps-IsUntouched k depth fuel st (p ∷ ps) s h =
      and_then-Lands (λ (r : Predecessor × Sched). IsUntouched k r.1) (IsUntouched k) _ _
        (close_edge-IsUntouched k depth fuel p s h)
        (λ r h'. add_steps-IsUntouched k depth fuel st ps _ h')
