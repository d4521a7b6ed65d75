-- ===== src/Engine/Rested.antt =====
-- internal/engine: declaring and defining a Task leave each parked Task with something pending to wait for.
use evident_output.Prelude.{
  ℕ, suc, true, not, ◌||◌, List, [], ◌∷◌, Option, none, some, ◌≡◌, refl, subst, arith, if_cases,
  append-nil,
}
use evident_output.Core.State.{EntityState, is_terminal_task, not_started}
use evident_output.Engine.CollectionTally.{state_outcome, CollectionTally}
use evident_output.Engine.Eligibility.{Predecessor, close_membership, scan_all}
use evident_output.Engine.Schedule.{
  queued, submitted, Layout, Sched, and_then, enter_phase, settle_task, mark_not_started,
  waits_parked, is_known, place, drain_woken,
}
use evident_output.Engine.Operations.{
  close_edge, add_preds, add_steps, declare_task, add_after, define_work,
}
use evident_output.Engine.Awaited.{Awaited-grows, Lands, and_then-Lands}
use evident_output.Engine.Watched.{IsWatched, settle_task-IsWatched}
use evident_output.Engine.Routed.{enter_phase-IsWatched}
use evident_output.Engine.Placed.{place-IsWatched, drain_woken-IsWatched}
use evident_output.Engine.Retallied.{
  IsKept, close_membership-IsKept, declare_chain-IsKept, retallied-IsWatched,
}
use evident_output.Engine.Framed.{IsUntouched, add_steps-IsUntouched}

module _ (layout : Layout) where
  -- Each parked Task waits on something that is pending, but those of `extra`, and no wake is due.
  abbrev pub IsAtRest : List ℕ → Sched → Type 0
  IsAtRest extra s = IsWatched layout extra s × (s.woken ≡ [])

  abbrev pub Rests : List ℕ → Option Sched → Type 0
  Rests extra = Lands (IsAtRest extra)

module _ (layout : Layout) (depth fuel : ℕ) where
  pub placed-Rests :
      (extra : List ℕ) (s : Sched)
      → IsWatched layout extra s
      → Rests layout extra (drain_woken layout depth fuel s)
  placed-Rests extra s w = drain_woken-IsWatched layout depth fuel extra s w

  pub also :
      (st : ℕ) (extra : List ℕ) (s : Sched)
      → IsWatched layout extra s
      → IsWatched layout (st ∷ extra) s
  also st extra s w = record {
    awaited = λ m p.
        Awaited-grows extra (st ∷ extra) s.woken s.woken s.dependents s.dependents s.tally s.tally m
          (λ h. omega (arith, h)) (λ h. h) (λ b. omega arith) (λ c. omega arith) (w.awaited m p);
    alive = w.alive;
    unresolved = w.unresolved;
    fresh = w.fresh;
  }

  pub settled-Rests :
      (st : ℕ) (state : EntityState) (s : Sched)
      → IsWatched layout [] s
      → is_known st s ≡ true
      → Rests layout [] (drain_woken layout depth fuel (settle_task layout st state s))
  settled-Rests st state s w known =
      placed-Rests [] _ (settle_task-IsWatched layout st state [] s (also st [] s w) known)

  pub place_now-Rests :
      (st : ℕ) (scan : _) (extra : List ℕ) (s : Sched)
      → IsWatched layout (st ∷ extra) s
      → is_known st s ≡ true
      → Rests layout extra (and_then (place layout depth st scan s) (drain_woken layout depth fuel))
  place_now-Rests st scan extra s w known =
      and_then-Lands (IsWatched layout extra) (IsAtRest layout extra) _ _
        (place-IsWatched layout depth st scan extra s w known) (placed-Rests extra)

  pub close_edge-Rests :
      (p : Predecessor) (s : Sched)
      → IsAtRest layout [] s
      → Lands (λ r. IsAtRest layout [] r.1) (close_edge layout depth fuel p s)
  unfolding close_edge
  close_edge-Rests p s (w, idle) =
      let (edge, (woken, tally)) = close_membership s.decl_seq s.tally p in
      and_then-Lands (IsAtRest layout []) (λ (r : Predecessor × Sched). IsAtRest layout [] r.1) _ _
        (placed-Rests [] _ (
          retallied-IsWatched layout [] woken tally s (close_membership-IsKept s.decl_seq s.tally p)
            w))
        (λ s' h. h)

  -- The predecessors of a Task are nothing that another waits for.
  pub repreds :
      (s : Sched) (preds after : ℕ → List Predecessor)
      → IsAtRest layout [] s
      → IsAtRest layout [] (record s { preds = preds; after = after })
  unfolding waits_parked
  repreds s preds after (w, idle) = (
    record { awaited = w.awaited; alive = w.alive; unresolved = w.unresolved; fresh = w.fresh },
    idle,
  )

  pub add_preds-Rests :
      (st : ℕ) (ps : List Predecessor) (s : Sched)
      → IsAtRest layout [] s
      → Rests layout [] (add_preds layout depth fuel st ps s)
  unfolding add_preds
  add_preds-Rests st [] s h = h
  add_preds-Rests st (p ∷ ps) s h =
      and_then-Lands (λ (r : Predecessor × Sched). IsAtRest layout [] r.1) (IsAtRest layout []) _ _
        (close_edge-Rests p s h) (λ r h'. add_preds-Rests st ps _ (repreds r.1 _ _ h'))

  pub add_steps-Rests :
      (st : ℕ) (ps : List Predecessor) (s : Sched)
      → IsAtRest layout [] s
      → Rests layout [] (add_steps layout depth fuel st ps s)
  unfolding add_steps
  add_steps-Rests st [] s h = h
  add_steps-Rests st (p ∷ ps) s h =
      and_then-Lands (λ (r : Predecessor × Sched). IsAtRest layout [] r.1) (IsAtRest layout []) _ _
        (close_edge-Rests p s h) (λ r h'. add_steps-Rests st ps _ (repreds r.1 _ r.1.after h'))

  -- A write to the tallies that wakes nobody.
  pub retallied-quiet :
      (tally : ℕ → CollectionTally) (s : Sched)
      → IsKept s.tally [] tally
      → IsAtRest layout [] s
      → IsAtRest layout [] (record s { tally = tally })
  retallied-quiet tally s k (w, idle) = (
    subst (λ ws. IsWatched layout [] (record s { tally = tally; woken = ws })) (append-nil s.woken)
        (retallied-IsWatched layout [] [] tally s k w),
    idle,
  )

  pub both_land :
      {A : Type 0} (P Q : A → Type 0) (x : Option A)
      → Lands P x
      → Lands Q x
      → Lands (λ a. P a × Q a) x
  both_land P Q none h k = tt
  both_land P Q (some a) h k = (h, k)

  pub declare_task-Rests :
      (steps : List Predecessor) (s : Sched)
      → IsAtRest layout [] s
      → Rests layout [] (declare_task layout depth fuel steps s)
  unfolding declare_task waits_parked state_outcome
  declare_task-Rests steps s (w, idle) =
      let st = suc s.decl_seq in
      let begun : Sched = record s { decl_seq = st } in
      let (state, phase) = w.fresh st (ground arith) in
      let rest : IsAtRest layout [] begun = (
        record {
          awaited = w.awaited;
          alive = w.alive;
          unresolved = w.unresolved;
          fresh = λ m k. w.fresh m (ground (arith, k));
        },
        idle,
      ) in
      and_then-Lands (λ x. IsAtRest layout [] x × IsUntouched layout st x) (IsAtRest layout []) _ _
        (both_land (IsAtRest layout []) (IsUntouched layout st) _
          (add_steps-Rests st steps begun rest)
          (add_steps-IsUntouched layout st depth fuel st steps begun (phase, state)))
        (λ x h.
          retallied-quiet _ x
            (declare_chain-IsKept x.states st (layout.chain st) x.tally (rw h.1.1 refl)) h.0)

  pub add_after-Rests :
      (st : ℕ) (ps : List Predecessor) (s : Sched)
      → IsAtRest layout [] s
      → Rests layout [] (add_after layout depth fuel st ps s)
  unfolding add_after
  add_after-Rests st ps s h =
      if_cases (Rests layout []) (not (is_known st s) || submitted (s.phase st)) _ _ (λ _. h)
        (λ _. add_preds-Rests st ps s h)

  pub define_work-Rests :
      (st : ℕ) (s : Sched)
      → IsAtRest layout [] s
      → Rests layout [] (define_work layout depth fuel st s)
  unfolding define_work mark_not_started enter_phase
  define_work-Rests st s (w, idle) =
      let s' = enter_phase st queued s in
      if_cases (Rests layout [])
        (not (is_known st s) || is_terminal_task (s.states st) || submitted (s.phase st)) _ _
        (λ _. (w, idle))
        (λ open_work.
          let known : is_known st s ≡ true = ground (arith, open_work) in
          let w' = enter_phase-IsWatched layout st queued [] s (also st [] s w) known refl refl in
          if_cases (Rests layout []) s.cancelled _ _ (λ _. settled-Rests st not_started s' w' known)
            (λ _. place_now-Rests st scan_all [] s' (also st [] s' w') known))
