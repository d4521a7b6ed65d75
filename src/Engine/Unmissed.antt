-- ===== src/Engine/Unmissed.antt =====
-- internal/engine: no step of the scheduler leaves a parked Task behind.
use evident_output.Prelude.{
  ℕ, zero, suc, ◌<◌, ◌≤◌, Bool, true, not, ◌&&◌, ◌||◌, List, [], ◌∷◌, ◌≡◌, inl, inr, arith, ◌==◌,
  if◌then◌else◌, if_cases, Bool-cases,
}
use evident_output.Core.State.{EntityState, is_terminal_task, not_started}
use evident_output.Engine.CollectionTally.{unpark}
use evident_output.Engine.Eligibility.{scan_all}
use evident_output.Engine.Accounted.{occurrences, occurrences-append}
use evident_output.Engine.Unresolved.{unpark-IsUnresolved}
use evident_output.Engine.Schedule.{
  is_parked, is_running, submitted, Layout, Sched, set_at, mark_not_started, waits_parked, is_known,
  declares_success,
}
use evident_output.Engine.Operations.{
  resolve, stop_unstarted, block_each, block_cycle, seal_collection, conclude_builder, parked_tasks,
  place_each, start_drain, Op, declaring, adding_after, defining, promoting, stopping, sealing,
  taking, start_draining, interrupting, resolving, blocking, holding, concluding, run_op, run_ops,
}
use evident_output.Engine.Awaited.{Lands, and_then-Lands}
use evident_output.Engine.Watched.{IsWatched, settle_task-IsWatched}
use evident_output.Engine.Routed.{self_positive}
use evident_output.Engine.Placed.{parked-known, unneeded-IsWatched}
use evident_output.Engine.Retallied.{
  seal-IsKept, hold_chain-IsKept, conclude_chain-IsKept, retallied-IsWatched,
}
use evident_output.Engine.Rested.{
  IsAtRest, Rests, placed-Rests, also, settled-Rests, place_now-Rests, retallied-quiet,
  declare_task-Rests, add_after-Rests, define_work-Rests,
}
use evident_output.Engine.Claimed.{promote_running-Rests, take_eligible-Rests}

module _ (layout : Layout) (depth fuel : ℕ) where
  resolve-Rests :
      (by_caller problem : Bool) (st : ℕ) (state : EntityState) (s : Sched)
      → IsAtRest layout [] s
      → Rests layout [] (resolve layout depth fuel by_caller problem st state s)
  unfolding resolve waits_parked
  resolve-Rests by_caller problem st state s (w, idle) =
      if_cases (Rests layout []) (not (is_known st s) || is_terminal_task (s.states st)) _ _
        (λ _. (w, idle))
        (λ unresolved.
          if_cases (Rests layout []) (submitted (s.phase st) && by_caller && declares_success state)
            _ _ (λ _. (w, idle))
            (λ _.
              settled-Rests layout depth fuel st state
                (record s { has_problem = set_at st (s.has_problem st || problem) s.has_problem })
                (record {
                  awaited = w.awaited;
                  alive = w.alive;
                  unresolved = w.unresolved;
                  fresh = w.fresh;
                })
                (ground (arith, unresolved))))

  stop_unstarted-Rests :
      (st : ℕ) (s : Sched)
      → is_known st s ≡ true
      → IsAtRest layout [] s
      → Rests layout [] (stop_unstarted layout depth fuel st s)
  unfolding stop_unstarted mark_not_started
  stop_unstarted-Rests st s known (w, idle) =
      if_cases (Rests layout []) (is_terminal_task (s.states st) || is_running (s.phase st)) _ _
        (λ _. (w, idle)) (λ _. settled-Rests layout depth fuel st not_started s w known)

  pub block_each-IsWatched :
      (sts : List ℕ) (s : Sched)
      → IsWatched layout [] s
      → IsWatched layout [] (block_each layout sts s)
  unfolding block_each waits_parked
  block_each-IsWatched [] s w = w
  block_each-IsWatched (st ∷ sts) s w = block_each-IsWatched sts _ (
      if_cases (IsWatched layout []) (waits_parked st s) _ _
        (λ p.
          settle_task-IsWatched layout st EntityState.blocked [] _
            (also layout depth fuel st [] _ (record {
              awaited = w.awaited;
              alive = w.alive;
              unresolved = w.unresolved;
              fresh = w.fresh;
            }))
            (parked-known layout [] s st w p))
        (λ _. w))

  seal_collection-Rests :
      (c : ℕ) (s : Sched)
      → IsAtRest layout [] s
      → Rests layout [] (seal_collection layout depth fuel c s)
  unfolding seal_collection
  seal_collection-Rests c s (w, idle) =
      placed-Rests layout depth fuel [] _
        (retallied-IsWatched layout [] _ _ s (seal-IsKept s.tally c s.decl_seq) w)

  conclude_builder-Rests :
      (failed : Bool) (cs : List ℕ) (s : Sched)
      → IsAtRest layout [] s
      → Rests layout [] (conclude_builder layout depth fuel failed cs s)
  unfolding conclude_builder
  conclude_builder-Rests failed cs s (w, idle) = placed-Rests layout depth fuel [] _ (
      retallied-IsWatched layout [] _ _ s (conclude_chain-IsKept true failed s.decl_seq cs s.tally)
        w)

  occurs_parked :
      (s : Sched) (n m : ℕ)
      → is_parked (s.phase m) ≡ true
      → 0 < m
      → m ≤ n
      → 0 < occurrences m (parked_tasks s n)
  unfolding parked_tasks
  occurs_parked s zero m p positive le = absurd (omega (arith, positive, le))
  occurs_parked s (suc n) m p positive le = elim (Bool-cases (m == suc n)) [
    | inl e ↦
        let same : m ≡ suc n = ground (arith, e) in
        let here : is_parked (s.phase (suc n)) ≡ true = rw same at p in
        rw (here, same)
          (omega (
            arith,
            occurrences-append (suc n) (parked_tasks s n) (suc n ∷ []),
            self_positive (suc n) 0,
          ))
    | inr e ↦ omega (
      arith,
      occurs_parked s n m p positive (ground (arith, e, le)),
      occurrences-append m (parked_tasks s n)
          (if is_parked (s.phase (suc n)) then suc n ∷ [] else []),
    )
  ]

  place_each-Rests :
      (sts : List ℕ) (s : Sched)
      → IsAtRest layout sts s
      → Rests layout [] (place_each layout depth fuel sts s)
  unfolding place_each
  place_each-Rests [] s h = h
  place_each-Rests (st ∷ sts) s (w, idle) =
      and_then-Lands (IsAtRest layout sts) (IsAtRest layout []) _ _
        (if_cases (Rests layout sts) (waits_parked st s) _ _
          (λ p.
            place_now-Rests layout depth fuel st scan_all sts s w
              (parked-known layout (st ∷ sts) s st w p))
          (λ n. (unneeded-IsWatched layout st sts s n w, idle)))
        (place_each-Rests sts)

  -- Where the drain of the run starts, the parked Tasks are those that it places again.
  pub unparked-IsAtRest :
      (s : Sched)
      → IsAtRest layout [] s
      → IsAtRest layout
          (parked_tasks s s.decl_seq)
          (record s { draining = true; dependents = λ m. []; tally = λ c. unpark (s.tally c) })
  unfolding waits_parked
  unparked-IsAtRest s (w, idle) = (
    record {
      awaited = λ m p.
          let known = parked-known layout [] s m w p in
          inl (
            occurs_parked s s.decl_seq m (ground (arith, p)) (ground (arith, known))
              (ground (arith, known)));
      alive = λ b m h. absurd (omega (arith, h));
      unresolved = λ c. unpark-IsUnresolved (s.tally c);
      fresh = w.fresh;
    },
    idle,
  )

  start_drain-Rests :
      (s : Sched) → IsAtRest layout [] s → Rests layout [] (start_drain layout depth fuel s)
  unfolding start_drain
  start_drain-Rests s h = place_each-Rests (parked_tasks s s.decl_seq) _ (unparked-IsAtRest s h)

  pub run_op-Rests :
      (op : Op) (s : Sched) → IsAtRest layout [] s → Rests layout [] (run_op layout depth fuel op s)
  unfolding run_op block_cycle waits_parked
  run_op-Rests (declaring steps) s h = declare_task-Rests layout depth fuel steps s h
  run_op-Rests (adding_after st ps) s h = add_after-Rests layout depth fuel st ps s h
  run_op-Rests (defining st) s h = define_work-Rests layout depth fuel st s h
  run_op-Rests (promoting st) s h =
      if_cases (IsAtRest layout []) (is_known st s) _ _
        (λ k. promote_running-Rests layout depth fuel st s k h) (λ _. h)
  run_op-Rests (stopping st) s h =
      if_cases (Rests layout []) (is_known st s) _ _ (λ k. stop_unstarted-Rests st s k h) (λ _. h)
  run_op-Rests (sealing c) s h = seal_collection-Rests c s h
  run_op-Rests taking s h = take_eligible-Rests layout depth fuel s h
  run_op-Rests start_draining s h = start_drain-Rests s h
  run_op-Rests interrupting s (w, idle) = (
    record { awaited = w.awaited; alive = w.alive; unresolved = w.unresolved; fresh = w.fresh },
    idle,
  )
  run_op-Rests (resolving by_caller problem st state) s h =
      resolve-Rests by_caller problem st state s h
  run_op-Rests (blocking sts) s (w, idle) =
      placed-Rests layout depth fuel [] _ (block_each-IsWatched sts s w)
  run_op-Rests (holding cs) s h =
      retallied-quiet layout depth fuel _ s (hold_chain-IsKept cs s.tally) h
  run_op-Rests (concluding failed cs) s h = conclude_builder-Rests failed cs s h

  pub run_ops-Rests :
      (ops : List Op) (s : Sched)
      → IsAtRest layout [] s
      → Lands (IsAtRest layout []) (run_ops layout depth fuel ops s)
  unfolding run_ops
  run_ops-Rests [] s h = h
  run_ops-Rests (op ∷ ops) s h =
      and_then-Lands (IsAtRest layout []) (IsAtRest layout []) _ _ (run_op-Rests op s h)
        (run_ops-Rests ops)
