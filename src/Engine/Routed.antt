-- ===== src/Engine/Routed.antt =====
-- internal/engine/eligibility.go: what a Task that was placed waits for.
use evident_output.Prelude.{
  ℕ, ◌+◌, ◌<◌, ◌≤◌, Bool, true, false, List, [], ◌∷◌, ◌++◌, ◌≡◌, ◌⊎◌, inl, inr, refl, arith, ◌==◌,
  if◌then◌else◌, if_cases, Bool-cases,
}
use evident_output.Core.State.{not_started}
use evident_output.Engine.CollectionTally.{
  pred_pending, pred_succeeded, pred_failed, PredOutcome, CollectionTally, ParkedTask, tasks_of,
  park, insert_after_order,
}
use evident_output.Engine.Eligibility.{
  Predecessor, task, collection, undeclared, edge_cursor, task_outcome,
}
use evident_output.Engine.Accounted.{occurrences, occurrences-append, waiting_as}
use evident_output.Engine.Blockers.{Blocks, PendingBlocks}
use evident_output.Engine.Unresolved.{IsUnresolved, park-IsUnresolved}
use evident_output.Engine.Schedule.{
  Phase, queued, parked, is_parked, is_declared, Layout, Sched, set_at, enter_phase, run_of,
  mark_not_started, waits_parked, is_known, route,
}
use evident_output.Engine.Awaited.{
  Awaited, Lands, set_at_all, set_at-waiting_as, set_at-occurrences, Awaited-grows,
}
use evident_output.Engine.Watched.{IsWatched, keeps_pending, settle_task-IsWatched}

insert_after_order-occurrences :
    (i : ℕ) (qs : List ParkedTask) (p : ParkedTask)
    → occurrences i (tasks_of (insert_after_order qs p))
      ≡ occurrences i (tasks_of qs) + (if p.st == i then 1 else 0)
unfolding insert_after_order
insert_after_order-occurrences i [] p = omega arith
insert_after_order-occurrences i (q ∷ qs) p = ground (arith, insert_after_order-occurrences i qs p)

park-waiting_as :
    (i : ℕ) (t : CollectionTally) (st cursor : ℕ) (is_open : Bool)
    → waiting_as i (park t st cursor is_open) ≡ waiting_as i t + (if st == i then 1 else 0)
unfolding park
park-waiting_as i t st cursor true = omega (arith, occurrences-append i t.open_edges (st ∷ []))
park-waiting_as i t st cursor false =
    omega (arith, insert_after_order-occurrences i t.parked (record { st = st; cursor = cursor }))

pub self_positive : (i n : ℕ) → 0 < n + (if i == i then 1 else 0)
self_positive i n = ground arith

module _ (layout : Layout) where
  -- A Task that was placed: what waited goes on waiting, and the Task itself waits where it is
  -- parked.
  places :
      (st : ℕ) (extra : List ℕ) (s : Sched) (phase : Phase) (count : ℕ) (queue : List ℕ)
      (dependents : ℕ → List ℕ) (tally : ℕ → CollectionTally)
      → IsWatched layout (st ∷ extra) s
      → is_known st s ≡ true
      → is_declared phase ≡ false
      → (is_parked phase ≡ true → Awaited extra s.woken dependents tally st)
      → ((m b : ℕ) → occurrences m (s.dependents b) ≤ occurrences m (dependents b))
      → ((m c : ℕ) → waiting_as m (s.tally c) ≤ waiting_as m (tally c))
      → ((b m : ℕ)
          → 0 < occurrences m (dependents b)
          → (0 < occurrences m (s.dependents b))
            ⊎ (task_outcome (run_of layout s) b ≡ pred_pending))
      → ((c : ℕ) → IsUnresolved (tally c))
      → IsWatched layout extra (record s {
        phase = set_at st phase s.phase;
        parked_count = count;
        queue = queue;
        dependents = dependents;
        tally = tally;
      })
  unfolding waits_parked
  places st extra s phase count queue deps tally w known defined self grows_deps grows_tally added
        u =
      record {
        awaited = λ m p. elim (Bool-cases (m == st)) [
          | inl e ↦ let same : m ≡ st = ground (arith, e) in rw same (self (ground (arith, e, p)))
          | inr e ↦
              Awaited-grows (st ∷ extra) extra s.woken s.woken s.dependents deps s.tally tally m
                (λ h. ground (arith, e, h)) (λ h. h) (λ b. omega (arith, grows_deps m b))
                (λ c. omega (arith, grows_tally m c)) (w.awaited m (rw e at p))
        ];
        alive = λ b m h.
            let before : task_outcome (run_of layout s) b ≡ pred_pending = elim (added b m h) [
              | inl k ↦ w.alive b m k
              | inr k ↦ k
            ] in
            keeps_pending (run_of layout s) _ b refl (λ d. ground (arith, d, defined)) refl before;
        unresolved = u;
        fresh = λ m k.
            let e : (m == st) ≡ false = ground (arith, k, known) in
            let (state, declared_only) = w.fresh m k in (state, rw e declared_only);
      }

  grows_at :
      (st b : ℕ) (deps : ℕ → List ℕ) (m : ℕ) (k : ℕ)
      → occurrences m (deps k) ≤ occurrences m (set_at b (deps b ++ st ∷ []) deps k)
  grows_at st b deps m k =
      let grown =
        set_at-occurrences m 0 b (deps b ++ st ∷ []) deps
          (omega (arith, occurrences-append m (deps b) (st ∷ []))) k in
      omega (arith, grown)

  route_to_task :
      (st b : ℕ) (extra : List ℕ) (s : Sched)
      → IsWatched layout (st ∷ extra) s
      → is_known st s ≡ true
      → task_outcome (run_of layout s) b ≡ pred_pending
      → Lands (IsWatched layout extra) (route layout st pred_pending (task b) s)
  unfolding route enter_phase
  route_to_task st b extra s w known pending =
      places st extra s parked _ s.queue (set_at b (s.dependents b ++ st ∷ []) s.dependents) s.tally
        w known refl
        (λ _. inr (
          inr (
            inl (
              b,
              if_cases (λ x. 0 < occurrences st x) (b == b) _ _
                  (λ _. omega (
                    arith,
                    occurrences-append st (s.dependents b) (st ∷ []),
                    self_positive st (occurrences st (s.dependents b)),
                  ))
                  (λ e. absurd (ground (arith, e))),
            ))))
        (grows_at st b s.dependents) (λ m c. omega arith)
        (λ k m.
          if_cases
            (λ x.
              0 < occurrences m x
              → (0 < occurrences m (s.dependents k))
                ⊎ (task_outcome (run_of layout s) k ≡ pred_pending))
            (k == b) _ _ (λ e h. let same : k ≡ b = ground (arith, e) in inr (rw same pending))
            (λ _ h. inl h))
        w.unresolved

  route_to_collection :
      (st c through : ℕ) (extra : List ℕ) (s : Sched)
      → IsWatched layout (st ∷ extra) s
      → is_known st s ≡ true
      → Blocks (run_of layout s) (collection c through)
      → Lands (IsWatched layout extra) (route layout st pred_pending (collection c through) s)
  unfolding route enter_phase edge_cursor
  route_to_collection st c through extra s w known (building, alive, still) =
      let (cursor, is_open) = edge_cursor (run_of layout s) c through in
      let t = park (s.tally c) st cursor is_open in
      places st extra s parked _ s.queue s.dependents (set_at c t s.tally) w known refl
        (λ _. inr (
          inr (
            inr (
              c,
              if_cases (λ x. 0 < waiting_as st x) (c == c) _ _
                  (λ _. omega (
                    arith,
                    park-waiting_as st (s.tally c) st cursor is_open,
                    self_positive st (waiting_as st (s.tally c)),
                  ))
                  (λ e. absurd (ground (arith, e))),
            ))))
        (λ m b. omega arith)
        (λ m d.
          let grown =
            set_at-waiting_as m 0 c t s.tally
              (omega (arith, park-waiting_as m (s.tally c) st cursor is_open)) d in
          omega (arith, grown))
        (λ b m h. inl h)
        (set_at_all IsUnresolved c t s.tally
          (park-IsUnresolved (s.tally c) st cursor is_open (w.unresolved c) building alive still)
          w.unresolved)

  pub route-IsWatched :
      (st : ℕ) (verdict : PredOutcome) (blocker : Predecessor) (extra : List ℕ) (s : Sched)
      → IsWatched layout (st ∷ extra) s
      → is_known st s ≡ true
      → PendingBlocks (run_of layout s) (verdict, blocker)
      → Lands (IsWatched layout extra) (route layout st verdict blocker s)
  unfolding route enter_phase mark_not_started
  route-IsWatched st pred_succeeded blocker extra s w known h =
      places st extra s queued _ _ s.dependents s.tally w known refl (λ p. absurd (cc p))
        (λ m b. omega arith) (λ m c. omega arith) (λ b m h. inl h) w.unresolved
  route-IsWatched st pred_failed blocker extra s w known h =
      settle_task-IsWatched layout st not_started extra s w known
  route-IsWatched st pred_pending (task b) extra s w known h = route_to_task st b extra s w known h
  route-IsWatched st pred_pending (collection c through) extra s w known h =
      route_to_collection st c through extra s w known h
  route-IsWatched st pred_pending undeclared extra s w known h = tt

  -- Entering a phase in which a Task does not wait.
  pub enter_phase-IsWatched :
      (st : ℕ) (phase : Phase) (extra : List ℕ) (s : Sched)
      → IsWatched layout (st ∷ extra) s
      → is_known st s ≡ true
      → is_declared phase ≡ false
      → is_parked phase ≡ false
      → IsWatched layout extra (enter_phase st phase s)
  unfolding enter_phase
  enter_phase-IsWatched st phase extra s w known defined off =
      places st extra s phase _ s.queue s.dependents s.tally w known defined
        (λ p. absurd (cc (p, off))) (λ m b. omega arith) (λ m c. omega arith) (λ b m h. inl h)
        w.unresolved
