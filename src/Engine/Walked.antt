-- ===== src/Engine/Walked.antt =====
-- internal/engine/cycle.go: the walk ends, and what it found are the cycles.
use evident_output.Prelude.{
  ℕ, zero, suc, ◌+◌, ◌≤◌, ◌<◌, Bool, true, false, not, ◌||◌, List, [], ◌∷◌, All_mono, subst, ap,
  Option, none, some, ◌≡◌, inl, inr, refl, arith, All, Bool-cases, length, if_cases,
}
use evident_output.Engine.Cycle.{
  Node, task_node, node_eq, Color, unvisited, on_path, finished, Frame, paint, Walk, walk,
  walk_root, walk_tasks, new_walk, is_unvisited, Waits, waits_for, dependency_cycles,
}
use evident_output.Engine.Waiting.{node_eq_same, node_eq_refl, has, All-has, IsCycle}
use evident_output.Engine.Ranked.{is_finished, finished_is, IsRankedWalk, rooted-IsRankedWalk}
use evident_output.Engine.Rounds.{
  IsClosed, IsWalk, weight, path_weight, measure, weight-visited, walk_step-Steps,
}

module _ (edges : Node → List Node) (all : List Node) where
  module _ (closed : (IsClosed edges all)) (marks : List Node) where
    abbrev Ends : ℕ → Option Walk → Type 0
    Ends bound o =
        (w : Walk) × (o ≡ some w)
        × (w.path ≡ [])
        × (IsWalk edges all) marks w
        × ((weight edges all) w.color all ≤ bound)

    walk-Ends :
        (fuel : ℕ) (w : Walk)
        → (measure edges all) w < fuel
        → (IsWalk edges all) marks w
        → Ends ((measure edges all) w) (walk fuel edges w)
    unfolding walk path_weight
    walk-Ends zero w h i = absurd (omega (arith, h))
    walk-Ends (suc fuel) w h i = by_path (walk-Ends fuel) w.path refl
      where
        by_path :
            ((w' : Walk)
              → (measure edges all) w' < fuel
              → (IsWalk edges all) marks w'
              → Ends ((measure edges all) w') (walk fuel edges w'))
            → (p : List Frame) → w.path ≡ p
            → Ends ((measure edges all) w) (walk (suc fuel) edges w)
        by_path more [] e = rw (e, walk) (w, refl, e, i, omega arith)
        by_path more (top ∷ below) e =
            let (w', step, i', less) = (walk_step-Steps edges all closed marks) w top below e i in
            let (end, ends, empty, final, bound) = more w' (omega (arith, h, less)) i' in
            let left : (weight edges all) end.color all ≤ (measure edges all) w =
              omega (arith, bound, less) in
            rw (e, step, walk) (end, ends, empty, final, rw e at left)

  marked :
      (marks : List Node) (w : Walk) (n : Node)
      → is_unvisited (w.color n) ≡ false
      → (IsWalk edges all) marks w
      → (IsWalk edges all) (n ∷ marks) w
  marked marks w n h i = record {
    linked = i.linked;
    colored = i.colored;
    known = i.known;
    cycles = i.cycles;
    visited = (h, i.visited);
    ranked = i.ranked;
  }

  unmarked :
      (marks : List Node) (w : Walk) (n : Node)
      → (IsWalk edges all) (n ∷ marks) w
      → (IsWalk edges all) marks w
  unmarked marks w n i = record {
    linked = i.linked;
    colored = i.colored;
    known = i.known;
    cycles = i.cycles;
    visited = i.visited.1;
    ranked = i.ranked;
  }

  is_fresh : (c : Color) → is_unvisited c ≡ true → c ≡ unvisited
  is_fresh unvisited h = refl
  is_fresh on_path h = cc h
  is_fresh finished h = cc h

  -- The walk between two roots.
  abbrev IsIdle : List Node → ℕ → Walk → Type 0
  IsIdle marks bound w =
      (w.path ≡ []) × (IsWalk edges all) marks w × ((weight edges all) w.color all ≤ bound)

  rooted :
      (marks : List Node) (w : Walk) (root : Node)
      → (IsClosed edges all)
      → w.path ≡ []
      → is_unvisited (w.color root) ≡ true
      → (IsWalk edges all) marks w
      → (IsWalk edges all) (root ∷ marks) (record w {
        color = paint w.color root on_path;
        path = record { n = root; edges = edges root } ∷ [];
      })
  rooted marks w root closed empty fresh i = record {
    linked = All-has (edges root);
    colored = λ n e. elim (Bool-cases (node_eq n root)) [
      | inl same ↦ rw (node_eq_same n root same, node_eq_refl root) refl
      | inr differs ↦ absurd (cc (rw empty at (i.colored n (rw differs at e))))
    ];
    known = (closed root, tt);
    cycles = i.cycles;
    visited = (
      rw (node_eq_refl root) refl,
      All_mono _ _ marks
          (λ m k. if_cases (λ x. is_unvisited x ≡ false) (node_eq m root) _ _ (λ _. refl) (λ _. k))
          i.visited,
    );
    ranked = λ no_cycle.
        rooted-IsRankedWalk edges w.color root (is_fresh (w.color root) fresh)
          (subst (IsRankedWalk edges w.color) empty (i.ranked no_cycle));
  }

  module _ (closed : (IsClosed edges all)) where
    walk_root-Ends :
        (fuel bound : ℕ) (marks : List Node) (w : Walk) (root : Node)
        → bound < fuel
        → IsIdle marks bound w
        → is_unvisited (w.color root) ≡ true
        → has all root ≡ true
        → Ends closed (root ∷ marks) bound (walk_root fuel edges w root)
    unfolding walk_root path_weight
    walk_root-Ends fuel bound marks w root enough (empty, i, le) fresh known =
        let drop = (weight-visited edges all) w.color root on_path all refl fresh known in
        let start : Walk = record w {
          color = paint w.color root on_path;
          path = record { n = root; edges = edges root } ∷ [];
        } in
        let (end, ends, done, final, left) =
          walk-Ends closed (root ∷ marks) fuel start (omega (arith, drop, le, enough))
            (rooted marks w root closed empty fresh i) in
        (end, ends, done, final, omega (arith, left, drop, le))

    -- The walk over all the roots has come to each of them that is parked.
    abbrev Visits : (ℕ → Bool) → List ℕ → Walk → Type 0
    Visits parked ms w =
        All (λ m. parked m ≡ true → is_unvisited (w.color (task_node m)) ≡ false) ms

    abbrev EndsAll : (ℕ → Bool) → List ℕ → List Node → Option Walk → Type 0
    EndsAll parked ms marks o =
        (w : Walk) × (o ≡ some w) × (w.path ≡ []) × (IsWalk edges all) marks w × Visits parked ms w

    visited_first :
        (parked : ℕ → Bool) (m : ℕ) (ms : List ℕ) (marks : List Node) (o : Option Walk)
        → EndsAll parked ms (task_node m ∷ marks) o
        → EndsAll parked (m ∷ ms) marks o
    visited_first parked m ms marks o (w, e, empty, i, visits) =
        (w, e, empty, unmarked marks w (task_node m) i, ((λ _. i.visited.0), visits))

    walk_tasks-Ends :
        (fuel bound : ℕ) (parked : ℕ → Bool) (ms : List ℕ) (marks : List Node) (w : Walk)
        → bound < fuel
        → All (λ m. has all (task_node m) ≡ true) ms
        → IsIdle marks bound w
        → EndsAll parked ms marks (walk_tasks fuel edges parked ms w)
    unfolding walk_tasks
    walk_tasks-Ends fuel bound parked [] marks w enough known (empty, i, le) =
        (w, refl, empty, i, tt)
    walk_tasks-Ends fuel bound parked (m ∷ ms) marks w enough (k, known) (empty, i, le) =
        if_cases (EndsAll parked (m ∷ ms) marks)
          (not (parked m) || not (is_unvisited (w.color (task_node m)))) _ _
          (λ skip. elim (Bool-cases (is_unvisited (w.color (task_node m)))) [
            | inl fresh ↦
                let (end, e, done, j, visits) =
                  walk_tasks-Ends fuel bound parked ms marks w enough known (empty, i, le) in
                (end, e, done, j, ((λ p. absurd (ground (arith, skip, fresh, p))), visits))
            | inr old ↦ visited_first parked m ms marks _ (
                walk_tasks-Ends fuel bound parked ms (task_node m ∷ marks) w enough known
                  (empty, marked marks w (task_node m) old i, le))
          ])
          (λ go.
            let (w', eq, empty', i', le') =
              walk_root-Ends fuel bound marks w (task_node m) enough (empty, i, le)
                (ground (arith, go)) k in
            rw eq (
              visited_first parked m ms marks _ (
                walk_tasks-Ends fuel bound parked ms (task_node m ∷ marks) w' enough known
                  (empty', i', le'))))

-- Steps enough for any walk over these vertices.
abbrev pub enough_steps : (Node → List Node) → List Node → ℕ
enough_steps edges [] = 1
enough_steps edges (n ∷ ns) = 2 + length (edges n) + enough_steps edges ns

weight-fresh :
    (edges : Node → List Node) (all ns : List Node)
    → weight edges all (λ n. unvisited) ns < enough_steps edges ns
unfolding weight
weight-fresh edges all [] = omega arith
weight-fresh edges all (n ∷ ns) = omega (arith, weight-fresh edges all ns)

search :
    (w : Waits) (all : List Node) (tasks : List ℕ) (fuel : ℕ) (closed : IsClosed (waits_for w) all)
    → All (λ m. has all (task_node m) ≡ true) tasks
    → enough_steps (waits_for w) all ≤ fuel
    → EndsAll
        (waits_for w)
        all
        closed
        w.parked
        tasks
        []
        (walk_tasks fuel (waits_for w) w.parked tasks new_walk)
search w all tasks fuel closed known enough =
    let fresh = weight-fresh (waits_for w) all all in
    walk_tasks-Ends (waits_for w) all closed fuel (weight (waits_for w) all (λ n. unvisited) all)
      w.parked tasks [] new_walk (omega (arith, fresh, enough)) known
      (
        refl,
        record {
          linked = tt;
          colored = λ n e. cc e;
          known = tt;
          cycles = tt;
          visited = tt;
          ranked = λ _. ((λ n. 0), (λ n e. absurd (cc e)), tt);
        },
        omega arith,
      )

-- Looking for cycles ends, without an index out of range, and each that it reports is one: a chain of
-- vertices of which each waits for the next, from a vertex back to itself. `all` holds the Tasks of
-- the run and every vertex that something waits for, and the steps are at least two for each of
-- them, and one for each thing that it waits for, and one more.
pub dependency_cycles-IsCycle :
    (w : Waits) (all : List Node) (tasks : List ℕ) (fuel : ℕ)
    → IsClosed (waits_for w) all
    → All (λ m. has all (task_node m) ≡ true) tasks
    → enough_steps (waits_for w) all ≤ fuel
    → (cycles : List (List Node)) × (dependency_cycles fuel w tasks ≡ some cycles)
      × All (IsCycle (waits_for w)) cycles
unfolding dependency_cycles
dependency_cycles-IsCycle w all tasks fuel closed known enough =
    let (end, ends, done, i, visits) = search w all tasks fuel closed known enough in
    (end.cycles, rw (ends, dependency_cycles) refl, i.cycles)

-- Where looking for cycles reports none, there is none: every parked Task, and everything that it
-- waits for, directly or not, has a rank that falls along the graph, so that nothing waits for
-- itself. The premises are those under which the search ends.
pub dependency_cycles-none :
    (w : Waits) (all : List Node) (tasks : List ℕ) (fuel : ℕ)
    → IsClosed (waits_for w) all
    → All (λ m. has all (task_node m) ≡ true) tasks
    → enough_steps (waits_for w) all ≤ fuel
    → dependency_cycles fuel w tasks ≡ some []
    → (reached : Node → Bool) × (rank : Node → ℕ) × All
        (λ m. w.parked m ≡ true → reached (task_node m) ≡ true)
        tasks
      × ((n : Node)
          → reached n ≡ true
          → All (λ e. (reached e ≡ true) × (rank e < rank n)) (waits_for w n))
unfolding dependency_cycles
dependency_cycles-none w all tasks fuel closed known enough nothing =
    let (end, ends, empty, i, visits) = search w all tasks fuel closed known enough in
    let no_cycle : end.cycles ≡ [] =
      ap (λ o. elim o [ none ↦ [] | some c ↦ c ]) (rw (ends, dependency_cycles) at nothing) in
    let (rank, falls, over) = i.ranked no_cycle in
    (
      λ n. is_finished (end.color n),
      rank,
      All_mono _ _ tasks
          (λ m h p.
            settled (end.color (task_node m)) (h p)
              (λ on. cc (rw empty at (i.colored (task_node m) on))))
          visits,
      λ n e.
          All_mono _ _ (waits_for w n) (λ m h. (rw h.0 refl, h.1))
            (falls n (finished_is (waits_for w) (end.color n) e)),
    )
  where
    settled : (c : Color) → is_unvisited c ≡ false → (c ≡ on_path → ⊥) → is_finished c ≡ true
    settled unvisited h off = cc h
    settled on_path h off = absurd (off refl)
    settled finished h off = refl
