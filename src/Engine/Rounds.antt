-- ===== src/Engine/Rounds.antt =====
-- internal/engine/cycle.go: what each round of the walk keeps, and that it takes a step.
use evident_output.Prelude.{
  ℕ, suc, ◌+◌, ◌≤◌, ◌<◌, true, false, List, [], ◌∷◌, ◌++◌, All_mono, Option, some, if◌then◌else◌,
  ◌≡◌, ◌≢◌, inl, inr, refl, arith, All, All-append, Bool-cases, length, if_cases,
}
use evident_output.Engine.Cycle.{
  Node, node_eq, Color, unvisited, on_path, finished, Frame, paint, cycle_through, Walk, follow,
  walk_step, is_unvisited,
}
use evident_output.Engine.Waiting.{
  node_eq_same, node_eq_refl, has, All-has, IsCycle, IsLinked, IsLinked-below, IsLinked-top,
  IsLinked-left, node_eq_other, has_frame, cycle_from-found,
}
use evident_output.Engine.Ranked.{
  IsRankedWalk, pushed-IsRankedWalk, passed-IsRankedWalk, popped-IsRankedWalk,
}

module _ (edges : Node → List Node) (all : List Node) where
  -- `all` holds every vertex that an edge leads to.
  abbrev pub IsClosed : Type 0
  IsClosed = (n : Node) → All (λ e. has all e ≡ true) (edges n)

  -- `marks` are Tasks that the walk has come to.
  pub record IsWalk (marks : List Node) (w : Walk) : Type 0 where
    pub linked : IsLinked edges w.path
    pub colored : (n : Node) → w.color n ≡ on_path → has_frame edges w.path n ≡ true
    pub known : All (λ f. All (λ e. has all e ≡ true) f.edges) w.path
    pub cycles : All (IsCycle edges) w.cycles
    pub visited : All (λ n. is_unvisited (w.color n) ≡ false) marks
    pub ranked : w.cycles ≡ [] → IsRankedWalk edges w.color w.path

  -- What is left to do: the vertices that were not visited, and the edges left on the path.
  unfoldable pub weight : (Node → Color) → List Node → ℕ
  weight color [] = 0
  weight color (n ∷ ns) =
      (if is_unvisited (color n) then 2 + length (edges n) else 0) + weight color ns

  unfoldable pub path_weight : List Frame → ℕ
  path_weight [] = 0
  path_weight (f ∷ fs) = suc (length f.edges) + path_weight fs

  abbrev pub measure : Walk → ℕ
  measure w = weight w.color all + path_weight w.path

  pub weight-paint :
      (color : Node → Color) (n : Node) (c : Color) (ns : List Node)
      → is_unvisited c ≡ false
      → weight (paint color n c) ns ≤ weight color ns
  unfolding weight
  weight-paint color n c [] h = omega arith
  weight-paint color n c (m ∷ ms) h = ground (arith, h, weight-paint color n c ms h)

  pub weight-visited :
      (color : Node → Color) (n : Node) (c : Color) (ns : List Node)
      → is_unvisited c ≡ false
      → is_unvisited (color n) ≡ true
      → has ns n ≡ true
      → weight (paint color n c) ns + (2 + length (edges n)) ≤ weight color ns
  unfolding weight
  weight-visited color n c [] h u here = absurd (cc here)
  weight-visited color n c (m ∷ ms) h u here = elim (Bool-cases (node_eq m n)) [
    | inl same ↦
        rw (node_eq_same m n same, node_eq_refl n, h, u)
          (omega (arith, weight-paint color n c ms h))
    | inr differs ↦
        rw differs (omega (arith, weight-visited color n c ms h u (ground (arith, here, differs))))
  ]

  module _ (closed : IsClosed) (marks : List Node) where
    abbrev Steps : Walk → Option Walk → Type 0
    Steps w o = (w' : Walk) × (o ≡ some w') × IsWalk marks w' × (measure w' < measure w)

    paint_visited :
        (color : Node → Color) (n : Node) (c : Color)
        → All (λ m. is_unvisited (color m) ≡ false) marks
        → is_unvisited c ≡ false
        → All (λ m. is_unvisited (paint color n c m) ≡ false) marks
    paint_visited color n c h new =
        All_mono _ _ marks
          (λ m k. if_cases (λ x. is_unvisited x ≡ false) (node_eq m n) _ _ (λ _. new) (λ _. k)) h

    popped :
        (color : Node → Color) (cycles : List (List Node)) (top : Frame) (below : List Frame)
        → top.edges ≡ []
        → IsWalk marks (record { color = color; path = top ∷ below; cycles = cycles })
        → IsWalk marks
            (record { color = paint color top.n finished; path = below; cycles = cycles })
    popped color cycles top below last i = record {
      linked = (IsLinked-below edges top below i.linked).1;
      colored = λ n e. elim (Bool-cases (node_eq n top.n)) [
        | inl same ↦ absurd (cc (rw same at e))
        | inr differs ↦
            let before = i.colored n (rw differs at e) in
            rw (node_eq_other n top.n differs) at before
      ];
      known = i.known.1;
      cycles = i.cycles;
      visited = paint_visited color top.n finished i.visited refl;
      ranked = λ e. popped-IsRankedWalk edges color top below last (i.ranked e);
    }

    passed :
        (w : Walk) (top : Frame) (below : List Frame) (to : Node) (es : List Node)
        → top.edges ≡ to ∷ es
        → (w.cycles ≡ [] → w.color to ≡ finished)
        → IsWalk marks (record w { path = top ∷ below })
        → IsWalk marks (record w { path = record top { edges = es } ∷ below })
    passed w top below to es e done i = record {
      linked =
          IsLinked-left edges top es below i.linked
            (rw e at (IsLinked-top edges top below i.linked)).1;
      colored = i.colored;
      known = ((rw e at i.known.0).1, i.known.1);
      cycles = i.cycles;
      visited = i.visited;
      ranked = λ no_cycle.
          passed-IsRankedWalk edges w.color to top es below (done no_cycle) e (i.ranked no_cycle);
    }

    pushed :
        (w : Walk) (top : Frame) (below : List Frame) (to : Node) (es : List Node)
        → top.edges ≡ to ∷ es
        → w.color to ≡ unvisited
        → IsWalk marks (record w { path = top ∷ below })
        → IsWalk marks (record w {
          color = paint w.color to on_path;
          path = record { n = to; edges = edges to } ∷ record top { edges = es } ∷ below;
        })
    pushed w top below to es edge fresh i =
        let (first, later) = rw edge at (IsLinked-top edges top below i.linked) in
        record {
          linked = (All-has (edges to), first, IsLinked-left edges top es below i.linked later);
          colored = λ n e. elim (Bool-cases (node_eq n to)) [
            | inl same ↦ rw (node_eq_same n to same, node_eq_refl to) refl
            | inr differs ↦ rw (node_eq_other n to differs) (i.colored n (rw differs at e))
          ];
          known = (closed to, ((rw edge at i.known.0).1, i.known.1));
          cycles = i.cycles;
          visited = paint_visited w.color to on_path i.visited refl;
          ranked = λ e. pushed-IsRankedWalk edges w.color to top es below fresh edge (i.ranked e);
        }

    not_empty : (xs : List (List Node)) (c : List Node) → xs ++ c ∷ [] ≢ []
    not_empty [] c e = cc e
    not_empty (x ∷ xs) c e = cc e

    reported :
        (w : Walk) (top : Frame) (below : List Frame) (to : Node) (es c : List Node)
        → top.edges ≡ to ∷ es
        → IsCycle edges c
        → IsWalk marks (record w { path = top ∷ below })
        → IsWalk marks
            (record w { path = record top { edges = es } ∷ below; cycles = w.cycles ++ c ∷ [] })
    reported w top below to es c edge cyclic i = record {
      linked =
          IsLinked-left edges top es below i.linked
            (rw edge at (IsLinked-top edges top below i.linked)).1;
      colored = i.colored;
      known = ((rw edge at i.known.0).1, i.known.1);
      cycles = All-append (IsCycle edges) w.cycles (c ∷ []) i.cycles (cyclic, tt);
      visited = i.visited;
      ranked = λ e. absurd (not_empty w.cycles c e);
    }

    at_path :
        (w : Walk) (path : List Frame)
        → w.path ≡ path
        → IsWalk marks w
        → IsWalk marks (record w { path = path })
    at_path w path e i = record {
      linked = rw e at i.linked;
      colored = rw e at i.colored;
      known = rw e at i.known;
      cycles = i.cycles;
      visited = i.visited;
      ranked = rw e at i.ranked;
    }

    follow-Steps :
        (w : Walk) (top : Frame) (below : List Frame) (to : Node) (es : List Node)
        → w.path ≡ top ∷ below
        → top.edges ≡ to ∷ es
        → IsWalk marks w
        → Steps w (follow edges w top below to es)
    unfolding follow cycle_through path_weight
    follow-Steps w top below to es at_top edge i =
        by_color (at_path w (top ∷ below) at_top i) (w.color to) refl
      where
        by_color :
            IsWalk marks (record w { path = top ∷ below })
            → (c : Color) → w.color to ≡ c
            → Steps w (follow edges w top below to es)
        by_color j unvisited e =
            let known_to = (rw edge at j.known.0).0 in
            let drop = weight-visited w.color to on_path all refl (rw e refl) known_to in
            rw (e, follow)
              (_, refl, pushed w top below to es edge e j, rw (at_top, edge) (omega (arith, drop)))
        by_color j finished e =
            rw (e, follow)
              (_, refl, passed w top below to es edge (λ _. e) j, rw (at_top, edge) (omega arith))
        by_color j on_path e =
            let (first, later) = rw edge at (IsLinked-top edges top below j.linked) in
            let (c, found, cyclic) =
              cycle_from-found edges (record top { edges = es } ∷ below) to to [] []
                (IsLinked-left edges top es below j.linked later) first tt refl (j.colored to e) in
            rw (e, found, follow)
              (_, refl, reported w top below to es c edge cyclic j, rw (at_top, edge) (omega arith))

    pub walk_step-Steps :
        (w : Walk) (top : Frame) (below : List Frame)
        → w.path ≡ top ∷ below
        → IsWalk marks w
        → Steps w (walk_step edges w top below)
    unfolding walk_step path_weight
    walk_step-Steps w top below at_top i = by_edges top.edges refl
      where
        by_edges : (es : List Node) → top.edges ≡ es → Steps w (walk_step edges w top below)
        by_edges [] e =
            rw (e, walk_step)
              (
                _,
                refl,
                popped w.color w.cycles top below e (at_path w (top ∷ below) at_top i),
                rw at_top (omega (arith, weight-paint w.color top.n finished all refl)),
              )
        by_edges (to ∷ es) e = rw (e, walk_step) (follow-Steps w top below to es at_top e i)
