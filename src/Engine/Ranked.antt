-- ===== src/Engine/Ranked.antt =====
-- internal/engine/cycle.go: while the walk has found no cycle, the vertices that it has finished can be
-- ranked along their edges.
use evident_output.Prelude.{
  ℕ, ◌+◌, ◌<◌, Bool, true, false, List, [], ◌∷◌, if◌then◌else◌, ◌≡◌, ◌⊎◌, inl, inr, refl, sym, ◌∙◌,
  ap, arith, All, All_mono, Bool-cases,
}
use evident_output.Engine.Cycle.{Node, node_eq, Color, unvisited, on_path, finished, Frame, paint}
use evident_output.Engine.Waiting.{node_eq_same, node_eq_refl, has, All-has}

abbrev pub is_finished : Color → Bool
is_finished finished = true
is_finished _ = false

module _ (edges : Node → List Node) where
  -- Each edge of `n` leads to a finished vertex of a lower rank.
  abbrev pub Falls : (Node → Color) → (Node → ℕ) → Node → Type 0
  Falls color rank n = All (λ e. (color e ≡ finished) × (rank e < rank n)) (edges n)

  -- Each edge of a vertex on the path is left to follow, or leads to a finished vertex, or to the
  -- vertex `above` it on the path.
  abbrev pub Followed : (Node → Color) → (Node → Bool) → List Frame → Type 0
  Followed color above [] = Unit
  Followed color above (f ∷ fs) =
      All (λ e. (has f.edges e ≡ true) ⊎ ((color e ≡ finished) ⊎ (above e ≡ true))) (edges f.n)
      × Followed color (node_eq f.n) fs

  abbrev pub nothing : Node → Bool
  nothing n = false

  abbrev pub IsRankedWalk : (Node → Color) → List Frame → Type 0
  IsRankedWalk color path =
      (rank : Node → ℕ) × ((n : Node) → color n ≡ finished → Falls color rank n)
      × Followed color nothing path

  -- Coloring a vertex keeps the finished ones, where it is finished or was not visited.
  abbrev Keeps : (Node → Color) → (Node → Color) → Type 0
  Keeps color color' = (n : Node) → color n ≡ finished → color' n ≡ finished

  Followed-mono :
      (color color' : Node → Color) (above above' : Node → Bool) (fs : List Frame)
      → Keeps color color'
      → ((n : Node) → above n ≡ true → (color' n ≡ finished) ⊎ (above' n ≡ true))
      → Followed color above fs
      → Followed color' above' fs
  Followed-mono color color' above above' [] keeps up h = tt
  Followed-mono color color' above above' (f ∷ fs) keeps up (h, hs) = (
    All_mono _ _ (edges f.n)
        (λ e k. elim k [
          | inl left ↦ inl left
          | inr (inl done) ↦ inr (inl (keeps e done))
          | inr (inr on) ↦ inr (up e on)
        ])
        h,
    Followed-mono color color' (node_eq f.n) (node_eq f.n) fs keeps (λ n on. inr on) hs,
  )

  paint-finished : (color : Node → Color) (n : Node) → Keeps color (paint color n finished)
  paint-finished color n m e = elim (Bool-cases (node_eq m n)) [
    | inl same ↦ rw same refl
    | inr differs ↦ rw differs e
  ]

  paint_fresh :
      (color : Node → Color) (n : Node) → color n ≡ unvisited → Keeps color (paint color n on_path)
  paint_fresh color n fresh m e = elim (Bool-cases (node_eq m n)) [
    | inl same ↦ absurd (cc (ap color (node_eq_same m n same), e, fresh))
    | inr differs ↦ rw differs e
  ]

  next_edge :
      (to : Node) (es : List Node) (x : Node)
      → has (to ∷ es) x ≡ true
      → (node_eq to x ≡ true) ⊎ (has es x ≡ true)
  next_edge to es x h = elim (Bool-cases (node_eq to x)) [
    | inl same ↦ inl same
    | inr differs ↦ inr (ground (arith, h, differs))
  ]

  pub pushed-IsRankedWalk :
      (color : Node → Color) (to : Node) (top : Frame) (es : List Node) (below : List Frame)
      → color to ≡ unvisited
      → top.edges ≡ to ∷ es
      → IsRankedWalk color (top ∷ below)
      → IsRankedWalk
          (paint color to on_path)
          (record { n = to; edges = edges to } ∷ record top { edges = es } ∷ below)
  pushed-IsRankedWalk color to top es below fresh edge (rank, falls, (here, rest)) = (
    rank,
    λ n e. elim (Bool-cases (node_eq n to)) [
      | inl same ↦ absurd (cc (rw same at e))
      | inr differs ↦
          All_mono _ _ (edges n) (λ m h. (paint_fresh color to fresh m h.0, h.1))
            (falls n (rw differs at e))
    ],
    (
      All_mono _ _ (edges to) (λ e h. inl h) (All-has (edges to)),
      (
        All_mono _ _ (edges top.n)
            (λ x k. elim k [
              | inl left ↦ elim (next_edge to es x (rw edge at left)) [
                | inl same ↦ inr (inr same)
                | inr later ↦ inl later
              ]
              | inr (inl done) ↦ inr (inl (paint_fresh color to fresh x done))
              | inr (inr on) ↦ absurd (cc on)
            ])
            here,
        Followed-mono color (paint color to on_path) (node_eq top.n) (node_eq top.n) below
            (paint_fresh color to fresh) (λ n on. inr on) rest,
      ),
    ),
  )

  pub rooted-IsRankedWalk :
      (color : Node → Color) (root : Node)
      → color root ≡ unvisited
      → IsRankedWalk color []
      → IsRankedWalk (paint color root on_path) (record { n = root; edges = edges root } ∷ [])
  rooted-IsRankedWalk color root fresh (rank, falls, over) = (
    rank,
    λ n e. elim (Bool-cases (node_eq n root)) [
      | inl same ↦ absurd (cc (rw same at e))
      | inr differs ↦
          All_mono _ _ (edges n) (λ m h. (paint_fresh color root fresh m h.0, h.1))
            (falls n (rw differs at e))
    ],
    (All_mono _ _ (edges root) (λ e h. inl h) (All-has (edges root)), tt),
  )

  pub passed-IsRankedWalk :
      (color : Node → Color) (to : Node) (top : Frame) (es : List Node) (below : List Frame)
      → color to ≡ finished
      → top.edges ≡ to ∷ es
      → IsRankedWalk color (top ∷ below)
      → IsRankedWalk color (record top { edges = es } ∷ below)
  passed-IsRankedWalk color to top es below done edge (rank, falls, (here, rest)) = (
    rank,
    falls,
    (
      All_mono _ _ (edges top.n)
          (λ x k. elim k [
            | inl left ↦ elim (next_edge to es x (rw edge at left)) [
              | inl same ↦ inr (inl (ap color (sym (node_eq_same to x same)) ∙ done))
              | inr later ↦ inl later
            ]
            | inr other ↦ inr other
          ])
          here,
      rest,
    ),
  )

  -- A rank above those of the vertices.
  abbrev above_all : (Node → ℕ) → List Node → ℕ
  above_all rank [] = 1
  above_all rank (n ∷ ns) = rank n + above_all rank ns

  below_all : (rank : Node → ℕ) (ns : List Node) → All (λ e. rank e < above_all rank ns) ns
  below_all rank [] = tt
  below_all rank (n ∷ ns) =
      (omega (arith, positive ns), All_mono _ _ ns (λ e h. omega (arith, h)) (below_all rank ns))
    where
      positive : (ms : List Node) → 0 < above_all rank ms
      positive [] = omega arith
      positive (m ∷ ms) = omega (arith, positive ms)

  both : (P Q : Node → Type 0) (ns : List Node) → All P ns → All Q ns → All (λ n. P n × Q n) ns
  both P Q [] ps qs = tt
  both P Q (n ∷ ns) (p, ps) (q, qs) = ((p, q), both P Q ns ps qs)

  all_finished :
      (color : Node → Color) (es ns : List Node)
      → es ≡ []
      → All (λ e. (has es e ≡ true) ⊎ ((color e ≡ finished) ⊎ (nothing e ≡ true))) ns
      → All (λ e. color e ≡ finished) ns
  all_finished color es ns last h =
      All_mono _ _ ns
        (λ e k. elim k [
          | inl left ↦ absurd (cc (rw last at left))
          | inr (inl done) ↦ done
          | inr (inr on) ↦ absurd (cc on)
        ])
        h

  pub finished_is : (c : Color) → is_finished c ≡ true → c ≡ finished
  finished_is finished e = refl
  finished_is unvisited e = cc e
  finished_is on_path e = cc e

  abbrev raised : (Node → ℕ) → Node → Node → ℕ
  raised rank n m = if node_eq m n then above_all rank (edges n) else rank m

  raised_apart :
      (color : Node → Color) (rank : Node → ℕ) (n m : Node)
      → is_finished (color n) ≡ false
      → color m ≡ finished
      → raised rank n m ≡ rank m
  raised_apart color rank n m new old = elim (Bool-cases (node_eq m n)) [
    | inl same ↦ absurd (cc (ap color (node_eq_same m n same), new, old))
    | inr differs ↦ rw differs refl
  ]

  -- The rank after the top of the path is finished.
  Falls-raised :
      (color : Node → Color) (rank : Node → ℕ) (top n : Node)
      → is_finished (color top) ≡ false
      → All (λ e. color e ≡ finished) (edges top)
      → ((m : Node) → color m ≡ finished → Falls color rank m)
      → paint color top finished n ≡ finished
      → Falls (paint color top finished) (raised rank top) n
  Falls-raised color rank top n new done falls e = elim (Bool-cases (node_eq n top)) [
    | inl same ↦ rw (node_eq_same n top same) (
        All_mono _ _ (edges top)
          (λ m h. (
            paint-finished color top m h.0,
            rw (raised_apart color rank top m new h.0, node_eq_refl top) h.1,
          ))
          (both _ _ (edges top) done (below_all rank (edges top))))
    | inr differs ↦
        let old = rw differs at e in
        All_mono _ _ (edges n)
          (λ m h. (
            paint-finished color top m h.0,
            rw (raised_apart color rank top m new h.0, differs) h.1,
          ))
          (falls n old)
  ]

  pub popped-IsRankedWalk :
      (color : Node → Color) (top : Frame) (below : List Frame)
      → top.edges ≡ []
      → IsRankedWalk color (top ∷ below)
      → IsRankedWalk (paint color top.n finished) below
  popped-IsRankedWalk color top below last (rank, falls, (here, rest)) =
      let down : Followed (paint color top.n finished) nothing below =
        Followed-mono color (paint color top.n finished) (node_eq top.n) nothing below
          (paint-finished color top.n)
          (λ n on. inl (rw (sym (node_eq_same top.n n on), node_eq_refl top.n) refl)) rest in
      elim (Bool-cases (is_finished (color top.n))) [
        | inl old ↦ (
          rank,
          λ n e.
              All_mono _ _ (edges n) (λ m h. (paint-finished color top.n m h.0, h.1))
                (falls n (already color top.n n (finished_is (color top.n) old) e)),
          down,
        )
        | inr new ↦ (
          raised rank top.n,
          λ n e.
              Falls-raised color rank top.n n new
                (all_finished color top.edges (edges top.n) last here) falls e,
          down,
        )
      ]
    where
      already :
          (color : Node → Color) (t n : Node)
          → color t ≡ finished
          → paint color t finished n ≡ finished
          → color n ≡ finished
      already color t n old e = elim (Bool-cases (node_eq n t)) [
        | inl same ↦ ap color (node_eq_same n t same) ∙ old
        | inr differs ↦ rw differs at e
      ]
