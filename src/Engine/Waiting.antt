-- ===== src/Engine/Waiting.antt =====
-- internal/engine/cycle.go: what a cycle is, and that the path of the walk closes one.
use evident_output.Prelude.{
  Bool, true, false, List, [], ◌∷◌, ◌++◌, Option, some, ◌≡◌, inl, inr, refl, sym, ap, subst, arith,
  All, All_mono, Bool-cases, any,
}
use evident_output.Engine.Cycle.{
  Node, task_node, collection_node, no_node, node_eq, Frame, cycle_from,
}

pub node_eq_same : (a b : Node) → node_eq a b ≡ true → a ≡ b
node_eq_same (task_node m) (task_node n) h = ap task_node (ground (arith, h))
node_eq_same (collection_node m) (collection_node n) h = ap collection_node (ground (arith, h))
node_eq_same no_node no_node h = refl
node_eq_same (task_node m) (collection_node n) h = cc h
node_eq_same (task_node m) no_node h = cc h
node_eq_same (collection_node m) (task_node n) h = cc h
node_eq_same (collection_node m) no_node h = cc h
node_eq_same no_node (task_node n) h = cc h
node_eq_same no_node (collection_node n) h = cc h

pub node_eq_refl : (a : Node) → node_eq a a ≡ true
node_eq_refl (task_node m) = ground arith
node_eq_refl (collection_node m) = ground arith
node_eq_refl no_node = refl

pub node_eq_other : (a b : Node) → node_eq a b ≡ false → node_eq b a ≡ false
node_eq_other a b h = elim (Bool-cases (node_eq b a)) [
  | inl same ↦ absurd (cc (rw (node_eq_same b a same, node_eq_refl a) at h))
  | inr differs ↦ differs
]

abbrev pub has : List Node → Node → Bool
has xs n = any (λ m. node_eq m n) xs

pub All-has : (xs : List Node) → All (λ e. has xs e ≡ true) xs
All-has [] = tt
All-has (x ∷ xs) = (
  rw (node_eq_refl x) refl,
  All_mono (λ e. has xs e ≡ true) _ xs (λ e h. ground (arith, h)) (All-has xs),
)

module _ (edges : Node → List Node) where
  -- Each vertex has an edge to the next.
  abbrev pub IsChain : List Node → Type 0
  IsChain [] = Unit
  IsChain (x ∷ []) = Unit
  IsChain (x ∷ y ∷ r) = (has (edges x) y ≡ true) × IsChain (y ∷ r)

  -- A chain of edges back to its first vertex.
  abbrev pub IsCycle : List Node → Type 0
  IsCycle c = (x : Node) × (body : List Node) × (c ≡ x ∷ body ++ x ∷ []) × IsChain c

  abbrev pub IsLinked : List Frame → Type 0
  IsLinked [] = Unit
  IsLinked (f ∷ []) = All (λ e. has (edges f.n) e ≡ true) f.edges
  IsLinked (f ∷ g ∷ fs) =
      All (λ e. has (edges f.n) e ≡ true) f.edges × (has (edges g.n) f.n ≡ true) × IsLinked (g ∷ fs)

  abbrev pub has_frame : List Frame → Node → Bool
  has_frame path n = any (λ f. node_eq f.n n) path

  abbrev CycleFound : Option (List Node) → Type 0
  CycleFound o = (c : List Node) × (o ≡ some c) × IsCycle c

  -- The top of the path has an edge to `y`.
  abbrev pub Enters : List Frame → Node → Type 0
  Enters [] y = Unit
  Enters (f ∷ fs) y = has (edges f.n) y ≡ true

  pub IsLinked-below :
      (f : Frame) (fs : List Frame) → IsLinked (f ∷ fs) → Enters fs f.n × IsLinked fs
  IsLinked-below f [] l = (tt, tt)
  IsLinked-below f (g ∷ gs) (frame, link, l) = (link, l)

  pub IsLinked-top :
      (f : Frame) (fs : List Frame)
      → IsLinked (f ∷ fs)
      → All (λ e. has (edges f.n) e ≡ true) f.edges
  IsLinked-top f [] l = l
  IsLinked-top f (g ∷ gs) l = l.0

  pub IsLinked-left :
      (f : Frame) (es : List Node) (fs : List Frame)
      → IsLinked (f ∷ fs)
      → All (λ e. has (edges f.n) e ≡ true) es
      → IsLinked (record f { edges = es } ∷ fs)
  IsLinked-left f es [] l a = a
  IsLinked-left f es (g ∷ gs) (frame, link, rest) a = (a, link, rest)

  pub cycle_from-found :
      (path : List Frame) (to y : Node) (r pre : List Node)
      → IsLinked path
      → Enters path y
      → IsChain (y ∷ r)
      → y ∷ r ≡ pre ++ to ∷ []
      → has_frame path to ≡ true
      → CycleFound (cycle_from path to (y ∷ r))
  unfolding cycle_from
  cycle_from-found [] to y r pre l edge chain ends here = absurd (cc here)
  cycle_from-found (f ∷ fs) to y r pre l edge chain ends here = elim (Bool-cases (node_eq f.n to)) [
    | inl same ↦ rw same (
      f.n ∷ y ∷ r,
      refl,
      (
        f.n,
        pre,
        ap (◌∷◌ f.n) (subst (λ x. y ∷ r ≡ pre ++ x ∷ []) (sym (node_eq_same f.n to same)) ends),
        (edge, chain),
      ),
    )
    | inr differs ↦
        let (link, below) = IsLinked-below f fs l in
        rw differs (
          cycle_from-found fs to f.n (y ∷ r) (f.n ∷ pre) below link (edge, chain)
            (ap (◌∷◌ f.n) ends) (ground (arith, here, differs)))
  ]
