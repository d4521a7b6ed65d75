-- ===== src/Engine/Cycle.antt =====
-- internal/engine/cycle.go: finding the Tasks that wait for themselves.
use evident_output.Prelude.{
  ℕ, zero, suc, Bool, true, false, not, List, [], ◌∷◌, ◌++◌, ◌||◌, Option, none, some, ◌==◌,
  if◌then◌else◌,
}
use evident_output.Core.State.{is_terminal_task}
use evident_output.Engine.CollectionTally.{PredOutcome, States}
use evident_output.Engine.Eligibility.{Predecessor, task, collection, undeclared, is_pred_pending}

-- A vertex of the waits-for graph. Both fields of `depNode` are nil in `no_node`.
pub data Node : Type 0 where
  task_node collection_node : ℕ → Node
  no_node : Node

abbrev pub node_eq : Node → Node → Bool
node_eq (task_node m) (task_node n) = m == n
node_eq (collection_node m) (collection_node n) = m == n
node_eq no_node no_node = true
node_eq _ _ = false

abbrev pub node_of : Predecessor → Node
node_of (task m) = task_node m
node_of (collection c through) = collection_node c
node_of undeclared = no_node

-- What the graph reads of an Output. `worth` is the first result of `outcomeLocked`.
pub record Waits : Type 0 where
  pub states : States
  pub parked : ℕ → Bool
  pub preds : ℕ → List Predecessor
  pub is_empty : ℕ → Bool
  pub entry : ℕ → List Predecessor
  pub tasks : ℕ → List ℕ
  pub children : ℕ → List ℕ
  pub worth : Predecessor → PredOutcome

module _ (w : Waits) where
  unfoldable pub pending_nodes : List Predecessor → List Node
  pending_nodes [] = []
  pending_nodes (p ∷ ps) =
      let rest = pending_nodes ps in if is_pred_pending (w.worth p) then node_of p ∷ rest else rest

  unfoldable pub unresolved_tasks : List ℕ → List Node
  unresolved_tasks [] = []
  unresolved_tasks (m ∷ ms) =
      let rest = unresolved_tasks ms in
      if not (is_terminal_task (w.states m)) then task_node m ∷ rest else rest

  unfoldable pub unresolved_children : List ℕ → List Node
  unresolved_children [] = []
  unresolved_children (c ∷ cs) =
      let rest = unresolved_children cs in
      if is_pred_pending (w.worth (collection c 0)) then collection_node c ∷ rest else rest

  unfoldable pub waits_for : Node → List Node
  unfolding pending_nodes unresolved_tasks unresolved_children
  waits_for (task_node m) = if not (w.parked m) then [] else pending_nodes (w.preds m)
  waits_for (collection_node c) =
      if w.is_empty c
      then pending_nodes (w.entry c)
      else unresolved_tasks (w.tasks c) ++ unresolved_children (w.children c)
  waits_for no_node = []

pub data Color : Type 0 where
  unvisited on_path finished : Color

-- A vertex on the current path, with the edges it has left to follow.
pub record Frame : Type 0 where
  pub n : Node
  pub edges : List Node

abbrev pub paint : (Node → Color) → Node → Color → Node → Color
paint color n c m = if node_eq m n then c else color m

-- The walk from the top of the path down to `to`, with what was passed; `none` is an index below 0.
unfoldable pub cycle_from : List Frame → Node → List Node → Option (List Node)
cycle_from [] to passed = none
cycle_from (f ∷ fs) to passed =
    let below = cycle_from fs to (f.n ∷ passed) in
    if node_eq f.n to then some (f.n ∷ passed) else below

unfoldable pub cycle_through : List Frame → Node → Option (List Node)
unfolding cycle_from
cycle_through path to = cycle_from path to (to ∷ [])

pub record Walk : Type 0 where
  pub color : Node → Color
  pub path : List Frame
  pub cycles : List (List Node)

-- A round of the walk that follows the top's next edge; `none` is a panic.
unfoldable pub follow :
    (Node → List Node) → Walk → Frame → List Frame → Node → List Node → Option Walk
unfolding cycle_through
follow edges w top below to es =
    let path = record top { edges = es } ∷ below in
    elim (w.color to) [
      | unvisited ↦ some (record w {
        color = paint w.color to on_path;
        path = record { n = to; edges = edges to } ∷ path;
      })
      | on_path ↦ elim (cycle_through path to) [
        | none ↦ none
        | some c ↦ some (record w { path = path; cycles = w.cycles ++ c ∷ [] })
      ]
      | finished ↦ some (record w { path = path })
    ]

unfoldable pub walk_step : (Node → List Node) → Walk → Frame → List Frame → Option Walk
unfolding follow
walk_step edges w top below = elim top.edges [
  | [] ↦ some (record w { color = paint w.color top.n finished; path = below })
  | to ∷ es ↦ follow edges w top below to es
]

-- The walk until the path is empty; `none` is a panic, or the end of the fuel.
unfoldable pub walk : ℕ → (Node → List Node) → Walk → Option Walk
unfolding walk_step
walk zero edges w = none
walk (suc fuel) edges w = elim w.path [
  | [] ↦ some w
  | top ∷ below ↦ elim (walk_step edges w top below) [ none ↦ none | some w' ↦ walk fuel edges w' ]
]

unfoldable pub walk_root : ℕ → (Node → List Node) → Walk → Node → Option Walk
unfolding walk
walk_root fuel edges w root = walk fuel edges (record w {
  color = paint w.color root on_path;
  path = record { n = root; edges = edges root } ∷ [];
})

abbrev pub is_unvisited : Color → Bool
is_unvisited unvisited = true
is_unvisited _ = false

-- The loop over the Tasks of the run.
unfoldable pub walk_tasks : ℕ → (Node → List Node) → (ℕ → Bool) → List ℕ → Walk → Option Walk
unfolding walk_root
walk_tasks fuel edges parked [] w = some w
walk_tasks fuel edges parked (m ∷ ms) w =
    if not (parked m) || not (is_unvisited (w.color (task_node m)))
    then walk_tasks fuel edges parked ms w
    else elim (walk_root fuel edges w (task_node m)) [
      | none ↦ none
      | some w' ↦ walk_tasks fuel edges parked ms w'
    ]

abbrev pub new_walk : Walk
new_walk = record { color = λ n. unvisited; path = []; cycles = [] }

unfoldable pub dependency_cycles : ℕ → Waits → List ℕ → Option (List (List Node))
unfolding walk_tasks waits_for
dependency_cycles fuel w tasks = elim (walk_tasks fuel (waits_for w) w.parked tasks new_walk) [
  | none ↦ none
  | some e ↦ some e.cycles
]
