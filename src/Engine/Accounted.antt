-- ===== src/Engine/Accounted.antt =====
-- Every Task that waits on a collection of internal/engine is woken or goes on waiting.
use evident_output.Prelude.{
  ℕ, ◌+◌, Bool, List, [], ◌∷◌, ◌++◌, ◌≡◌, arith, ◌==◌, if◌then◌else◌, drop,
}
use evident_output.Engine.CollectionTally.{
  States, ParkedTask, CollectionTally, leading, split_from, split_succeeded, tasks_of, settle, seal,
  release, fail_builder,
}

-- How often a Task stands in a list, and how often it waits on the collection.
abbrev pub occurrences : ℕ → List ℕ → ℕ
occurrences i [] = 0
occurrences i (j ∷ js) = (if j == i then 1 else 0) + occurrences i js

abbrev pub waiting_as : ℕ → CollectionTally → ℕ
waiting_as i t = occurrences i t.open_edges + occurrences i (tasks_of t.parked)

-- Of the Tasks that waited before, each was woken or still waits, and as often as it waited.
abbrev pub IsAccounted : CollectionTally → List ℕ × CollectionTally → Type 0
IsAccounted t r = (i : ℕ) → occurrences i r.0 + waiting_as i r.1 ≡ waiting_as i t

pub occurrences-append :
    (i : ℕ) (xs ys : List ℕ) → occurrences i (xs ++ ys) ≡ occurrences i xs + occurrences i ys
occurrences-append i [] ys = omega arith
occurrences-append i (x ∷ xs) ys = omega (arith, occurrences-append i xs ys)

split_from-occurrences :
    (i d : ℕ) (ps : List ParkedTask)
    → occurrences i (tasks_of (split_from d ps).0) + occurrences i (tasks_of (split_from d ps).1)
      ≡ occurrences i (tasks_of ps)
unfolding split_from
split_from-occurrences i d [] = omega arith
split_from-occurrences i d (p ∷ ps) = ground (arith, split_from-occurrences i d ps)

split_succeeded-occurrences :
    (i : ℕ) (t : CollectionTally) (ps : List ParkedTask)
    → occurrences i (tasks_of (split_succeeded t ps).0)
        + occurrences i (tasks_of (split_succeeded t ps).1)
      ≡ occurrences i (tasks_of ps)
unfolding split_succeeded
split_succeeded-occurrences i t [] = omega arith
split_succeeded-occurrences i t (p ∷ ps) = ground (arith, split_succeeded-occurrences i t ps)

-- Settling a member, sealing the membership, releasing a builder's hold and failing a builder lose
-- no Task and wake none twice: each one that waited on the collection is woken or still waits.
pub settle-IsAccounted :
    (σ : States) (t : CollectionTally) (st cursor : ℕ) (sealing : Bool)
    → IsAccounted t (settle σ t st)
      × IsAccounted t (seal t cursor)
      × IsAccounted t (release t sealing cursor)
      × IsAccounted t (fail_builder t)
unfolding settle seal release fail_builder
settle-IsAccounted σ t st cursor sealing = (
  λ i. ground (
    arith,
    split_from-occurrences i st t.parked,
    occurrences-append i t.open_edges (tasks_of (split_from st t.parked).1),
    split_succeeded-occurrences i
        (record t {
          succeeded_prefix = t.succeeded_prefix + leading σ (drop t.succeeded_prefix t.members);
        })
        t.parked,
  ),
  λ i. ground arith,
  λ i. ground arith,
  λ i. ground (arith, occurrences-append i t.open_edges (tasks_of t.parked)),
)
