-- ===== src/Core/Counting.antt =====
-- Counting children with internal/core/child_tally.go in parts and merging, against counting them at
-- once.

use evident_output.Prelude.{
  ◌+◌, ◌≤◌, true, not, ◌||◌, List, [], ◌∷◌, ◌++◌, ◌≡◌, refl, sym, ◌∙◌, ap, arith, if◌then◌else◌,
  length,
}
use evident_output.Core.Snapshot.{TaskSnapshot}
use evident_output.Core.ChildTally.{
  ChildCounts, no_children, add_child, merge, count_from, count_tasks,
}

merge_assoc : (a b c : ChildCounts) → merge (merge a b) c ≡ merge a (merge b c)
unfolding merge
merge_assoc a b c = ground arith

merge_comm : (a b : ChildCounts) → merge a b ≡ merge b a
unfolding merge
merge_comm a b = ground arith

merge_none : (a : ChildCounts) → merge a no_children ≡ a
unfolding merge
merge_none a = ground arith

add_child-merge :
    (c : ChildCounts) (t : TaskSnapshot) → add_child c t ≡ merge c (add_child no_children t)
unfolding add_child merge
add_child-merge c t = ground arith

count_from-merge :
    (c : ChildCounts) (ts : List TaskSnapshot)
    → count_from c ts ≡ merge c (count_from no_children ts)
unfolding count_from
count_from-merge c [] = sym (merge_none c)
count_from-merge c (t ∷ ts) =
    let one = add_child no_children t in
    let all = count_from no_children ts in
    count_from-merge (add_child c t) ts
    ∙ ap (λ d. merge d all) (add_child-merge c t)
    ∙ merge_assoc c one all
    ∙ ap (merge c) (sym (count_from-merge one ts))

count_from-append :
    (c : ChildCounts) (ts us : List TaskSnapshot)
    → count_from c (ts ++ us) ≡ count_from (count_from c ts) us
unfolding count_from
count_from-append c [] us = refl
count_from-append c (t ∷ ts) us = count_from-append (add_child c t) ts us

-- Two lists of children counted apart and merged are counted as one list, in either order: the live
-- frame may count the children that it shows and those that it left out separately.
pub count_tasks-append :
    (ts us : List TaskSnapshot)
    → (count_tasks (ts ++ us) ≡ merge (count_tasks ts) (count_tasks us))
      × (count_tasks (ts ++ us) ≡ count_tasks (us ++ ts))
unfolding count_tasks
count_tasks-append ts us = (parts ts us, parts ts us ∙ merge_comm _ _ ∙ sym (parts us ts))
  where
    parts :
        (xs ys : List TaskSnapshot)
        → count_from no_children (xs ++ ys)
          ≡ merge (count_from no_children xs) (count_from no_children ys)
    parts xs ys =
        count_from-append no_children xs ys ∙ count_from-merge (count_from no_children xs) ys

-- The children counted as completed are no more than all of them, and fewer while one is unfinished;
-- and a running or pending child is unfinished.
pub record IsConsistent (c : ChildCounts) : Type 0 where
  pub bounded : c.done + (if c.unfinished then 1 else 0) ≤ c.total
  pub unfinished_if : (not (c.running || c.pending) || c.unfinished) ≡ true

add_child-IsConsistent :
    (c : ChildCounts) (t : TaskSnapshot) → IsConsistent c → IsConsistent (add_child c t)
unfolding add_child
add_child-IsConsistent c t k = ground arith

add_child-total : (c : ChildCounts) (t : TaskSnapshot) → (add_child c t).total ≡ c.total + 1
unfolding add_child
add_child-total c t = ground arith

count_from-IsConsistent :
    (c : ChildCounts) (ts : List TaskSnapshot)
    → IsConsistent c
    → IsConsistent (count_from c ts) × ((count_from c ts).total ≡ c.total + length ts)
unfolding count_from
count_from-IsConsistent c [] k = (k, omega arith)
count_from-IsConsistent c (t ∷ ts) k =
    let (k', n) = count_from-IsConsistent (add_child c t) ts (add_child-IsConsistent c t k) in
    (k', omega (arith, n, add_child-total c t))

-- A list of children is counted whole, the completed ones are at most all of them and fewer while one
-- is unfinished, and a running or pending one is unfinished.
pub count_tasks-IsConsistent :
    (ts : List TaskSnapshot) → IsConsistent (count_tasks ts) × ((count_tasks ts).total ≡ length ts)
unfolding count_tasks
count_tasks-IsConsistent ts =
    let (k, n) = count_from-IsConsistent no_children ts (ground arith) in (k, omega (arith, n))
