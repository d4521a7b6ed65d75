-- ===== src/Render/Hidden.antt =====
-- internal/render/zero_information.go: which rows human output leaves out.
use text.Mathlib.Text.{◌==◌ as str_eq}
use evident_output.Prelude.{
  Bool, true, false, not, ◌&&◌, ◌||◌, List, [], ◌∷◌, ◌++◌, String, any, is_empty, ◌==◌, ◌≡◌, ◌⊎◌,
  inl, inr, refl, sym, ◌∙◌, ap, arith, All, All-append, All_mono, if_cases,
}
use evident_output.Core.Snapshot.{
  TaskSnapshot, Container, TasksSnapshot, tasks_snapshot, Collections, nil, cons, Snapshot,
}
use evident_output.Render.ZeroInformation.{
  is_zero_information_task, is_proven_no_op_task, HideScope, hide_nothing, hide_proven_no_op,
  hide_any_no_op, admits, ZeroScan, stops_hiding, holds, visit, visit_tasks, inner_scope,
  with_summary, visit_collection, visit_collections, ledger_owners, scan_snapshot,
  zero_information_task_ids,
}
use evident_output.Render.Silent.{IsSilent, is_zero_information_task-IsSilent}

-- Every Task of a run, at its root and in all of its collections.
unfoldable mutual
  pub rows_of : TasksSnapshot → List TaskSnapshot
  rows_of (tasks_snapshot c ts cs) = ts ++ rows_in cs

  pub rows_in : Collections → List TaskSnapshot
  rows_in nil = []
  rows_in (cons col cols) = rows_of col ++ rows_in cols

abbrev pub all_rows : Snapshot → List TaskSnapshot
all_rows s = s.tasks ++ rows_in s.collections

abbrev pub Among : TaskSnapshot → List TaskSnapshot → Type 0
Among t [] = ⊥
Among t (x ∷ xs) = (t ≡ x) ⊎ Among t xs

All-Among : (xs : List TaskSnapshot) → All (λ t. Among t xs) xs
All-Among [] = tt
All-Among (x ∷ xs) = (inl refl, All_mono _ _ xs (λ t h. inr h) (All-Among xs))

All-left :
    (P : TaskSnapshot → Type 0) (xs ys : List TaskSnapshot) → All P (xs ++ ys) → All P xs × All P ys
All-left P [] ys h = (tt, h)
All-left P (x ∷ xs) ys (h, hs) = let (l, r) = All-left P xs ys hs in ((h, l), r)

admits-zero :
    (scope : HideScope) (t : TaskSnapshot)
    → admits scope t ≡ true
    → is_zero_information_task t ≡ true
unfolding admits is_proven_no_op_task
admits-zero hide_any_no_op t h = h
admits-zero hide_proven_no_op t h = ground (arith, h)
admits-zero hide_nothing t h = cc h

abbrev pub any_stops : List TaskSnapshot → Bool
any_stops ts = any (λ t. stops_hiding t.state) ts

any_stops-append :
    (xs ys : List TaskSnapshot) → any_stops (xs ++ ys) ≡ (any_stops xs || any_stops ys)
any_stops-append [] ys = refl
any_stops-append (x ∷ xs) ys = ground (arith, any_stops-append xs ys)

or_assoc : (a b c : Bool) → ((a || b) || c) ≡ (a || (b || c))
or_assoc a b c = ground arith

module _ (owners : List String) where
  visit-stopped :
      (scan : ZeroScan) (t : TaskSnapshot) (scope : HideScope)
      → (visit owners scan t scope).stopped ≡ (scan.stopped || stops_hiding t.state)
  unfolding visit
  visit-stopped scan t scope =
      if_cases {A = ZeroScan} (λ x. x.stopped ≡ (scan.stopped || stops_hiding t.state))
        (admits scope t && not (holds owners t.id)) _ _ (λ _. refl) (λ _. refl)

  visit_tasks-stopped :
      (scan : ZeroScan) (ts : List TaskSnapshot) (scope : HideScope)
      → (visit_tasks owners scan ts scope).stopped ≡ (scan.stopped || any_stops ts)
  unfolding visit_tasks
  visit_tasks-stopped scan [] scope = ground arith
  visit_tasks-stopped scan (t ∷ ts) scope =
      visit_tasks-stopped (visit owners scan t scope) ts scope
      ∙ ap (λ b. b || any_stops ts) (visit-stopped scan t scope)
      ∙ or_assoc scan.stopped (stops_hiding t.state) (any_stops ts)

  with_summary-stopped :
      (c : Container) (scan : ZeroScan) → (with_summary owners c scan).stopped ≡ scan.stopped
  with_summary-stopped c scan =
      if_cases {A = ZeroScan} (λ x. x.stopped ≡ scan.stopped) (not (str_eq c.summary "")) _ _
        (λ _. refl) (λ _. refl)

  mutual
    unfolding visit_collection rows_of

    visit_collection-stopped :
        (col : TasksSnapshot) (parent : HideScope) (scan : ZeroScan)
        → (visit_collection owners col parent scan).stopped
          ≡ (scan.stopped || any_stops (rows_of col))
    visit_collection-stopped (tasks_snapshot c ts cs) parent scan =
        let scope = inner_scope owners c parent in
        visit_collections-stopped cs scope
          (visit_tasks owners (with_summary owners c scan) ts scope)
        ∙ ap (λ b. b || any_stops (rows_in cs))
            (visit_tasks-stopped (with_summary owners c scan) ts scope
              ∙ ap (λ b. b || any_stops ts) (with_summary-stopped c scan))
        ∙ or_assoc scan.stopped (any_stops ts) (any_stops (rows_in cs))
        ∙ ap (◌||◌ scan.stopped) (sym (any_stops-append ts (rows_in cs)))

    visit_collections-stopped :
        (cols : Collections) (parent : HideScope) (scan : ZeroScan)
        → (visit_collections owners cols parent scan).stopped
          ≡ (scan.stopped || any_stops (rows_in cols))
    visit_collections-stopped nil parent scan = ground arith
    visit_collections-stopped (cons col cols) parent scan =
        visit_collections-stopped cols parent (visit_collection owners col parent scan)
        ∙ ap (λ b. b || any_stops (rows_in cols)) (visit_collection-stopped col parent scan)
        ∙ or_assoc scan.stopped (any_stops (rows_of col)) (any_stops (rows_in cols))
        ∙ ap (◌||◌ scan.stopped) (sym (any_stops-append (rows_of col) (rows_in cols)))

  -- What holds of each row that may be hidden holds of each candidate.
  module _ (P : String → Type 0) where
    abbrev Justifies : TaskSnapshot → Type 0
    Justifies t = is_zero_information_task t ≡ true → holds owners t.id ≡ false → P t.id

    visit-candidates :
        (scan : ZeroScan) (t : TaskSnapshot) (scope : HideScope)
        → Justifies t
        → All P scan.candidates
        → All P (visit owners scan t scope).candidates
    unfolding visit
    visit-candidates scan t scope j h =
        if_cases {A = ZeroScan} (λ x. All P x.candidates)
          (admits scope t && not (holds owners t.id)) _ _
          (λ e.
            All-append P scan.candidates (t.id ∷ []) h
              (j (admits-zero scope t (ground (arith, e))) (ground (arith, e)), tt))
          (λ _. h)

    visit_tasks-candidates :
        (scan : ZeroScan) (ts : List TaskSnapshot) (scope : HideScope)
        → All Justifies ts
        → All P scan.candidates
        → All P (visit_tasks owners scan ts scope).candidates
    unfolding visit_tasks
    visit_tasks-candidates scan [] scope js h = h
    visit_tasks-candidates scan (t ∷ ts) scope (j, js) h =
        visit_tasks-candidates (visit owners scan t scope) ts scope js
          (visit-candidates scan t scope j h)

    with_summary-candidates :
        (c : Container) (scan : ZeroScan)
        → All P scan.candidates
        → All P (with_summary owners c scan).candidates
    with_summary-candidates c scan h =
        if_cases {A = ZeroScan} (λ x. All P x.candidates) (not (str_eq c.summary "")) _ _ (λ _. h)
          (λ _. h)

    mutual
      unfolding visit_collection rows_of

      visit_collection-candidates :
          (col : TasksSnapshot) (parent : HideScope) (scan : ZeroScan)
          → All Justifies (rows_of col)
          → All P scan.candidates
          → All P (visit_collection owners col parent scan).candidates
      visit_collection-candidates (tasks_snapshot c ts cs) parent scan js h =
          let scope = inner_scope owners c parent in
          let (own, inner) = All-left Justifies ts (rows_in cs) js in
          visit_collections-candidates cs scope
            (visit_tasks owners (with_summary owners c scan) ts scope) inner
            (visit_tasks-candidates (with_summary owners c scan) ts scope own
              (with_summary-candidates c scan h))

      visit_collections-candidates :
          (cols : Collections) (parent : HideScope) (scan : ZeroScan)
          → All Justifies (rows_in cols)
          → All P scan.candidates
          → All P (visit_collections owners cols parent scan).candidates
      visit_collections-candidates nil parent scan js h = h
      visit_collections-candidates (cons col cols) parent scan js h =
          let (first, rest) = All-left Justifies (rows_of col) (rows_in cols) js in
          visit_collections-candidates cols parent (visit_collection owners col parent scan) rest
            (visit_collection-candidates col parent scan first h)

abbrev pub IsHidable : Snapshot → String → Type 0
IsHidable s id =
    (t : TaskSnapshot) × (t.id ≡ id)
    × Among t (all_rows s)
    × IsSilent t
    × (holds (ledger_owners s) t.id ≡ false)

scan_snapshot-stopped : (s : Snapshot) → (scan_snapshot s).stopped ≡ any_stops (all_rows s)
unfolding scan_snapshot
scan_snapshot-stopped s =
    let owners = ledger_owners s in
    visit_collections-stopped owners s.collections hide_proven_no_op _
    ∙ ap (λ b. b || any_stops (rows_in s.collections))
        (visit_tasks-stopped owners _ s.tasks hide_proven_no_op)
    ∙ sym (any_stops-append s.tasks (rows_in s.collections))

scan_snapshot-candidates : (s : Snapshot) → All (IsHidable s) (scan_snapshot s).candidates
unfolding scan_snapshot
scan_snapshot-candidates s =
    let owners = ledger_owners s in
    let (root, inner) = All-left (Justifies owners (IsHidable s)) s.tasks (rows_in s.collections) (
      All_mono _ _ (all_rows s) (λ t a z o. (t, refl, a, is_zero_information_task-IsSilent t z, o))
        (All-Among (all_rows s))) in
    visit_collections-candidates owners (IsHidable s) s.collections hide_proven_no_op _ inner
      (visit_tasks-candidates owners (IsHidable s) _ s.tasks hide_proven_no_op root tt)

-- Each row that is hidden is one of a Task of the run that is done, had no work or found it done, was
-- not made by the library, holds no text, progress, problem, warning or other record, and has no
-- effect section; and a run with a Task that failed, was blocked or was cancelled, in whatever
-- collection, hides no row.
pub zero_information_task_ids-hidden :
    (s : Snapshot)
    → All (IsHidable s) (zero_information_task_ids s)
      × (any_stops (all_rows s) ≡ true → zero_information_task_ids s ≡ [])
unfolding zero_information_task_ids
zero_information_task_ids-hidden s = (
  if_cases (All (IsHidable s)) (scan.stopped || scan.visible == 0 || is_empty scan.candidates) _ _
      (λ _. tt) (λ _. scan_snapshot-candidates s),
  λ h. ground (arith, scan_snapshot-stopped s, h),
)
  where
    scan : ZeroScan
    scan = scan_snapshot s
