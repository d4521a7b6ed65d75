-- ===== src/Engine/Eligibility.antt =====
-- internal/engine/eligibility.go: what a predecessor tells the Tasks after it, and whether a Task may
-- start.
use evident_output.Prelude.{
  ℕ, zero, suc, ◌+◌, ◌-◌, ◌^◌, Bool, true, false, not, ◌&&◌, ◌||◌, List, [], ◌∷◌, ◌++◌, Option,
  none, some, ◌==◌, if◌then◌else◌,
}
use evident_output.Engine.CollectionTally.{
  PredOutcome, pred_pending, pred_succeeded, pred_failed, state_outcome, is_succeeded,
  is_pred_failed, States, CollectionTally, has_member_through, failed_through, succeeded_through,
  total, seal,
}

-- A Task, a collection with the cursor `through`, or a handle that this run never declared.
pub data Predecessor : Type 0 where
  task : ℕ → Predecessor
  collection : ℕ → ℕ → Predecessor
  undeclared : Predecessor

abbrev pub is_task : Predecessor → Bool
is_task (task m) = true
is_task _ = false

abbrev pub is_pred_pending : PredOutcome → Bool
is_pred_pending pred_pending = true
is_pred_pending _ = false

-- What the outcomes read of an Output. `entry` is the step that a collection starts after.
pub record Run : Type 0 where
  pub states : States
  pub defined : ℕ → Bool
  pub tally : ℕ → CollectionTally
  pub entry : ℕ → List Predecessor
  pub draining : Bool

abbrev pub through_all : ℕ
through_all = 2 ^ 63 - 1

-- The cursor through which an edge reads its collection, and whether its membership is still open.
unfoldable pub edge_cursor : Run → ℕ → ℕ → ℕ × Bool
edge_cursor r c through =
    let t = r.tally c in
    if not (t.holds == 0)
    then (0, true)
    else if not (through == 0)
    then (through, false)
    else if t.sealed
    then (t.sealed_through, false)
    else if r.draining
    then (through_all, false)
    else (0, true)

unfoldable pub task_outcome : Run → ℕ → PredOutcome
unfolding state_outcome
task_outcome r m =
    let out = state_outcome (r.states m) in
    if is_pred_pending out && r.draining && not (r.defined m) then pred_failed else out

abbrev pub Answer : Type 0
Answer = PredOutcome × Predecessor

-- `of_entry` is what the collection's entry answers, which counts only where the edge is closed and
-- has no member.
unfoldable pub collection_outcome : Option Answer → Run → ℕ → ℕ → Option Answer
unfolding edge_cursor
collection_outcome of_entry r c through =
    let t = r.tally c in
    let p = collection c through in
    let (cursor, is_open) = edge_cursor r c through in
    if t.builder_failed
    then some (pred_failed, p)
    else if is_open && not (t.first_failed == 0) || not is_open && failed_through t cursor
    then some (pred_failed, p)
    else if is_open
    then some (pred_pending, p)
    else if not (has_member_through t cursor)
    then of_entry
    else if succeeded_through t cursor
    then some (pred_succeeded, p)
    else some (pred_pending, p)

-- The first predecessor that is pending gives the verdict: an update of `verdict` and `blocker`.
abbrev pub first_pending : Answer → Answer → Answer
first_pending (out, parked_on) (verdict, blocker) =
    if is_pred_pending out && is_succeeded verdict
    then (pred_pending, parked_on)
    else (verdict, blocker)

-- The loop of `entryOutcomeLocked`.
unfoldable pub entry_outcome :
    (Predecessor → Option Answer) → List Predecessor → Answer → Option Answer
entry_outcome outcome [] found = some found
entry_outcome outcome (p ∷ ps) found = elim (outcome p) [
  | none ↦ none
  | some (out, b) ↦
      let rest = entry_outcome outcome ps (first_pending (out, b) found) in
      if is_pred_failed out then some (pred_failed, b) else rest
]

-- `outcomeLocked`. A collection that answers for its entry asks one level further down; `none` is
-- the end of the fuel.
unfoldable pub outcome : ℕ → Run → Predecessor → Option Answer
unfolding entry_outcome collection_outcome task_outcome
outcome fuel r (task m) = some (task_outcome r m, task m)
outcome fuel r undeclared = some (pred_failed, undeclared)
outcome zero r (collection c through) = none
outcome (suc fuel) r (collection c through) =
    collection_outcome (entry_outcome (outcome fuel r) (r.entry c) (pred_succeeded, undeclared)) r c
      through

pub data PredScan : Type 0 where
  scan_to_blocker scan_all : PredScan

abbrev pub stops : PredScan → PredOutcome → Bool
stops scan_to_blocker out = is_pred_pending out
stops scan_all out = false

-- The verdict, what to park on, the predecessors kept, and how many were read.
pub record Scan : Type 0 where
  pub verdict : PredOutcome
  pub blocker : Predecessor
  pub kept : List Predecessor
  pub checks : ℕ

-- A Task that succeeded is forgotten.
abbrev pub kept_one : PredOutcome → Predecessor → List Predecessor
kept_one out p = if not (is_succeeded out) || not (is_task p) then p ∷ [] else []

abbrev pub with_kept : List Predecessor → Option Scan → Option Scan
with_kept ps none = none
with_kept ps (some s) = some (record s { kept = ps ++ s.kept; checks = s.checks + 1 })

-- The loop of `predsOutcomeLocked` from the predecessors that are left.
unfoldable pub scan_preds :
    (Predecessor → Option Answer) → PredScan → List Predecessor → Answer → Option Scan
scan_preds outcome scan [] (verdict, blocker) =
    some (record { verdict = verdict; blocker = blocker; kept = []; checks = 0 })
scan_preds outcome scan (p ∷ ps) found = elim (outcome p) [
  | none ↦ none
  | some (out, parked_on) ↦
      let (verdict, blocker) = first_pending (out, parked_on) found in
      let rest = scan_preds outcome scan ps (verdict, blocker) in
      if is_pred_failed out
      then some (record { verdict = pred_failed; blocker = p; kept = p ∷ ps; checks = 1 })
      else if stops scan verdict
      then some
          (record { verdict = verdict; blocker = blocker; kept = kept_one out p ++ ps; checks = 1 })
      else with_kept (kept_one out p) rest
]

unfoldable pub preds_outcome :
    (Predecessor → Option Answer) → PredScan → List Predecessor → Option Scan
unfolding scan_preds
preds_outcome outcome scan preds = scan_preds outcome scan preds (pred_succeeded, undeclared)

-- `eligibleLocked`
unfoldable pub eligible : (Predecessor → Option Answer) → List Predecessor → Option Bool
unfolding preds_outcome
eligible outcome preds = elim (preds_outcome outcome scan_to_blocker preds) [
  | none ↦ none
  | some s ↦ some (is_succeeded s.verdict)
]

-- `closeMembershipLocked`: the edge as it is taken, the Tasks that sealing the collection wakes, and the
-- tallies after it. `decl_seq` is the declaration cursor.
unfoldable pub close_membership :
    ℕ → (ℕ → CollectionTally) → Predecessor → Predecessor × (List ℕ × (ℕ → CollectionTally))
unfolding total seal
close_membership decl_seq tally (task m) = (task m, ([], tally))
close_membership decl_seq tally undeclared = (undeclared, ([], tally))
close_membership decl_seq tally (collection c through) =
    let t = tally c in
    let (woken, t') = seal t decl_seq in
    if not (through == 0) || total t == 0 || not (t.holds == 0)
    then (collection c through, ([], tally))
    else (collection c decl_seq, (woken, λ d. if d == c then t' else tally d))
