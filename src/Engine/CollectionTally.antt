-- ===== src/Engine/CollectionTally.antt =====
-- internal/engine/collection_tally.go and the outcomes of eligibility.go: the member Tasks of a Group
-- or a Sequence, for the Tasks that start after it. A Task is known by its declaration number, and
-- the states of all Tasks, which their pointers share, are one function from those numbers.
use evident_output.Prelude.{
  ℕ, suc, ◌+◌, ◌-◌, Bool, true, false, not, ◌&&◌, ◌||◌, List, [], ◌∷◌, ◌++◌, map, ltb, leb, ◌==◌,
  if◌then◌else◌, length, drop, is_empty,
}
use evident_output.Core.State.{EntityState, done, skipped, not_started}

pub data PredOutcome : Type 0 where
  pred_pending pred_succeeded pred_failed : PredOutcome

unfoldable pub state_outcome : EntityState → PredOutcome
state_outcome done = pred_succeeded
state_outcome skipped = pred_succeeded
state_outcome EntityState.failed = pred_failed
state_outcome EntityState.blocked = pred_failed
state_outcome EntityState.cancelled = pred_failed
state_outcome not_started = pred_failed
state_outcome _ = pred_pending

-- `o == predSucceeded` and `o == predFailed`
abbrev pub is_succeeded : PredOutcome → Bool
is_succeeded pred_succeeded = true
is_succeeded _ = false

abbrev pub is_pred_failed : PredOutcome → Bool
is_pred_failed pred_failed = true
is_pred_failed _ = false

abbrev pub States : Type 0
States = ℕ → EntityState

pub record ParkedTask : Type 0 where
  pub st : ℕ
  pub cursor : ℕ

pub record CollectionTally : Type 0 where
  pub members : List ℕ
  pub succeeded_prefix : ℕ
  pub first_failed : ℕ
  pub sealed : Bool
  pub sealed_through : ℕ
  pub parked : List ParkedTask
  pub open_edges : List ℕ
  pub holds : ℕ
  pub builder_failed : Bool

unfoldable pub total : CollectionTally → ℕ
total t = length t.members

-- The loop that counts the leading members that succeeded.
unfoldable pub leading : States → List ℕ → ℕ
leading σ [] = 0
leading σ (m ∷ ms) =
    let rest = leading σ ms in if is_succeeded (state_outcome (σ m)) then suc rest else 0

unfoldable pub has_member_through : CollectionTally → ℕ → Bool
has_member_through t cursor = elim t.members [ [] ↦ false | m ∷ ms ↦ leb m cursor ]

unfoldable pub failed_through : CollectionTally → ℕ → Bool
failed_through t cursor = not (t.first_failed == 0) && leb t.first_failed cursor

abbrev pub declared_after : ℕ → List ℕ → Bool
declared_after cursor [] = true
declared_after cursor (m ∷ ms) = ltb cursor m

unfoldable pub succeeded_through : CollectionTally → ℕ → Bool
succeeded_through t cursor =
    t.succeeded_prefix == length t.members
    || declared_after cursor (drop t.succeeded_prefix t.members)

-- The loop that goes back over the parked Tasks: those that stay, and those from there on.
unfoldable pub split_from : ℕ → List ParkedTask → List ParkedTask × List ParkedTask
split_from declaration [] = ([], [])
split_from declaration (p ∷ ps) =
    let (kept, rest) = split_from declaration ps in
    if is_empty kept && leb declaration p.cursor then ([], p ∷ rest) else (p ∷ kept, rest)

-- The loop over the first parked Tasks whose members have all succeeded.
unfoldable pub split_succeeded :
    CollectionTally → List ParkedTask → List ParkedTask × List ParkedTask
unfolding succeeded_through
split_succeeded t [] = ([], [])
split_succeeded t (p ∷ ps) =
    let (first, kept) = split_succeeded t ps in
    if succeeded_through t p.cursor then (p ∷ first, kept) else ([], p ∷ ps)

abbrev pub tasks_of : List ParkedTask → List ℕ
tasks_of ps = map (λ p. p.st) ps

-- The Tasks whose edges were resolved, and the tally afterwards.
unfoldable pub settle : States → CollectionTally → ℕ → List ℕ × CollectionTally
unfolding state_outcome leading split_from split_succeeded
settle σ t st = elim (state_outcome (σ st)) [
  | pred_failed ↦
      let (kept, rest) = split_from st t.parked in
      if not (t.first_failed == 0) && leb t.first_failed st then ([], t) else (
        t.open_edges ++ tasks_of rest,
        record t { first_failed = st; open_edges = []; parked = kept },
      )
  | pred_succeeded ↦
      let t' = record t {
        succeeded_prefix = t.succeeded_prefix + leading σ (drop t.succeeded_prefix t.members);
      } in
      let (first, kept) = split_succeeded t' t.parked in
      (tasks_of first, record t' { parked = kept })
  | pred_pending ↦ ([], t)
]

-- What `declare` leaves; the source drops the woken Tasks too.
unfoldable pub declare : States → CollectionTally → ℕ → CollectionTally
unfolding settle
declare σ t st = let (woken, t') = settle σ (record t { members = t.members ++ st ∷ [] }) st in t'

unfoldable pub seal : CollectionTally → ℕ → List ℕ × CollectionTally
seal t cursor =
    if t.sealed || not (t.holds == 0)
    then ([], t)
    else (t.open_edges, record t { sealed = true; sealed_through = cursor; open_edges = [] })

-- `insertAfterOrder` of ledger_order.go on a sorted list: after every task with no greater cursor.
unfoldable pub insert_after_order : List ParkedTask → ParkedTask → List ParkedTask
insert_after_order [] p = p ∷ []
insert_after_order (q ∷ qs) p =
    let rest = insert_after_order qs p in if leb q.cursor p.cursor then q ∷ rest else p ∷ q ∷ qs

unfoldable pub park : CollectionTally → ℕ → ℕ → Bool → CollectionTally
unfolding insert_after_order
park t st cursor is_open =
    if is_open
    then record t { open_edges = t.open_edges ++ st ∷ [] }
    else record t { parked = insert_after_order t.parked (record { st = st; cursor = cursor }) }

unfoldable pub unpark : CollectionTally → CollectionTally
unpark t = record t { parked = []; open_edges = [] }

-- A release answers an earlier hold, so `holds` is positive before it.
unfoldable pub release : CollectionTally → Bool → ℕ → List ℕ × CollectionTally
unfolding seal
release t sealing cursor =
    let t' = record t { holds = t.holds - 1 } in
    if not (t'.holds == 0)
    then ([], t')
    else if sealing
    then seal t' cursor
    else (t'.open_edges, record t' { open_edges = [] })

unfoldable pub fail_builder : CollectionTally → List ℕ × CollectionTally
fail_builder t = (
  t.open_edges ++ tasks_of t.parked,
  record t { builder_failed = true; open_edges = []; parked = [] },
)
