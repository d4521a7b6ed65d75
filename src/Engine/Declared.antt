-- ===== src/Engine/Declared.antt =====
-- Declaring a member of a `collectionTally` of internal/engine.
use evident_output.Prelude.{
  ℕ, ◌<◌, true, List, [], ◌∷◌, ◌++◌, ◌≡◌, sym, ◌∙◌, arith, ◌==◌, if◌then◌else◌, any,
}
use evident_output.Core.State.{EntityState}
use evident_output.Engine.CollectionTally.{
  state_outcome, States, CollectionTally, leading, failed_through, declare,
}
use evident_output.Engine.Readings.{Ascending, IsCurrent, Moves, some_failed, settle-IsCurrent}

-- The states of all Tasks, but with `st` still pending.
abbrev pub before_move : States → ℕ → States
before_move σ st m = if m == st then EntityState.pending else σ m

Ascending-last : (last st : ℕ) (ms : List ℕ) → Ascending last (ms ++ st ∷ []) → last < st
Ascending-last last st [] a = a.0
Ascending-last last st (m ∷ ms) (lt, a) = omega (arith, lt, Ascending-last m st ms a)

leading-appended :
    (σ : States) (st last : ℕ) (ms : List ℕ)
    → Ascending last (ms ++ st ∷ [])
    → leading (before_move σ st) (ms ++ st ∷ []) ≡ leading σ ms
unfolding leading state_outcome
leading-appended σ st last [] a = ground arith
leading-appended σ st last (m ∷ ms) (lt, a) =
    ground (arith, leading-appended σ st m ms a, Ascending-last m st ms a)

some_failed-appended :
    (σ : States) (st last cursor : ℕ) (ms : List ℕ)
    → Ascending last (ms ++ st ∷ [])
    → some_failed (before_move σ st) cursor (ms ++ st ∷ []) ≡ some_failed σ cursor ms
unfolding state_outcome
some_failed-appended σ st last cursor [] a = ground arith
some_failed-appended σ st last cursor (m ∷ ms) (lt, a) =
    ground (arith, some_failed-appended σ st m cursor ms a, Ascending-last m st ms a)

member-appended : (st : ℕ) (ms : List ℕ) → any (λ m. m == st) (ms ++ st ∷ []) ≡ true
member-appended st [] = ground arith
member-appended st (m ∷ ms) = ground (arith, member-appended st ms)

before_move-Moves : (σ : States) (st : ℕ) → Moves st (before_move σ st) σ
unfolding state_outcome
before_move-Moves σ st = record { others = λ m e. ground arith; was_pending = ground arith }

-- Declaring a member after all others keeps the cached fields current, whichever state the member
-- is in already.
pub declare-IsCurrent :
    (σ : States) (t : CollectionTally) (st : ℕ)
    → IsCurrent σ t
    → Ascending 0 (t.members ++ st ∷ [])
    → IsCurrent σ (declare σ t st)
unfolding declare failed_through
declare-IsCurrent σ t st c a =
    settle-IsCurrent (before_move σ st) σ (record t { members = t.members ++ st ∷ [] }) st
      (record {
        ordered = a;
        prefix = c.prefix ∙ sym (leading-appended σ st 0 t.members a);
        failure = λ cursor. c.failure cursor ∙ sym (some_failed-appended σ st 0 cursor t.members a);
      })
      (before_move-Moves σ st) (member-appended st t.members) (Ascending-last 0 st t.members a)
