-- ===== src/Engine/Readings.antt =====
-- What the cached fields of a `collectionTally` of internal/engine stand for, and that settling a
-- member keeps them so.
use evident_output.Prelude.{
  ℕ, ◌+◌, ◌<◌, ◌≤◌, Bool, true, false, ◌&&◌, ◌||◌, List, [], ◌∷◌, ◌≡◌, ◌⊎◌, inl, inr, Bool-cases,
  refl, sym, ◌∙◌, ap, arith, ltb, leb, ◌==◌, length, drop, any,
}
use evident_output.Engine.CollectionTally.{
  pred_pending, state_outcome, is_succeeded, is_pred_failed, States, CollectionTally, leading,
  succeeded_through, failed_through, declared_after, settle,
}

-- Every member declared through the cursor succeeded, or some such member can never succeed.
abbrev pub all_succeeded : States → ℕ → List ℕ → Bool
all_succeeded σ cursor [] = true
all_succeeded σ cursor (m ∷ ms) =
    (ltb cursor m || is_succeeded (state_outcome (σ m))) && all_succeeded σ cursor ms

abbrev pub some_failed : States → ℕ → List ℕ → Bool
some_failed σ cursor [] = false
some_failed σ cursor (m ∷ ms) =
    (leb m cursor && is_pred_failed (state_outcome (σ m))) || some_failed σ cursor ms

-- Each member was declared after those before it, and after `last`.
abbrev pub Ascending : ℕ → List ℕ → Type 0
Ascending last [] = Unit
Ascending last (m ∷ ms) = (last < m) × Ascending m ms

-- The cached prefix is the number of leading members that succeeded, and the cached failure is the
-- earliest of those that can never succeed.
pub record IsCurrent (σ : States) (t : CollectionTally) : Type 0 where
  pub ordered : Ascending 0 t.members
  pub prefix : t.succeeded_prefix ≡ leading σ t.members
  pub failure : (cursor : ℕ) → failed_through t cursor ≡ some_failed σ cursor t.members

all_succeeded-later :
    (σ : States) (cursor last : ℕ) (ms : List ℕ)
    → Ascending last ms
    → cursor ≤ last
    → all_succeeded σ cursor ms ≡ true
all_succeeded-later σ cursor last [] a le = refl
all_succeeded-later σ cursor last (m ∷ ms) (lt, a) le =
    ground (arith, all_succeeded-later σ cursor m ms a (omega arith))

leading-all_succeeded :
    (σ : States) (cursor last : ℕ) (ms : List ℕ)
    → Ascending last ms
    → (leading σ ms == length ms || declared_after cursor (drop (leading σ ms) ms))
      ≡ all_succeeded σ cursor ms
unfolding leading
leading-all_succeeded σ cursor last [] a = refl
leading-all_succeeded σ cursor last (m ∷ ms) (lt, a) = ground (
  arith,
  leading-all_succeeded σ cursor m ms a,
  λ (le : cursor < m). all_succeeded-later σ cursor m ms a (omega arith),
)

-- Only the member `st`, which was pending, moved.
pub record Moves (st : ℕ) (σ σ' : States) : Type 0 where
  pub others : (m : ℕ) → (m == st) ≡ false → σ' m ≡ σ m
  pub was_pending : state_outcome (σ st) ≡ pred_pending

-- What a move does to the outcome of any one member.
Moves-cases :
    (st m : ℕ) (σ σ' : States)
    → Moves st σ σ'
    → ((m ≡ st)
        × (state_outcome (σ m) ≡ pred_pending)
        × (state_outcome (σ' m) ≡ state_outcome (σ' st)))
      ⊎ (((m == st) ≡ false) × (state_outcome (σ' m) ≡ state_outcome (σ m)))
Moves-cases st m σ σ' v = elim (Bool-cases (m == st)) [
  | inl same ↦
      let e : m ≡ st = ground (arith, same) in
      inl (e, ap (λ k. state_outcome (σ k)) e ∙ v.was_pending, ap (λ k. state_outcome (σ' k)) e)
  | inr other ↦ inr (other, ap state_outcome (v.others m other))
]

leading-step :
    (st : ℕ) (σ σ' : States) (ms : List ℕ)
    → Moves st σ σ'
    → leading σ ms + leading σ' (drop (leading σ ms) ms) ≡ leading σ' ms
unfolding leading
leading-step st σ σ' [] v = refl
leading-step st σ σ' (m ∷ ms) v = elim (Moves-cases st m σ σ' v) [
  | inl (e, was, now) ↦ rw was (omega arith)
  | inr (e, same) ↦ ground (arith, same, leading-step st σ σ' ms v)
]

leading-same :
    (st : ℕ) (σ σ' : States) (ms : List ℕ)
    → Moves st σ σ'
    → is_succeeded (state_outcome (σ' st)) ≡ false
    → leading σ' ms ≡ leading σ ms
unfolding leading
leading-same st σ σ' [] v h = refl
leading-same st σ σ' (m ∷ ms) v h = elim (Moves-cases st m σ σ' v) [
  | inl (e, was, now) ↦ ground (arith, was, now, h)
  | inr (e, same) ↦ ground (arith, same, leading-same st σ σ' ms v h)
]

some_failed-step :
    (st cursor : ℕ) (σ σ' : States) (ms : List ℕ)
    → Moves st σ σ'
    → some_failed σ' cursor ms ≡ (
        some_failed σ cursor ms
        || (any (λ m. m == st) ms && (leb st cursor && is_pred_failed (state_outcome (σ' st)))))
some_failed-step st cursor σ σ' [] v = refl
some_failed-step st cursor σ σ' (m ∷ ms) v = elim (Moves-cases st m σ σ' v) [
  | inl (e, was, now) ↦ ground (arith, e, was, now, some_failed-step st cursor σ σ' ms v)
  | inr (e, same) ↦ ground (arith, e, same, some_failed-step st cursor σ σ' ms v)
]

-- What current fields say of a collection edge.
pub IsCurrent-readings :
    (σ : States) (t : CollectionTally) (cursor : ℕ)
    → IsCurrent σ t
    → (succeeded_through t cursor ≡ all_succeeded σ cursor t.members)
      × (failed_through t cursor ≡ some_failed σ cursor t.members)
unfolding succeeded_through
IsCurrent-readings σ t cursor c =
    (rw c.prefix (leading-all_succeeded σ cursor 0 t.members c.ordered), c.failure cursor)

pub settle-members :
    (σ : States) (t : CollectionTally) (st : ℕ) → (settle σ t st).1.members ≡ t.members
unfolding settle
settle-members σ t st = ground arith

settle-prefix :
    (σ σ' : States) (t : CollectionTally) (st : ℕ)
    → t.succeeded_prefix ≡ leading σ t.members
    → Moves st σ σ'
    → (settle σ' t st).1.succeeded_prefix ≡ leading σ' t.members
unfolding settle
settle-prefix σ σ' t st e v = ground (
  arith,
  ap (λ k. k + leading σ' (drop k t.members)) e ∙ leading-step st σ σ' t.members v,
  leading-same st σ σ' t.members v,
)

settle-failure :
    (σ σ' : States) (t : CollectionTally) (st cursor : ℕ)
    → failed_through t cursor ≡ some_failed σ cursor t.members
    → Moves st σ σ'
    → any (λ m. m == st) t.members ≡ true
    → 0 < st
    → failed_through (settle σ' t st).1 cursor ≡ some_failed σ' cursor t.members
unfolding settle failed_through
settle-failure σ σ' t st cursor e v member positive =
    ground (arith, some_failed-step st cursor σ σ' t.members v)

-- Settling a member keeps the cached fields current, whichever state it moved to, when it was
-- pending before, no other Task moved, and its declaration number is positive.
pub settle-IsCurrent :
    (σ σ' : States) (t : CollectionTally) (st : ℕ)
    → IsCurrent σ t
    → Moves st σ σ'
    → any (λ m. m == st) t.members ≡ true
    → 0 < st
    → IsCurrent σ' (settle σ' t st).1
settle-IsCurrent σ σ' t st c v member positive =
    let e = settle-members σ' t st in
    record {
      ordered = rw e c.ordered;
      prefix = settle-prefix σ σ' t st c.prefix v ∙ ap (leading σ') (sym e);
      failure = λ cursor.
          settle-failure σ σ' t st cursor (c.failure cursor) v member positive
          ∙ ap (some_failed σ' cursor) (sym e);
    }

-- After a member settled, the tally says of a collection edge what its members would: it has succeeded
-- when every member declared through its cursor did, and has failed when one of them can never
-- succeed. The cached fields were current before, the member was pending, no other Task moved, and
-- its declaration number is positive.
pub settle-readings :
    (σ σ' : States) (t : CollectionTally) (st cursor : ℕ)
    → IsCurrent σ t
    → Moves st σ σ'
    → any (λ m. m == st) t.members ≡ true
    → 0 < st
    → (succeeded_through (settle σ' t st).1 cursor ≡ all_succeeded σ' cursor t.members)
      × (failed_through (settle σ' t st).1 cursor ≡ some_failed σ' cursor t.members)
settle-readings σ σ' t st cursor c v member positive =
    let same = settle-members σ' t st in
    let (succeeded, lost) =
      IsCurrent-readings σ' (settle σ' t st).1 cursor
        (settle-IsCurrent σ σ' t st c v member positive) in
    (succeeded ∙ ap (all_succeeded σ' cursor) same, lost ∙ ap (some_failed σ' cursor) same)
