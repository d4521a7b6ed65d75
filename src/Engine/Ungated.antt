-- ===== src/Engine/Ungated.antt =====
-- internal/engine/collection_tally.go: an edge whose membership is closed does not read what is declared
-- later.
use evident_output.Prelude.{ℕ, ◌<◌, List, [], ◌∷◌, ◌++◌, ◌≡◌, refl, sym, ◌∙◌, ap, arith}
use evident_output.Engine.CollectionTally.{
  States, CollectionTally, has_member_through, succeeded_through, failed_through, declare,
}
use evident_output.Engine.Readings.{
  IsCurrent, Ascending, all_succeeded, some_failed, IsCurrent-readings, settle-members,
}
use evident_output.Engine.Declared.{declare-IsCurrent}

all_succeeded-later :
    (σ : States) (cursor st : ℕ) (ms : List ℕ)
    → cursor < st
    → all_succeeded σ cursor (ms ++ st ∷ []) ≡ all_succeeded σ cursor ms
all_succeeded-later σ cursor st [] h = ground (arith, h)
all_succeeded-later σ cursor st (m ∷ ms) h = ground (arith, all_succeeded-later σ cursor st ms h)

some_failed-later :
    (σ : States) (cursor st : ℕ) (ms : List ℕ)
    → cursor < st
    → some_failed σ cursor (ms ++ st ∷ []) ≡ some_failed σ cursor ms
some_failed-later σ cursor st [] h = ground (arith, h)
some_failed-later σ cursor st (m ∷ ms) h = ground (arith, some_failed-later σ cursor st ms h)

first-later :
    (t : CollectionTally) (st cursor : ℕ) (ms : List ℕ)
    → cursor < st
    → has_member_through (record t { members = ms ++ st ∷ [] }) cursor
      ≡ has_member_through (record t { members = ms }) cursor
unfolding has_member_through
first-later t st cursor [] h = ground (arith, h)
first-later t st cursor (m ∷ ms) h = refl

members_only :
    (x y : CollectionTally) (cursor : ℕ)
    → x.members ≡ y.members
    → has_member_through x cursor ≡ has_member_through y cursor
unfolding has_member_through
members_only x y cursor e = rw e refl

-- A member that is declared after an edge's cursor never gates that edge: the edge reads of the
-- collection what it would read without the member, whichever state the member is in. The cached
-- fields are current, and the member is declared after all others.
pub declare-ungated :
    (σ : States) (t : CollectionTally) (st cursor : ℕ)
    → IsCurrent σ t
    → Ascending 0 (t.members ++ st ∷ [])
    → cursor < st
    → (succeeded_through (declare σ t st) cursor ≡ succeeded_through t cursor)
      × (failed_through (declare σ t st) cursor ≡ failed_through t cursor)
      × (has_member_through (declare σ t st) cursor ≡ has_member_through t cursor)
unfolding declare
declare-ungated σ t st cursor c a later =
    let t' = record t { members = t.members ++ st ∷ [] } in
    let ms = settle-members σ t' st in
    let (done, lost) =
      IsCurrent-readings σ (declare σ t st) cursor (declare-IsCurrent σ t st c a) in
    let (done₀, lost₀) = IsCurrent-readings σ t cursor c in
    (
      done
          ∙ ap (all_succeeded σ cursor) ms
          ∙ all_succeeded-later σ cursor st t.members later
          ∙ sym done₀,
      lost
          ∙ ap (some_failed σ cursor) ms
          ∙ some_failed-later σ cursor st t.members later
          ∙ sym lost₀,
      members_only (declare σ t st) t' cursor ms ∙ first-later t st cursor t.members later,
    )
