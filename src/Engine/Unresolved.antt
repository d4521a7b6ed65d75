-- ===== src/Engine/Unresolved.antt =====
-- internal/engine/collection_tally.go: the Tasks that wait on a collection wait for edges that are not
-- resolved, and every operation keeps it so.
use evident_output.Prelude.{
  ℕ, zero, suc, ◌-◌, ◌<◌, Bool, true, false, not, ◌||◌, List, [], ◌∷◌, ◌++◌, ◌≡◌, refl, arith, ◌==◌,
  if_cases, All_mono, drop, length,
}
use evident_output.Engine.CollectionTally.{
  pred_pending, state_outcome, States, CollectionTally, declared_after, succeeded_through,
  failed_through, settle, declare, park, seal, unpark, release, fail_builder,
}
use evident_output.Engine.Accounted.{occurrences, waiting_as, settle-IsAccounted}
use evident_output.Engine.Wakeups.{StillPending, NoneMissed, settle-NoneMissed, park-NoneMissed}

-- `open_alive`: where an edge is open, no member has failed. `building`: where anything waits, no
-- builder of the collection has.
pub record IsUnresolved (t : CollectionTally) : Type 0 where
  pub none_missed : NoneMissed t
  pub open_alive : (i : ℕ) → 0 < occurrences i t.open_edges → t.first_failed ≡ 0
  pub building : (i : ℕ) → 0 < waiting_as i t → t.builder_failed ≡ false

settle-open_alive :
    (σ : States) (t : CollectionTally) (st i : ℕ)
    → (0 < occurrences i t.open_edges → t.first_failed ≡ 0)
    → 0 < occurrences i (settle σ t st).1.open_edges
    → (settle σ t st).1.first_failed ≡ 0
unfolding settle
settle-open_alive σ t st i h = ground (arith, h)

settle-builder :
    (σ : States) (t : CollectionTally) (st : ℕ)
    → (settle σ t st).1.builder_failed ≡ t.builder_failed
unfolding settle
settle-builder σ t st = ground arith

pub settle-IsUnresolved :
    (σ : States) (t : CollectionTally) (st : ℕ) → IsUnresolved t → IsUnresolved (settle σ t st).1
settle-IsUnresolved σ t st u = record {
  none_missed = settle-NoneMissed σ t st u.none_missed;
  open_alive = λ i. settle-open_alive σ t st i (u.open_alive i);
  building = λ i h.
      rw (settle-builder σ t st)
        (u.building i (omega (arith, (settle-IsAccounted σ t st 0 false).0 i)));
}

seal-NoneMissed : (t : CollectionTally) (cursor : ℕ) → NoneMissed t → NoneMissed (seal t cursor).1
unfolding seal succeeded_through failed_through
seal-NoneMissed t cursor n =
    if_cases (λ (r : List ℕ × CollectionTally). NoneMissed r.1) (t.sealed || not (t.holds == 0)) _ _
      (λ _. n) (λ _. record { sorted = n.sorted; waiting = n.waiting })

pub seal-IsUnresolved :
    (t : CollectionTally) (cursor : ℕ) → IsUnresolved t → IsUnresolved (seal t cursor).1
unfolding seal
seal-IsUnresolved t cursor u = record {
  none_missed = seal-NoneMissed t cursor u.none_missed;
  open_alive = λ i. ground (arith, u.open_alive i);
  building = λ i. ground (arith, u.building i);
}

-- A builder's hold waits for nothing.
pub held-IsUnresolved :
    (t : CollectionTally) (h : ℕ) → IsUnresolved t → IsUnresolved (record t { holds = h })
unfolding succeeded_through failed_through
held-IsUnresolved t h u = record {
  none_missed = record { sorted = u.none_missed.sorted; waiting = u.none_missed.waiting };
  open_alive = u.open_alive;
  building = u.building;
}

reread-IsUnresolved :
    (t : CollectionTally) → IsUnresolved t → IsUnresolved (record t { open_edges = [] })
unfolding succeeded_through failed_through
reread-IsUnresolved t u = record {
  none_missed = record { sorted = u.none_missed.sorted; waiting = u.none_missed.waiting };
  open_alive = λ i h. absurd (omega (arith, h));
  building = λ i h. u.building i (omega (arith, h));
}

pub release-IsUnresolved :
    (t : CollectionTally) (sealing : Bool) (cursor : ℕ)
    → IsUnresolved t
    → IsUnresolved (release t sealing cursor).1
unfolding release
release-IsUnresolved t sealing cursor u =
    let t' : CollectionTally = record t { holds = t.holds - 1 } in
    let u' = held-IsUnresolved t (t.holds - 1) u in
    if_cases (λ (r : List ℕ × CollectionTally). IsUnresolved r.1) (not (t'.holds == 0)) _ _
      (λ _. u')
      (λ _.
        if_cases (λ (r : List ℕ × CollectionTally). IsUnresolved r.1) sealing _ _
          (λ _. seal-IsUnresolved t' cursor u') (λ _. reread-IsUnresolved t' u'))

pub fail_builder-IsUnresolved : (t : CollectionTally) → IsUnresolved (fail_builder t).1
unfolding fail_builder
fail_builder-IsUnresolved t = record {
  none_missed = record { sorted = tt; waiting = tt };
  open_alive = λ i. ground arith;
  building = λ i. ground arith;
}

pub unpark-IsUnresolved : (t : CollectionTally) → IsUnresolved (unpark t)
unfolding unpark
unpark-IsUnresolved t = record {
  none_missed = record { sorted = tt; waiting = tt };
  open_alive = λ i. ground arith;
  building = λ i. ground arith;
}

-- Parking on an edge that is not resolved.
pub park-IsUnresolved :
    (t : CollectionTally) (st cursor : ℕ) (is_open : Bool)
    → IsUnresolved t
    → t.builder_failed ≡ false
    → (is_open ≡ true → t.first_failed ≡ 0)
    → (is_open ≡ false → StillPending t (record { st = st; cursor = cursor }))
    → IsUnresolved (park t st cursor is_open)
unfolding park succeeded_through failed_through
park-IsUnresolved t st cursor true u b f p = record {
  none_missed = record { sorted = u.none_missed.sorted; waiting = u.none_missed.waiting };
  open_alive = λ i h. f refl;
  building = λ i h. b;
}
park-IsUnresolved t st cursor false u b f p = record {
  none_missed = park-NoneMissed t st cursor u.none_missed (p refl);
  open_alive = u.open_alive;
  building = λ i h. b;
}

succeeded_through-joined :
    (t : CollectionTally) (st cursor : ℕ)
    → succeeded_through t cursor ≡ false
    → succeeded_through (record t { members = t.members ++ st ∷ [] }) cursor ≡ false
unfolding succeeded_through
succeeded_through-joined t st cursor = joined t.succeeded_prefix t.members
  where
    joined :
        (n : ℕ) (ms : List ℕ)
        → (n == length ms || declared_after cursor (drop n ms)) ≡ false
        → (n == length (ms ++ st ∷ []) || declared_after cursor (drop n (ms ++ st ∷ []))) ≡ false
    joined zero [] h = ground (arith, h)
    joined zero (m ∷ ms) h = ground (arith, h)
    joined (suc n) [] h = ground (arith, h)
    joined (suc n) (m ∷ ms) h = ground (arith, joined n ms (ground (arith, h)))

-- A new member closes no edge.
pub declare-IsUnresolved :
    (σ : States) (t : CollectionTally) (st : ℕ) → IsUnresolved t → IsUnresolved (declare σ t st)
unfolding declare failed_through
declare-IsUnresolved σ t st u =
    let t' : CollectionTally = record t { members = t.members ++ st ∷ [] } in
    settle-IsUnresolved σ t' st (record {
      none_missed = record {
        sorted = u.none_missed.sorted;
        waiting =
            All_mono (StillPending t) (StillPending t') t.parked
              (λ p h. (succeeded_through-joined t st p.cursor h.0, h.1)) u.none_missed.waiting;
      };
      open_alive = u.open_alive;
      building = u.building;
    })

pub declare-waiting_as :
    (σ : States) (t : CollectionTally) (st i : ℕ)
    → state_outcome (σ st) ≡ pred_pending
    → waiting_as i (declare σ t st) ≡ waiting_as i t
unfolding declare settle
declare-waiting_as σ t st i pending = rw (pending, declare, settle) refl
