-- ===== src/Engine/Wakeups.antt =====
-- Which Tasks stay parked on a collection of internal/engine after one of its members settled.
use evident_output.Prelude.{
  ℕ, ◌+◌, ◌≤◌, false, not, ◌&&◌, ◌||◌, List, [], ◌∷◌, ◌≡◌, refl, arith, leb, ◌==◌, if_cases, All,
  is_empty, drop, length,
}
use evident_output.Engine.CollectionTally.{
  PredOutcome, pred_pending, pred_succeeded, pred_failed, state_outcome, States, ParkedTask,
  CollectionTally, leading, declared_after, succeeded_through, failed_through, split_from,
  split_succeeded, settle, insert_after_order, park,
}

-- The cursors ascend, from `low` on.
abbrev pub Sorted : ℕ → List ParkedTask → Type 0
Sorted low [] = Unit
Sorted low (p ∷ ps) = (low ≤ p.cursor) × Sorted p.cursor ps

-- The edge with this cursor is neither resolved by success nor by a failure.
abbrev pub StillPending : CollectionTally → ParkedTask → Type 0
StillPending t p = (succeeded_through t p.cursor ≡ false) × (failed_through t p.cursor ≡ false)

-- The parked Tasks are in order of their cursors, and each waits for an edge that is pending.
pub record NoneMissed (t : CollectionTally) : Type 0 where
  pub sorted : Sorted 0 t.parked
  pub waiting : All (StillPending t) t.parked

Sorted-lower : (low low' : ℕ) (ps : List ParkedTask) → low' ≤ low → Sorted low ps → Sorted low' ps
Sorted-lower low low' [] le s = tt
Sorted-lower low low' (p ∷ ps) le (h, s) = (omega (arith, h, le), s)

Early : ℕ → List ParkedTask → Type 0
Early d = All (λ p. leb d p.cursor ≡ false)

before-Early :
    (d : ℕ) (p : ParkedTask) (kept : List ParkedTask)
    → Sorted p.cursor kept
    → Early d kept
    → (is_empty kept && leb d p.cursor) ≡ false
    → leb d p.cursor ≡ false
unfolding Early
before-Early d p [] s e h = h
before-Early d p (q ∷ kept) s e h = ground (arith, s.0, e.0)

split_from-kept :
    (t : CollectionTally) (d low : ℕ) (ps : List ParkedTask)
    → Sorted low ps
    → All (StillPending t) ps
    → Sorted low (split_from d ps).0
      × Early d (split_from d ps).0
      × All (StillPending t) (split_from d ps).0
unfolding split_from Early
split_from-kept t d low [] s w = (tt, tt, tt)
split_from-kept t d low (p ∷ ps) (h, s) (w, ws) =
    let (s', e', w') = split_from-kept t d p.cursor ps s ws in
    if_cases
      (λ (r : List ParkedTask × List ParkedTask).
        Sorted low r.0 × Early d r.0 × All (StillPending t) r.0)
      (is_empty (split_from d ps).0 && leb d p.cursor) _ _ (λ _. (tt, tt, tt))
      (λ n. ((h, s'), (before-Early d p (split_from d ps).0 s' e' n, e'), (w, w')))

succeeded_through_mono :
    (t : CollectionTally) (c c' : ℕ)
    → c ≤ c'
    → succeeded_through t c ≡ false
    → succeeded_through t c' ≡ false
unfolding succeeded_through
succeeded_through_mono t c c' le h = later (drop t.succeeded_prefix t.members) h
  where
    later :
        (ms : List ℕ)
        → (t.succeeded_prefix == length t.members || declared_after c ms) ≡ false
        → (t.succeeded_prefix == length t.members || declared_after c' ms) ≡ false
    later [] h = ground (arith, h)
    later (m ∷ ms) h = ground (arith, h)

pending_after :
    (t : CollectionTally) (c : ℕ) (ps : List ParkedTask)
    → Sorted c ps
    → succeeded_through t c ≡ false
    → All (λ p. succeeded_through t p.cursor ≡ false) ps
pending_after t c [] s h = tt
pending_after t c (p ∷ ps) (le, s) h =
    let h' = succeeded_through_mono t c p.cursor le h in (h', pending_after t p.cursor ps s h')

split_succeeded-kept :
    (t : CollectionTally) (P : ParkedTask → Type 0) (low : ℕ) (ps : List ParkedTask)
    → Sorted low ps
    → All P ps
    → Sorted low (split_succeeded t ps).1
      × All (λ p. succeeded_through t p.cursor ≡ false) (split_succeeded t ps).1
      × All P (split_succeeded t ps).1
unfolding split_succeeded
split_succeeded-kept t P low [] s w = (tt, tt, tt)
split_succeeded-kept t P low (p ∷ ps) (h, s) (w, ws) =
    let (s', e', w') = split_succeeded-kept t P p.cursor ps s ws in
    if_cases
      (λ (r : List ParkedTask × List ParkedTask).
        Sorted low r.1 × All (λ p. succeeded_through t p.cursor ≡ false) r.1 × All P r.1)
      (succeeded_through t p.cursor) _ _ (λ _. (Sorted-lower p.cursor low _ h s', e', w'))
      (λ n. ((h, s), (n, pending_after t p.cursor ps s n), (w, ws)))

All-map :
    {A : Type 0} (P Q : A → Type 0) (xs : List A) → ((x : A) → P x → Q x) → All P xs → All Q xs
All-map P Q [] f h = tt
All-map P Q (x ∷ xs) f (h, hs) = (f x h, All-map P Q xs f hs)

All-both :
    {A : Type 0} (P Q : A → Type 0) (xs : List A) → All P xs → All Q xs → All (λ x. P x × Q x) xs
All-both P Q [] h k = tt
All-both P Q (x ∷ xs) (h, hs) (k, ks) = ((h, k), All-both P Q xs hs ks)

failed-NoneMissed :
    (t : CollectionTally) (st : ℕ) (opened : List ℕ)
    → NoneMissed t
    → NoneMissed
        (record t { first_failed = st; open_edges = opened; parked = (split_from st t.parked).0 })
unfolding succeeded_through failed_through Early
failed-NoneMissed t st opened n =
    let (s, e, w) = split_from-kept t st 0 t.parked n.sorted n.waiting in
    record {
      sorted = s;
      waiting =
          All-map (λ p. StillPending t p × (leb st p.cursor ≡ false)) _ (split_from st t.parked).0
            (λ p h. (h.0.0, ground (arith, h.1)))
            (All-both (StillPending t) (λ p. leb st p.cursor ≡ false) (split_from st t.parked).0 w
              e);
    }

succeeded-NoneMissed :
    (t : CollectionTally) (prefix : ℕ)
    → NoneMissed t
    → let t' = record t { succeeded_prefix = prefix } in
      NoneMissed (record t' { parked = (split_succeeded t' t.parked).1 })
unfolding succeeded_through failed_through
succeeded-NoneMissed t prefix n =
    let t' : CollectionTally = record t { succeeded_prefix = prefix } in
    let pending =
      All-map (StillPending t) (λ p. failed_through t' p.cursor ≡ false) t.parked (λ p h. h.1)
        n.waiting in
    let (s, e, w) =
      split_succeeded-kept t' (λ p. failed_through t' p.cursor ≡ false) 0 t.parked n.sorted
        pending in
    record {
      sorted = s;
      waiting =
          All-both (λ p. succeeded_through t' p.cursor ≡ false)
            (λ p. failed_through t' p.cursor ≡ false) (split_succeeded t' t.parked).1 e w;
    }

-- Settling a member leaves parked, in order, only Tasks whose edges are still
-- neither resolved by success nor by a failure, when that held before.
pub settle-NoneMissed :
    (σ : States) (t : CollectionTally) (st : ℕ) → NoneMissed t → NoneMissed (settle σ t st).1
unfolding settle
settle-NoneMissed σ t st n = by_outcome (state_outcome (σ st)) refl
  where
    by_outcome : (o : PredOutcome) → state_outcome (σ st) ≡ o → NoneMissed (settle σ t st).1
    by_outcome pred_pending e = rw (e, settle) n
    by_outcome pred_succeeded e =
        rw (e, settle)
          (succeeded-NoneMissed t
            (t.succeeded_prefix + leading σ (drop t.succeeded_prefix t.members)) n)
    by_outcome pred_failed e =
        rw (e, settle)
          (if_cases (λ (r : List ℕ × CollectionTally). NoneMissed r.1)
            (not (t.first_failed == 0) && leb t.first_failed st) _ _ (λ _. n)
            (λ _. failed-NoneMissed t st [] n))

insert_after_order-Sorted :
    (low : ℕ) (qs : List ParkedTask) (p : ParkedTask)
    → Sorted low qs
    → low ≤ p.cursor
    → Sorted low (insert_after_order qs p)
unfolding insert_after_order
insert_after_order-Sorted low [] p s le = (le, tt)
insert_after_order-Sorted low (q ∷ qs) p (h, s) le =
    if_cases (Sorted low) (leb q.cursor p.cursor) _ _
      (λ e. (h, insert_after_order-Sorted q.cursor qs p s (ground (arith, e))))
      (λ e. (le, (ground (arith, e), s)))

insert_after_order-All :
    (P : ParkedTask → Type 0) (qs : List ParkedTask) (p : ParkedTask)
    → All P qs
    → P p
    → All P (insert_after_order qs p)
unfolding insert_after_order
insert_after_order-All P [] p w h = (h, tt)
insert_after_order-All P (q ∷ qs) p (w, ws) h =
    if_cases (All P) (leb q.cursor p.cursor) _ _ (λ e. (w, insert_after_order-All P qs p ws h))
      (λ e. (h, (w, ws)))

-- Parking a Task on a closed edge that is pending keeps the parked Tasks in order and waiting for
-- pending edges, when they were so before.
pub park-NoneMissed :
    (t : CollectionTally) (st cursor : ℕ)
    → NoneMissed t
    → StillPending t (record { st = st; cursor = cursor })
    → NoneMissed (park t st cursor false)
unfolding park succeeded_through failed_through
park-NoneMissed t st cursor n pending =
    let p : ParkedTask = record { st = st; cursor = cursor } in
    record {
      sorted = insert_after_order-Sorted 0 t.parked p n.sorted (omega arith);
      waiting = insert_after_order-All (StillPending t) t.parked p n.waiting pending;
    }
