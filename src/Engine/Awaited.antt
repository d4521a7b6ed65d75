-- ===== src/Engine/Awaited.antt =====
-- internal/engine: who waits, counted over the worklist, the dependents of the Tasks and the tallies.
use evident_output.Prelude.{
  ℕ, zero, suc, ◌+◌, ◌<◌, ◌≤◌, false, List, [], ◌∷◌, ◌++◌, Option, none, some, ◌≡◌, ◌⊎◌, inl, inr,
  arith, ◌==◌, if_cases,
}
use evident_output.Engine.CollectionTally.{States, CollectionTally, settle}
use evident_output.Engine.Accounted.{
  occurrences, occurrences-append, waiting_as, settle-IsAccounted,
}
use evident_output.Engine.Unresolved.{IsUnresolved, settle-IsUnresolved}
use evident_output.Engine.Schedule.{and_then, set_at, settle_chain}

abbrev pub Awaited : List ℕ → List ℕ → (ℕ → List ℕ) → (ℕ → CollectionTally) → ℕ → Type 0
Awaited extra woken dependents tally m =
    (0 < occurrences m extra)
    ⊎ ((0 < occurrences m woken)
        ⊎ (((b : ℕ) × (0 < occurrences m (dependents b)))
            ⊎ ((c : ℕ) × (0 < waiting_as m (tally c)))))

-- The property of a result, where there is one.
abbrev pub Lands : {A : Type 0} → (A → Type 0) → Option A → Type 0
Lands P none = Unit
Lands P (some x) = P x

pub and_then-Lands :
    {A B : Type 0} (P : A → Type 0) (Q : B → Type 0) (x : Option A) (f : A → Option B)
    → Lands P x
    → ((a : A) → P a → Lands Q (f a))
    → Lands Q (and_then x f)
and_then-Lands P Q none f h k = tt
and_then-Lands P Q (some a) f h k = k a h

pub set_at_all :
    {A : Type 0} (P : A → Type 0) (k : ℕ) (x : A) (f : ℕ → A)
    → P x
    → ((m : ℕ) → P (f m))
    → (m : ℕ) → P (set_at k x f m)
set_at_all P k x f h hs m = if_cases P (m == k) _ _ (λ _. h) (λ _. hs m)

pub either_positive : (a b : ℕ) → 0 < a + b → (0 < a) ⊎ (0 < b)
either_positive zero b h = inr (omega (arith, h))
either_positive (suc a) b h = inl (omega arith)

pub settle_chain-IsUnresolved :
    (σ : States) (st : ℕ) (cs : List ℕ) (tally : ℕ → CollectionTally)
    → ((c : ℕ) → IsUnresolved (tally c))
    → (c : ℕ) → IsUnresolved ((settle_chain σ st cs tally).1 c)
unfolding settle_chain
settle_chain-IsUnresolved σ st [] tally u c = u c
settle_chain-IsUnresolved σ st (d ∷ cs) tally u c =
    settle_chain-IsUnresolved σ st cs _
      (set_at_all IsUnresolved d (settle σ (tally d) st).1 tally
        (settle-IsUnresolved σ (tally d) st (u d)) u)
      c

-- What a write to one collection may drop, the others do not.
pub set_at-waiting_as :
    (i n d : ℕ) (t : CollectionTally) (tally : ℕ → CollectionTally)
    → waiting_as i (tally d) ≤ n + waiting_as i t
    → (c : ℕ) → waiting_as i (tally c) ≤ n + waiting_as i (set_at d t tally c)
set_at-waiting_as i n d t tally h c =
    if_cases (λ x. waiting_as i (tally c) ≤ n + waiting_as i x) (c == d) _ _
      (λ e. let same : c ≡ d = ground (arith, e) in rw same h) (λ _. omega arith)

pub set_at-occurrences :
    (i n d : ℕ) (js : List ℕ) (deps : ℕ → List ℕ)
    → occurrences i (deps d) ≤ n + occurrences i js
    → (b : ℕ) → occurrences i (deps b) ≤ n + occurrences i (set_at d js deps b)
set_at-occurrences i n d js deps h b =
    if_cases (λ x. occurrences i (deps b) ≤ n + occurrences i x) (b == d) _ _
      (λ e. let same : b ≡ d = ground (arith, e) in rw same h) (λ _. omega arith)

pub settle_chain-occurrences :
    (σ : States) (st : ℕ) (cs : List ℕ) (tally : ℕ → CollectionTally) (c i : ℕ)
    → waiting_as i (tally c)
      ≤ occurrences i (settle_chain σ st cs tally).0
        + waiting_as i ((settle_chain σ st cs tally).1 c)
unfolding settle_chain
settle_chain-occurrences σ st [] tally c i = omega arith
settle_chain-occurrences σ st (d ∷ cs) tally c i =
    let (woken, t) = settle σ (tally d) st in
    let more = (settle_chain σ st cs (set_at d t tally)).0 in
    let one =
      set_at-waiting_as i (occurrences i woken) d t tally
        (omega (arith, (settle-IsAccounted σ (tally d) st 0 false).0 i)) c in
    omega (
      arith,
      one,
      settle_chain-occurrences σ st cs (set_at d t tally) c i,
      occurrences-append i woken more,
    )

-- What an append to the worklist and a growth of the dependents and the waiting Tasks keep.
pub Awaited-grows :
    (extra extra' woken woken' : List ℕ) (dependents dependents' : ℕ → List ℕ)
    (tally tally' : ℕ → CollectionTally) (m : ℕ)
    → (0 < occurrences m extra → 0 < occurrences m extra')
    → (0 < occurrences m woken → 0 < occurrences m woken')
    → ((b : ℕ)
        → occurrences m (dependents b) ≤ occurrences m woken' + occurrences m (dependents' b))
    → ((c : ℕ) → waiting_as m (tally c) ≤ occurrences m woken' + waiting_as m (tally' c))
    → Awaited extra woken dependents tally m
    → Awaited extra' woken' dependents' tally' m
Awaited-grows extra extra' woken woken' deps deps' tally tally' m he hw hd ht (inl h) = inl (he h)
Awaited-grows extra extra' woken woken' deps deps' tally tally' m he hw hd ht (inr (inl h)) =
    inr (inl (hw h))
Awaited-grows extra extra' woken woken' deps deps' tally tally' m he hw hd ht
      (inr (inr (inl (b, h)))) =
    elim (either_positive (occurrences m woken') (occurrences m (deps' b))
      (omega (arith, h, hd b))) [ inl k ↦ inr (inl k) | inr k ↦ inr (inr (inl (b, k))) ]
Awaited-grows extra extra' woken woken' deps deps' tally tally' m he hw hd ht
      (inr (inr (inr (c, h)))) =
    elim (either_positive (occurrences m woken') (waiting_as m (tally' c))
      (omega (arith, h, ht c))) [ inl k ↦ inr (inl k) | inr k ↦ inr (inr (inr (c, k))) ]

pub worklist_occurrences :
    (xs ys zs : List ℕ) (i : ℕ)
    → occurrences i (xs ++ (ys ++ zs)) ≡ occurrences i xs + (occurrences i ys + occurrences i zs)
worklist_occurrences xs ys zs i =
    omega (arith, occurrences-append i xs (ys ++ zs), occurrences-append i ys zs)
