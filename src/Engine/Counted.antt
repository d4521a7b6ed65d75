-- ===== src/Engine/Counted.antt =====
-- internal/engine: the scheduler's count of parked Tasks.
use evident_output.Prelude.{
  ℕ, zero, suc, ◌+◌, ◌-◌, ◌<◌, ◌≤◌, Bool, true, false, List, [], ◌∷◌, All, ◌≡◌, inl, inr, refl, ap,
  sym, arith, ◌==◌, if◌then◌else◌, Bool-cases,
}
use evident_output.Engine.Schedule.{
  Phase, declared, is_declared, is_parked, Layout, Sched, set_at, enter_phase, is_known,
}
use evident_output.Engine.Operations.{Op, run_ops}
use evident_output.Engine.Awaited.{Lands}
use evident_output.Engine.Scheduled.{new_output}
use evident_output.Engine.Rule.{
  Write, settling, declaring_into, parking, closing, sealing_one, holding_all, concluding_all,
  unparking, written, Fits, Rule, run_ops-Rule,
}

-- How many of the first `n` Tasks are parked.
pub count_parked : (ℕ → Phase) → ℕ → ℕ
count_parked phase zero = 0
count_parked phase (suc n) = count_parked phase n + (if is_parked (phase (suc n)) then 1 else 0)

count_parked-beyond :
    (st n : ℕ) (p : Phase) (phase : ℕ → Phase)
    → n < st
    → count_parked (set_at st p phase) n ≡ count_parked phase n
unfolding count_parked
count_parked-beyond st zero p phase lt = refl
count_parked-beyond st (suc n) p phase lt =
    let other : (suc n == st) ≡ false = ground (arith, lt) in
    let rest = count_parked-beyond st n p phase (omega (arith, lt)) in
    rw other (omega (arith, rest))

-- A Task that enters a phase moves the count by what it was and what it is.
count_parked-entered :
    (st n : ℕ) (p : Phase) (phase : ℕ → Phase)
    → 0 < st
    → st ≤ n
    → count_parked (set_at st p phase) n + (if is_parked (phase st) then 1 else 0)
      ≡ count_parked phase n + (if is_parked p then 1 else 0)
unfolding count_parked
count_parked-entered st zero p phase positive le = absurd (omega (arith, positive, le))
count_parked-entered st (suc n) p phase positive le = elim (Bool-cases (suc n == st)) [
  | inl e ↦
      let same : st ≡ suc n = ground (arith, e) in
      let was : is_parked (phase (suc n)) ≡ is_parked (phase st) =
        ap (λ m. is_parked (phase m)) (sym same) in
      let rest = count_parked-beyond st n p phase (omega (arith, same)) in
      rw (e, was) (omega (arith, rest))
  | inr e ↦
      let rest = count_parked-entered st n p phase positive (ground (arith, e, le)) in
      rw e (omega (arith, rest))
]

-- The count is the number of Tasks that are parked, and only declared Tasks ever are.
pub record IsCounted (s : Sched) : Type 0 where
  pub count : s.parked_count ≡ count_parked s.phase s.decl_seq
  pub fresh : (m : ℕ) → is_known m s ≡ false → s.phase m ≡ declared

-- The arithmetic of `enterPhaseLocked`.
moved_count :
    (n c c' : ℕ) (was now : Bool)
    → n ≡ c
    → c' + (if was then 1 else 0) ≡ c + (if now then 1 else 0)
    → (if was then 1 else 0) ≤ c
    → (if now then suc (if was then n - 1 else n) else if was then n - 1 else n) ≡ c'
moved_count n c c' true true e m p = omega (arith, e, m, p)
moved_count n c c' true false e m p = omega (arith, e, m, p)
moved_count n c c' false true e m p = omega (arith, e, m, p)
moved_count n c c' false false e m p = omega (arith, e, m, p)

enter_phase-IsCounted :
    (st : ℕ) (phase : Phase) (s : Sched)
    → is_known st s ≡ true
    → IsCounted s
    → IsCounted (enter_phase st phase s)
unfolding enter_phase
enter_phase-IsCounted st phase s known c =
    let moved =
      count_parked-entered st s.decl_seq phase s.phase (ground (arith, known))
        (ground (arith, known)) in
    let left =
      count_parked-entered st s.decl_seq declared s.phase (ground (arith, known))
        (ground (arith, known)) in
    record {
      count =
          moved_count s.parked_count (count_parked s.phase s.decl_seq) _ (is_parked (s.phase st))
            (is_parked phase) c.count moved (omega (arith, left));
      fresh = λ m k. let e : (m == st) ≡ false = ground (arith, k, known) in rw e (c.fresh m k);
    }

counted-known :
    (st : ℕ) (s : Sched) → is_declared (s.phase st) ≡ false → IsCounted s → is_known st s ≡ true
counted-known st s defined c = elim (Bool-cases (is_known st s)) [
  | inl k ↦ k
  | inr k ↦ absurd (cc (rw (c.fresh st k) at defined))
]

written-IsCounted :
    (layout : Layout) (w : Write) (s : Sched) → IsCounted s → IsCounted (written layout w s)
written-IsCounted layout (settling σ st cs) s n = record { count = n.count; fresh = n.fresh }
written-IsCounted layout (declaring_into σ st cs) s n = record { count = n.count; fresh = n.fresh }
written-IsCounted layout (parking st c through) s n = record { count = n.count; fresh = n.fresh }
written-IsCounted layout (closing p) s n = record { count = n.count; fresh = n.fresh }
written-IsCounted layout (sealing_one c) s n = record { count = n.count; fresh = n.fresh }
written-IsCounted layout (holding_all cs) s n = record { count = n.count; fresh = n.fresh }
written-IsCounted layout (concluding_all failed cs) s n = record {
  count = n.count;
  fresh = n.fresh;
}
written-IsCounted layout unparking s n = record { count = n.count; fresh = n.fresh }

-- Where nothing is asked of the steps.
all_fit :
    (Allows : List ℕ → Type 0) (ops : List Op) → ((cs : List ℕ) → Allows cs) → All (Fits Allows) ops
all_fit Allows [] h = tt
all_fit Allows (op ∷ ops) h = (λ failed cs e. h cs, all_fit Allows ops h)

pub counting : (layout : Layout) (Allows : List ℕ → Type 0) → Rule layout Allows IsCounted
unfolding count_parked
counting layout Allows = record {
  enters = λ st phase s known defined c. enter_phase-IsCounted st phase s known c;
  known = counted-known;
  begins = λ s c.
      let new : s.phase (suc s.decl_seq) ≡ declared = c.fresh (suc s.decl_seq) (ground arith) in
      record {
        count = rw new (omega (arith, c.count));
        fresh = λ m k. c.fresh m (ground (arith, k));
      };
  writes = λ w s allowed c. written-IsCounted layout w s c;
  moves = λ s s' phases seq same tally draining c. record {
    count = rw (phases, seq, same) c.count;
    fresh = λ m k. rw phases (c.fresh m (rw seq at k));
  };
}

pub new_output-IsCounted : IsCounted new_output
unfolding count_parked
new_output-IsCounted = record { count = refl; fresh = λ m k. refl }

-- After every sequence of steps that returns, the count of parked Tasks is the number of declared
-- Tasks that are parked, and no other Task is parked.
pub run_ops-IsCounted :
    (layout : Layout) (depth fuel : ℕ) (ops : List Op)
    → Lands IsCounted (run_ops layout depth fuel ops new_output)
unfolding count_parked
run_ops-IsCounted layout depth fuel ops =
    run_ops-Rule layout (λ cs. Unit) IsCounted (counting layout (λ cs. Unit)) depth fuel ops
      new_output (all_fit (λ cs. Unit) ops (λ cs. tt)) new_output-IsCounted
