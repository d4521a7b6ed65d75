-- ===== src/Engine/Begun.antt =====
-- internal/engine: what the single writes of a step do to the order in which Tasks start.
use evident_output.Prelude.{
  ℕ, true, false, [], ◌∷◌, ◌++◌, ◌≡◌, inl, inr, refl, ◌∙◌, subst, arith, ◌==◌, if_cases, Bool-cases,
}
use evident_output.Core.State.{EntityState}
use evident_output.Engine.CollectionTally.{pred_succeeded, state_outcome}
use evident_output.Engine.Eligibility.{Predecessor}
use evident_output.Engine.Schedule.{Phase, is_running, submitted, Sched, set_at, enter_phase}
use evident_output.Engine.Operations.{is_pending, promote_running, claim}
use evident_output.Engine.Recalled.{names, names-append}
use evident_output.Engine.Ordered.{IsOrdered, same_states-IsOrdered, entered}

pub cannot : (x : EntityState) → is_pending x ≡ true → state_outcome x ≡ pred_succeeded → ⊥
unfolding state_outcome
cannot x h k = ground (arith, h, k)

pub promote_running-IsOrdered :
    (st : ℕ) (s : Sched) → IsOrdered s → IsOrdered (promote_running st s)
unfolding promote_running state_outcome
promote_running-IsOrdered st s o =
    if_cases IsOrdered (is_pending (s.states st)) _ _
      (λ h. record {
        asked = λ m b n. elim (o.asked m b n) [ inl k ↦ inl k | inr k ↦ inr (stays h b k) ];
        started = λ m b r n. stays h b (o.started m b r n);
      })
      (λ _. o)
  where
    stays :
        is_pending (s.states st) ≡ true
        → (b : ℕ) → state_outcome (s.states b) ≡ pred_succeeded
        → state_outcome (set_at st EntityState.running s.states b) ≡ pred_succeeded
    stays h b k = elim (Bool-cases (b == st)) [
      | inl e ↦
          let same : b ≡ st = ground (arith, e) in
          absurd (
            cannot (s.states st) h
              (subst (λ m. state_outcome (s.states m) ≡ pred_succeeded) same k))
      | inr e ↦ rw e k
    ]

pub enter_phase-IsOrdered :
    (st : ℕ) (phase : Phase) (s : Sched)
    → is_running phase ≡ false
    → IsOrdered s
    → IsOrdered (enter_phase st phase s)
unfolding enter_phase
enter_phase-IsOrdered st phase s off o =
    same_states-IsOrdered s _ refl refl refl (λ m. entered st phase s m off) o

-- A Task all of whose predecessors succeeded may start.
pub claim-IsOrdered :
    (st : ℕ) (s : Sched)
    → ((b : ℕ) → names b (s.after st) ≡ true → state_outcome (s.states b) ≡ pred_succeeded)
    → IsOrdered s
    → IsOrdered (claim st s)
unfolding claim enter_phase
claim-IsOrdered st s all o = promote_running-IsOrdered st _ (record {
  asked = o.asked;
  started = λ m b r n. elim (Bool-cases (m == st)) [
    | inl e ↦ let same : m ≡ st = ground (arith, e) in all b (rw same at n)
    | inr e ↦ o.started m b (rw e at r) n
  ];
})

pub unsubmitted : (x : Phase) → submitted x ≡ false → is_running x ≡ false
unfolding submitted
unsubmitted x h = ground (arith, h)

-- One more predecessor of a Task that does not run.
pub joined-IsOrdered :
    (st : ℕ) (edge : Predecessor) (s : Sched)
    → is_running (s.phase st) ≡ false
    → IsOrdered s
    → IsOrdered (record s {
      preds = set_at st (s.preds st ++ edge ∷ []) s.preds;
      after = set_at st (s.after st ++ edge ∷ []) s.after;
    })
joined-IsOrdered st edge s off o = record {
  asked = λ m b n. elim (Bool-cases (m == st)) [
    | inl e ↦ rw e (elim (Bool-cases (names b (edge ∷ []))) [
      | inl k ↦ inl (names-append b (s.preds st) (edge ∷ []) ∙ ground (arith, k))
      | inr k ↦
          elim (o.asked st b
            (ground (arith, k, names-append b (s.after st) (edge ∷ []), rw e at n))) [
              | inl h ↦ inl (names-append b (s.preds st) (edge ∷ []) ∙ ground (arith, h))
              | inr h ↦ inr h
            ]
    ])
    | inr e ↦ rw e (o.asked m b (rw e at n))
  ];
  started = λ m b run n. elim (Bool-cases (m == st)) [
    | inl e ↦ let same : m ≡ st = ground (arith, e) in absurd (cc (rw same at run, off))
    | inr e ↦ o.started m b run (rw e at n)
  ];
}

-- A step that a Task starts after, which `after` does not keep.
pub stepped-IsOrdered :
    (st : ℕ) (p : Predecessor) (s : Sched)
    → IsOrdered s
    → IsOrdered (record s { preds = set_at st (s.preds st ++ p ∷ []) s.preds })
stepped-IsOrdered st p s o = record {
  asked = λ m b n. elim (o.asked m b n) [
    | inl k ↦ inl (elim (Bool-cases (m == st)) [
      | inl e ↦
          let same : m ≡ st = ground (arith, e) in
          rw e (names-append b (s.preds st) (p ∷ []) ∙ ground (arith, rw same at k))
      | inr e ↦ rw e k
    ])
    | inr k ↦ inr k
  ];
  started = o.started;
}
