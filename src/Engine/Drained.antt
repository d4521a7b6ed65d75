-- ===== src/Engine/Drained.antt =====
-- internal/engine/eligibility.go: the drain of the worklist ends, however long the cascade of wake-ups.
use evident_output.Prelude.{
  ℕ, zero, suc, ◌<◌, ◌≤◌, List, [], ◌∷◌, some, ◌≡◌, ◌⊎◌, inl, inr, refl, subst, arith, Bool-cases,
  All, length,
}
use evident_output.Engine.Eligibility.{scan_to_blocker}
use evident_output.Engine.Depth.{IsBelow}
use evident_output.Engine.Schedule.{Layout, Sched, waits_parked, wake_one, drain_woken}
use evident_output.Engine.Awaited.{Lands}
use evident_output.Engine.Watched.{IsWatched}
use evident_output.Engine.Placed.{parked-known, wake_one-IsWatched, popped-IsWatched}
use evident_output.Engine.Effects.{
  Ends, AreBelow, open_tasks, count_open, count_open-settled, place-IsRouted,
}

length-zero : (xs : List ℕ) → length xs ≤ 0 → xs ≡ []
length-zero [] h = refl
length-zero (x ∷ xs) h = absurd (omega (arith, h))

module _ (layout : Layout) (rank : ℕ → ℕ) (depth : ℕ)
    (ranked : (c : ℕ) → All (IsBelow rank (rank c)) (layout.entry c)) (extra : List ℕ) where
  -- A wake has a result, and settles a Task or wakes no other.
  wake_one-less :
      (st : ℕ) (s : Sched)
      → IsWatched layout (st ∷ extra) s
      → AreBelow layout rank depth ranked s
      → (s' : Sched) × (wake_one layout depth st s ≡ some s')
        × AreBelow layout rank depth ranked s'
        × (s'.decl_seq ≡ s.decl_seq)
        × ((count_open s'.states s.decl_seq < count_open s.states s.decl_seq)
            ⊎ ((s'.states ≡ s.states) × (s'.woken ≡ s.woken)))
  unfolding wake_one waits_parked
  wake_one-less st s w below = elim (Bool-cases (waits_parked st s)) [
    | inl p ↦
        let (s', e, below', seq, effect, queue) =
          place-IsRouted layout rank depth ranked st scan_to_blocker s below in
        let known = parked-known layout (st ∷ extra) s st w p in
        (
          s',
          rw (p, wake_one) e,
          below',
          seq,
          elim effect [
            | inl now ↦ inl (
                rw now (
                  (count_open-settled s.states st s.decl_seq).1 (ground (arith, p))
                    (ground (arith, known)) (ground (arith, known))))
            | inr same ↦ inr same
          ],
        )
    | inr n ↦ (s, rw (n, wake_one) refl, below, refl, inr (refl, refl))
  ]

  -- The predecessors stay below the depth, and no settled Task is open again.
  abbrev pub Outlasts : Sched → Sched → Type 0
  Outlasts s a = AreBelow layout rank depth ranked a × (open_tasks a ≤ open_tasks s)

  abbrev DrainEnds : Sched → Type 0
  DrainEnds s = Ends (Outlasts s) (λ fuel. drain_woken layout depth fuel s)

  pub drain_woken-idle :
      (s : Sched) (m : ℕ) → s.woken ≡ [] → 1 ≤ m → drain_woken layout depth m s ≡ some s
  unfolding drain_woken
  drain_woken-idle s zero e le = absurd (omega (arith, le))
  drain_woken-idle s (suc m) e le = simp (e, drain_woken) refl

  idle-DrainEnds : (s : Sched) → s.woken ≡ [] → AreBelow layout rank depth ranked s → DrainEnds s
  idle-DrainEnds s e below = (s, 1, (below, omega arith), λ m le. drain_woken-idle s m e le)

  step-DrainEnds :
      (s s' : Sched) (st : ℕ) (rest : List ℕ)
      → s.woken ≡ st ∷ rest
      → wake_one layout depth st (record s { woken = rest }) ≡ some s'
      → open_tasks s' ≤ open_tasks s
      → DrainEnds s'
      → DrainEnds s
  unfolding drain_woken
  step-DrainEnds s s' st rest e woken fewer (a, n, (below, le), h) =
      (a, suc n, (below, omega (arith, le, fewer)), at)
    where
      at : (m : ℕ) → suc n ≤ m → drain_woken layout depth m s ≡ some a
      at zero le = absurd (omega (arith, le))
      at (suc m) le = rw (e, woken, drain_woken) (h m (omega (arith, le)))

  -- By the number of Tasks that have not settled, and then by the length of the worklist.
  ends_below :
      (k n : ℕ) (s : Sched)
      → ((s' : Sched)
          → IsWatched layout extra s'
          → AreBelow layout rank depth ranked s'
          → open_tasks s' < k
          → DrainEnds s')
      → IsWatched layout extra s
      → AreBelow layout rank depth ranked s
      → open_tasks s ≤ k
      → length s.woken ≤ n
      → DrainEnds s
  ends_below k zero s lower w below bound short = idle-DrainEnds s (length-zero s.woken short) below
  ends_below k (suc n) s lower w below bound short =
      by_worklist s.woken refl
        (λ s' w' below' bound' short'. ends_below k n s' lower w' below' bound' short')
    where
      by_worklist :
          (ws : List ℕ)
          → s.woken ≡ ws
          → ((s' : Sched)
              → IsWatched layout extra s'
              → AreBelow layout rank depth ranked s'
              → open_tasks s' ≤ k
              → length s'.woken ≤ n
              → DrainEnds s')
          → DrainEnds s
      by_worklist [] e more = idle-DrainEnds s e below
      by_worklist (st ∷ rest) e more =
          let popped : Sched = record s { woken = rest } in
          let w' = popped-IsWatched layout st rest extra s e w in
          let (s', woken, below', seq, effect) = wake_one-less st popped w' below in
          let watched =
            subst (Lands (IsWatched layout extra)) woken
              (wake_one-IsWatched layout depth st extra popped w') in
          elim effect [
            | inl less ↦
                step-DrainEnds s s' st rest e woken (rw seq (omega (arith, less)))
                  (lower s' watched below' (rw seq (omega (arith, less, bound))))
            | inr (states, same) ↦
                step-DrainEnds s s' st rest e woken (rw (seq, states) (omega arith)) (
                  more s' watched below' (rw (seq, states) bound)
                    (rw same (omega (arith, rw e at short))))
          ]

  ends_by :
      (k : ℕ) (s : Sched)
      → IsWatched layout extra s
      → AreBelow layout rank depth ranked s
      → open_tasks s < k
      → DrainEnds s
  ends_by zero s w below bound = absurd (omega (arith, bound))
  ends_by (suc k) s w below bound =
      ends_below k (length s.woken) s (ends_by k) w below (omega (arith, bound)) (omega arith)

  -- The drain of the worklist ends with a result, which more fuel does not change.
  pub drain_woken-Ends :
      (s : Sched)
      → IsWatched layout extra s
      → AreBelow layout rank depth ranked s
      → Ends (Outlasts s) (λ fuel. drain_woken layout depth fuel s)
  drain_woken-Ends s w below = ends_by (suc (open_tasks s)) s w below (omega arith)
