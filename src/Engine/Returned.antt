-- ===== src/Engine/Returned.antt =====
-- internal/engine: every step of the scheduler returns.
use evident_output.Prelude.{
  ℕ, suc, ◌+◌, ◌≤◌, Bool, true, false, not, ◌||◌, List, [], ◌∷◌, ◌++◌, Option, some, ◌≡◌, refl, sym,
  subst, arith, ◌==◌, if◌then◌else◌, if_cases, All, All-append,
}
use evident_output.Core.State.{EntityState, not_started, is_terminal_task}
use evident_output.Engine.CollectionTally.{CollectionTally, total}
use evident_output.Engine.Eligibility.{
  Predecessor, task, collection, undeclared, PredScan, scan_all, close_membership,
}
use evident_output.Engine.Depth.{IsBelow}
use evident_output.Engine.Schedule.{
  queued, submitted, Layout, Sched, and_then, set_at, settle_task, mark_not_started, enter_phase,
  waits_parked, awaiting_start, propagate_settle, is_known, place, drain_woken,
}
use evident_output.Engine.Operations.{close_edge, add_preds, add_steps, declare_task, define_work}
use evident_output.Engine.Awaited.{Lands}
use evident_output.Engine.Watched.{IsWatched, settle_task-IsWatched}
use evident_output.Engine.Effects.{Ends, AreBelow, open_tasks, place-IsRouted}
use evident_output.Engine.Drained.{drain_woken-Ends}
use evident_output.Engine.Placed.{place-IsWatched, drain_woken-IsWatched}
use evident_output.Engine.Rested.{IsAtRest, also, repreds}
use evident_output.Engine.Routed.{enter_phase-IsWatched}
use evident_output.Engine.Retallied.{close_membership-IsKept, retallied-IsWatched}

pub Ends-Lands :
    {A : Type 0} (P Q : A → Type 0) (f : ℕ → Option A)
    → Ends P f
    → ((m : ℕ) → Lands Q (f m))
    → Ends (λ a. Q a × P a) f
Ends-Lands P Q f (a, n, p, h) k = (a, n, (subst (Lands Q) (h n (omega arith)) (k n), p), h)

pub and_then-Ends :
    {A B : Type 0} (P : A → Type 0) (Q : B → Type 0) (f : ℕ → Option A) (g : A → ℕ → Option B)
    → Ends P f
    → ((a : A) → P a → Ends Q (g a))
    → Ends Q (λ m. and_then (f m) (λ a. g a m))
and_then-Ends P Q f g (a, n, p, h) k =
    let (b, n', q, h') = k a p in
    (b, n + n', q, λ m le. rw (h m (omega (arith, le))) (h' m (omega (arith, le))))

pub now-Ends : {A : Type 0} (P : A → Type 0) (a : A) → P a → Ends P (λ m. some a)
now-Ends P a h = (a, 0, h, λ m le. refl)

pub choose-Ends :
    {A : Type 0} (P : A → Type 0) (b : Bool) (x y : ℕ → Option A)
    → (b ≡ true → Ends P x)
    → (b ≡ false → Ends P y)
    → Ends P (λ m. if b then x m else y m)
choose-Ends P true x y h k = h refl
choose-Ends P false x y h k = k refl

pub settle_task-preds :
    (layout : Layout) (st : ℕ) (state : EntityState) (s : Sched)
    → (settle_task layout st state s).preds ≡ s.preds
unfolding settle_task enter_phase propagate_settle
settle_task-preds layout st state s =
    if_cases (λ x. (propagate_settle layout st x).preds ≡ s.preds) (awaiting_start (s.phase st)) _ _
      (λ _. refl) (λ _. refl)

module _ (layout : Layout) (rank : ℕ → ℕ) (depth : ℕ)
    (ranked : (c : ℕ) → All (IsBelow rank (rank c)) (layout.entry c)) where
  abbrev pub Below : Sched → Type 0
  Below = AreBelow layout rank depth ranked

  -- At rest but for `extra`, with predecessors whose outcome is known.
  abbrev pub IsSound : List ℕ → Sched → Type 0
  IsSound extra s = IsAtRest layout extra s × Below s

  pub drain-Outlasts :
      (extra : List ℕ) (s : Sched)
      → IsWatched layout extra s
      → Below s
      → Ends
          (λ a. IsAtRest layout extra a × (Below a × (open_tasks a ≤ open_tasks s)))
          (λ m. drain_woken layout depth m s)
  drain-Outlasts extra s w b =
      Ends-Lands (λ a. Below a × (open_tasks a ≤ open_tasks s)) (IsAtRest layout extra) _
        (drain_woken-Ends layout rank depth ranked extra s w b)
        (λ m. drain_woken-IsWatched layout depth m extra s w)

  pub drain-Ends :
      (extra : List ℕ) (s : Sched)
      → IsWatched layout extra s
      → Below s
      → Ends (IsSound extra) (λ m. drain_woken layout depth m s)
  drain-Ends extra s w b =
      let (a, n, (rest, (b', fewer)), h) = drain-Outlasts extra s w b in (a, n, (rest, b'), h)

  pub place_now-Ends :
      (st : ℕ) (scan : PredScan) (extra : List ℕ) (s : Sched)
      → IsWatched layout (st ∷ extra) s
      → is_known st s ≡ true
      → Below s
      → Ends
          (IsSound extra)
          (λ m. and_then (place layout depth st scan s) (drain_woken layout depth m))
  place_now-Ends st scan extra s w known b =
      let (s', e, b', seq, effect, queue) = place-IsRouted layout rank depth ranked st scan s b in
      let w' =
        subst (Lands (IsWatched layout extra)) e
          (place-IsWatched layout depth st scan extra s w known) in
      subst (λ x. Ends (IsSound extra) (λ m. and_then x (drain_woken layout depth m))) (sym e)
        (drain-Ends extra s' w' b')

  edge-IsBelow :
      (decl_seq : ℕ) (tally : ℕ → CollectionTally) (p : Predecessor)
      → IsBelow rank depth p
      → IsBelow rank depth (close_membership decl_seq tally p).0
  unfolding close_membership
  edge-IsBelow decl_seq tally (task m) h = h
  edge-IsBelow decl_seq tally undeclared h = h
  edge-IsBelow decl_seq tally (collection c through) h =
      if_cases (λ (r : Predecessor × (List ℕ × (ℕ → CollectionTally))). IsBelow rank depth r.0)
        (not (through == 0) || total (tally c) == 0 || not ((tally c).holds == 0)) _ _ (λ _. h)
        (λ _. h)

  close_edge-Ends :
      (p : Predecessor) (s : Sched)
      → IsBelow rank depth p
      → IsSound [] s
      → Ends (λ r. IsSound [] r.1 × IsBelow rank depth r.0) (λ m. close_edge layout depth m p s)
  unfolding close_edge
  close_edge-Ends p s h ((w, idle), b) =
      let closed = close_membership s.decl_seq s.tally p in
      and_then-Ends (IsSound []) (λ r. IsSound [] r.1 × IsBelow rank depth r.0) _ _
        (drain-Ends [] _
          (retallied-IsWatched layout [] closed.1.0 closed.1.1 s
            (close_membership-IsKept s.decl_seq s.tally p) w)
          b)
        (λ s' sound. now-Ends _ (closed.0, s') (sound, edge-IsBelow s.decl_seq s.tally p h))

  -- One more predecessor below the depth.
  more-Below :
      (st : ℕ) (p : Predecessor) (s : Sched)
      → IsBelow rank depth p
      → Below s
      → (m : ℕ) → All (IsBelow rank depth) (set_at st (s.preds st ++ p ∷ []) s.preds m)
  more-Below st p s h b m =
      if_cases (All (IsBelow rank depth)) (m == st) _ _
        (λ _. All-append (IsBelow rank depth) (s.preds st) (p ∷ []) (b st) (h, tt)) (λ _. b m)

  pub add_preds-Ends :
      (st : ℕ) (ps : List Predecessor) (s : Sched)
      → All (IsBelow rank depth) ps
      → IsSound [] s
      → Ends (IsSound []) (λ m. add_preds layout depth m st ps s)
  unfolding add_preds
  add_preds-Ends st [] s h sound = now-Ends (IsSound []) s sound
  add_preds-Ends st (p ∷ ps) s (h, hs) sound =
      and_then-Ends (λ r. IsSound [] r.1 × IsBelow rank depth r.0) (IsSound []) _ _
        (close_edge-Ends p s h sound)
        (λ r a.
          add_preds-Ends st ps _ hs
            (repreds layout depth 0 r.1 _ _ a.0.0, more-Below st r.0 r.1 a.1 a.0.1))

  add_steps-Ends :
      (st : ℕ) (ps : List Predecessor) (s : Sched)
      → All (IsBelow rank depth) ps
      → IsSound [] s
      → Ends (IsSound []) (λ m. add_steps layout depth m st ps s)
  unfolding add_steps
  add_steps-Ends st [] s h sound = now-Ends (IsSound []) s sound
  add_steps-Ends st (p ∷ ps) s (h, hs) sound =
      and_then-Ends (λ r. IsSound [] r.1 × IsBelow rank depth r.0) (IsSound []) _ _
        (close_edge-Ends p s h sound)
        (λ r a.
          add_steps-Ends st ps _ hs
            (repreds layout depth 0 r.1 _ r.1.after a.0.0, more-Below st p r.1 h a.0.1))

  pub settled-Ends :
      (st : ℕ) (state : EntityState) (s : Sched)
      → IsWatched layout [] s
      → is_known st s ≡ true
      → Below s
      → Ends (IsSound []) (λ m. drain_woken layout depth m (settle_task layout st state s))
  settled-Ends st state s w known b =
      drain-Ends [] _
        (settle_task-IsWatched layout st state [] s (also layout depth 0 st [] s w) known)
        (λ m. rw (settle_task-preds layout st state s) (b m))

  pub declare_task-Ends :
      (steps : List Predecessor) (s : Sched)
      → All (IsBelow rank depth) steps
      → IsSound [] s
      → Ends Below (λ m. declare_task layout depth m steps s)
  unfolding declare_task waits_parked
  declare_task-Ends steps s h ((w, idle), b) =
      and_then-Ends (IsSound []) Below _ _
        (add_steps-Ends (suc s.decl_seq) steps (record s { decl_seq = suc s.decl_seq }) h
          (
            (
              record {
                awaited = w.awaited;
                alive = w.alive;
                unresolved = w.unresolved;
                fresh = λ m k. w.fresh m (ground (arith, k));
              },
              idle,
            ),
            b,
          ))
        (λ s' sound. now-Ends Below _ sound.1)

  pub define_work-Ends :
      (st : ℕ) (s : Sched) → IsSound [] s → Ends (IsSound []) (λ m. define_work layout depth m st s)
  unfolding define_work mark_not_started enter_phase
  define_work-Ends st s ((w, idle), b) =
      let s' = enter_phase st queued s in
      choose-Ends (IsSound [])
        (not (is_known st s) || is_terminal_task (s.states st) || submitted (s.phase st)) _ _
        (λ _. now-Ends (IsSound []) s ((w, idle), b))
        (λ open_work.
          let known : is_known st s ≡ true = ground (arith, open_work) in
          let w' =
            enter_phase-IsWatched layout st queued [] s (also layout depth 0 st [] s w) known refl
              refl in
          choose-Ends (IsSound []) s.cancelled _ _ (λ _. settled-Ends st not_started s' w' known b)
            (λ _. place_now-Ends st scan_all [] s' (also layout depth 0 st [] s' w') known b))
