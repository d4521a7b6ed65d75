-- ===== src/Engine/Rule.antt =====
-- A proof rule for what the steps of the scheduler keep of the phases, the count of parked Tasks and
-- the tallies of collections.
use evident_output.Prelude.{
  ℕ, zero, suc, Bool, true, false, not, ◌&&◌, ◌||◌, List, [], ◌∷◌, ◌≡◌, inl, inr, refl, subst,
  arith, if_cases, Bool-cases, All,
}
use evident_output.Core.State.{EntityState, not_started, is_terminal_task}
use evident_output.Engine.CollectionTally.{
  PredOutcome, pred_pending, pred_succeeded, pred_failed, is_succeeded, States, park, seal, unpark,
}
use evident_output.Engine.Eligibility.{
  Predecessor, task, collection, undeclared, Scan, PredScan, scan_all, scan_to_blocker, outcome,
  preds_outcome, edge_cursor, close_membership,
}
use evident_output.Engine.Chains.{declare_chain, conclude_chain, hold_chain}
use evident_output.Engine.Schedule.{
  Phase, queued, parked, running, abandoned, is_declared, is_parked, settle_chain, submitted,
  awaiting_start, Layout, Sched, and_then, set_at, enter_phase, run_of, propagate_settle,
  settle_task, mark_not_started, waits_parked, is_known, is_running, route, place, wake_one,
  drain_woken, declares_success, is_queued,
}
use evident_output.Engine.Operations.{
  live_queue, close_edge, add_preds, add_steps, declare_task, add_after, define_work, is_pending,
  promote_running, claim, claim_next, take_eligible, resolve, stop_unstarted, block_each,
  block_cycle, seal_collection, conclude_builder, parked_tasks, place_each, start_drain, Op,
  declaring, adding_after, defining, promoting, stopping, sealing, taking, start_draining,
  interrupting, resolving, blocking, holding, concluding, run_op, run_ops,
}
use evident_output.Engine.Awaited.{Lands, and_then-Lands}
use evident_output.Engine.Framed.{Lands-any, drain_woken-keeps}

-- What a step does to the tallies of collections.
pub data Write : Type 0 where
  settling declaring_into : States → ℕ → List ℕ → Write
  parking : ℕ → ℕ → ℕ → Write
  closing : Predecessor → Write
  sealing_one : ℕ → Write
  holding_all : List ℕ → Write
  concluding_all : Bool → List ℕ → Write
  unparking : Write

abbrev pub written : Layout → Write → Sched → Sched
written layout (settling σ st cs) s = record s { tally = (settle_chain σ st cs s.tally).1 }
written layout (declaring_into σ st cs) s = record s { tally = declare_chain σ st cs s.tally }
written layout (parking st c through) s =
    let (cursor, is_open) = edge_cursor (run_of layout s) c through in
    record s { tally = set_at c (park (s.tally c) st cursor is_open) s.tally }
written layout (closing p) s = record s { tally = (close_membership s.decl_seq s.tally p).1.1 }
written layout (sealing_one c) s = record s {
  tally = set_at c (seal (s.tally c) s.decl_seq).1 s.tally;
}
written layout (holding_all cs) s = record s { tally = hold_chain cs s.tally }
written layout (concluding_all failed cs) s = record s {
  tally = (conclude_chain true failed s.decl_seq cs s.tally).1;
}
written layout unparking s = record s { draining = true; tally = λ c. unpark (s.tally c) }

-- Where only the builders of some collections end.
abbrev pub Permits : (List ℕ → Type 0) → Write → Type 0
Permits Allows (concluding_all failed cs) = Allows cs
Permits Allows _ = Unit

abbrev pub Fits : (List ℕ → Type 0) → Op → Type 0
Fits Allows op = (failed : Bool) (cs : List ℕ) → op ≡ concluding failed cs → Allows cs

-- A property `P` of the phases and the tallies: a known Task may enter any phase but the first, a Task
-- that was defined is known, the next Task may be declared, the tallies may be written as the steps
-- do, and nothing else matters.
pub record Rule (layout : Layout) (Allows : List ℕ → Type 0) (P : Sched → Type 0) : Type 0 where
  pub enters :
      (st : ℕ) (phase : Phase) (s : Sched)
      → is_known st s ≡ true
      → is_declared phase ≡ false
      → P s
      → P (enter_phase st phase s)
  pub known : (st : ℕ) (s : Sched) → is_declared (s.phase st) ≡ false → P s → is_known st s ≡ true
  pub begins : (s : Sched) → P s → P (record s { decl_seq = suc s.decl_seq })
  pub writes : (w : Write) (s : Sched) → Permits Allows w → P s → P (written layout w s)
  pub moves :
      (s s' : Sched)
      → s'.phase ≡ s.phase
      → s'.decl_seq ≡ s.decl_seq
      → s'.parked_count ≡ s.parked_count
      → s'.tally ≡ s.tally
      → s'.draining ≡ s.draining
      → P s
      → P s'

parked_defined : (x : Phase) → is_parked x ≡ true → is_declared x ≡ false
parked_defined x h = ground (arith, h)

queued_defined : (x : Phase) → is_queued x ≡ true → is_declared x ≡ false
queued_defined x h = ground (arith, h)

module _ (layout : Layout) (Allows : List ℕ → Type 0) (P : Sched → Type 0)
    (rule : Rule layout Allows P) where
  settles :
      (st : ℕ) (state : EntityState) (s : Sched)
      → is_known st s ≡ true
      → P s
      → P (settle_task layout st state s)
  unfolding settle_task propagate_settle enter_phase
  settles st state s k p =
      if_cases (λ x. P (propagate_settle layout st x)) (awaiting_start (s.phase st)) _ _
        (λ _. propagates _ (
          rule.moves (enter_phase st abandoned s) _ refl refl refl refl refl
            (rule.enters st abandoned s k refl p)))
        (λ _. propagates _ (rule.moves s _ refl refl refl refl refl p))
    where
      propagates : (x : Sched) → P x → P (propagate_settle layout st x)
      propagates x h =
          rule.moves (written layout (settling x.states st (layout.chain st)) x) _ refl refl refl
            refl refl (rule.writes (settling x.states st (layout.chain st)) x tt h)

  routes :
      (st : ℕ) (verdict : PredOutcome) (blocker : Predecessor) (s : Sched)
      → is_known st s ≡ true
      → P s
      → Lands P (route layout st verdict blocker s)
  unfolding route mark_not_started
  routes st pred_succeeded blocker s k p =
      rule.moves (enter_phase st queued s) _ refl refl refl refl refl
        (rule.enters st queued s k refl p)
  routes st pred_failed blocker s k p = settles st not_started s k p
  routes st pred_pending (task b) s k p =
      rule.moves (enter_phase st parked s) _ refl refl refl refl refl
        (rule.enters st parked s k refl p)
  routes st pred_pending (collection c through) s k p =
      rule.writes (parking st c through) (enter_phase st parked s) tt
        (rule.enters st parked s k refl p)
  routes st pred_pending undeclared s k p = tt

  places :
      (depth st : ℕ) (scan : PredScan) (s : Sched)
      → is_known st s ≡ true
      → P s
      → Lands P (place layout depth st scan s)
  unfolding place
  places depth st scan s k p =
      and_then-Lands (λ (x : Scan). Unit) P _ _
        (Lands-any (λ (x : Scan). Unit)
          (preds_outcome (outcome depth (run_of layout s)) scan (s.preds st)) (λ x. tt))
        (λ x u. routes st x.verdict x.blocker _ k (rule.moves s _ refl refl refl refl refl p))

  drains : (depth fuel : ℕ) (s : Sched) → P s → Lands P (drain_woken layout depth fuel s)
  unfolding wake_one waits_parked
  drains depth fuel s p =
      drain_woken-keeps layout P depth fuel
        (λ st rest s' p'.
          let popped : Sched = record s' { woken = rest } in
          let q = rule.moves s' popped refl refl refl refl refl p' in
          if_cases (Lands P) (waits_parked st popped) _ _
            (λ w.
              places depth st scan_to_blocker popped
                (rule.known st popped (parked_defined (s'.phase st) (ground (arith, w))) q) q)
            (λ _. q))
        s p

module _ (layout : Layout) (Allows : List ℕ → Type 0) (P : Sched → Type 0)
    (rule : Rule layout Allows P) (depth fuel : ℕ) where
  drained : (s : Sched) → P s → Lands P (drain_woken layout depth fuel s)
  drained s p = drains layout Allows P rule depth fuel s p

  settled :
      (st : ℕ) (state : EntityState) (s : Sched)
      → is_known st s ≡ true
      → P s
      → Lands P (drain_woken layout depth fuel (settle_task layout st state s))
  settled st state s k p = drained _ (settles layout Allows P rule st state s k p)

  placed :
      (st : ℕ) (scan : PredScan) (s : Sched)
      → is_known st s ≡ true
      → P s
      → Lands P (and_then (place layout depth st scan s) (drain_woken layout depth fuel))
  placed st scan s k p =
      and_then-Lands P P _ _ (places layout Allows P rule depth st scan s k p) drained

  closes :
      (p : Predecessor) (s : Sched) → P s → Lands (λ r. P r.1) (close_edge layout depth fuel p s)
  unfolding close_edge
  closes p s h =
      and_then-Lands P (λ (r : Predecessor × Sched). P r.1) _ _
        (drained _ (
          rule.moves (written layout (closing p) s) _ refl refl refl refl refl
            (rule.writes (closing p) s tt h)))
        (λ s' h'. h')

  adds :
      (st : ℕ) (ps : List Predecessor) (s : Sched)
      → P s
      → Lands P (add_preds layout depth fuel st ps s)
  unfolding add_preds
  adds st [] s h = h
  adds st (p ∷ ps) s h =
      and_then-Lands (λ (r : Predecessor × Sched). P r.1) P _ _ (closes p s h)
        (λ r h'. adds st ps _ (rule.moves r.1 _ refl refl refl refl refl h'))

  steps :
      (st : ℕ) (ps : List Predecessor) (s : Sched)
      → P s
      → Lands P (add_steps layout depth fuel st ps s)
  unfolding add_steps
  steps st [] s h = h
  steps st (p ∷ ps) s h =
      and_then-Lands (λ (r : Predecessor × Sched). P r.1) P _ _ (closes p s h)
        (λ r h'. steps st ps _ (rule.moves r.1 _ refl refl refl refl refl h'))

  promotes : (st : ℕ) (s : Sched) → P s → P (promote_running st s)
  unfolding promote_running
  promotes st s h =
      if_cases P (is_pending (s.states st)) _ _ (λ _. rule.moves s _ refl refl refl refl refl h)
        (λ _. h)

  defines : (st : ℕ) (s : Sched) → P s → Lands P (define_work layout depth fuel st s)
  unfolding define_work mark_not_started
  defines st s h =
      if_cases (Lands P)
        (not (is_known st s) || is_terminal_task (s.states st) || submitted (s.phase st)) _ _
        (λ _. h)
        (λ fits.
          let k : is_known st s ≡ true = ground (arith, fits) in
          let h' = rule.enters st queued s k refl h in
          if_cases (Lands P) s.cancelled _ _
            (λ _. settled st not_started (enter_phase st queued s) k h')
            (λ _. placed st scan_all (enter_phase st queued s) k h'))

  live_defined :
      (s : Sched) (qs rest : List ℕ) (st : ℕ)
      → live_queue s qs ≡ st ∷ rest
      → is_declared (s.phase st) ≡ false
  unfolding live_queue
  live_defined s [] rest st e = absurd (cc e)
  live_defined s (q ∷ qs) rest st e =
      if_cases (λ x. x ≡ st ∷ rest → is_declared (s.phase st) ≡ false)
        (is_queued (s.phase q) && not (is_terminal_task (s.states q))) _ _
        (λ live e'.
          let same : q ≡ st = cc e' in
          subst (λ m. is_declared (s.phase m) ≡ false) same
            (queued_defined (s.phase q) (ground (arith, live))))
        (λ _ e'. live_defined s qs rest st e') e

  claims : (n : ℕ) (s : Sched) → P s → Lands P (claim_next layout depth fuel n s)
  unfolding claim_next claim
  claims zero s h = tt
  claims (suc n) s h = by_queue (live_queue s s.queue) refl (claims n)
    where
      by_queue :
          (qs : List ℕ)
          → live_queue s s.queue ≡ qs
          → ((s' : Sched) → P s' → Lands P (claim_next layout depth fuel n s'))
          → Lands P (claim_next layout depth fuel (suc n) s)
      by_queue [] e more = rw (e, claim_next) (rule.moves s _ refl refl refl refl refl h)
      by_queue (st ∷ rest) e more =
          let k = rule.known st s (live_defined s s.queue rest st e) h in
          rw (e, claim_next)
            (and_then-Lands (λ (x : Scan). Unit) P _ _
              (Lands-any (λ (x : Scan). Unit)
                (preds_outcome (outcome depth (run_of layout s)) scan_to_blocker (s.preds st))
                (λ x. tt))
              (λ (x : Scan) u.
                let head : Sched = record s {
                  queue = st ∷ rest;
                  preds = set_at st x.kept s.preds;
                } in
                let left : Sched = record s { queue = rest; preds = set_at st x.kept s.preds } in
                elim (Bool-cases (is_succeeded x.verdict)) [
                  | inl v ↦ rw v (
                      promotes st (enter_phase st running head) (
                        rule.enters st running head k refl
                          (rule.moves s head refl refl refl refl refl h)))
                  | inr v ↦ rw v (
                      and_then-Lands P P _ _
                        (placed st scan_to_blocker left k
                          (rule.moves s left refl refl refl refl refl h))
                        more)
                ]))

  resolves :
      (by_caller problem : Bool) (st : ℕ) (state : EntityState) (s : Sched)
      → P s
      → Lands P (resolve layout depth fuel by_caller problem st state s)
  unfolding resolve
  resolves by_caller problem st state s h =
      if_cases (Lands P) (not (is_known st s) || is_terminal_task (s.states st)) _ _ (λ _. h)
        (λ open_still.
          if_cases (Lands P) (submitted (s.phase st) && by_caller && declares_success state) _ _
            (λ _. h)
            (λ _.
              let s' : Sched = record s {
                has_problem = set_at st (s.has_problem st || problem) s.has_problem;
              } in
              settled st state s' (ground (arith, open_still))
                (rule.moves s s' refl refl refl refl refl h)))

  blocks : (sts : List ℕ) (s : Sched) → P s → P (block_each layout sts s)
  unfolding block_each waits_parked
  blocks [] s h = h
  blocks (st ∷ sts) s h = blocks sts _ (
      if_cases P (waits_parked st s) _ _
        (λ w.
          let s' : Sched = record s { has_problem = set_at st true s.has_problem } in
          settles layout Allows P rule st EntityState.blocked s'
            (rule.known st s (parked_defined (s.phase st) (ground (arith, w))) h)
            (rule.moves s s' refl refl refl refl refl h))
        (λ _. h))

  places_each : (sts : List ℕ) (s : Sched) → P s → Lands P (place_each layout depth fuel sts s)
  unfolding place_each waits_parked
  places_each [] s h = h
  places_each (st ∷ sts) s h =
      and_then-Lands P P _ _
        (if_cases (Lands P) (waits_parked st s) _ _
          (λ w.
            placed st scan_all s
              (rule.known st s (parked_defined (s.phase st) (ground (arith, w))) h) h)
          (λ _. h))
        (places_each sts)

  run_op-Rule :
      (op : Op) (s : Sched) → Fits Allows op → P s → Lands P (run_op layout depth fuel op s)
  unfolding run_op declare_task add_after take_eligible block_cycle seal_collection conclude_builder
      start_drain stop_unstarted mark_not_started
  run_op-Rule (declaring ps) s f h =
      and_then-Lands P P _ _ (steps (suc s.decl_seq) ps _ (rule.begins s h)) (λ s' h'.
        rule.writes (declaring_into s'.states (suc s.decl_seq) (layout.chain (suc s.decl_seq))) s'
          tt h')
  run_op-Rule (adding_after st ps) s f h =
      if_cases (Lands P) (not (is_known st s) || submitted (s.phase st)) _ _ (λ _. h)
        (λ _. adds st ps s h)
  run_op-Rule (defining st) s f h = defines st s h
  run_op-Rule (promoting st) s f h = if_cases P (is_known st s) _ _ (λ _. promotes st s h) (λ _. h)
  run_op-Rule (stopping st) s f h =
      if_cases (Lands P) (is_known st s) _ _
        (λ k.
          if_cases (Lands P) (is_terminal_task (s.states st) || is_running (s.phase st)) _ _
            (λ _. h) (λ _. settled st not_started s k h))
        (λ _. h)
  run_op-Rule (sealing c) s f h = drained _ (
      rule.moves (written layout (sealing_one c) s) _ refl refl refl refl refl
        (rule.writes (sealing_one c) s tt h))
  run_op-Rule taking s f h = if_cases (Lands P) s.cancelled _ _ (λ _. h) (λ _. claims fuel s h)
  run_op-Rule start_draining s f h = places_each (parked_tasks s s.decl_seq) _ (
      rule.moves (written layout unparking s) _ refl refl refl refl refl
        (rule.writes unparking s tt h))
  run_op-Rule interrupting s f h = rule.moves s _ refl refl refl refl refl h
  run_op-Rule (resolving by_caller problem st state) s f h = resolves by_caller problem st state s h
  run_op-Rule (blocking sts) s f h = drained _ (blocks sts s h)
  run_op-Rule (holding cs) s f h = rule.writes (holding_all cs) s tt h
  run_op-Rule (concluding failed cs) s f h = drained _ (
      rule.moves (written layout (concluding_all failed cs) s) _ refl refl refl refl refl
        (rule.writes (concluding_all failed cs) s (f failed cs refl) h))

  -- What the rule is shown of holds after every sequence of steps that returns.
  pub run_ops-Rule :
      (ops : List Op) (s : Sched)
      → All (Fits Allows) ops
      → P s
      → Lands P (run_ops layout depth fuel ops s)
  unfolding run_ops
  run_ops-Rule [] s f h = h
  run_ops-Rule (op ∷ ops) s (f, fs) h =
      and_then-Lands P P _ _ (run_op-Rule op s f h) (λ s' h'. run_ops-Rule ops s' fs h')
