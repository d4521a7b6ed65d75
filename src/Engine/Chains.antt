-- ===== src/Engine/Chains.antt =====
-- internal/engine/eligibility.go and builder.go: the loops over a collection and those around it.
use evident_output.Prelude.{ℕ, suc, Bool, false, List, [], ◌∷◌, ◌++◌, if◌then◌else◌}
use evident_output.Engine.CollectionTally.{States, CollectionTally, declare, release, fail_builder}
use evident_output.Engine.Schedule.{set_at}

-- `tallyDeclaredLocked`
unfoldable pub declare_chain : States → ℕ → List ℕ → (ℕ → CollectionTally) → ℕ → CollectionTally
unfolding declare
declare_chain σ st [] tally = tally
declare_chain σ st (c ∷ cs) tally = declare_chain σ st cs (set_at c (declare σ (tally c) st) tally)

-- The loop of `concludeGateLocked` over the container and those around it. `own` holds at the
-- container itself, which the builder's end seals.
unfoldable pub conclude_chain :
    Bool → Bool → ℕ → List ℕ → (ℕ → CollectionTally) → List ℕ × (ℕ → CollectionTally)
unfolding release fail_builder
conclude_chain own failed cursor [] tally = ([], tally)
conclude_chain own failed cursor (c ∷ cs) tally =
    let (lost, t) = if failed then fail_builder (tally c) else ([], tally c) in
    let (freed, t') = release t own cursor in
    let (more, after) = conclude_chain false failed cursor cs (set_at c t' tally) in
    (lost ++ (freed ++ more), after)

-- The loop that places a builder's hold on the container and those around it.
unfoldable pub hold_chain : List ℕ → (ℕ → CollectionTally) → ℕ → CollectionTally
hold_chain [] tally = tally
hold_chain (c ∷ cs) tally =
    let t = tally c in hold_chain cs (set_at c (record t { holds = suc t.holds }) tally)
