-- ===== src/Publish/Inspect.antt =====
-- internal/publish/recover.go and recover_decide.go: the whole of a recovery, from the leases on what
-- lies beside the destination to the settlement.

use evident_output.Prelude.{
  Bool, true, false, not, List, [], ◌∷◌, Option, none, some, String, if◌then◌else◌,
}
use evident_output.Publish.Decide.{
  Tree, absent, unreadable, digest, Evidence, unrecoverable, Leftover,
}
use evident_output.Publish.Apply.{FileSystem, Recovery, settle_locked}

-- What `tryLease` says of an entry: an error, that a live writer holds it, or that it is ours.
pub data Lease : Type 0 where
  lease_failed held_by_writer leased : Lease

-- The field `tree` of a leftover that was leased.
abbrev pub digest_text : Tree → String
digest_text absent = ""
digest_text unreadable = ""
digest_text (digest t) = t

abbrev pub with_leftover : Leftover → Option (List Leftover) → Option (List Leftover)
with_leftover l none = none
with_leftover l (some found) = some (l ∷ found)

module _ {W : Type 0} (os : FileSystem W) where
  -- The loop of `inspectLeftovers` over the directory's entries; `none` is a lease that failed.
  unfoldable pub inspect_leftovers : (String → Lease) → W → List String → Option (List Leftover)
  inspect_leftovers lease w [] = some []
  inspect_leftovers lease w (p ∷ ps) =
      let rest = inspect_leftovers lease w ps in
      elim (lease p) [
        | lease_failed ↦ none
        | held_by_writer ↦ with_leftover (record { path = p; tree = ""; live = true }) rest
        | leased ↦
            with_leftover (record { path = p; tree = digest_text (os.tree w p); live = false }) rest
      ]

  module _ (ev : Evidence) (dest : String) where
    abbrev pub nothing_settled : W → W × Recovery × Bool
    nothing_settled w = (w, record { outcome = unrecoverable; kept = [] }, false)

    -- `entries` is what `Leftovers` lists, `none` where the directory cannot be read. Errors of the
    -- releases, after which nothing changes, are left out.
    unfoldable pub settle :
        Bool → Option (List String) → (String → Lease) → Bool → W → W × Recovery × Bool
    unfolding inspect_leftovers settle_locked
    settle locked entries lease apply w =
        let inspected : Option (List Leftover) = elim entries [
          | none ↦ none
          | some ps ↦ inspect_leftovers lease w ps
        ] in
        if not locked then nothing_settled w else elim inspected [
          | none ↦ nothing_settled w
          | some found ↦ settle_locked os ev dest found apply w
        ]

    -- `PlanRecover` and `Recover`
    unfoldable pub plan_recover :
        Bool → Option (List String) → (String → Lease) → W → Recovery × Bool
    unfolding settle
    plan_recover locked entries lease w =
        let (w', r, settled) = settle locked entries lease false w in (r, settled)

    unfoldable pub recover :
        Bool → Option (List String) → (String → Lease) → W → W × Recovery × Bool
    unfolding settle
    recover locked entries lease w = settle locked entries lease true w
