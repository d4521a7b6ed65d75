-- ===== src/Publish/Apply.antt =====
-- internal/publish/recover.go and recover_decide.go: carrying a decision out, on a file system that
-- is a parameter: what digest a path has, and what a rename and a removal leave behind.
use text.Mathlib.Text.{◌==◌ as str_eq}
use evident_output.Prelude.{
  Bool, true, false, not, ◌&&◌, ◌||◌, List, [], ◌∷◌, ◌++◌, Option, none, some, String,
  if◌then◌else◌,
}
use evident_output.Publish.Decide.{
  Tree, absent, unreadable, digest, Evidence, RecoveryOutcome, unrecoverable, Leftover, Decision,
  decide, is_original,
}

-- `rename w from dest` is `none` where the call fails; `remove` gives the world after
-- `removeReplaced` and whether it succeeded.
pub record FileSystem (W : Type 0) : Type 0 where
  pub tree : W → String → Tree
  pub rename : W → String → String → Option W
  pub remove : W → String → W × Bool

pub record Recovery : Type 0 where
  pub outcome : RecoveryOutcome
  pub kept : List String

module _ {W : Type 0} (os : FileSystem W) (ev : Evidence) (dest : String) where
  abbrev pub holds_original : Tree → Bool
  holds_original absent = false
  holds_original unreadable = false
  holds_original (digest t) = is_original ev t

  -- The world afterwards, and whether the original was restored and verified.
  unfoldable pub restore_original : W → String → W × Bool
  restore_original w from = elim (os.rename w from dest) [
    | none ↦ (w, false)
    | some w' ↦ (w', holds_original (os.tree w' dest))
  ]

  -- The loop over the redundant leftovers; the last part says that none failed.
  unfoldable pub remove_all : List String → W → List String → W × List String × Bool
  remove_all [] w kept = (w, kept, true)
  remove_all (p ∷ ps) w kept =
      let (w', removed) = os.remove w p in
      let (w'', kept', all) = remove_all ps w' (if removed then kept else kept ++ p ∷ []) in
      (w'', kept', removed && all)

  unfoldable pub apply_removals : Decision → W → W × Recovery × Bool
  unfolding remove_all
  apply_removals d w =
      let (w', kept, all) = remove_all d.remove w d.kept in
      (w', record { outcome = d.outcome; kept = kept }, all)

  -- Method `apply` of a decision. The last part says that the error is nil.
  unfoldable pub apply_decision : Decision → W → W × Recovery × Bool
  unfolding restore_original apply_removals
  apply_decision d w =
      let (w', restored) = restore_original w d.restore in
      if str_eq d.restore ""
      then apply_removals d w
      else if restored
      then apply_removals d w'
      else (w', record { outcome = unrecoverable; kept = d.kept ++ d.remove }, false)

  -- Under the destination's lock, with the leftovers' leases held.
  unfoldable pub settle_locked : List Leftover → Bool → W → W × Recovery × Bool
  unfolding apply_decision
  settle_locked found apply w =
      let (d, decided) = decide ev (os.tree w dest) found in
      if not decided || not apply
      then (w, record { outcome = d.outcome; kept = d.kept }, decided)
      else apply_decision d w
