-- ===== src/Publish/Disk.antt =====
-- internal/publish: what a commit and its recovery rely on of the file system, and what they keep.
use text.Mathlib.Text.{◌==◌ as str_eq}
use evident_output.Prelude.{true, false, none, some, String, ◌≡◌, ◌≢◌, ◌⊎◌, inl, inr, All}
use evident_output.Publish.Decide.{absent, digest, Evidence}
use evident_output.Publish.Settled.{is_planned}
use evident_output.Publish.Commit.{Disk, Staged, CommitError, Moves, missing}

-- else, and a removal leaves other paths alone.
pub record IsDisk {W : Type 0} (os : Disk W) : Type 0 where
  pub renamed :
      (w w' : W) (a b : String)
      → a ≢ b
      → os.files.rename w a b ≡ some w'
      → (os.files.tree w' b ≡ os.files.tree w a) × (os.files.tree w' a ≡ absent)
  pub rename_apart :
      (w w' : W) (a b p : String)
      → os.files.rename w a b ≡ some w'
      → p ≢ a
      → p ≢ b
      → os.files.tree w' p ≡ os.files.tree w p
  pub exchanged :
      (w w' : W) (a b : String)
      → os.exchange w a b ≡ some w'
      → (os.files.tree w' b ≡ os.files.tree w a) × (os.files.tree w' a ≡ os.files.tree w b)
  pub remove_apart :
      (w : W) (a p : String) → p ≢ a → os.files.tree ((os.files.remove w a).0) p ≡ os.files.tree w p
  pub discard_apart :
      (w : W) (a p : String) → p ≢ a → os.files.tree (os.discard w a) p ≡ os.files.tree w p
  pub unlinked : (w w' : W) (a : String) → os.unlink w a ≡ some w' → os.files.tree w' a ≡ absent
  pub missing_absent : (w : W) (p : String) → os.kind w p ≡ missing → os.files.tree w p ≡ absent

-- The names that a commit uses are four different ones, and none is empty.
pub record AreNames (dest temp aside rejected : String) : Type 0 where
  pub temp_dest : temp ≢ dest
  pub aside_dest : aside ≢ dest
  pub aside_temp : aside ≢ temp
  pub rejected_dest : rejected ≢ dest
  pub rejected_temp : rejected ≢ temp
  pub rejected_aside : rejected ≢ aside
  pub temp_named : str_eq temp "" ≡ false
  pub aside_named : str_eq aside "" ≡ false

module _ {W : Type 0} (os : Disk W) (ev : Evidence) (s : Staged) (aside rejected : String) where
  -- Either the destination holds a planned tree, or it is gone and the original stands beside it.
  abbrev pub IsRecoverable : W → Type 0
  IsRecoverable w =
      (is_planned ev (os.files.tree w s.dest) ≡ true)
      ⊎ ((os.files.tree w s.dest ≡ absent)
          × ((os.files.tree w aside ≡ digest ev.original)
              ⊎ (os.files.tree w s.temp ≡ digest ev.original)))

  -- The same, but where the original stands beside, it does so at `aside`.
  abbrev pub IsLate : W → Type 0
  IsLate w =
      (is_planned ev (os.files.tree w s.dest) ≡ true)
      ⊎ ((os.files.tree w s.dest ≡ absent) × (os.files.tree w aside ≡ digest ev.original))

  pub IsLate-IsRecoverable : (w : W) → IsLate w → IsRecoverable w
  IsLate-IsRecoverable w (inl h) = inl h
  IsLate-IsRecoverable w (inr (a, o)) = inr (a, inl o)

  -- What `moveTree` ends in, over an existing tree.
  pub data IsMoved (m : Moves W) : Type 0 where
    moved :
        m.error ≡ none
        → os.files.tree m.world s.dest ≡ digest ev.replacement
        → (m.old ≡ s.temp) ⊎ (m.old ≡ aside)
        → os.files.tree m.world m.old ≡ digest ev.original
        → All IsRecoverable m.passed
        → IsMoved m
    unmoved :
        (e : CommitError)
        → m.error ≡ some e
        → m.old ≡ ""
        → IsLate m.world
        → All IsRecoverable m.passed
        → IsMoved m
