-- ===== src/Publish/Commit.antt =====
-- internal/publish/commit.go: publishing staged content, with every state of the file system that the
-- commit passes through, since the process may be killed in any of them.
use text.Mathlib.Text.{◌==◌ as str_eq}
use evident_output.Prelude.{
  Bool, true, not, List, [], ◌∷◌, ◌++◌, Option, none, some, String, if◌then◌else◌,
}
use evident_output.Publish.Apply.{FileSystem}

-- What `os.Lstat` says of a path.
pub data Kind : Type 0 where
  missing unreadable directory entry : Kind

-- `exchange w a b` swaps two entries at once where the system can; `none` is a failure, which
-- changes nothing. `discard` is the world after `os.RemoveAll`, and `unlink` is `os.Remove`.
pub record Disk (W : Type 0) : Type 0 where
  pub files : FileSystem W
  pub kind : W → String → Kind
  pub exchange : W → String → String → Option W
  pub discard : W → String → W
  pub unlink : W → String → Option W

-- `discardParents`, the lease and the durability of the staged bytes are not modelled.
pub record Staged : Type 0 where
  pub dest : String
  pub temp : String
  pub tree : Bool
  pub spent : Bool

pub data CommitError : Type 0 where
  spent satisfied staged_gone ended failed : CommitError

-- The world in the end, the worlds after each change, where the old entry lives now, and the error.
pub record Moves (W : Type 0) : Type 0 where
  pub world : W
  pub passed : List W
  pub old : String
  pub error : Option CommitError

pub record Guard (W : Type 0) : Type 0 where
  pub revalidate : W → Option CommitError
  pub verify : W → Bool

pub record Outcome (W : Type 0) : Type 0 where
  pub moves : Moves W
  pub staged : Staged

-- `ErrSatisfied` is no error of the commit; a removal that failed is one if there is no other.
unfoldable pub final_error : Bool → Option CommitError → Option CommitError
final_error removed none = if removed then none else some failed
final_error removed (some satisfied) = if removed then none else some failed
final_error removed (some e) = some e

module _ {W : Type 0} (os : Disk W) (s : Staged) where
  abbrev pub moves : W → List W → String → Option CommitError → Moves W
  moves w ws old e = record { world = w; passed = ws; old = old; error = e }

  -- The second rename of `moveTree`, with its way back.
  unfoldable pub move_in : String → W → Moves W
  move_in aside w₁ = elim (os.files.rename w₁ s.temp s.dest) [
    | some w₂ ↦ moves w₂ (w₁ ∷ w₂ ∷ []) aside none
    | none ↦ elim (os.files.rename w₁ aside s.dest) [
      | none ↦ moves w₁ (w₁ ∷ []) "" (some failed)
      | some w₃ ↦ moves w₃ (w₁ ∷ w₃ ∷ []) "" (some failed)
    ]
  ]

  -- The way of `moveTree` with no exchange. `aside` is the fresh `stagingName`.
  unfoldable pub move_aside : String → W → Moves W
  unfolding move_in
  move_aside aside w = elim (os.files.rename w s.dest aside) [
    | none ↦ moves w [] "" (some failed)
    | some w₁ ↦ move_in aside w₁
  ]

  unfoldable pub move_tree : Bool → String → W → Moves W
  unfolding move_aside
  move_tree allowed aside w = elim (os.kind w s.dest) [
    | missing ↦ elim (os.files.rename w s.temp s.dest) [
      | none ↦ moves w [] "" (some failed)
      | some w' ↦ moves w' (w' ∷ []) "" none
    ]
    | unreadable ↦ moves w [] "" (some failed)
    | directory ↦ elim (if allowed then os.exchange w s.temp s.dest else none) [
      | some w' ↦ moves w' (w' ∷ []) s.temp none
      | none ↦ move_aside aside w
    ]
    | entry ↦ move_aside aside w
  ]

  -- `os.Rename` of a staged file.
  unfoldable pub move_file : W → Moves W
  move_file w = elim (os.files.rename w s.temp s.dest) [
    | none ↦ moves w [] "" (some failed)
    | some w' ↦ moves w' (w' ∷ []) "" none
  ]

  -- `rollBackTree` where the exchange was not made. `rejected` is the fresh `stagingName`.
  unfoldable pub roll_aside : String → String → W → Moves W
  roll_aside replaced rejected w = elim (os.files.rename w s.dest rejected) [
    | none ↦ moves w [] "" (some failed)
    | some w₁ ↦
        let back : Moves W = elim (os.files.rename w₁ replaced s.dest) [
          | none ↦ moves w₁ (w₁ ∷ []) "" (some failed)
          | some w₂ ↦ moves w₂ (w₁ ∷ w₂ ∷ []) rejected none
        ] in
        if str_eq replaced "" then moves w₁ (w₁ ∷ []) rejected none else back
  ]

  unfoldable pub roll_back_tree : String → String → W → Moves W
  unfolding roll_aside
  roll_back_tree replaced rejected w =
      elim (if str_eq replaced "" then none else os.exchange w replaced s.dest) [
        | some w' ↦ moves w' (w' ∷ []) replaced none
        | none ↦ roll_aside replaced rejected w
      ]

  -- `requireStaged`
  unfoldable pub require_staged : W → Option CommitError
  require_staged w = elim (os.kind w s.temp) [
    | missing ↦ some staged_gone
    | unreadable ↦ some failed
    | _ ↦ none
  ]

  module _ (g : Guard W) (allowed : Bool) (aside rejected : String) where
    -- The part of `commitLocked` after the rename.
    unfoldable pub verified : Moves W → Outcome W
    unfolding roll_back_tree
    verified m =
        let r = roll_back_tree m.old rejected m.world in
        elim m.error [
          | some e ↦ record { moves = m; staged = s }
          | none ↦
              if g.verify m.world
              then record { moves = m; staged = record s { spent = true } }
              else if not s.tree
              then record {
                moves = record m { error = some failed };
                staged = record s { spent = true };
              }
              else record {
                moves = moves r.world (m.passed ++ r.passed) r.old (some failed);
                staged = record s { spent = true };
              }
        ]

    -- `cancelled` is `ctx.Err() != nil`.
    unfoldable pub commit_locked : Bool → W → Outcome W
    unfolding require_staged verified move_tree move_file
    commit_locked cancelled w =
        let stopped : CommitError → Outcome W =
          λ e. record { moves = moves w [] "" (some e); staged = s } in
        if cancelled then stopped ended else elim (require_staged w) [
          | some e ↦ stopped e
          | none ↦ elim (g.revalidate w) [
            | some e ↦ stopped e
            | none ↦ verified (if s.tree then move_tree allowed aside w else move_file w)
          ]
        ]

    -- The old entry's removal, after the lock was released, and whether it succeeded.
    unfoldable pub clean_up : Moves W → Moves W × Bool
    clean_up m =
        let (w', removed) = os.files.remove m.world m.old in
        if str_eq m.old ""
        then (m, true)
        else (record m { world = w'; passed = m.passed ++ w' ∷ [] }, removed)

    -- Method `Discard`.
    unfoldable pub discarded : Staged → Moves W → Moves W
    discarded staged m =
        let w' = os.discard m.world s.temp in
        if staged.spent then m else record m { world = w'; passed = m.passed ++ w' ∷ [] }

    -- Method `Commit`. `locked` says that the destination's lock was obtained.
    unfoldable pub commit : Bool → Bool → W → Moves W
    unfolding commit_locked clean_up discarded final_error
    commit locked cancelled w =
        let o = commit_locked cancelled w in
        let (m, removed) = clean_up o.moves in
        let after : Moves W = elim m.error [ none ↦ m | some e ↦ discarded o.staged m ] in
        if s.spent
        then moves w [] "" (some spent)
        else if not locked
        then discarded s (moves w [] "" (some failed))
        else record after { error = final_error removed m.error }
