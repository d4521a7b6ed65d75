-- ===== src/Publish/Decide.antt =====
-- internal/publish/recover.go and recover_decide.go: what a recovery will do, decided by digests.
use text.Mathlib.Text.{◌==◌ as str_eq}
use evident_output.Prelude.{
  Bool, true, false, not, ◌&&◌, ◌||◌, List, [], ◌∷◌, ◌++◌, String, if◌then◌else◌, map,
}

-- What `treeDigest` finds at a path: nothing, something that cannot be digested, or a tree.
pub data Tree : Type 0 where
  absent : Tree
  unreadable : Tree
  digest : String → Tree

-- The digests that the commit planned with. What `Digest` computes is in the world of `Apply`.
pub record Evidence : Type 0 where
  pub original : String
  pub replacement : String

pub data RecoveryOutcome : Type 0 where
  intact restored_original completed_replacement unrecoverable : RecoveryOutcome

-- The lease is held throughout, and is not modelled.
pub record Leftover : Type 0 where
  pub path : String
  pub tree : String
  pub live : Bool

unfoldable pub same_tree : String → String → Bool
same_tree a b = not (str_eq a "") && str_eq a b

abbrev pub is_original : Evidence → String → Bool
is_original ev tree = same_tree tree ev.original

abbrev pub is_replacement : Evidence → String → Bool
is_replacement ev tree = same_tree tree ev.replacement

pub record Decision : Type 0 where
  pub outcome : RecoveryOutcome
  pub restore : String
  pub remove : List String
  pub kept : List String

abbrev pub paths : List Leftover → List String
paths found = map (λ l. l.path) found

-- The first leftover that provably holds the original, or the empty path.
unfoldable pub original : Evidence → List Leftover → String
original ev [] = ""
original ev (l ∷ found) = if not l.live && is_original ev l.tree then l.path else original ev found

-- The loop that settles each leftover.
unfoldable pub sort_leftovers : Evidence → List Leftover → Decision → Decision
sort_leftovers ev [] d = d
sort_leftovers ev (l ∷ found) d = sort_leftovers ev found (
    if str_eq l.path d.restore
    then d
    else if not l.live && (is_original ev l.tree || is_replacement ev l.tree)
    then record d { remove = d.remove ++ l.path ∷ [] }
    else record d { kept = d.kept ++ l.path ∷ [] })

abbrev settled : Evidence → List Leftover → RecoveryOutcome → String → Decision × Bool
settled ev found outcome restore = (
  sort_leftovers ev found (record { outcome = outcome; restore = restore; remove = []; kept = [] }),
  true,
)

-- The decision, and whether there is one: `false` stands for `ErrUnrecoverable`.
unfoldable pub decide : Evidence → Tree → List Leftover → Decision × Bool
decide ev tree found =
    let undecided : Decision = record {
      outcome = unrecoverable;
      restore = "";
      remove = [];
      kept = paths found;
    } in
    elim tree [
      | absent ↦
          if str_eq (original ev found) ""
          then (undecided, false)
          else settled ev found restored_original (original ev found)
      | unreadable ↦ (undecided, false)
      | digest t ↦
          if is_original ev t
          then settled ev found intact ""
          else if is_replacement ev t
          then settled ev found completed_replacement ""
          else (undecided, false)
    ]
