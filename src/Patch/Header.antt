-- ===== src/Patch/Header.antt =====
-- internal/patch/header.go: one file's section of a diff as read. The parser's position is kept as
-- the lines from there on. A path that git quotes is read by the Go library's `strconv`; here
-- `unquote` gives the text of a leading quoted string, and `none` where there is none.
use evident_output.Prelude.{
  ℕ, zero, suc, ◌+◌, ◌/◌, ◌%◌, Bool, true, false, not, ◌&&◌, ◌||◌, List, [], ◌∷◌, ◌++◌, Option,
  none, some, ltb, ◌==◌, if◌then◌else◌, Bytes, bytes_eq, length, take, drop, has_prefix, has_suffix,
  trim_prefix, before, codes, any,
}
use evident_output.Patch.Errors.{Result, ok, err, malformed, binary_unsupported}
use evident_output.Patch.Hunk.{Hunk}
use evident_output.Patch.HunkParser.{trim_cr, parse_hunk}

pub record Header : Type 0 where
  pub git_path : Bytes
  pub has_paths : Bool
  pub old_path : Bytes
  pub new_path : Bytes
  pub create : Bool
  pub delete : Bool
  pub rename : Bool
  pub copied : Bool
  pub from : Bytes
  pub to : Bytes
  pub binary : Bool
  pub mode : Bytes
  pub hunks : List Hunk

abbrev pub zero_header : Header
zero_header = record {
  git_path = [];
  has_paths = false;
  old_path = [];
  new_path = [];
  create = false;
  delete = false;
  rename = false;
  copied = false;
  from = [];
  to = [];
  binary = false;
  mode = [];
  hunks = [];
}

abbrev pub peek : List Bytes → Bytes
peek [] = []
peek (l ∷ ls) = l

abbrev pub tail_lines : List Bytes → List Bytes
tail_lines [] = []
tail_lines (l ∷ ls) = ls

unfoldable pub is_file_header_pair : Bytes → Bytes → Bool
is_file_header_pair first second =
    has_prefix first (codes "--- ") && has_prefix (trim_cr second) (codes "+++ ")

abbrev pub has_any_prefix : Bytes → List Bytes → Bool
has_any_prefix s prefixes = any (has_prefix s) prefixes

-- "a/X b/X", or "X X", as X.
unfoldable pub git_header_path : Bytes → Bytes
git_header_path s =
    let half = length s / 2 in
    let left = take half s in
    let right = drop (half + 1) s in
    let prefixed = has_prefix left (codes "a/") && has_prefix right (codes "b/") in
    let left' = if prefixed then drop 2 left else left in
    let right' = if prefixed then drop 2 right else right in
    if length s % 2 == 0
    then []
    else if not (bytes_eq (take 1 (drop half s)) (codes " "))
    then []
    else if bytes_eq left' right'
    then left'
    else []

module _ (unquote : Bytes → Option Bytes) where
  unfoldable pub header_path : Bytes → Bytes
  header_path s = elim (if has_prefix s (34 ∷ []) then unquote s else none) [
    | none ↦ before 9 s
    | some path ↦ path
  ]

  -- `none` where the line is no extended header line.
  unfoldable pub extended_line : Header → Bytes → Option Header
  unfolding header_path
  extended_line h line =
      if has_prefix line (codes "new file mode ")
      then some (record h { create = true; mode = trim_prefix line (codes "new file mode ") })
      else if has_prefix line (codes "deleted file mode ")
      then some (record h { delete = true })
      else if has_prefix line (codes "new mode ")
      then some (record h { mode = trim_prefix line (codes "new mode ") })
      else if has_prefix line (codes "rename from ")
      then some
          (record h { rename = true; from = header_path (trim_prefix line (codes "rename from ")) })
      else if has_prefix line (codes "rename to ")
      then some
          (record h { rename = true; to = header_path (trim_prefix line (codes "rename to ")) })
      else if has_any_prefix line (codes "copy from " ∷ codes "copy to " ∷ [])
      then some (record h { rename = true; copied = true })
      else if has_prefix line (codes "Binary files ") || bytes_eq line (codes "GIT binary patch")
      then some (record h { binary = true })
      else if has_any_prefix line (
          codes "old mode "
          ∷ codes "index "
          ∷ codes "similarity index "
          ∷ codes "dissimilarity index "
          ∷ [])
      then some h
      else none

-- The start of the last hunk read, one more, or 0: a bound that the next start has to reach.
abbrev pub next_start : List Hunk → ℕ
next_start [] = 0
next_start (h ∷ []) = h.old_start + 1
next_start (h ∷ g ∷ hs) = next_start (g ∷ hs)

abbrev pub Read : Type 0
Read = Header × List Bytes

-- The loop of `pathsAndHunks`; a round reads a line at least, so fuel for each line is enough.
-- `none` is the end of the fuel.
unfoldable pub hunks_loop : ℕ → Header → List Bytes → Option (Result Read)
hunks_loop zero h rest = none
hunks_loop (suc fuel) h [] = some (ok (h, []))
hunks_loop (suc fuel) h (line ∷ rest) =
    let more : Option (Result Read) = elim (parse_hunk line rest) [
      | err e ↦ some (err e)
      | ok (hunk, rest') ↦
          let next = hunks_loop fuel (record h { hunks = h.hunks ++ hunk ∷ [] }) rest' in
          if ltb hunk.old_start (next_start h.hunks) then some (err malformed) else next
    ] in
    if has_prefix line (codes "@@ ") then more else some (ok (h, line ∷ rest))

-- A section was found and read.
abbrev pub found : Option (Result Read) → Option (Result (Option Read))
found none = none
found (some (err e)) = some (err e)
found (some (ok r)) = some (ok (some r))

module _ (unquote : Bytes → Option Bytes) where
  unfoldable pub paths_and_hunks : ℕ → Header → List Bytes → Option (Result Read)
  unfolding hunks_loop
  paths_and_hunks fuel h rest =
      hunks_loop fuel
        (record h {
          has_paths = true;
          old_path = header_path unquote (trim_prefix (trim_cr (peek rest)) (codes "--- "));
          new_path =
              header_path unquote (trim_prefix (trim_cr (peek (tail_lines rest))) (codes "+++ "));
        })
        (tail_lines (tail_lines rest))

  unfoldable pub git_extended : ℕ → Header → List Bytes → Option (Result Read)
  unfolding paths_and_hunks
  git_extended fuel h [] = some (ok (h, []))
  git_extended fuel h (raw ∷ rest) =
      let line = trim_cr raw in
      let more : Option (Result Read) = elim (extended_line unquote h line) [
        | none ↦ some (ok (h, raw ∷ rest))
        | some h' ↦ git_extended fuel h' rest
      ] in
      if is_file_header_pair line (peek rest) then paths_and_hunks fuel h (raw ∷ rest) else more

  -- The section that starts at the line `raw`: `ok none` where none starts there.
  unfoldable pub section : ℕ → Bytes → List Bytes → Option (Result (Option Read))
  unfolding git_extended
  section fuel raw rest =
      let line = trim_cr raw in
      if has_prefix line (codes "diff --git ")
      then found (
          git_extended fuel
            (record zero_header {
              git_path = git_header_path (trim_prefix line (codes "diff --git "));
            })
            rest)
      else if is_file_header_pair line (peek rest)
      then found (paths_and_hunks fuel zero_header (raw ∷ rest))
      else if has_prefix line (codes "Binary files ") && has_suffix line (codes " differ")
      then some (err binary_unsupported)
      else some (ok none)
