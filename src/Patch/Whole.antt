-- ===== src/Patch/Whole.antt =====
-- What internal/patch/patch.go returns for a whole diff.
use evident_output.Prelude.{
  ℕ, ◌+◌, ◌≤◌, List, [], ◌∷◌, Option, none, some, ◌≡◌, All, if◌then◌else◌, Bytes, bytes_eq,
}
use evident_output.Patch.Errors.{Result, ok, err}
use evident_output.Patch.Hunk.{File}
use evident_output.Patch.Header.{Header}
use evident_output.Patch.Judge.{touched}
use evident_output.Patch.Judged.{IsSafe}

-- How often a path stands in a list, and among the paths that edits touch.
abbrev pub count_path : Bytes → List Bytes → ℕ
count_path p [] = 0
count_path p (q ∷ qs) = (if bytes_eq p q then 1 else 0) + count_path p qs

abbrev pub count_touched : Bytes → List File → ℕ
count_touched p [] = 0
count_touched p (f ∷ fs) = count_path p (touched f) + count_touched p fs

-- The files parsed so far, and the paths that they touch.
record Gathered (seen : List Bytes) (files : List File) : Type 0 where
  safe : All IsSafe files
  counted : (p : Bytes) → count_path p seen ≡ count_touched p files
  once : (p : Bytes) → count_path p seen ≤ 1

-- The parse ended, in an error or in safe edits that touch no path twice.
abbrev pub ParseEnds : Option (Result (List File)) → Type 0
ParseEnds none = ⊥
ParseEnds (some (err e)) = Unit
ParseEnds (some (ok files)) = All IsSafe files × ((p : Bytes) → count_touched p files ≤ 1)
