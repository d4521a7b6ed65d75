-- ===== src/Patch/Tests.antt =====
-- A one-line edit through internal/patch: parsed, applied and reversed.
use evident_output.Prelude.{
  ℕ, ◌+◌, ◌≤◌, Bool, true, false, List, [], ◌∷◌, ◌++◌, Option, none, some, ◌≡◌, ◌↔◌, refl, codes,
  Bytes, length, bytes_eq, has_prefix, has_suffix, trim_prefix, trim_suffix, join_with, inl, inr,
  arith, concat, split_on,
}
use evident_output.Paths.Clean.{clean, is_abs, clean_parts}
use evident_output.Patch.Errors.{ok}
use evident_output.Patch.Hunk.{
  Hunk, File, op_context, op_remove, op_add, apply, file_lines, reversed, applied_to,
}
use evident_output.Patch.Lines.{old_side, new_side}
use evident_output.Patch.Edits.{Edits, done, hunk, apply_iff}
use evident_output.Patch.Reverse.{Aligned, aligned, none_left, IsLines, nil, ended, apply-reversed}
use evident_output.Patch.Target.{workspace_path}
use evident_output.Patch.HunkParser.{parse_hunk, hunk_body}
use evident_output.Patch.Header.{
  section, is_file_header_pair, header_path, extended_line, git_extended, git_header_path,
  hunks_loop, paths_and_hunks,
}
use evident_output.Patch.Judge.{file, side_paths, touched, regular_file_mode}
use evident_output.Patch.Parser.{parse, parse_with, parse_loop, split_lines, see}
use evident_output.Patch.Counts.{WellCounted, parse_hunk-WellCounted}
use evident_output.Patch.Sections.{SectionEnds, section-SectionEnds}

abbrev swap : Hunk
swap = record {
  old_start = 1;
  old_count = 2;
  new_start = 1;
  new_count = 2;
  lines =
      record { op = op_remove; text = codes "a"; eol = true }
      ∷ record { op = op_add; text = codes "b"; eol = true }
      ∷ record { op = op_context; text = codes "c"; eol = true }
      ∷ [];
}

abbrev edit : File
edit = record {
  path = codes "dir/x";
  create = false;
  delete = false;
  from = [];
  mode = 0;
  hunks = swap ∷ [];
}

abbrev before : Bytes
before = codes "a\nc\n"

abbrev after : List Bytes
after = codes "b\n" ∷ codes "c\n" ∷ []

abbrev body : List Bytes
body = codes "-a" ∷ codes "+b" ∷ codes " c" ∷ []

abbrev diff : Bytes
diff = codes "--- a/dir/x\n+++ b/dir/x\n@@ -1,2 +1,2 @@\n-a\n+b\n c\n"

-- No path is quoted.
abbrev unquoted : Bytes → Option Bytes
unquoted s = none

parse-diff : parse unquoted diff ≡ some (ok (edit ∷ []))
unfolding parse parse_with split_lines split_on section has_prefix has_suffix trim_prefix
    trim_suffix is_file_header_pair parse_hunk file bytes_eq side_paths header_path
    evident_output.Prelude.before workspace_path is_abs clean clean_parts join_with extended_line
    git_extended git_header_path hunks_loop paths_and_hunks hunk_body parse_loop regular_file_mode
    see touched
parse-diff = refl

apply-edit : apply edit before ≡ ok (codes "b\nc\n")
unfolding apply
apply-edit = refl

apply_iff_example : (apply edit before ≡ ok (codes "b\nc\n")) ↔ (
    (lines : List Bytes) × Edits edit.hunks 0 (file_lines before) lines
    × (codes "b\nc\n" ≡ concat lines))
apply_iff_example = apply_iff edit before (codes "b\nc\n")

edit-Edits : Edits edit.hunks 0 (file_lines before) after
unfolding file_lines old_side new_side
edit-Edits = hunk [] [] [] (inr (ground arith, refl)) refl refl done

edit-Aligned : Aligned 0 0 edit.hunks
edit-Aligned =
    aligned 0 (inr (ground arith, refl)) (inr (ground arith, refl))
      (inr (inl refl), (inr (inr refl), (inl refl, tt))) none_left

after-IsLines : IsLines after
after-IsLines = ended (codes "b") (refl, tt) refl (ended (codes "c") (refl, tt) refl nil)

apply-reversed_example :
    (apply (reversed edit) (concat after) ≡ ok before) × (applied_to edit (concat after) ≡ true)
apply-reversed_example =
    apply-reversed edit before after edit-Edits edit-Aligned after-IsLines (λ e. ground arith)

parse_hunk-body : parse_hunk (codes "@@ -1,2 +1,2 @@") body ≡ ok (swap, [])
unfolding parse_hunk has_prefix trim_suffix
parse_hunk-body = refl

parse_hunk-WellCounted_example : WellCounted swap × (0 ≤ 3)
parse_hunk-WellCounted_example =
    parse_hunk-WellCounted (codes "@@ -1,2 +1,2 @@") body [] swap parse_hunk-body

section-SectionEnds_example : SectionEnds (codes "+++ b/dir/x" ∷ codes "@@ -1,2 +1,2 @@" ∷ body) (
    section unquoted 7 (codes "--- a/dir/x") (codes "+++ b/dir/x" ∷ codes "@@ -1,2 +1,2 @@" ∷ body))
section-SectionEnds_example =
    section-SectionEnds unquoted 7 (codes "--- a/dir/x")
      (codes "+++ b/dir/x" ∷ codes "@@ -1,2 +1,2 @@" ∷ body) (omega arith)
