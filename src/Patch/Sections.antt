-- ===== src/Patch/Sections.antt =====
-- Reading the sections of internal/patch/header.go ends within its fuel, goes forward, and yields
-- hunks that hold what their headers count.
use evident_output.Prelude.{
  ℕ, zero, suc, ◌+◌, ◌≤◌, ◌<◌, ◌&&◌, List, [], ◌∷◌, ◌++◌, Option, none, some, ◌≡◌, refl, sym, subst,
  arith, All, All-append, ltb, if◌then◌else◌, if_cases, codes, Bytes, length, has_prefix,
  has_suffix,
}
use evident_output.Patch.Errors.{Result, ok, err, malformed, binary_unsupported}
use evident_output.Patch.Hunk.{Hunk}
use evident_output.Patch.HunkParser.{parse_hunk, trim_cr}
use evident_output.Patch.Counts.{WellCounted, parse_hunk-WellCounted}
use evident_output.Patch.Header.{
  Header, Read, zero_header, peek, tail_lines, is_file_header_pair, extended_line, hunks_loop,
  next_start, paths_and_hunks, git_extended, found, section,
}

-- The read ended: in an error, or in a header of well counted hunks with no more lines left than
-- `rest` has.
abbrev Ends : List Bytes → Option (Result Read) → Type 0
Ends rest none = ⊥
Ends rest (some (err e)) = Unit
Ends rest (some (ok (h, rest'))) = All WellCounted h.hunks × (length rest' ≤ length rest)

Ends-mono :
    (l r : List Bytes) (o : Option (Result Read)) → length l ≤ length r → Ends l o → Ends r o
Ends-mono l r none le e = e
Ends-mono l r (some (err x)) le e = e
Ends-mono l r (some (ok (h, rest'))) le (w, f) = (w, omega arith)

hunks_loop-Ends :
    (fuel : ℕ) (h : Header) (rest : List Bytes)
    → All WellCounted h.hunks
    → length rest < fuel
    → Ends rest (hunks_loop fuel h rest)
unfolding hunks_loop
hunks_loop-Ends zero h rest w lt = absurd (omega arith)
hunks_loop-Ends (suc fuel) h [] w lt = (w, omega arith)
hunks_loop-Ends (suc fuel) h (line ∷ rest) w lt =
    if_cases (Ends (line ∷ rest)) (has_prefix line (codes "@@ ")) _ _
      (λ _. after (hunks_loop-Ends fuel) (parse_hunk line rest) refl) (λ _. (w, omega arith))
  where
    more : Hunk → Header
    more hunk = record h { hunks = h.hunks ++ hunk ∷ [] }

    after :
        ((h' : Header) (rest' : List Bytes)
          → All WellCounted h'.hunks
          → length rest' < fuel
          → Ends rest' (hunks_loop fuel h' rest'))
        → (r : Result (Hunk × List Bytes)) → parse_hunk line rest ≡ r
        → Ends (line ∷ rest) (elim r [
          | err e ↦ some (err e)
          | ok (hunk, rest') ↦
              if ltb hunk.old_start (next_start h.hunks)
              then some (err malformed)
              else hunks_loop fuel (more hunk) rest'
        ])
    after ih (err e) s = tt
    after ih (ok (hunk, rest')) s =
        let (counted, fewer) = parse_hunk-WellCounted line rest rest' hunk s in
        if_cases (Ends (line ∷ rest)) (ltb hunk.old_start (next_start h.hunks)) _ _ (λ _. tt)
          (λ _. Ends-mono rest' (line ∷ rest) _ (omega arith) (
            ih (more hunk) rest' (All-append WellCounted h.hunks (hunk ∷ []) w (counted, tt))
              (omega arith)))

tail_shorter : (ls : List Bytes) → length (tail_lines ls) ≤ length ls
tail_shorter [] = omega arith
tail_shorter (l ∷ ls) = omega arith

extended_line-hunks :
    (unquote : Bytes → Option Bytes) (h h' : Header) (line : Bytes)
    → extended_line unquote h line ≡ some h'
    → h'.hunks ≡ h.hunks
unfolding extended_line
extended_line-hunks unquote h h' line e = ground arith

module _ (unquote : Bytes → Option Bytes) where
  paths_and_hunks-Ends :
      (fuel : ℕ) (h : Header) (rest : List Bytes)
      → All WellCounted h.hunks
      → length rest < fuel
      → Ends (tail_lines rest) (paths_and_hunks unquote fuel h rest)
  unfolding paths_and_hunks
  paths_and_hunks-Ends fuel h rest w lt =
      Ends-mono (tail_lines (tail_lines rest)) (tail_lines rest) _ (tail_shorter (tail_lines rest))
        (hunks_loop-Ends fuel _ (tail_lines (tail_lines rest)) w
          (omega (arith, tail_shorter rest, tail_shorter (tail_lines rest))))

  git_extended-Ends :
      (fuel : ℕ) (h : Header) (rest : List Bytes)
      → All WellCounted h.hunks
      → length rest < fuel
      → Ends rest (git_extended unquote fuel h rest)
  unfolding git_extended
  git_extended-Ends fuel h [] w lt = (w, omega arith)
  git_extended-Ends fuel h (raw ∷ rest) w lt =
      if_cases (Ends (raw ∷ rest)) (is_file_header_pair (trim_cr raw) (peek rest)) _ _
        (λ _.
          Ends-mono rest (raw ∷ rest) _ (omega arith)
            (paths_and_hunks-Ends fuel h (raw ∷ rest) w lt))
        (λ _.
          after (λ h' w'. git_extended-Ends fuel h' rest w' (omega arith))
            (extended_line unquote h (trim_cr raw)) refl)
    where
      after :
          ((h' : Header) → All WellCounted h'.hunks → Ends rest (git_extended unquote fuel h' rest))
          → (o : Option Header) → extended_line unquote h (trim_cr raw) ≡ o
          → Ends (raw ∷ rest) (elim o [
            | none ↦ some (ok (h, raw ∷ rest))
            | some h' ↦ git_extended unquote fuel h' rest
          ])
      after ih none s = (w, omega arith)
      after ih (some h') s =
          Ends-mono rest (raw ∷ rest) _ (omega arith)
            (ih h' (subst (All WellCounted) (sym (extended_line-hunks unquote h h' _ s)) w))

-- The section ended: in an error, with nothing found, or as a read does.
abbrev pub SectionEnds : List Bytes → Option (Result (Option Read)) → Type 0
SectionEnds rest none = ⊥
SectionEnds rest (some (err e)) = Unit
SectionEnds rest (some (ok none)) = Unit
SectionEnds rest (some (ok (some (h, rest')))) =
    All WellCounted h.hunks × (length rest' ≤ length rest)

found-SectionEnds :
    (rest : List Bytes) (o : Option (Result Read)) → Ends rest o → SectionEnds rest (found o)
found-SectionEnds rest none e = e
found-SectionEnds rest (some (err x)) e = tt
found-SectionEnds rest (some (ok (h, rest'))) e = e

-- With fuel for the lines from `raw` on, reading a section there ends: in an error, in no section, or
-- in one whose hunks hold what their headers count, with no more lines left than follow `raw`.
pub section-SectionEnds :
    (unquote : Bytes → Option Bytes) (fuel : ℕ) (raw : Bytes) (rest : List Bytes)
    → length rest + 1 < fuel
    → SectionEnds rest (section unquote fuel raw rest)
unfolding section
section-SectionEnds unquote fuel raw rest lt =
    if_cases (SectionEnds rest) (has_prefix (trim_cr raw) (codes "diff --git ")) _ _
      (λ _. found-SectionEnds rest _ (git_extended-Ends unquote fuel _ rest tt (omega arith)))
      (λ _.
        if_cases (SectionEnds rest) (is_file_header_pair (trim_cr raw) (peek rest)) _ _
          (λ _.
            found-SectionEnds rest _
              (paths_and_hunks-Ends unquote fuel zero_header (raw ∷ rest) tt (omega arith)))
          (λ _.
            if_cases (SectionEnds rest)
              (has_prefix (trim_cr raw) (codes "Binary files ")
                && has_suffix (trim_cr raw) (codes " differ"))
              (some (err binary_unsupported)) (some (ok none)) (λ _. tt) (λ _. tt)))
