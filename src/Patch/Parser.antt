-- ===== src/Patch/Parser.antt =====
-- internal/patch/patch.go: a diff read into one edit per changed path.
use evident_output.Prelude.{
  ℕ, zero, suc, ◌+◌, Bool, List, [], ◌∷◌, ◌++◌, Option, none, some, if◌then◌else◌, Bytes, bytes_eq,
  length, is_empty, split_on, any,
}
use evident_output.Patch.Errors.{Result, ok, err, malformed}
use evident_output.Patch.Hunk.{File, newline}
use evident_output.Patch.Header.{Header, section}
use evident_output.Patch.Judge.{file, standard_file, touched}

abbrev drop_last_empty : List Bytes → List Bytes
drop_last_empty [] = []
drop_last_empty (l ∷ []) = if is_empty l then [] else l ∷ []
drop_last_empty (l ∷ m ∷ ls) = l ∷ drop_last_empty (m ∷ ls)

unfoldable pub split_lines : Bytes → List Bytes
split_lines diff = if is_empty diff then [] else drop_last_empty (split_on newline diff)

abbrev pub contains : Bytes → List Bytes → Bool
contains p seen = any (bytes_eq p) seen

-- The loop over the touched paths: the paths seen afterwards, or `none` at one seen before.
unfoldable pub see : List Bytes → List Bytes → Option (List Bytes)
see [] seen = some seen
see (p ∷ ps) seen = let more = see ps (p ∷ seen) in if contains p seen then none else more

module _ (unquote : Bytes → Option Bytes) (judge : Header → Result File) where
  -- The loop of `parse`. A round reads a line at least; `none` is the end of the fuel.
  unfoldable pub parse_loop : ℕ → List Bytes → List Bytes → List File → Option (Result (List File))
  parse_loop fuel [] seen files = some (ok files)
  parse_loop zero (raw ∷ rest) seen files = none
  parse_loop (suc fuel) (raw ∷ rest) seen files = elim (section unquote (suc fuel) raw rest) [
    | none ↦ none
    | some (err e) ↦ some (err e)
    | some (ok none) ↦ parse_loop fuel rest seen files
    | some (ok (some (header, rest'))) ↦ elim (judge header) [
      | err e ↦ some (err e)
      | ok f ↦ elim (see (touched f) seen) [
        | none ↦ some (err malformed)
        | some seen' ↦ parse_loop fuel rest' seen' (files ++ f ∷ [])
      ]
    ]
  ]

  unfoldable pub parse_with : Bytes → Option (Result (List File))
  unfolding parse_loop
  parse_with diff =
      let lines = split_lines diff in
      elim (parse_loop (length lines + 1) lines [] []) [
        | none ↦ none
        | some (err e) ↦ some (err e)
        | some (ok files) ↦ if is_empty files then some (err malformed) else some (ok files)
      ]

unfoldable pub parse : (Bytes → Option Bytes) → Bytes → Option (Result (List File))
parse unquote = parse_with unquote file

unfoldable pub parse_standard : (Bytes → Option Bytes) → Bytes → Option (Result (List File))
parse_standard unquote = parse_with unquote standard_file
