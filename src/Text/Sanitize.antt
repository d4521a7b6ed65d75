-- ===== src/Text/Sanitize.antt =====
-- internal/text/sanitize.go: making foreign text safe to show in a terminal. A text is the list of its
-- runes, after `strings.ToValidUTF8`.
use evident_output.Prelude.{
  ℕ, Bool, true, false, ◌&&◌, ◌||◌, List, [], ◌∷◌, ◌==◌, leb, ltb, if◌then◌else◌,
}

abbrev pub starts_with_newline : List ℕ → Bool
starts_with_newline [] = false
starts_with_newline (r ∷ rs) = r == 10

-- The controls of the direction of text.
unfoldable pub is_bidi : ℕ → Bool
is_bidi r = leb 8234 r && leb r 8238 || leb 8294 r && leb r 8297

-- What the loop of `neutralize` writes for `r`, with what it writes for the rest.
unfoldable pub neutral : Bool → Bool → ℕ → List ℕ → List ℕ
unfolding is_bidi
neutral preserve_newlines newline_next r rest =
    if r == 13
    then if preserve_newlines then if newline_next then rest else 10 ∷ rest else 32 ∷ rest
    else if r == 10
    then if preserve_newlines then 10 ∷ rest else 32 ∷ rest
    else if r == 9
    then 9 ∷ rest
    else if r == 27
    then 94 ∷ 91 ∷ rest
    else if r == 7 || r == 8
    then rest
    else if ltb r 32 || r == 127
    then rest
    else if leb 128 r && leb r 159
    then rest
    else if is_bidi r
    then rest
    else r ∷ rest

unfoldable pub neutralize : Bool → List ℕ → List ℕ
unfolding neutral
neutralize preserve_newlines [] = []
neutralize preserve_newlines (r ∷ rs) =
    neutral preserve_newlines (starts_with_newline rs) r (neutralize preserve_newlines rs)

-- `Text` and `Block`
unfoldable pub text : List ℕ → List ℕ
unfolding neutralize
text s = neutralize false s

unfoldable pub block : List ℕ → List ℕ
unfolding neutralize
block s = neutralize true s
