-- ===== src/Text/Tests.antt =====
-- Texts with escapes and with wide runes.
use evident_output.Prelude.{ℕ, ◌<◌, ◌≤◌, false, ◌&&◌, List, [], ◌∷◌, leb, ◌≡◌, refl, arith}
use evident_output.Text.Sanitize.{is_bidi, neutral, neutralize, block}
use evident_output.Text.Width.{
  Tables, new_counter, is_wide, rune_cells, add, cells_from, cells, truncated, truncate,
}
use evident_output.Text.Truncated.{IsLongest, truncate_bound, truncate-IsLongest}

-- An escape, a letter, a carriage return with its newline, a bell and the override of the direction.
abbrev hostile : List ℕ
hostile = 27 ∷ 97 ∷ 13 ∷ 10 ∷ 7 ∷ 8238 ∷ []

hostile-block : block hostile ≡ 94 ∷ 91 ∷ 97 ∷ 10 ∷ []
unfolding block neutralize neutral is_bidi
hostile-block = refl

-- The combining accents.
abbrev accents : Tables
accents = record { mn = λ r. leb 768 r && leb r 879; me = λ r. false; cf = λ r. false }

-- A letter with an accent, two wide letters and a letter.
abbrev mixed : List ℕ
mixed = 101 ∷ 769 ∷ 26085 ∷ 26412 ∷ 120 ∷ []

mixed-truncated : truncate accents mixed 4 ≡ 101 ∷ 769 ∷ 26085 ∷ 8230 ∷ []
unfolding truncate truncated cells cells_from add rune_cells is_wide
mixed-truncated = refl

mixed-cells : cells accents mixed ≡ 6
unfolding cells cells_from add rune_cells is_wide
mixed-cells = refl

truncate_bound_example : cells accents (truncate accents mixed 3) ≤ 3
truncate_bound_example = truncate_bound accents mixed 3

truncate-IsLongest_example :
    (cells accents mixed ≤ 4 → truncate accents mixed 4 ≡ mixed)
    × (4 < cells accents mixed → IsLongest accents 4 0 new_counter mixed (truncate accents mixed 4))
truncate-IsLongest_example = truncate-IsLongest accents mixed 4 (omega arith)
