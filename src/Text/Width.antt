-- ===== src/Text/Width.antt =====
-- internal/text/width.go: how many cells of a terminal a text takes, and truncating it. A text is the
-- list of its runes, and a number of cells below 0 is 0.
use evident_output.Prelude.{
  ℕ, ◌+◌, ◌-◌, Bool, true, false, not, ◌&&◌, ◌||◌, List, [], ◌∷◌, ◌==◌, leb, ltb, if◌then◌else◌,
}

-- The tables of package unicode that are read: Mn, Me and Cf.
pub record Tables : Type 0 where
  pub mn : ℕ → Bool
  pub me : ℕ → Bool
  pub cf : ℕ → Bool

pub record CellCounter : Type 0 where
  pub previous_width : ℕ
  pub emoji_presentation : Bool

abbrev pub new_counter : CellCounter
new_counter = record { previous_width = 0; emoji_presentation = false }

unfoldable pub is_wide : ℕ → Bool
is_wide r =
    leb 65281 r && leb r 65376
    || leb 65504 r && leb r 65510
    || leb 4352 r && leb r 4447
    || leb 11904 r && leb r 42191
    || leb 44032 r && leb r 55203
    || leb 63744 r && leb r 64255
    || leb 65040 r && leb r 65049
    || leb 65072 r && leb r 65135
    || leb 131072 r && leb r 262141
    || leb 127744 r && leb r 129791
    || leb 9728 r && leb r 10175 && (leb 9888 r || leb 9984 r)

module _ (t : Tables) where
  unfoldable pub rune_cells : ℕ → ℕ
  unfolding is_wide
  rune_cells r =
      if r == 0
      then 0
      else if t.mn r || t.me r
      then 0
      else if r == 8205 || r == 8204 || r == 65039 || r == 65038
      then 0
      else if r == 8419
      then 0
      else if t.cf r
          && not (r == 173)
          && (leb 8203 r && leb r 8207 || leb 8234 r && leb r 8238 || leb 8288 r && leb r 8303)
      then 0
      else if is_wide r
      then 2
      else if ltb r 32 || r == 127
      then 0
      else 1

  -- Method `Add`, with the counter after it.
  unfoldable pub add : CellCounter → ℕ → ℕ × CellCounter
  add c r =
      let n = rune_cells r in
      if r == 65039 || r == 8419
      then if c.previous_width == 1 && not c.emoji_presentation
        then (1, record c { emoji_presentation = true })
        else (0, c)
      else if not (n == 0)
      then (n, record { previous_width = n; emoji_presentation = false })
      else (0, c)

  -- The loop of `Cells`.
  unfoldable pub cells_from : CellCounter → List ℕ → ℕ
  unfolding add
  cells_from c [] = 0
  cells_from c (r ∷ rs) = let (n, c') = add c r in n + cells_from c' rs

  unfoldable pub cells : List ℕ → ℕ
  unfolding cells_from
  cells s = cells_from new_counter s

  abbrev pub ellipsis : ℕ
  ellipsis = 8230

  -- The loop of `Truncate`, after `n` cells, with the ellipsis that ends it.
  unfoldable pub truncated : ℕ → ℕ → CellCounter → List ℕ → List ℕ
  unfolding add
  truncated max_cells n c [] = ellipsis ∷ []
  truncated max_cells n c (r ∷ rs) =
      let (a, c') = add c r in
      let attached = r ∷ truncated max_cells n c' rs in
      let taken = r ∷ truncated max_cells (n + a) c' rs in
      if a == 0 && not (n == 0)
      then attached
      else if ltb (max_cells - 1) (n + a)
      then ellipsis ∷ []
      else taken

  unfoldable pub truncate : List ℕ → ℕ → List ℕ
  unfolding cells truncated
  truncate s max_cells =
      if max_cells == 0
      then []
      else if leb (cells s) max_cells
      then s
      else if max_cells == 1
      then ellipsis ∷ []
      else truncated max_cells 0 new_counter s
