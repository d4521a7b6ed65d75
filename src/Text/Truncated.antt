-- ===== src/Text/Truncated.antt =====
-- internal/text/width.go: what a truncated text looks like.
use evident_output.Prelude.{
  ℕ, ◌+◌, ◌-◌, ◌≤◌, ◌<◌, false, not, ◌&&◌, List, [], ◌∷◌, ◌++◌, ◌==◌, leb, ltb, ◌≡◌, refl, ap,
  subst, arith, if_cases,
}
use evident_output.Text.Width.{
  Tables, CellCounter, new_counter, rune_cells, add, cells_from, cells, ellipsis, truncated,
  truncate, is_wide,
}

module _ (t : Tables) where
  -- After `n` cells, `out` is the longest prefix of `s` that leaves a cell for the ellipsis, and it.
  pub record IsLongest (max_cells n : ℕ) (c : CellCounter) (s out : List ℕ) : Type 0 where
    pub prefix : List ℕ
    pub next : ℕ
    pub rest : List ℕ
    pub whole : s ≡ prefix ++ next ∷ rest
    pub ended : out ≡ prefix ++ ellipsis t ∷ []
    pub fits : n + cells_from t c prefix < max_cells
    pub full : max_cells ≤ n + cells_from t c (prefix ++ next ∷ [])

  cells-ellipsis : (c : CellCounter) → (add t c (ellipsis t)).0 ≤ 1
  unfolding add rune_cells is_wide
  cells-ellipsis c = ground arith

  ellipsis_after :
      (c : CellCounter) (p : List ℕ) → cells_from t c (p ++ ellipsis t ∷ []) ≤ cells_from t c p + 1
  unfolding cells_from
  ellipsis_after c [] = ground (arith, cells-ellipsis c)
  ellipsis_after c (r ∷ p) = ground (arith, ellipsis_after (add t c r).1 p)

  IsLongest-cons :
      (max_cells n : ℕ) (c : CellCounter) (r : ℕ) (rs out : List ℕ)
      → IsLongest max_cells (n + (add t c r).0) (add t c r).1 rs out
      → IsLongest max_cells n c (r ∷ rs) (r ∷ out)
  unfolding cells_from
  IsLongest-cons max_cells n c r rs out l = record {
    prefix = r ∷ l.prefix;
    next = l.next;
    rest = l.rest;
    whole = ap (◌∷◌ r) l.whole;
    ended = ap (◌∷◌ r) l.ended;
    fits = omega (arith, l.fits);
    full = omega (arith, l.full);
  }

  truncated-IsLongest :
      (max_cells n : ℕ) (c : CellCounter) (s : List ℕ)
      → n < max_cells
      → max_cells ≤ n + cells_from t c s
      → IsLongest max_cells n c s (truncated t max_cells n c s)
  unfolding truncated cells_from
  truncated-IsLongest max_cells n c [] h k = absurd (omega (arith, h, k))
  truncated-IsLongest max_cells n c (r ∷ rs) h k =
      let (a, c') = add t c r in
      if_cases (IsLongest max_cells n c (r ∷ rs)) (a == 0 && not (n == 0)) _ _
        (λ e.
          let none : n ≡ n + a = ground (arith, e) in
          IsLongest-cons max_cells n c r rs _ (
            subst (λ m. IsLongest max_cells m c' rs (truncated t max_cells n c' rs)) none
              (truncated-IsLongest max_cells n c' rs h (ground (arith, k, e)))))
        (λ e.
          if_cases (IsLongest max_cells n c (r ∷ rs)) (ltb (max_cells - 1) (n + a)) _ _
            (λ f. record {
              prefix = [];
              next = r;
              rest = rs;
              whole = refl;
              ended = refl;
              fits = omega (arith, h);
              full = ground (arith, f);
            })
            (λ f. IsLongest-cons max_cells n c r rs _ (
              truncated-IsLongest max_cells (n + a) c' rs (ground (arith, f, h))
                (omega (arith, k)))))

  fitted :
      (s out : List ℕ) (max_cells : ℕ)
      → IsLongest max_cells 0 new_counter s out
      → cells t out ≤ max_cells
  unfolding cells
  fitted s out max_cells l = rw l.ended (omega (arith, ellipsis_after new_counter l.prefix, l.fits))

  one_cell : cells t (ellipsis t ∷ []) ≤ 1
  unfolding cells cells_from
  one_cell = omega (arith, cells-ellipsis new_counter)

  ==_false : (a b : ℕ) → b < a → (a == b) ≡ false
  ==_false a b h = ground (arith, h)

  leb-false : (a b : ℕ) → b < a → leb a b ≡ false
  leb-false a b h = ground (arith, h)

  empty-fits : (m : ℕ) → cells t [] ≤ m
  unfolding cells cells_from
  empty-fits m = omega arith

  longer :
      (s : List ℕ) (m : ℕ)
      → 0 < m
      → m < cells t s
      → IsLongest m 0 new_counter s (truncated t m 0 new_counter s)
  unfolding cells
  longer s m pos h = truncated-IsLongest m 0 new_counter s pos (omega (arith, h))

  -- A truncated text never takes more cells than it may. That holds for each of the tables.
  pub truncate_bound : (s : List ℕ) (max_cells : ℕ) → cells t (truncate t s max_cells) ≤ max_cells
  unfolding truncate
  truncate_bound s max_cells =
      if_cases (λ x. cells t x ≤ max_cells) (max_cells == 0) _ _ (λ _. empty-fits max_cells)
        (λ d.
          if_cases (λ x. cells t x ≤ max_cells) (leb (cells t s) max_cells) _ _
            (λ e. ground (arith, e))
            (λ e.
              if_cases (λ x. cells t x ≤ max_cells) (max_cells == 1) _ _
                (λ f. ground (arith, f, one_cell))
                (λ f.
                  fitted s (truncated t max_cells 0 new_counter s) max_cells
                    (longer s max_cells (ground (arith, f, d)) (ground (arith, e))))))

  -- Where two cells at least are left, truncating leaves a text alone that fits into them, and cuts
  -- another one after its longest prefix of runes that leaves a cell for the ellipsis, the marks
  -- that take no cell after it included. A mark that takes a cell of its own (U+FE0F or U+20E3 after a rune of one cell) may be cut from its base.
  pub truncate-IsLongest :
      (s : List ℕ) (max_cells : ℕ)
      → 2 ≤ max_cells
      → (cells t s ≤ max_cells → truncate t s max_cells ≡ s)
        × (max_cells < cells t s → IsLongest max_cells 0 new_counter s (truncate t s max_cells))
  unfolding truncate
  truncate-IsLongest s max_cells two = (
    λ h. ground (arith, h, two),
    λ h.
        rw
          (
            ==_false max_cells 0 (omega (arith, two)),
            leb-false (cells t s) max_cells h,
            ==_false max_cells 1 (omega (arith, two)),
          )
          (longer s max_cells (omega (arith, two)) h),
  )
