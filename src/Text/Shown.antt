-- ===== src/Text/Shown.antt =====
-- internal/text/sanitize.go: what a sanitized text may hold.
use evident_output.Prelude.{
  ℕ, suc, Bool, true, not, ◌&&◌, ◌||◌, List, [], ◌∷◌, ◌==◌, leb, ltb, if◌then◌else◌, ◌≡◌, ◌↔◌, refl,
  sym, ◌∙◌, ap, arith,
}
use evident_output.Text.Sanitize.{starts_with_newline, is_bidi, neutral, neutralize}

-- A rune that a sanitized text may hold: no control but a tab or a wanted newline, no delete, and no
-- embedding, override or isolate of the direction (U+202A to U+202E, U+2066 to U+2069). The marks of
-- the direction (U+061C, U+200E, U+200F) are runes like others here.
unfoldable pub is_shown : Bool → ℕ → Bool
is_shown newlines r =
    r == 9
    || newlines && r == 10
    || leb 32 r && ltb r 127
    || leb 160 r && ltb r 8234
    || ltb 8238 r && ltb r 8294
    || ltb 8297 r

unfoldable pub all_shown : Bool → List ℕ → Bool
unfolding is_shown
all_shown newlines [] = true
all_shown newlines (r ∷ rs) = is_shown newlines r && all_shown newlines rs

neutral-shown :
    (newlines next : Bool) (r : ℕ) (rest : List ℕ)
    → all_shown newlines rest ≡ true
    → all_shown newlines (neutral newlines next r rest) ≡ true
unfolding neutral all_shown is_shown is_bidi
neutral-shown newlines next r rest h = ground (arith, h)

neutral-kept :
    (newlines next : Bool) (r : ℕ) (rest : List ℕ)
    → is_shown newlines r ≡ true
    → neutral newlines next r rest ≡ r ∷ rest
unfolding neutral all_shown is_shown is_bidi
neutral-kept newlines next r rest h = ground (arith, h)

shown : (newlines : Bool) (s : List ℕ) → all_shown newlines (neutralize newlines s) ≡ true
unfolding neutralize all_shown
shown newlines [] = refl
shown newlines (r ∷ rs) =
    neutral-shown newlines (starts_with_newline rs) r (neutralize newlines rs) (shown newlines rs)

kept : (newlines : Bool) (s : List ℕ) → all_shown newlines s ≡ true → neutralize newlines s ≡ s
unfolding neutralize all_shown
kept newlines [] h = refl
kept newlines (r ∷ rs) h =
    neutral-kept newlines (starts_with_newline rs) r (neutralize newlines rs) (ground (arith, h))
    ∙ ap (◌∷◌ r) (kept newlines rs (ground (arith, h)))

-- Sanitizing changes a text exactly where it holds a rune that it may not hold.
pub neutralize_iff :
    (newlines : Bool) (s : List ℕ) → (neutralize newlines s ≡ s) ↔ (all_shown newlines s ≡ true)
neutralize_iff newlines s =
    (λ e. ap (all_shown newlines) (sym e) ∙ shown newlines s, kept newlines s)

-- Line breaks, where a carriage return and a newline are one.
unfoldable pub breaks : List ℕ → ℕ
breaks [] = 0
breaks (r ∷ rs) =
    let rest = breaks rs in
    if r == 10 || r == 13 && not (starts_with_newline rs) then suc rest else rest

unfoldable pub count_newlines : List ℕ → ℕ
count_newlines [] = 0
count_newlines (r ∷ rs) = if r == 10 then suc (count_newlines rs) else count_newlines rs
