-- ===== src/Paths/Beneath.antt =====
-- When a cleaned relative path stays beneath the directory that it is relative to.
use mathlib.Core.List.{reverse, reverse-cons}
use evident_output.Prelude.{
  Bool, true, false, not, ◌&&◌, ◌||◌, List, [], ◌∷◌, ◌++◌, if◌then◌else◌, Bytes, bytes_eq,
  bytes_eq_sound, bytes_eq_refl, has_prefix, split_on, join_with, is_empty, ◌≡◌, refl, ◌∙◌, ap,
  arith, ◌⊎◌, inl, inr, All, Bool-cases,
}
use evident_output.Paths.Clean.{
  slash, dot, dot_dot, is_abs, clean, clean_parts, clean_stack, clean_step,
}

-- An ordinary component: it names an entry of the directory before it.
abbrev pub is_normal : Bytes → Bool
is_normal part = not (is_empty part || bytes_eq part dot || bytes_eq part dot_dot)

abbrev pub IsNormal : Bytes → Type 0
IsNormal part = is_normal part ≡ true

-- The path that a stack of components spells starts with `..`.
abbrev climbs : List Bytes → Bool
climbs [] = false
climbs (part ∷ []) = bytes_eq part dot_dot
climbs (part ∷ below ∷ stack) = climbs (below ∷ stack)

abbrev all_normal : List Bytes → Bool
all_normal [] = true
all_normal (part ∷ stack) = is_normal part && all_normal stack

abbrev Shape : List Bytes → Type 0
Shape stack = (all_normal stack || climbs stack) ≡ true

clean_step-Shape :
    (stack : List Bytes) (part : Bytes) → Shape stack → Shape (clean_step false stack part)
unfolding clean_step
clean_step-Shape [] part s = ground (arith, bytes_eq_refl dot_dot)
clean_step-Shape (top ∷ []) part s = ground (arith, bytes_eq_refl dot_dot)
clean_step-Shape (top ∷ b ∷ below) part s = ground (arith, bytes_eq_refl dot_dot)

clean_stack-Shape : (parts stack : List Bytes) → Shape stack → Shape (clean_stack false stack parts)
unfolding clean_stack
clean_stack-Shape [] stack s = s
clean_stack-Shape (part ∷ parts) stack s =
    clean_stack-Shape parts (clean_step false stack part) (clean_step-Shape stack part s)

climbs-reverse :
    (stack : List Bytes)
    → climbs stack ≡ true
    → (rest : List Bytes) × (reverse stack ≡ dot_dot ∷ rest)
climbs-reverse [] c = cc
climbs-reverse (part ∷ []) c = ([], ap (λ l. l ∷ []) (bytes_eq_sound part dot_dot c))
climbs-reverse (part ∷ below ∷ stack) c =
    let (rest, e) = climbs-reverse (below ∷ stack) c in
    (rest ++ part ∷ [], reverse-cons part (below ∷ stack) ∙ ap (λ l. l ++ part ∷ []) e)

all_normal-All : (stack : List Bytes) → all_normal stack ≡ true → All IsNormal stack
all_normal-All [] e = tt
all_normal-All (part ∷ stack) e = (ground arith, all_normal-All stack (ground arith))

All-reverse : (P : Bytes → Type 0) (stack : List Bytes) → All P stack → All P (reverse stack)
All-reverse P [] h = h
All-reverse P (part ∷ stack) (h, hs) =
    rw reverse-cons (All-snoc (reverse stack) part (All-reverse P stack hs) h)
  where
    All-snoc : (l : List Bytes) (x : Bytes) → All P l → P x → All P (l ++ x ∷ [])
    All-snoc [] x hl hx = (hx, tt)
    All-snoc (y ∷ l) x (hy, hl) hx = (hy, All-snoc l x hl hx)

-- The components of a cleaned relative path are ordinary, unless the first of them is `..`.
clean_parts-relative :
    (p : Bytes)
    → is_abs p ≡ false
    → All IsNormal (clean_parts p) ⊎ ((rest : List Bytes) × (clean_parts p ≡ dot_dot ∷ rest))
unfolding clean_parts
clean_parts-relative p e =
    let stack = clean_stack false [] (split_on slash p) in
    let shape = clean_stack-Shape (split_on slash p) [] refl in
    rw e (elim (Bool-cases (all_normal stack)) [
      | inl n ↦ inl (All-reverse IsNormal stack (all_normal-All stack n))
      | inr n ↦ inr (climbs-reverse stack (ground (arith, shape)))
    ])

-- The tests by which the program tells that a cleaned relative path climbs out.
abbrev pub escapes : Bytes → Bool
escapes c = bytes_eq c dot || bytes_eq c dot_dot || has_prefix c (b'.' ∷ b'.' ∷ slash ∷ [])

dot_dot-escapes : (rest : List Bytes) → escapes (join_with slash (dot_dot ∷ rest)) ≡ true
unfolding join_with bytes_eq has_prefix
dot_dot-escapes [] = refl
dot_dot-escapes (q ∷ rest) = refl

dot-escapes : escapes dot ≡ true
unfolding bytes_eq
dot-escapes = refl

clean-relative :
    (p : Bytes)
    → is_abs p ≡ false
    → clean p ≡ (if is_empty (clean_parts p) then dot else join_with slash (clean_parts p))
unfolding clean
clean-relative p a = rw a

-- A relative path that the tests let pass cleans to one or more ordinary components.
pub clean-beneath :
    (p : Bytes)
    → is_abs p ≡ false
    → escapes (clean p) ≡ false
    → (parts : List Bytes) × All IsNormal parts
      × (is_empty parts ≡ false)
      × (clean p ≡ join_with slash parts)
clean-beneath p a e = from_parts (clean_parts p) (clean-relative p a) (clean_parts-relative p a)
  where
    from_parts :
        (parts : List Bytes)
        → clean p ≡ (if is_empty parts then dot else join_with slash parts)
        → All IsNormal parts ⊎ ((rest : List Bytes) × (parts ≡ dot_dot ∷ rest))
        → (parts : List Bytes) × All IsNormal parts
          × (is_empty parts ≡ false)
          × (clean p ≡ join_with slash parts)
    from_parts [] s h = cc (e, ap escapes s, dot-escapes)
    from_parts (part ∷ parts) s (inl n) = (part ∷ parts, n, refl, s)
    from_parts (part ∷ parts) s (inr (rest, c)) =
        cc (e, ap escapes (s ∙ ap (join_with slash) c), dot_dot-escapes rest)
