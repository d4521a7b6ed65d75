-- ===== src/Fingerprint/Collisions.antt =====
-- internal/fingerprint/value.go: distinct typed values have distinct bytes.
use evident_output.Prelude.{
  ℕ, zero, suc, ◌+◌, ◌-◌, ◌*◌, ◌/◌, ◌%◌, ◌^◌, ◌<◌, true, false, List, [], ◌∷◌, ◌++◌, ◌≡◌, refl, sym,
  ◌∙◌, ap, subst, arith, ltb, ◌==◌, if◌then◌else◌, if_cases,
}
use evident_output.Fingerprint.Value.{
  ℤ, pos, negsuc, Value, string_value, bytes_value, bool_value, int_value, time_value, uint_value,
  float_value, unsupported, Encoding, encoded, non_finite_float, unsupported_value_type, big_endian,
  encode_uint64, to_uint64, encode_int64, is_non_finite, encode_float, encode_value,
}

-- What 64 bits hold.
abbrev pub IsInt64 : ℤ → Type 0
IsInt64 (pos n) = n < 2 ^ 63
IsInt64 (negsuc n) = n < 2 ^ 63

abbrev pub InRange : Value → Type 0
InRange (int_value n) = IsInt64 n
InRange (time_value n) = IsInt64 n
InRange (uint_value n) = n < 2 ^ 64
InRange (float_value bits) = bits < 2 ^ 64
InRange _ = Unit

-- The word that bytes stand for, and the signed integer of a word.
word : ℕ → List ℕ → ℕ
word acc [] = acc
word acc (b ∷ bs) = word (acc * 256 + b) bs

word-append : (acc b : ℕ) (bs : List ℕ) → word acc (bs ++ b ∷ []) ≡ word acc bs * 256 + b
unfolding word
word-append acc b [] = refl
word-append acc b (c ∷ bs) = word-append (acc * 256 + c) b bs

words : ℕ → ℕ
words zero = 1
words (suc k) = 256 * words k

word-big_endian : (k n : ℕ) → n < words k → word 0 (big_endian k n) ≡ n
unfolding word words big_endian
word-big_endian zero n h = omega (arith, h)
word-big_endian (suc k) n h =
    let high = word-big_endian k (n / 256) (omega (arith, h)) in
    omega (arith, high, word-append 0 (n % 256) (big_endian k (n / 256)))

signed : ℕ → ℤ
signed w = if ltb w (2 ^ 63) then pos w else negsuc (2 ^ 64 - 1 - w)

signed-to_uint64 : (n : ℤ) → IsInt64 n → signed (to_uint64 n) ≡ n
unfolding signed to_uint64
signed-to_uint64 (pos n) h =
    if_cases (λ x. x ≡ pos n) (ltb (n % 2 ^ 64) (2 ^ 63)) _ _ (λ _. ap pos (omega (arith, h)))
      (λ e. absurd (ground (arith, e, h)))
signed-to_uint64 (negsuc n) h =
    if_cases (λ x. x ≡ negsuc n) (ltb (2 ^ 64 - 1 - n % 2 ^ 64) (2 ^ 63)) _ _
      (λ e. absurd (ground (arith, e, h))) (λ _. ap negsuc (omega (arith, h)))

to_uint64-bound : (n : ℤ) → to_uint64 n < 2 ^ 64
unfolding to_uint64
to_uint64-bound (pos n) = omega arith
to_uint64-bound (negsuc n) = omega arith

word-encode : (n : ℕ) → n < 2 ^ 64 → word 0 (big_endian 8 n) ≡ n
unfolding words
word-encode n h = word-big_endian 8 n h

-- The value that bytes stand for, by their tag.
decode : ℕ → List ℕ → Value
decode tag bs =
    if tag == 0
    then string_value bs
    else if tag == 1
    then bool_value (word 0 bs == 1)
    else if tag == 2
    then int_value (signed (word 0 bs))
    else if tag == 3
    then uint_value (word 0 bs)
    else if tag == 4
    then float_value (word 0 bs)
    else if tag == 5
    then time_value (signed (word 0 bs))
    else bytes_value bs

abbrev decode_bytes : List ℕ → Value
decode_bytes [] = unsupported
decode_bytes (tag ∷ bs) = decode tag bs

abbrev Decodes : Value → Encoding → Type 0
Decodes v (encoded bs) = decode_bytes bs ≡ v
Decodes v non_finite_float = Unit
Decodes v unsupported_value_type = Unit

int64-word : (n : ℤ) → IsInt64 n → signed (word 0 (big_endian 8 (to_uint64 n))) ≡ n
int64-word n h = ap signed (word-encode (to_uint64 n) (to_uint64-bound n)) ∙ signed-to_uint64 n h

encode_value-Decodes : (v : Value) → InRange v → Decodes v (encode_value v)
unfolding encode_value encode_int64 encode_uint64 encode_float decode word
encode_value-Decodes (string_value bs) h = refl
encode_value-Decodes (bytes_value bs) h = refl
encode_value-Decodes (bool_value true) h = refl
encode_value-Decodes (bool_value false) h = refl
encode_value-Decodes (int_value n) h = ap int_value (int64-word n h)
encode_value-Decodes (time_value n) h = ap time_value (int64-word n h)
encode_value-Decodes (uint_value n) h = ap uint_value (word-encode n h)
encode_value-Decodes (float_value bits) h =
    if_cases (Decodes (float_value bits)) (is_non_finite bits) _ _ (λ _. tt)
      (λ _. ap float_value (word-encode bits h))
encode_value-Decodes unsupported h = tt

-- No two values have the same bytes: values that 64 bits hold and that encode to the same bytes are of
-- one kind and equal.
pub encode_value-distinct :
    (v w : Value) (bs : List ℕ)
    → InRange v
    → InRange w
    → encode_value v ≡ encoded bs
    → encode_value w ≡ encoded bs
    → v ≡ w
encode_value-distinct v w bs hv hw ev ew =
    sym (subst (Decodes v) ev (encode_value-Decodes v hv))
    ∙ subst (Decodes w) ew (encode_value-Decodes w hw)
