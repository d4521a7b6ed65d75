-- ===== src/Fingerprint/Tests.antt =====
-- A time and an integer, and a value against itself.
use evident_output.Prelude.{ℕ, List, [], ◌∷◌, ◌≡◌, ◌^◌, ◌*◌, refl, arith}
use evident_output.Fingerprint.Value.{
  negsuc, int_value, float_value, encoded, non_finite_float, big_endian, encode_uint64, to_uint64,
  encode_int64, is_non_finite, encode_float, encode_value,
}
use evident_output.Fingerprint.Collisions.{encode_value-distinct}

abbrev minus_two : List ℕ
minus_two = 2 ∷ 255 ∷ 255 ∷ 255 ∷ 255 ∷ 255 ∷ 255 ∷ 255 ∷ 254 ∷ []

encoded-minus_two : encode_value (int_value (negsuc 1)) ≡ encoded minus_two
unfolding encode_value encode_int64 encode_uint64 to_uint64 big_endian
encoded-minus_two = refl

encode_value-distinct_example : int_value (negsuc 1) ≡ int_value (negsuc 1)
encode_value-distinct_example =
    encode_value-distinct (int_value (negsuc 1)) (int_value (negsuc 1)) minus_two (omega arith)
      (omega arith) encoded-minus_two encoded-minus_two

infinity-refused : encode_value (float_value (2047 * 2 ^ 52)) ≡ non_finite_float
unfolding encode_value encode_float is_non_finite
infinity-refused = refl
