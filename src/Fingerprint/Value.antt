-- ===== src/Fingerprint/Value.antt =====
-- internal/fingerprint/value.go: the canonical bytes of a typed value, which a fingerprint digests.
use evident_output.Prelude.{
  ℕ, zero, suc, ◌-◌, ◌/◌, ◌%◌, ◌^◌, Bool, List, [], ◌∷◌, ◌++◌, ◌==◌, if◌then◌else◌,
}

-- A signed integer: `pos n` is n, and `negsuc n` is -1 - n.
pub data ℤ : Type 0 where
  pos negsuc : ℕ → ℤ

-- What `Value` may hold. An integer of any width is its value, a float the 64 bits of its double, and a
-- time its nanoseconds since 1970 in UTC; strings and byte slices are their bytes.
pub data Value : Type 0 where
  string_value bytes_value : List ℕ → Value
  bool_value : Bool → Value
  int_value time_value : ℤ → Value
  uint_value float_value : ℕ → Value
  unsupported : Value

-- The bytes, or one of the two errors.
pub data Encoding : Type 0 where
  encoded : List ℕ → Encoding
  non_finite_float unsupported_value_type : Encoding

abbrev pub tag_string : ℕ
tag_string = 0

abbrev pub tag_bool : ℕ
tag_bool = 1

abbrev pub tag_int : ℕ
tag_int = 2

abbrev pub tag_uint : ℕ
tag_uint = 3

abbrev pub tag_float : ℕ
tag_float = 4

abbrev pub tag_time : ℕ
tag_time = 5

abbrev pub tag_bytes : ℕ
tag_bytes = 6

-- The lowest `k` bytes of a word, the highest of them first, as `binary.BigEndian` puts them.
unfoldable pub big_endian : ℕ → ℕ → List ℕ
big_endian zero n = []
big_endian (suc k) n = big_endian k (n / 256) ++ n % 256 ∷ []

unfoldable pub encode_uint64 : ℕ → ℕ → List ℕ
unfolding big_endian
encode_uint64 tag n = tag ∷ big_endian 8 n

-- `uint64(n)` of a signed integer.
unfoldable pub to_uint64 : ℤ → ℕ
to_uint64 (pos n) = n % 2 ^ 64
to_uint64 (negsuc n) = 2 ^ 64 - 1 - n % 2 ^ 64

unfoldable pub encode_int64 : ℕ → ℤ → List ℕ
unfolding encode_uint64 to_uint64
encode_int64 tag n = encode_uint64 tag (to_uint64 n)

-- Whether the exponent of a double is all ones, as it is for NaN and the infinities alone.
unfoldable pub is_non_finite : ℕ → Bool
is_non_finite bits = bits / 2 ^ 52 % 2 ^ 11 == 2047

unfoldable pub encode_float : ℕ → Encoding
unfolding is_non_finite encode_uint64
encode_float bits =
    if is_non_finite bits then non_finite_float else encoded (encode_uint64 tag_float bits)

unfoldable pub encode_value : Value → Encoding
unfolding encode_int64 encode_uint64 encode_float
encode_value (string_value bs) = encoded (tag_string ∷ bs)
encode_value (bool_value b) = encoded (tag_bool ∷ (if b then 1 else 0) ∷ [])
encode_value (int_value n) = encoded (encode_int64 tag_int n)
encode_value (uint_value n) = encoded (encode_uint64 tag_uint n)
encode_value (float_value bits) = encode_float bits
encode_value (time_value n) = encoded (encode_int64 tag_time n)
encode_value (bytes_value bs) = encoded (tag_bytes ∷ bs)
encode_value unsupported = unsupported_value_type
