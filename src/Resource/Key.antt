-- ===== src/Resource/Key.antt =====
-- internal/resource/resource.go: the identity of a resource, and when two identities overlap.
use evident_output.Prelude.{
  Bool, true, false, not, ◌&&◌, ◌||◌, [], ◌∷◌, ◌++◌, ◌≡◌, arith, Bytes, bytes_eq, bytes_eq_comm,
  bytes_eq_sound, has_prefix, has_suffix, if◌then◌else◌,
}

pub data Space : Type 0 where
  fs logical : Space

abbrev pub space_eq : Space → Space → Bool
space_eq fs fs = true
space_eq logical logical = true
space_eq _ _ = false

pub record Key : Type 0 where
  pub space : Space
  pub name : Bytes

-- `==` on the struct `Key`.
abbrev pub key_eq : Key → Key → Bool
key_eq k o = space_eq k.space o.space && bytes_eq k.name o.name

abbrev separator : Bytes
separator = b'/' ∷ []

unfoldable pub is_ancestor : Bytes → Bytes → Bool
unfolding has_prefix has_suffix
is_ancestor dir path = has_prefix path (if has_suffix dir separator then dir else dir ++ separator)

unfoldable pub overlaps : Key → Key → Bool
unfolding is_ancestor bytes_eq
overlaps k o =
    if not (space_eq k.space o.space)
    then false
    else if bytes_eq k.name o.name
    then true
    else space_eq k.space fs && (is_ancestor k.name o.name || is_ancestor o.name k.name)

-- Overlapping is symmetric, so it does not matter which of two claims asks.
pub overlaps_comm : (k o : Key) → overlaps k o ≡ overlaps o k
unfolding overlaps
overlaps_comm k o = ground (arith, bytes_eq_comm k.name o.name)

pub key_eq_sound : (k o : Key) → key_eq k o ≡ true → k ≡ o
key_eq_sound k o h = ground (arith, bytes_eq_sound k.name o.name)
