-- ===== src/Paths/Clean.antt =====
-- `path.IsAbs` and `path.Clean`: the path's components, worked off from left to right.
use mathlib.Core.List.{reverse}
use evident_output.Prelude.{
  ℕ, Bool, not, ◌||◌, List, [], ◌∷◌, if◌then◌else◌, Bytes, bytes_eq, has_prefix, split_on,
  join_with, is_empty,
}

abbrev pub slash : ℕ
slash = b'/'

abbrev pub dot : Bytes
dot = b'.' ∷ []

abbrev pub dot_dot : Bytes
dot_dot = b'.' ∷ b'.' ∷ []

unfoldable pub is_abs : Bytes → Bool
is_abs p = has_prefix p (slash ∷ [])

-- The components kept so far, the last one first, after one more component.
unfoldable pub clean_step : Bool → List Bytes → Bytes → List Bytes
unfolding bytes_eq
clean_step rooted stack part =
    if is_empty part || bytes_eq part dot
    then stack
    else if not (bytes_eq part dot_dot)
    then part ∷ stack
    else elim stack [
      | [] ↦ if rooted then [] else dot_dot ∷ []
      | top ∷ below ↦ if bytes_eq top dot_dot then dot_dot ∷ top ∷ below else below
    ]

unfoldable pub clean_stack : Bool → List Bytes → List Bytes → List Bytes
unfolding clean_step
clean_stack rooted stack [] = stack
clean_stack rooted stack (part ∷ parts) = clean_stack rooted (clean_step rooted stack part) parts

unfoldable pub clean_parts : Bytes → List Bytes
unfolding clean_stack
clean_parts p = reverse (clean_stack (is_abs p) [] (split_on slash p))

unfoldable pub clean : Bytes → Bytes
clean p =
    let parts = clean_parts p in
    if is_abs p
    then slash ∷ join_with slash parts
    else if is_empty parts
    then dot
    else join_with slash parts
