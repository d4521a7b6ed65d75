-- ===== src/Patch/HunkParser.antt =====
-- internal/patch/hunk.go: reading a hunk from a diff's lines. The parser's position is kept as the
-- lines from there on.
use evident_output.Prelude.{
  ℕ, ◌+◌, ◌-◌, ◌*◌, ◌^◌, Bool, true, false, not, ◌&&◌, ◌||◌, List, [], ◌∷◌, ◌++◌, Option, none,
  some, leb, ltb, ◌==◌, if◌then◌else◌, Bytes, length, drop, has_prefix, trim_suffix, is_empty,
  codes,
}
use evident_output.Patch.Errors.{Result, ok, err, malformed, ◌>>=◌}
use evident_output.Patch.Hunk.{HunkLine, Hunk, op_context, op_remove, op_add, op_no_newline}

abbrev pub trim_cr : Bytes → Bytes
trim_cr s = trim_suffix s (13 ∷ [])

abbrev is_digit : ℕ → Bool
is_digit c = leb b'0' c && leb c b'9'

-- A run of digits, as `\d+` matches it, and what follows.
unfoldable pub digits : Bytes → Bytes × Bytes
digits [] = ([], [])
digits (c ∷ s) = let (ds, rest) = digits s in if is_digit c then (c ∷ ds, rest) else ([], c ∷ s)

abbrev expect : Bytes → Bytes → Option Bytes
expect literal s = if has_prefix s literal then some (drop (length literal) s) else none

-- `(?:,(\d+))?`: the group is empty where it does not match.
unfoldable pub optional_count : Bytes → Bytes × Bytes
unfolding digits
optional_count [] = ([], [])
optional_count (c ∷ s) =
    let (ds, rest) = digits s in if c == b',' && not (is_empty ds) then (ds, rest) else ([], c ∷ s)

-- `(\d+)(?:,(\d+))?`
unfoldable pub line_range : Bytes → Option ((Bytes × Bytes) × Bytes)
unfolding digits optional_count
line_range s =
    let (start, after) = digits s in
    let (count, rest) = optional_count after in
    if is_empty start then none else some ((start, count), rest)

value : ℕ → Bytes → ℕ
value acc [] = acc
value acc (c ∷ s) = value (acc * 10 + (c - b'0')) s

-- `strconv.Atoi` fails above the largest `int`, and then the fallback serves too.
unfoldable pub atoi_or : Bytes → ℕ → ℕ
unfolding value
atoi_or s fallback =
    if is_empty s then fallback else if ltb (value 0 s) (2 ^ 63) then value 0 s else fallback

option_bind {ℓ κ} : {A : Type ℓ} {B : Type κ} → Option A → (A → Option B) → Option B
option_bind none f = none
option_bind (some a) f = f a

-- The submatches of `hunkHeader`.
unfoldable pub match_header : Bytes → Option ((Bytes × Bytes) × (Bytes × Bytes))
unfolding line_range option_bind
match_header s = option_bind (expect (codes "@@ -") s) λ s₁.
    option_bind (line_range s₁) λ (old, s₂). option_bind (expect (codes " +") s₂) λ s₃.
      option_bind (line_range s₃)
        λ (new, s₄). option_bind (expect (codes " @@") s₄) λ _. some (old, new)

unfoldable pub parse_hunk_header : Bytes → Result Hunk
unfolding match_header atoi_or
parse_hunk_header header = elim (match_header header) [
  | none ↦ err malformed
  | some ((old_start, old_count), (new_start, new_count)) ↦ ok (record {
    old_start = atoi_or old_start 0;
    old_count = atoi_or old_count 1;
    new_start = atoi_or new_start 0;
    new_count = atoi_or new_count 1;
    lines = [];
  })
]

abbrev pub clear_last : List HunkLine → List HunkLine
clear_last [] = []
clear_last (l ∷ []) = record l { eol = false } ∷ []
clear_last (l ∷ m ∷ ls) = l ∷ clear_last (m ∷ ls)

unfoldable pub mark_no_newline : List HunkLine → Result (List HunkLine)
mark_no_newline ls = if is_empty ls then err malformed else ok (clear_last ls)

-- The operation and the text of a raw line; an empty one is an empty context line.
abbrev pub raw_op : Bytes → ℕ
raw_op [] = op_context
raw_op (c ∷ s) = c

abbrev pub raw_text : Bytes → Bytes
raw_text [] = []
raw_text (c ∷ s) = s

abbrev pub hunk_line : Bytes → HunkLine
hunk_line raw = record { op = raw_op raw; text = raw_text raw; eol = true }

abbrev pub Body : Type 0
Body = List HunkLine × List Bytes

-- The loop that reads as many old and new lines as the header counts.
unfoldable pub hunk_body : List Bytes → ℕ → ℕ → List HunkLine → Result Body
unfolding mark_no_newline
hunk_body [] old_left new_left ls =
    if old_left == 0 && new_left == 0 then ok (ls, []) else err malformed
hunk_body (raw ∷ rest) old_left new_left ls =
    let more = ls ++ hunk_line raw ∷ [] in
    let context =
      if old_left == 0 || new_left == 0
      then err malformed
      else hunk_body rest (old_left - 1) (new_left - 1) more in
    let removed =
      if old_left == 0 then err malformed else hunk_body rest (old_left - 1) new_left more in
    let added =
      if new_left == 0 then err malformed else hunk_body rest old_left (new_left - 1) more in
    let marked = mark_no_newline ls >>= hunk_body rest old_left new_left in
    if old_left == 0 && new_left == 0
    then ok (ls, raw ∷ rest)
    else if raw_op raw == op_context
    then context
    else if raw_op raw == op_remove
    then removed
    else if raw_op raw == op_add
    then added
    else if raw_op raw == op_no_newline
    then marked
    else err malformed

-- A marker after the last line belongs to it.
unfoldable pub trailing_marker : Body → Result Body
unfolding mark_no_newline
trailing_marker (ls, []) = ok (ls, [])
trailing_marker (ls, raw ∷ rest) =
    if has_prefix raw (op_no_newline ∷ [])
    then (do ls' ← mark_no_newline ls; ok (ls', rest))
    else ok (ls, raw ∷ rest)

-- The hunk that opens with the line `header`, and the lines after it.
unfoldable pub parse_hunk : Bytes → List Bytes → Result (Hunk × List Bytes)
unfolding parse_hunk_header hunk_body trailing_marker
parse_hunk header rest = do
  h ← parse_hunk_header (trim_cr header)
  body ← hunk_body rest h.old_count h.new_count []
  body' ← trailing_marker body
  ok (record h { lines = body'.0 }, body'.1)
