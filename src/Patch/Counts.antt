-- ===== src/Patch/Counts.antt =====
-- What a hunk holds that internal/patch/hunk.go has read.
use evident_output.Prelude.{
  ℕ, ◌+◌, ◌-◌, ◌≤◌, ◌||◌, List, [], ◌∷◌, ◌++◌, ◌≡◌, refl, arith, All, ◌==◌, if◌then◌else◌, Bytes,
  length,
}
use evident_output.Patch.Errors.{ok, >>=-eq-ok, ok_injective}
use evident_output.Patch.Hunk.{HunkLine, Hunk, op_context, op_add}
use evident_output.Patch.Lines.{old_side, new_side, IsOp}
use evident_output.Patch.HunkParser.{
  hunk_line, hunk_body, mark_no_newline, trailing_marker, clear_last, Body, parse_hunk,
  parse_hunk_header, trim_cr,
}

-- How many lines a hunk has on each side.
abbrev pub old_lines : List HunkLine → ℕ
old_lines ls = length (old_side ls)

abbrev pub new_lines : List HunkLine → ℕ
new_lines ls = length (new_side ls)

old_lines-snoc :
    (ls : List HunkLine) (l : HunkLine)
    → old_lines (ls ++ l ∷ []) ≡ old_lines ls + (if l.op == op_add then 0 else 1)
unfolding old_side
old_lines-snoc [] l = ground arith
old_lines-snoc (m ∷ ls) l = ground (arith, old_lines-snoc ls l)

new_lines-snoc :
    (ls : List HunkLine) (l : HunkLine)
    → new_lines (ls ++ l ∷ [])
      ≡ new_lines ls + (if l.op == op_add || l.op == op_context then 1 else 0)
unfolding new_side
new_lines-snoc [] l = ground arith
new_lines-snoc (m ∷ ls) l = ground (arith, new_lines-snoc ls l)

All-IsOp-snoc : (ls : List HunkLine) (l : HunkLine) → All IsOp ls → IsOp l → All IsOp (ls ++ l ∷ [])
All-IsOp-snoc [] l v o = (o, tt)
All-IsOp-snoc (m ∷ ls) l (v, vs) o = (v, All-IsOp-snoc ls l vs o)

clear_last-sides :
    (ls : List HunkLine)
    → (old_lines (clear_last ls) ≡ old_lines ls) × (new_lines (clear_last ls) ≡ new_lines ls)
unfolding old_side new_side
clear_last-sides [] = (refl, refl)
clear_last-sides (l ∷ []) = ground arith
clear_last-sides (l ∷ m ∷ ls) = ground (arith, clear_last-sides (m ∷ ls))

All-IsOp-clear_last : (ls : List HunkLine) → All IsOp ls → All IsOp (clear_last ls)
All-IsOp-clear_last [] v = tt
All-IsOp-clear_last (l ∷ []) v = v
All-IsOp-clear_last (l ∷ m ∷ ls) (v, vs) = (v, All-IsOp-clear_last (m ∷ ls) vs)

-- From lines `ls` the parser went on to the lines of `b`, which add `o` old and `n` new ones.
record Reads (ls : List HunkLine) (rest : List Bytes) (o n : ℕ) (b : Body) : Type 0 where
  olds : old_lines b.0 ≡ old_lines ls + o
  news : new_lines b.0 ≡ new_lines ls + n
  ops : All IsOp b.0
  fewer : length b.1 ≤ length rest

mark_no_newline-ok : (ls ls' : List HunkLine) → mark_no_newline ls ≡ ok ls' → clear_last ls ≡ ls'
unfolding mark_no_newline
mark_no_newline-ok ls ls' h = ground arith

hunk_body-Reads :
    (rest : List Bytes) (o n : ℕ) (ls : List HunkLine) (b : Body)
    → All IsOp ls
    → hunk_body rest o n ls ≡ ok b
    → Reads ls rest o n b
unfolding hunk_body
hunk_body-Reads [] o n ls b v h = ground arith
hunk_body-Reads (raw ∷ rest) o n ls b v h =
    let l = hunk_line raw in
    ground (
      arith,
      old_lines-snoc ls l,
      new_lines-snoc ls l,
      hunk_body-Reads rest (o - 1) (n - 1) (ls ++ l ∷ []) b,
      hunk_body-Reads rest (o - 1) n (ls ++ l ∷ []) b,
      hunk_body-Reads rest o (n - 1) (ls ++ l ∷ []) b,
      hunk_body-Reads rest o n (clear_last ls) b,
      clear_last-sides ls,
      All-IsOp-snoc ls l v,
      All-IsOp-clear_last ls v,
    )

-- The hunk has as many old and new lines as its header counts, and no other lines.
pub record WellCounted (h : Hunk) : Type 0 where
  pub old_counted : old_lines h.lines ≡ h.old_count
  pub new_counted : new_lines h.lines ≡ h.new_count
  pub ops : All IsOp h.lines

trailing_marker-Reads :
    (b b' : Body)
    → All IsOp b.0
    → trailing_marker b ≡ ok b'
    → (old_lines b'.0 ≡ old_lines b.0)
      × (new_lines b'.0 ≡ new_lines b.0)
      × All IsOp b'.0
      × (length b'.1 ≤ length b.1)
unfolding trailing_marker
trailing_marker-Reads (ls, []) b' v h = ground arith
trailing_marker-Reads (ls, raw ∷ rest) b' v h =
    ground (arith, clear_last-sides ls, All-IsOp-clear_last ls v)

parse_hunk_header-lines :
    (header : Bytes) (h : Hunk) → parse_hunk_header header ≡ ok h → h.lines ≡ []
unfolding parse_hunk_header
parse_hunk_header-lines header h e = ground arith

-- A hunk that the parser returns has exactly as many old and new lines as its header counts, each
-- of them a context, removed or added line; and the parser does not go back.
pub parse_hunk-WellCounted :
    (header : Bytes) (rest rest' : List Bytes) (h : Hunk)
    → parse_hunk header rest ≡ ok (h, rest')
    → WellCounted h × (length rest' ≤ length rest)
unfolding parse_hunk old_side new_side
parse_hunk-WellCounted header rest rest' h e =
    let (g, first, e₁) = >>=-eq-ok (parse_hunk_header (trim_cr header)) _ e in
    let (b, second, e₂) = >>=-eq-ok (hunk_body rest g.old_count g.new_count []) _ e₁ in
    let (b', third, e₃) = >>=-eq-ok (trailing_marker b) _ e₂ in
    let reads = hunk_body-Reads rest g.old_count g.new_count [] b tt second in
    let marked = trailing_marker-Reads b b' reads.ops third in
    ground (arith, reads, marked, ok_injective _ _ e₃)
