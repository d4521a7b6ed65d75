-- ===== src/Patch/Lines.antt =====
-- A hunk of internal/patch/hunk.go seen from its two sides, and a file seen as its lines.
use evident_output.Prelude.{
  ℕ, ◌+◌, ◌||◌, List, [], ◌∷◌, ◌++◌, map, ◌==◌, if◌then◌else◌, Bytes, bytes_eq_refl, bytes_eq_sound,
  length, concat, ◌≡◌, refl, arith, append_assoc, append-nil, ◌⊎◌, All,
}
use evident_output.Patch.Errors.{ok}
use evident_output.Patch.Hunk.{
  HunkLine, Cursor, line_bytes, op_add, op_remove, op_context, file_lines, cons_line, apply_lines,
  reversed_line,
}

-- The lines that a hunk removes or keeps, and those that it keeps or adds.
unfoldable pub old_side : List HunkLine → List Bytes
old_side [] = []
old_side (l ∷ ls) = if l.op == op_add then old_side ls else line_bytes l ∷ old_side ls

unfoldable pub new_side : List HunkLine → List Bytes
new_side [] = []
new_side (l ∷ ls) =
    if l.op == op_add || l.op == op_context then line_bytes l ∷ new_side ls else new_side ls

abbrev pub IsOp : HunkLine → Type 0
IsOp l = (l.op ≡ op_context) ⊎ ((l.op ≡ op_remove) ⊎ (l.op ≡ op_add))

-- The lines of a hunk apply exactly where the file goes on with their old side.
pub apply_lines_complete :
    (ls : List HunkLine) (pos : ℕ) (rest : List Bytes) (out : Bytes)
    → apply_lines ls (record { pos = pos; rest = old_side ls ++ rest; out = out })
      ≡ ok (record {
        pos = pos + length (old_side ls);
        rest = rest;
        out = out ++ concat (new_side ls);
      })
unfolding apply_lines old_side new_side
apply_lines_complete [] pos rest out = ground (arith, append-nil out)
apply_lines_complete (l ∷ ls) pos rest out = ground (
  arith,
  bytes_eq_refl (line_bytes l),
  apply_lines_complete ls pos rest (out ++ line_bytes l),
  apply_lines_complete ls (pos + 1) rest (out ++ line_bytes l),
  apply_lines_complete ls (pos + 1) rest out,
  append_assoc out (line_bytes l) (concat (new_side ls)),
)

pub record Applied (ls : List HunkLine) (c d : Cursor) : Type 0 where
  pub rest_of : c.rest ≡ old_side ls ++ d.rest
  pub pos_of : d.pos ≡ c.pos + length (old_side ls)
  pub out_of : d.out ≡ c.out ++ concat (new_side ls)

pub apply_lines_sound :
    (ls : List HunkLine) (pos : ℕ) (rest : List Bytes) (out : Bytes) (d : Cursor)
    → apply_lines ls (record { pos = pos; rest = rest; out = out }) ≡ ok d
    → Applied ls (record { pos = pos; rest = rest; out = out }) d
unfolding apply_lines old_side new_side
apply_lines_sound [] pos rest out d h = ground (arith, append-nil out)
apply_lines_sound (l ∷ ls) pos [] out d h = ground (
  arith,
  apply_lines_sound ls pos [] (out ++ line_bytes l) d,
  append_assoc out (line_bytes l) (concat (new_side ls)),
)
apply_lines_sound (l ∷ ls) pos (s ∷ rest) out d h = ground (
  arith,
  bytes_eq_sound s (line_bytes l),
  apply_lines_sound ls pos (s ∷ rest) (out ++ line_bytes l) d,
  apply_lines_sound ls (pos + 1) rest (out ++ s) d,
  apply_lines_sound ls (pos + 1) rest out d,
  append_assoc out (line_bytes l) (concat (new_side ls)),
)

-- Turning a hunk around swaps its sides.
pub old_side-reversed :
    (ls : List HunkLine) → All IsOp ls → old_side (map reversed_line ls) ≡ new_side ls
unfolding old_side new_side
old_side-reversed [] v = refl
old_side-reversed (l ∷ ls) (v, vs) = ground (arith, old_side-reversed ls vs)

pub new_side-reversed :
    (ls : List HunkLine) → All IsOp ls → new_side (map reversed_line ls) ≡ old_side ls
unfolding old_side new_side
new_side-reversed [] v = refl
new_side-reversed (l ∷ ls) (v, vs) = ground (arith, new_side-reversed ls vs)

concat-cons_line : (c : ℕ) (ls : List Bytes) → concat (cons_line c ls) ≡ c ∷ concat ls
unfolding cons_line
concat-cons_line c [] = refl
concat-cons_line c (l ∷ ls) = refl

-- A file is the concatenation of its lines.
pub concat-file_lines : (s : Bytes) → concat (file_lines s) ≡ s
unfolding file_lines
concat-file_lines [] = refl
concat-file_lines (c ∷ s) = ground (arith, concat-file_lines s, concat-cons_line c (file_lines s))
