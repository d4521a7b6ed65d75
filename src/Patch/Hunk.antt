-- ===== src/Patch/Hunk.antt =====
-- internal/patch/hunk.go: hunks, and a file's edit applied to its prior bytes.
use evident_output.Prelude.{
  ℕ, ◌+◌, ◌-◌, Bool, false, not, ◌&&◌, List, [], ◌∷◌, ◌++◌, Option, none, some, map, ltb, ◌==◌,
  if◌then◌else◌, Bytes, bytes_eq, length, take, drop, concat, is_empty,
}
use evident_output.Patch.Errors.{malformed, does_not_apply, Result, ok, err, ◌>>=◌}

-- A line's operation byte: ' ', '-' or '+'. `eol` is false where the diff says that the file's last
-- line has no newline.
pub record HunkLine : Type 0 where
  pub op : ℕ
  pub text : Bytes
  pub eol : Bool

pub record Hunk : Type 0 where
  pub old_start : ℕ
  pub old_count : ℕ
  pub new_start : ℕ
  pub new_count : ℕ
  pub lines : List HunkLine

abbrev pub op_context : ℕ
op_context = b' '

abbrev pub op_remove : ℕ
op_remove = b'-'

abbrev pub op_add : ℕ
op_add = b'+'

abbrev pub op_no_newline : ℕ
op_no_newline = 92

abbrev pub newline : ℕ
newline = 10

-- An edit of one file. `from` is empty unless the edit renames.
pub record File : Type 0 where
  pub path : Bytes
  pub create : Bool
  pub delete : Bool
  pub from : Bytes
  pub mode : ℕ
  pub hunks : List Hunk

-- The line as it appears in the file: method `bytes`.
abbrev pub line_bytes : HunkLine → Bytes
line_bytes l = if l.eol then l.text ++ newline ∷ [] else l.text

unfoldable pub cons_line : ℕ → List Bytes → List Bytes
cons_line c [] = (c ∷ []) ∷ []
cons_line c (l ∷ ls) = (c ∷ l) ∷ ls

-- The lines of a file, each with its newline; only the last may lack one.
unfoldable pub file_lines : Bytes → List Bytes
unfolding cons_line
file_lines [] = []
file_lines (c ∷ s) =
    let rest = file_lines s in if c == newline then (c ∷ []) ∷ rest else cons_line c rest

-- The loop variables of `Apply`: `rest` is `src[pos:]`.
pub record Cursor : Type 0 where
  pub pos : ℕ
  pub rest : List Bytes
  pub out : Bytes

-- The index where a hunk starts; `none` is -1.
abbrev pub hunk_start : Hunk → Option ℕ
hunk_start h =
    if h.old_count == 0
    then some h.old_start
    else if h.old_start == 0
    then none
    else some (h.old_start - 1)

-- The inner loop of `Apply`.
unfoldable pub apply_lines : List HunkLine → Cursor → Result Cursor
apply_lines [] c = ok c
apply_lines (l ∷ ls) c =
    let added = apply_lines ls (record c { out = c.out ++ line_bytes l }) in
    let matched : Result Cursor = elim c.rest [
      | [] ↦ err does_not_apply
      | s ∷ rest ↦
          if bytes_eq s (line_bytes l)
          then apply_lines ls (record {
            pos = c.pos + 1;
            rest = rest;
            out = if l.op == op_context then c.out ++ s else c.out;
          })
          else err does_not_apply
    ] in
    if l.op == op_add then added else matched

-- A round of the outer loop of `Apply` from the hunk's start on: the checks on the start, the
-- bytes up to it, and the hunk's lines.
unfoldable pub apply_at : Hunk → Cursor → ℕ → Result Cursor
unfolding apply_lines bytes_eq
apply_at h c start =
    if ltb start c.pos
    then err malformed
    else if ltb (length c.rest) (start - c.pos)
    then err does_not_apply
    else apply_lines h.lines (record {
      pos = start;
      rest = drop (start - c.pos) c.rest;
      out = c.out ++ concat (take (start - c.pos) c.rest);
    })

unfoldable pub apply_hunk : Hunk → Cursor → Result Cursor
unfolding apply_at
apply_hunk h c = elim (hunk_start h) [ none ↦ err malformed | some start ↦ apply_at h c start ]

unfoldable pub apply_hunks : List Hunk → Cursor → Result Cursor
unfolding apply_hunk
apply_hunks [] c = ok c
apply_hunks (h ∷ hs) c = do d ← apply_hunk h c; apply_hunks hs d

abbrev pub start_at : Bytes → Cursor
start_at old = record { pos = 0; rest = file_lines old; out = [] }

unfoldable pub apply : File → Bytes → Result Bytes
unfolding apply_hunks file_lines
apply f old = do c ← apply_hunks f.hunks (start_at old); ok (c.out ++ concat c.rest)

abbrev pub reversed_op : ℕ → ℕ
reversed_op op = if op == op_add then op_remove else if op == op_remove then op_add else op

abbrev pub reversed_line : HunkLine → HunkLine
reversed_line l = record l { op = reversed_op l.op }

abbrev pub reversed_hunk : Hunk → Hunk
reversed_hunk h = record {
  old_start = h.new_start;
  old_count = h.new_count;
  new_start = h.old_start;
  new_count = h.old_count;
  lines = map reversed_line h.lines;
}

unfoldable pub reversed : File → File
reversed f = record {
  path = f.path;
  create = false;
  delete = false;
  from = [];
  mode = 0;
  hunks = map reversed_hunk f.hunks;
}

unfoldable pub applied_to : File → Bytes → Bool
applied_to f current = elim (apply (reversed f) current) [
  | err e ↦ false
  | ok prior ↦
      if f.create && not (is_empty prior)
      then false
      else elim (apply f prior) [ err e ↦ false | ok forward ↦ bytes_eq forward current ]
]
