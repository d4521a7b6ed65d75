-- ===== src/Patch/Edits.antt =====
-- What it means that a file's hunks turn one list of lines into another, independently of the
-- cursor of internal/patch/hunk.go, and that `apply` computes exactly that.
use evident_output.Prelude.{
  ℕ, ◌+◌, ◌-◌, List, [], ◌∷◌, ◌++◌, Option, none, some, Bytes, length, take, drop, concat, ◌≡◌, ◌≢◌,
  ◌⊎◌, inl, inr, ◌↔◌, refl, sym, ◌∙◌, ap, subst, arith, append_assoc, length-append,
  take-append-drop, take-length_append, drop-length_append, length-take, concat-append,
}
use evident_output.Patch.Errors.{malformed, ok, err, >>=-eq-ok, ok_injective}
use evident_output.Patch.Hunk.{
  Hunk, File, Cursor, hunk_start, apply_at, apply_hunk, apply_hunks, apply, start_at, file_lines,
}
use evident_output.Patch.Lines.{old_side, new_side, apply_lines_complete, apply_lines_sound}

-- A hunk's old side starts at the line of index `i`: its header counts lines from 1, and an empty
-- range names the line before it.
abbrev pub StartsAt : Hunk → ℕ → Type 0
StartsAt h i = ((h.old_count ≡ 0) × (h.old_start ≡ i)) ⊎ ((h.old_count ≢ 0) × (h.old_start ≡ i + 1))

hunk_start-StartsAt : (h : Hunk) (i : ℕ) → hunk_start h ≡ some i → StartsAt h i
hunk_start-StartsAt h i e = ground arith

StartsAt-hunk_start : (h : Hunk) (i : ℕ) → StartsAt h i → hunk_start h ≡ some i
StartsAt-hunk_start h i (inl e) = ground arith
StartsAt-hunk_start h i (inr e) = ground arith

pub StartsAt-unique : (h : Hunk) (pos a b : ℕ) → StartsAt h (pos + a) → StartsAt h (pos + b) → a ≡ b
StartsAt-unique h pos a b (inl e) (inl f) = omega (arith, e.1, f.1)
StartsAt-unique h pos a b (inl e) (inr f) = absurd (f.0 e.0)
StartsAt-unique h pos a b (inr e) (inl f) = absurd (e.0 f.0)
StartsAt-unique h pos a b (inr e) (inr f) = omega (arith, e.1, f.1)

-- The hunks turn `src`, the lines from index `pos` on, into `new`: each hunk keeps the gap up to
-- its start, and replaces its old side by its new side.
pub data Edits : List Hunk → ℕ → List Bytes → List Bytes → Type 0 where
  done : {pos : ℕ} {src : List Bytes} → Edits [] pos src src
  hunk :
      {h : Hunk} {hs : List Hunk} {pos : ℕ} {src new : List Bytes} (gap rest rest' : List Bytes)
      → StartsAt h (pos + length gap)
      → src ≡ gap ++ (old_side h.lines ++ rest)
      → new ≡ gap ++ (new_side h.lines ++ rest')
      → Edits hs (pos + length gap + length (old_side h.lines)) rest rest'
      → Edits (h ∷ hs) pos src new

apply_at_complete :
    (h : Hunk) (pos : ℕ) (gap rest : List Bytes) (out : Bytes)
    → apply_at h
        (record { pos = pos; rest = gap ++ (old_side h.lines ++ rest); out = out })
        (pos + length gap)
      ≡ ok (record {
        pos = pos + length gap + length (old_side h.lines);
        rest = rest;
        out = (out ++ concat gap) ++ concat (new_side h.lines);
      })
unfolding apply_at
apply_at_complete h pos gap rest out =
    let e : pos + length gap - pos ≡ length gap = omega arith in
    rw (e, take-length_append gap, drop-length_append gap)
      (ground (
        arith,
        length-append gap (old_side h.lines ++ rest),
        apply_lines_complete h.lines (pos + length gap) rest (out ++ concat gap),
      ))

apply_at_sound :
    (h : Hunk) (pos : ℕ) (src : List Bytes) (out : Bytes) (d : Cursor) (start : ℕ)
    → apply_at h (record { pos = pos; rest = src; out = out }) start ≡ ok d
    → let gap = take (start - pos) src in
      (start ≡ pos + length gap)
      × (src ≡ gap ++ (old_side h.lines ++ d.rest))
      × (d.pos ≡ pos + length gap + length (old_side h.lines))
      × (d.out ≡ (out ++ concat gap) ++ concat (new_side h.lines))
unfolding apply_at
apply_at_sound h pos src out d start e = ground (
  arith,
  length-take (start - pos) src,
  take-append-drop (start - pos) src,
  apply_lines_sound h.lines start (drop (start - pos) src) (out ++ concat (take (start - pos) src))
      d,
)

apply_hunk-start :
    (h : Hunk) (c : Cursor) (start : ℕ)
    → hunk_start h ≡ some start
    → apply_hunk h c ≡ apply_at h c start
unfolding apply_hunk
apply_hunk-start h c start e = ground arith

apply_hunk-ok :
    (h : Hunk) (c d : Cursor)
    → apply_hunk h c ≡ ok d
    → (start : ℕ) × (hunk_start h ≡ some start) × (apply_at h c start ≡ ok d)
unfolding apply_hunk
apply_hunk-ok h c d e = from_start (hunk_start h) refl e
  where
    from_start :
        (s : Option ℕ)
        → hunk_start h ≡ s
        → elim s [ none ↦ err malformed | some start ↦ apply_at h c start ] ≡ ok d
        → (start : ℕ) × (hunk_start h ≡ some start) × (apply_at h c start ≡ ok d)
    from_start none s e' = cc
    from_start (some start) s e' = (start, s, e')

-- The bytes that the output already holds and those of a gap, a new side and the rest.
concat_parts :
    (out : Bytes) (gap side rest : List Bytes)
    → ((out ++ concat gap) ++ concat side) ++ concat rest ≡ out ++ concat (gap ++ (side ++ rest))
concat_parts out gap side rest = simp (concat-append, append_assoc)

-- The hunks apply exactly when there is such an edit, and the output is its lines in a row.
apply_hunks_complete :
    {hs : List Hunk} {pos : ℕ} {src new : List Bytes} (out : Bytes)
    → Edits hs pos src new
    → (c : Cursor) × (apply_hunks hs (record { pos = pos; rest = src; out = out }) ≡ ok c)
      × (c.out ++ concat c.rest ≡ out ++ concat new)
unfolding apply_hunks
apply_hunks_complete {pos} {src} out done =
    (record { pos = pos; rest = src; out = out }, refl, refl)
apply_hunks_complete {pos} {src} {new} out (hunk {h} {hs} gap rest rest' e s n edits) =
    let (c, run, same) =
      apply_hunks_complete ((out ++ concat gap) ++ concat (new_side h.lines)) edits in
    (
      c,
      rw
          (
            apply_hunk-start h _ _ (StartsAt-hunk_start h _ e),
            s,
            apply_at_complete h pos gap rest out,
          )
          run,
      same ∙ concat_parts out gap (new_side h.lines) rest' ∙ ap (λ l. out ++ concat l) (sym n),
    )

apply_hunks_sound :
    (hs : List Hunk) (pos : ℕ) (src : List Bytes) (out : Bytes) (c : Cursor)
    → apply_hunks hs (record { pos = pos; rest = src; out = out }) ≡ ok c
    → (new : List Bytes) × Edits hs pos src new × (c.out ++ concat c.rest ≡ out ++ concat new)
unfolding apply_hunks
apply_hunks_sound [] pos src out c e = (src, done, ground arith)
apply_hunks_sound (h ∷ hs) pos src out c e =
    let cur : Cursor = record { pos = pos; rest = src; out = out } in
    let (d, first, more) = >>=-eq-ok (apply_hunk h cur) (apply_hunks hs) e in
    let (start, starts, at) = apply_hunk-ok h cur d first in
    let (es, er, ep, eo) = apply_at_sound h pos src out d start at in
    let gap = take (start - pos) src in
    let (new, edits, same) = apply_hunks_sound hs d.pos d.rest d.out c more in
    (
      gap ++ (new_side h.lines ++ new),
      hunk gap d.rest new (hunk_start-StartsAt h _ (starts ∙ ap some es)) er refl
          (subst (λ k. Edits hs k d.rest new) ep edits),
      same ∙ ap (λ o. o ++ concat new) eo ∙ concat_parts out gap (new_side h.lines) new,
    )

-- `apply` succeeds exactly when the hunks edit the file's lines, and then returns the edited lines
-- in a row.
pub apply_iff :
    (f : File) (old new : Bytes)
    → (apply f old ≡ ok new)
      ↔ ((lines : List Bytes) × Edits f.hunks 0 (file_lines old) lines × (new ≡ concat lines))
unfolding apply
apply_iff f old new = (
  λ e.
      (let (c, run, ret) = >>=-eq-ok (apply_hunks f.hunks (start_at old)) _ e in
        let (lines, edits, same) = apply_hunks_sound f.hunks 0 (file_lines old) [] c run in
        (lines, edits, sym (ok_injective _ _ ret) ∙ same)),
  λ p. (let (c, run, same) = apply_hunks_complete [] p.1 in rw run (ap ok (same ∙ sym p.2))),
)
