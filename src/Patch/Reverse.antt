-- ===== src/Patch/Reverse.antt =====
-- Turning a patch around undoes it, and the test for an already applied patch of
-- internal/patch/hunk.go recognises its own result.
use evident_output.Prelude.{
  ℕ, ◌+◌, true, false, List, [], ◌∷◌, ◌++◌, map, ◌==◌, Bytes, bytes_eq_refl, length, concat, ◌≡◌,
  refl, sym, ◌∙◌, ap, subst, arith, append_assoc, append-nil, All,
}
use evident_output.Patch.Errors.{ok}
use evident_output.Patch.Hunk.{
  Hunk, File, apply, file_lines, cons_line, newline, reversed_hunk, reversed, applied_to,
}
use evident_output.Patch.Lines.{
  old_side, new_side, IsOp, old_side-reversed, new_side-reversed, concat-file_lines,
}
use evident_output.Patch.Edits.{StartsAt, StartsAt-unique, Edits, done, hunk, apply_iff}

-- The two ranges of each hunk's header fit together: from index `pos` of the old lines and `npos`
-- of the new ones, its two starts lie equally far on.
pub data Aligned : ℕ → ℕ → List Hunk → Type 0 where
  none_left : {pos npos : ℕ} → Aligned pos npos []
  aligned :
      {h : Hunk} {hs : List Hunk} {pos npos : ℕ} (gap : ℕ)
      → StartsAt h (pos + gap)
      → StartsAt (reversed_hunk h) (npos + gap)
      → All IsOp h.lines
      → Aligned (pos + gap + length (old_side h.lines)) (npos + gap + length (new_side h.lines)) hs
      → Aligned pos npos (h ∷ hs)

Edits-reversed :
    {hs : List Hunk} {pos npos : ℕ} {src new : List Bytes}
    → Edits hs pos src new
    → Aligned pos npos hs
    → Edits (map reversed_hunk hs) npos new src
Edits-reversed done none_left = done
Edits-reversed {npos} (hunk {h} {hs} {pos} gap rest rest' e s n edits)
      (aligned g old_at new_at ops more) =
    let same : g ≡ length gap = StartsAt-unique h pos g (length gap) old_at e in
    let more' = Edits-reversed edits (
      subst
        (λ k.
          Aligned (pos + k + length (old_side h.lines)) (npos + k + length (new_side h.lines)) hs)
        same more) in
    let olds = old_side-reversed h.lines ops in
    let news = new_side-reversed h.lines ops in
    hunk gap rest' rest (subst (λ k. StartsAt (reversed_hunk h) (npos + k)) same new_at)
      (n ∙ ap (λ l. gap ++ (l ++ rest')) (sym olds)) (s ∙ ap (λ l. gap ++ (l ++ rest)) (sym news))
      (subst (λ l. Edits (map reversed_hunk hs) (npos + length gap + length l) rest' rest)
        (sym olds) more')

abbrev pub NoNewline : Bytes → Type 0
NoNewline = All (λ c. (c == newline) ≡ false)

-- Lines that a file can have: each ends with its one newline, and only the last may lack it.
pub data IsLines : List Bytes → Type 0 where
  nil : IsLines []
  unended : (c : ℕ) (t : Bytes) → NoNewline (c ∷ t) → IsLines ((c ∷ t) ∷ [])
  ended :
      {l : Bytes} {ls : List Bytes} (t : Bytes)
      → NoNewline t
      → l ≡ t ++ newline ∷ []
      → IsLines ls
      → IsLines (l ∷ ls)

file_lines-ended :
    (t s : Bytes) → NoNewline t → file_lines (t ++ newline ∷ s) ≡ (t ++ newline ∷ []) ∷ file_lines s
unfolding file_lines cons_line
file_lines-ended [] s h = refl
file_lines-ended (c ∷ t) s (h, hs) = rw (h, file_lines-ended t s hs)

file_lines-unended : (c : ℕ) (t : Bytes) → NoNewline (c ∷ t) → file_lines (c ∷ t) ≡ (c ∷ t) ∷ []
unfolding file_lines cons_line
file_lines-unended c [] (h, hs) = rw h
file_lines-unended c (d ∷ t) (h, hs) = rw (h, file_lines-unended d t hs)

pub file_lines-concat : {ls : List Bytes} → IsLines ls → file_lines (concat ls) ≡ ls
unfolding file_lines
file_lines-concat nil = refl
file_lines-concat (unended c t h) = rw append-nil (file_lines-unended c t h)
file_lines-concat (ended {l} {ls} t h e more) = rw e (
    ap file_lines (append_assoc t (newline ∷ []) (concat ls))
    ∙ file_lines-ended t (concat ls) h
    ∙ ap (λ r. (t ++ newline ∷ []) ∷ r) (file_lines-concat more))

-- Where a file's hunks edit its lines into `lines`, with consistent header ranges and lines that a
-- file can have: applying the reversed patch to the result restores the old bytes, and the result
-- is recognised as already patched. A creation starts from an empty file.
pub apply-reversed :
    (f : File) (old : Bytes) (lines : List Bytes)
    → Edits f.hunks 0 (file_lines old) lines
    → Aligned 0 0 f.hunks
    → IsLines lines
    → (f.create ≡ true → old ≡ [])
    → (apply (reversed f) (concat lines) ≡ ok old) × (applied_to f (concat lines) ≡ true)
unfolding applied_to
apply-reversed f old lines edits al text create =
    let forward : apply f old ≡ ok (concat lines) =
      (apply_iff f old (concat lines)).1 (lines, edits, refl) in
    let back : apply (reversed f) (concat lines) ≡ ok old = undo in
    (back, ground (arith, back, forward, bytes_eq_refl (concat lines), create))
  where
    undo : apply (reversed f) (concat lines) ≡ ok old
    undo = (apply_iff (reversed f) (concat lines) old).1 (
      file_lines old,
      unfold reversed in rw (file_lines-concat text) (Edits-reversed edits al),
      sym (concat-file_lines old),
    )
