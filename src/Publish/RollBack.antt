-- ===== src/Publish/RollBack.antt =====
-- internal/publish/commit.go: what taking a refused tree back leaves behind.
use text.Mathlib.Text.{◌==◌ as str_eq}
use evident_output.Prelude.{
  true, false, List, [], ◌∷◌, ◌++◌, some, String, ◌≡◌, ◌≢◌, ◌⊎◌, inl, inr, refl, sym, ◌∙◌, ap, All,
  All-append, Option-cases,
}
use evident_output.Publish.Decide.{absent, digest, Evidence}
use evident_output.Publish.Settled.{is_planned}
use evident_output.Publish.Commit.{
  Disk, Staged, CommitError, Outcome, moves, roll_aside, roll_back_tree,
}
use evident_output.Publish.Disk.{IsDisk, AreNames, IsRecoverable, IsLate}
use evident_output.Publish.Swap.{original_planned}

module _ {W : Type 0} (os : Disk W) (ev : Evidence) (s : Staged) (aside rejected : String) where
  module _ (laws : IsDisk os) (names : AreNames s.dest s.temp aside rejected)
      (some_original : str_eq ev.original "" ≡ false)
      (some_replacement : str_eq ev.replacement "" ≡ false) where
    -- What the part of a commit under the lock ends in.
    pub data IsEnded (o : Outcome W) : Type 0 where
      whole :
          is_planned ev (os.files.tree o.moves.world s.dest) ≡ true
          → s.dest ≢ o.moves.old
          → All (IsRecoverable os ev s aside rejected) o.moves.passed
          → IsEnded o
      left :
          o.moves.old ≡ ""
          → ((IsLate os ev s aside rejected) o.moves.world)
            ⊎ ((o.staged.spent ≡ true) × (IsRecoverable os ev s aside rejected) o.moves.world)
          → All (IsRecoverable os ev s aside rejected) o.moves.passed
          → IsEnded o

    pub old_apart :
        (old p : String) → s.temp ≢ p → aside ≢ p → (old ≡ s.temp) ⊎ (old ≡ aside) → old ≢ p
    old_apart old p t a (inl e) q = t (sym e ∙ q)
    old_apart old p t a (inr e) q = a (sym e ∙ q)

    pub old-IsRecoverable :
        (old : String) (w : W)
        → (old ≡ s.temp) ⊎ (old ≡ aside)
        → os.files.tree w s.dest ≡ absent
        → os.files.tree w old ≡ digest ev.original
        → (IsRecoverable os ev s aside rejected) w
    old-IsRecoverable old w (inl e) gone o = inr (gone, inr (ap (os.files.tree w) (sym e) ∙ o))
    old-IsRecoverable old w (inr e) gone o = inr (gone, inl (ap (os.files.tree w) (sym e) ∙ o))

    -- The way back, from a world with the replacement at the destination and the original at `old`.
    pub roll_aside-IsEnded :
        (old : String) (w : W) (passed : List W)
        → str_eq old "" ≡ false
        → (old ≡ s.temp) ⊎ (old ≡ aside)
        → os.files.tree w old ≡ digest ev.original
        → is_planned ev (os.files.tree w s.dest) ≡ true
        → All (IsRecoverable os ev s aside rejected) passed
        → let r = roll_aside os s old rejected w in
          IsEnded (record {
            moves = moves os s r.world (passed ++ r.passed) r.old (some CommitError.failed);
            staged = record s { spent = true };
          })
    unfolding roll_aside
    roll_aside-IsEnded old w passed named which orig planned before =
        elim (Option-cases (os.files.rename w s.dest rejected)) [
          | inl e ↦
              rw (e, roll_aside)
                (left refl (inl (inl planned))
                  (All-append (IsRecoverable os ev s aside rejected) passed [] before tt))
          | inr (w₁, e) ↦
              let gone =
                (laws.renamed w w₁ s.dest rejected (λ p. names.rejected_dest (sym p)) e).1 in
              let not_rejected =
                old_apart old rejected (λ p. names.rejected_temp (sym p))
                  (λ p. names.rejected_aside (sym p)) which in
              let not_dest = old_apart old s.dest names.temp_dest names.aside_dest which in
              let kept =
                laws.rename_apart w w₁ s.dest rejected old e not_dest not_rejected ∙ orig in
              let r = old-IsRecoverable old w₁ which gone kept in
              elim (Option-cases (os.files.rename w₁ old s.dest)) [
                | inl f ↦
                    rw (e, named, f, roll_aside)
                      (left refl (inr (refl, r)) (
                        All-append (IsRecoverable os ev s aside rejected) passed (w₁ ∷ []) before
                          (r, tt)))
                | inr (w₂, f) ↦
                    let back =
                      (original_planned os ev s aside rejected laws names some_original
                          some_replacement)
                        _
                        ((laws.renamed w₁ w₂ old s.dest
                            (old_apart old s.dest names.temp_dest names.aside_dest which) f).0
                          ∙ kept) in
                    rw (e, named, f, roll_aside)
                      (whole back (λ p. names.rejected_dest (sym p))
                        (All-append (IsRecoverable os ev s aside rejected) passed (w₁ ∷ w₂ ∷ [])
                          before (r, (inl back, tt))))
              ]
        ]

    pub roll_back_tree-IsEnded :
        (old : String) (w : W) (passed : List W)
        → str_eq old "" ≡ false
        → (old ≡ s.temp) ⊎ (old ≡ aside)
        → os.files.tree w old ≡ digest ev.original
        → is_planned ev (os.files.tree w s.dest) ≡ true
        → All (IsRecoverable os ev s aside rejected) passed
        → let r = roll_back_tree os s old rejected w in
          IsEnded (record {
            moves = moves os s r.world (passed ++ r.passed) r.old (some CommitError.failed);
            staged = record s { spent = true };
          })
    unfolding roll_back_tree
    roll_back_tree-IsEnded old w passed named which orig planned before =
        elim (Option-cases (os.exchange w old s.dest)) [
          | inl e ↦
              rw (named, e, roll_back_tree)
                (roll_aside-IsEnded old w passed named which orig planned before)
          | inr (w', e) ↦
              let back =
                (original_planned os ev s aside rejected laws names some_original some_replacement)
                  _ ((laws.exchanged w w' old s.dest e).0 ∙ orig) in
              rw (named, e, roll_back_tree)
                (whole back
                  (λ p. old_apart old s.dest names.temp_dest names.aside_dest which (sym p))
                  (All-append (IsRecoverable os ev s aside rejected) passed (w' ∷ []) before
                    (inl back, tt)))
        ]
