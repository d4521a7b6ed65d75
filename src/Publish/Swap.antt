-- ===== src/Publish/Swap.antt =====
-- internal/publish/commit.go: what moving a staged tree into place leaves behind.
use text.Mathlib.Text.{◌==◌ as str_eq}
use text.Mathlib.TextEquality.{eq_iff}
use evident_output.Prelude.{
  Bool, true, false, Option, none, some, String, ◌≡◌, inl, inr, refl, sym, ◌∙◌, if◌then◌else◌,
  Option-cases, arith,
}
use evident_output.Publish.Decide.{same_tree, Tree, absent, digest, Evidence}
use evident_output.Publish.Settled.{is_planned}
use evident_output.Publish.Commit.{
  Kind, Disk, Staged, CommitError, move_in, move_aside, move_tree, missing, directory, entry,
}
use evident_output.Publish.Disk.{IsDisk, AreNames, IsMoved, moved, unmoved}

module _ {W : Type 0} (os : Disk W) (ev : Evidence) (s : Staged) (aside rejected : String) where
  module _ (laws : IsDisk os) (names : AreNames s.dest s.temp aside rejected)
      (some_original : str_eq ev.original "" ≡ false)
      (some_replacement : str_eq ev.replacement "" ≡ false) where
    pub original_planned : (t : Tree) → t ≡ digest ev.original → is_planned ev t ≡ true
    unfolding same_tree
    original_planned t e = rw e (ground (arith, some_original, eq_iff ev.original ev.original))

    pub replacement_planned : (t : Tree) → t ≡ digest ev.replacement → is_planned ev t ≡ true
    unfolding same_tree
    replacement_planned t e =
        rw e (ground (arith, some_replacement, eq_iff ev.replacement ev.replacement))

    pub move_in-IsMoved :
        (w₁ : W)
        → os.files.tree w₁ s.dest ≡ absent
        → os.files.tree w₁ aside ≡ digest ev.original
        → os.files.tree w₁ s.temp ≡ digest ev.replacement
        → (IsMoved os ev s aside rejected) (move_in os s aside w₁)
    unfolding move_in
    move_in-IsMoved w₁ gone orig repl = elim (Option-cases (os.files.rename w₁ s.temp s.dest)) [
      | inr (w₂, e) ↦
          let d = (laws.renamed w₁ w₂ s.temp s.dest names.temp_dest e).0 ∙ repl in
          rw (e, move_in)
            (moved refl d (inr refl)
              (laws.rename_apart w₁ w₂ s.temp s.dest aside e names.aside_temp names.aside_dest
                ∙ orig)
              (inr (gone, inl orig), (inl (replacement_planned _ d), tt)))
      | inl e ↦ elim (Option-cases (os.files.rename w₁ aside s.dest)) [
        | inl f ↦
            rw (e, f, move_in)
              (unmoved CommitError.failed refl refl (inr (gone, orig)) (inr (gone, inl orig), tt))
        | inr (w₃, f) ↦
            let d = (laws.renamed w₁ w₃ aside s.dest names.aside_dest f).0 ∙ orig in
            rw (e, f, move_in)
              (unmoved CommitError.failed refl refl (inl (original_planned _ d))
                (inr (gone, inl orig), (inl (original_planned _ d), tt)))
      ]
    ]

    pub move_aside-IsMoved :
        (w : W)
        → os.files.tree w s.dest ≡ digest ev.original
        → os.files.tree w s.temp ≡ digest ev.replacement
        → (IsMoved os ev s aside rejected) (move_aside os s aside w)
    unfolding move_aside
    move_aside-IsMoved w orig repl = elim (Option-cases (os.files.rename w s.dest aside)) [
      | inl e ↦
          rw (e, move_aside)
            (unmoved CommitError.failed refl refl (inl (original_planned _ orig)) tt)
      | inr (w₁, e) ↦
          let (there, gone) = laws.renamed w w₁ s.dest aside (λ p. names.aside_dest (sym p)) e in
          rw (e, move_aside)
            (move_in-IsMoved w₁ gone (there ∙ orig) (
              laws.rename_apart w w₁ s.dest aside s.temp e names.temp_dest
                (λ p. names.aside_temp (sym p))
              ∙ repl))
    ]

    pub allowed_exchange :
        (allowed : Bool) (o : Option W) (w' : W)
        → (if allowed then o else none) ≡ some w'
        → o ≡ some w'
    allowed_exchange true o w' e = e
    allowed_exchange false o w' e = cc

    pub move_tree-IsMoved :
        (allowed : Bool) (w : W)
        → os.files.tree w s.dest ≡ digest ev.original
        → os.files.tree w s.temp ≡ digest ev.replacement
        → (IsMoved os ev s aside rejected) (move_tree os s allowed aside w)
    unfolding move_tree
    move_tree-IsMoved allowed w orig repl = by_kind (os.kind w s.dest) refl
      where
        by_kind :
            (k : Kind)
            → os.kind w s.dest ≡ k
            → (IsMoved os ev s aside rejected) (move_tree os s allowed aside w)
        by_kind missing e = absurd (cc (laws.missing_absent w s.dest e, orig))
        by_kind Kind.unreadable e =
            rw (e, move_tree)
              (unmoved CommitError.failed refl refl (inl (original_planned _ orig)) tt)
        by_kind entry e = rw (e, move_tree) (move_aside-IsMoved w orig repl)
        by_kind directory e =
            elim (Option-cases (if allowed then os.exchange w s.temp s.dest else none)) [
              | inl f ↦ rw (e, f, move_tree) (move_aside-IsMoved w orig repl)
              | inr (w', f) ↦
                  let (there, back) =
                    laws.exchanged w w' s.temp s.dest (allowed_exchange allowed _ w' f) in
                  let d = there ∙ repl in
                  rw (e, f, move_tree)
                    (moved refl d (inl refl) (back ∙ orig) (inl (replacement_planned _ d), tt))
            ]
