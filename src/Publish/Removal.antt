-- ===== src/Publish/Removal.antt =====
-- internal/publish/commit.go: deleting a destination, with every state of the file system on the way.
use text.Mathlib.Text.{◌==◌ as str_eq}
use evident_output.Prelude.{
  Bool, true, false, not, List, [], ◌∷◌, ◌++◌, Option, none, some, String, if◌then◌else◌, ◌≡◌, ◌⊎◌,
  inl, inr, refl, ◌∙◌, ap, if_cases, All, All-append, Bool-cases, Option-cases, ◌≢◌,
}
use evident_output.Publish.Decide.{Tree, absent}
use evident_output.Publish.Commit.{
  Kind, missing, unreadable, directory, entry, Disk, CommitError, ended, failed, Moves, Guard,
  final_error,
}
use evident_output.Publish.Disk.{IsDisk}

module _ {W : Type 0} (os : Disk W) (dest aside : String) (g : Guard W) where
  abbrev pub stay : W → Option CommitError → Moves W
  stay w e = record { world = w; passed = []; old = ""; error = e }

  abbrev pub after_verify : W → List W → String → Moves W
  after_verify w passed old = record {
    world = w;
    passed = passed;
    old = old;
    error = if g.verify w then none else some failed;
  }

  -- `removeLocked`. `aside` is the fresh `stagingName`.
  unfoldable pub remove_locked : Bool → W → Moves W
  remove_locked cancelled w = if cancelled then stay w (some ended) else elim (g.revalidate w) [
    | some e ↦ stay w (some e)
    | none ↦ elim (os.kind w dest) [
      | missing ↦ after_verify w [] ""
      | unreadable ↦ stay w (some failed)
      | directory ↦ elim (os.files.rename w dest aside) [
        | none ↦ stay w (some failed)
        | some w' ↦ after_verify w' (w' ∷ []) aside
      ]
      | entry ↦ elim (os.unlink w dest) [
        | none ↦ stay w (some failed)
        | some w' ↦ after_verify w' (w' ∷ []) ""
      ]
    ]
  ]

  -- `Remove`. `orphan` says that the destination's directory does not exist.
  unfoldable pub remove : Bool → Bool → Bool → W → Moves W
  unfolding remove_locked final_error
  remove orphan locked cancelled w =
      let m = remove_locked cancelled w in
      let (w', removed) = os.files.remove m.world m.old in
      if orphan
      then stay w none
      else if not locked
      then stay w (some failed)
      else if str_eq m.old ""
      then record m { error = final_error true m.error }
      else record {
        world = w';
        passed = m.passed ++ w' ∷ [];
        old = m.old;
        error = final_error removed m.error;
      }

  module _ (laws : IsDisk os) (apart : dest ≢ aside) where
    -- The destination is as it was, or gone.
    abbrev pub IsUntouched : Tree → W → Type 0
    IsUntouched t w = (os.files.tree w dest ≡ t) ⊎ (os.files.tree w dest ≡ absent)

    -- A removal that was not satisfied beforehand and reports no error has removed the destination.
    abbrev IsRemoved : Option CommitError → W → Moves W → Type 0
    IsRemoved v w m =
        All (IsUntouched (os.files.tree w dest)) m.passed
        × IsUntouched (os.files.tree w dest) m.world
        × ((b : Bool)
            → v ≡ none
            → final_error b m.error ≡ none
            → os.files.tree m.world dest ≡ absent)
        × ((m.old ≡ "") ⊎ (m.old ≡ aside))

    remove_locked-IsRemoved :
        (cancelled : Bool) (w : W) → IsRemoved (g.revalidate w) w (remove_locked cancelled w)
    unfolding remove_locked final_error
    remove_locked-IsRemoved cancelled w =
        if_cases (IsRemoved (g.revalidate w) w) cancelled _ _
          (λ _. stayed (g.revalidate w) ended (λ b v k. cc k))
          (λ _. elim (Option-cases (g.revalidate w)) [
            | inr (e, h) ↦ rw (h, remove_locked) (stayed (some e) e (λ b v k. cc v))
            | inl h ↦ rw (h, remove_locked) (by_kind (os.kind w dest) refl)
          ])
      where
        stayed :
            (v : Option CommitError) (e : CommitError)
            → ((b : Bool)
                → v ≡ none
                → final_error b (some e) ≡ none
                → os.files.tree w dest ≡ absent)
            → IsRemoved v w (stay w (some e))
        stayed v e refused = (tt, inl refl, refused, inl refl)

        by_kind :
            (k : Kind)
            → os.kind w dest ≡ k
            → IsRemoved none w (elim k [
              | missing ↦ after_verify w [] ""
              | unreadable ↦ stay w (some failed)
              | directory ↦ elim (os.files.rename w dest aside) [
                | none ↦ stay w (some failed)
                | some w' ↦ after_verify w' (w' ∷ []) aside
              ]
              | entry ↦ elim (os.unlink w dest) [
                | none ↦ stay w (some failed)
                | some w' ↦ after_verify w' (w' ∷ []) ""
              ]
            ])
        by_kind missing h = (tt, inl refl, (λ b v k. laws.missing_absent w dest h), inl refl)
        by_kind unreadable h = stayed none failed (λ b v k. cc k)
        by_kind directory h = elim (Option-cases (os.files.rename w dest aside)) [
          | inl e ↦ rw e (stayed none failed (λ b v k. cc k))
          | inr (w', e) ↦
              let gone = (laws.renamed w w' dest aside apart e).1 in
              rw e ((inr gone, tt), inr gone, (λ b v k. gone), inr refl)
        ]
        by_kind entry h = elim (Option-cases (os.unlink w dest)) [
          | inl e ↦ rw e (stayed none failed (λ b v k. cc k))
          | inr (w', e) ↦
              let gone = laws.unlinked w w' dest e in
              rw e ((inr gone, tt), inr gone, (λ b v k. gone), inl refl)
        ]

    elsewhere : (old : String) → (old ≡ "") ⊎ (old ≡ aside) → str_eq old "" ≡ false → dest ≢ old
    elsewhere old (inl e) named = absurd (cc (ap (λ x. str_eq x "") e, named))
    elsewhere old (inr e) named = λ p. apart (p ∙ e)

    moved_on :
        (w m w' : W)
        → os.files.tree w' dest ≡ os.files.tree m dest
        → IsUntouched (os.files.tree w dest) m
        → IsUntouched (os.files.tree w dest) w'
    moved_on w m w' same (inl e) = inl (same ∙ e)
    moved_on w m w' same (inr e) = inr (same ∙ e)

    -- A removal that is killed at any time leaves the destination as it was, or gone: a directory is
    -- moved aside at once, and never deleted in place. Where its directory exists, the lock was
    -- obtained and the guard did not find the removal satisfied beforehand, a removal without an
    -- error has removed the destination. The file system keeps what it promises, and the name of
    -- the place aside is another one.
    pub remove-IsUntouched :
        (orphan locked cancelled : Bool) (w : W)
        → let r = remove orphan locked cancelled w in
          All (IsUntouched (os.files.tree w dest)) r.passed
          × IsUntouched (os.files.tree w dest) r.world
          × (orphan ≡ false
              → g.revalidate w ≡ none
              → r.error ≡ none
              → os.files.tree r.world dest ≡ absent)
    unfolding remove
    remove-IsUntouched orphan locked cancelled w =
        let m = remove_locked cancelled w in
        let (all, last, ok, names) = remove_locked-IsRemoved cancelled w in
        elim (Bool-cases orphan) [
          | inl o ↦ rw (o, remove) (tt, inl refl, λ n v e. cc n)
          | inr o ↦ elim (Bool-cases locked) [
            | inr l ↦ rw (o, l, remove) (tt, inl refl, λ n v e. cc e)
            | inl l ↦ elim (Bool-cases (str_eq m.old "")) [
              | inl k ↦ rw (o, l, k, remove) (all, last, λ n v e. ok true v e)
              | inr k ↦
                  let same = laws.remove_apart m.world m.old dest (elsewhere m.old names k) in
                  let still = moved_on w m.world (os.files.remove m.world m.old).0 same last in
                  rw (o, l, k, remove)
                    (
                      All-append _ m.passed _ all (still, tt),
                      still,
                      λ n v e. same ∙ ok (os.files.remove m.world m.old).1 v e,
                    )
            ]
          ]
        ]
