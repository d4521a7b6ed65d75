-- ===== src/Publish/Settled.antt =====
-- What `settleLocked` of internal/publish/recover.go leaves at the destination.
use text.Mathlib.Text.{◌==◌ as str_eq}
use evident_output.Prelude.{
  Bool, true, false, not, ◌||◌, List, [], ◌∷◌, ◌++◌, String, ◌≡◌, ◌≢◌, refl, sym, ◌∙◌, ap, subst,
  if◌then◌else◌, inl, inr, Bool-cases, Option-cases, All, All-append, arith, if_cases,
}
use evident_output.Publish.Decide.{
  Tree, absent, unreadable, digest, Evidence, unrecoverable, Leftover, Decision, is_original,
  is_replacement, paths,
}
use evident_output.Publish.Safety.{
  is_proven, deletable, retained, undecided, decision, planned_restore, decide-decided,
  decide-undecided,
}
use evident_output.Publish.Apply.{
  FileSystem, Recovery, restore_original, remove_all, apply_removals, apply_decision, settle_locked,
  holds_original,
}

-- The tree is one that the commit planned with.
abbrev pub is_planned : Evidence → Tree → Bool
is_planned ev absent = false
is_planned ev unreadable = false
is_planned ev (digest t) = is_original ev t || is_replacement ev t

deletable-All :
    (P : String → Type 0) (ev : Evidence) (r : String) (found : List Leftover)
    → All P (paths found)
    → All P (deletable ev r found)
deletable-All P ev r [] h = h
deletable-All P ev r (l ∷ found) (hl, h) =
    All-append P (if str_eq l.path r then [] else if is_proven ev l then l.path ∷ [] else [])
      (deletable ev r found)
      (if_cases (All P) (str_eq l.path r) [] (if is_proven ev l then l.path ∷ [] else []) (λ s. tt)
        (λ s. if_cases (All P) (is_proven ev l) (l.path ∷ []) [] (λ s. (hl, tt)) (λ s. tt)))
      (deletable-All P ev r found h)

planned_restore-planned :
    (ev : Evidence) (t : Tree) (found : List Leftover)
    → undecided ev t found ≡ false
    → str_eq (planned_restore ev t found) "" ≡ true
    → is_planned ev t ≡ true
planned_restore-planned ev absent found h nothing = ground arith
planned_restore-planned ev unreadable found h nothing = ground arith
planned_restore-planned ev (digest t) found h nothing = ground arith

module _ {W : Type 0} (os : FileSystem W) (ev : Evidence) (dest : String) where
  -- Where nothing proves what the destination should hold, a recovery leaves the file system as it
  -- was, and reports the destination as unrecoverable and every leftover as kept.
  pub settle_locked-undecided :
      (found : List Leftover) (apply : Bool) (w : W)
      → undecided ev (os.tree w dest) found ≡ true
      → settle_locked os ev dest found apply w
        ≡ (w, record { outcome = unrecoverable; kept = paths found }, false)
  unfolding settle_locked
  settle_locked-undecided found apply w h = rw (decide-undecided ev (os.tree w dest) found h) refl

  remove_all-dest :
      ((w : W) (p : String) → p ≢ dest → os.tree ((os.remove w p).0) dest ≡ os.tree w dest)
      → (ps : List String) (w : W) (kept : List String) → All (λ p. p ≢ dest) ps
      → os.tree ((remove_all os ev dest ps w kept).0) dest ≡ os.tree w dest
  unfolding remove_all
  remove_all-dest remove-dest [] w kept h = refl
  remove_all-dest remove-dest (p ∷ ps) w kept (hp, h) =
      let (w', removed) = os.remove w p in
      remove_all-dest remove-dest ps w' (if removed then kept else kept ++ p ∷ []) h
      ∙ remove-dest w p hp

  apply_removals-planned :
      ((w : W) (p : String) → p ≢ dest → os.tree ((os.remove w p).0) dest ≡ os.tree w dest)
      → (d : Decision) (w : W) → All (λ p. p ≢ dest) d.remove
      → is_planned ev (os.tree w dest) ≡ true
      → is_planned ev (os.tree ((apply_removals os ev dest d w).0) dest) ≡ true
  unfolding apply_removals
  apply_removals-planned remove-dest d w apart h =
      rw (remove_all-dest remove-dest d.remove w d.kept apart) h

  holds_original-planned : (t : Tree) → holds_original os ev dest t ≡ true → is_planned ev t ≡ true
  holds_original-planned absent h = h
  holds_original-planned unreadable h = h
  holds_original-planned (digest t) h = rw h refl

  restore_original-planned :
      (w : W) (from : String)
      → (restore_original os ev dest w from).1 ≡ true
      → is_planned ev (os.tree ((restore_original os ev dest w from).0) dest) ≡ true
  unfolding restore_original
  restore_original-planned w from h = elim (Option-cases (os.rename w from dest)) [
    | inl failed ↦ ground arith
    | inr (w', renamed) ↦
        rw (renamed, restore_original)
          (holds_original-planned (os.tree w' dest) (rw (renamed, restore_original) at h))
  ]

  apply_decision-planned :
      ((w : W) (p : String) → p ≢ dest → os.tree ((os.remove w p).0) dest ≡ os.tree w dest)
      → (d : Decision) (w : W) → All (λ p. p ≢ dest) d.remove
      → (str_eq d.restore "" ≡ true → is_planned ev (os.tree w dest) ≡ true)
      → let (w', recovery, done) = apply_decision os ev dest d w in
        recovery.outcome ≢ unrecoverable → is_planned ev (os.tree w' dest) ≡ true
  unfolding apply_decision
  apply_decision-planned remove-dest d w apart h = elim (Bool-cases (str_eq d.restore "")) [
    | inl nothing ↦ rw nothing (λ ended. apply_removals-planned remove-dest d w apart (h nothing))
    | inr from ↦ elim (Bool-cases ((restore_original os ev dest w d.restore).1)) [
      | inl restored ↦
          rw (from, restored)
            (λ ended.
              apply_removals-planned remove-dest d ((restore_original os ev dest w d.restore).0)
                apart (restore_original-planned w d.restore restored))
      | inr failed ↦ rw (from, failed) (λ ended. absurd (ended refl))
    ]
  ]

  -- A recovery that applies and does not end as unrecoverable leaves a planned tree at the
  -- destination, when no leftover is at the destination itself and a removal elsewhere does not
  -- change the destination's tree.
  pub settle_locked-planned :
      ((w : W) (p : String) → p ≢ dest → os.tree ((os.remove w p).0) dest ≡ os.tree w dest)
      → (found : List Leftover) (w : W) → All (λ p. p ≢ dest) (paths found)
      → let (w', recovery, done) = settle_locked os ev dest found true w in
        recovery.outcome ≢ unrecoverable → is_planned ev (os.tree w' dest) ≡ true
  unfolding settle_locked
  settle_locked-planned remove-dest found w apart ended =
      elim (Bool-cases (undecided ev (os.tree w dest) found)) [
        | inl h ↦ absurd (ended (ap (λ x. x.1.outcome) (settle_locked-undecided found true w h)))
        | inr h ↦
            let (o, ne, eq) = decide-decided ev (os.tree w dest) found h in
            let r = planned_restore ev (os.tree w dest) found in
            let d = decision o r (deletable ev r found) (retained ev r found) in
            subst (λ x. x.1.outcome ≢ unrecoverable → is_planned ev (os.tree x.0 dest) ≡ true)
              (sym (ap (λ x. apply_decided x) eq))
              (apply_decision-planned remove-dest d w
                (deletable-All (λ p. p ≢ dest) ev r found apart)
                (planned_restore-planned ev (os.tree w dest) found h))
              ended
      ]
    where
      apply_decided : Decision × Bool → W × Recovery × Bool
      apply_decided x =
          if not x.1 || false
          then (w, record { outcome = x.0.outcome; kept = x.0.kept }, x.1)
          else apply_decision os ev dest x.0 w
