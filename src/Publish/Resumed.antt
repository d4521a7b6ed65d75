-- ===== src/Publish/Resumed.antt =====
-- A recovery of internal/publish after a commit that was killed.
use text.Mathlib.Text.{◌==◌ as str_eq}
use text.Mathlib.TextEquality.{eq_iff}
use evident_output.Prelude.{
  true, false, List, [], ◌∷◌, some, String, ◌≡◌, inl, inr, refl, ◌∙◌, ap, All, Bool-cases, any,
  arith, map,
}
use evident_output.Publish.Decide.{
  Tree, absent, unreadable, digest, Evidence, Leftover, original, is_original, same_tree,
}
use evident_output.Publish.Apply.{FileSystem, settle_locked}
use evident_output.Publish.Safety.{undecided, decide-decided}
use evident_output.Publish.Settled.{is_planned}
use evident_output.Publish.Inspect.{
  Lease, leased, inspect_leftovers, settle, plan_recover, digest_text,
}
use evident_output.Publish.Commit.{Disk, Staged}
use evident_output.Publish.Disk.{IsRecoverable}

module _ {W : Type 0} (os : FileSystem W) (ev : Evidence) (lease : String → Lease) (w : W) where
  -- What is found of entries that are all leased.
  abbrev found_at : List String → List Leftover
  found_at ps = map (λ p. record { path = p; tree = digest_text (os.tree w p); live = false }) ps

  inspect_leftovers-leased :
      (ps : List String)
      → All (λ p. lease p ≡ leased) ps
      → inspect_leftovers os lease w ps ≡ some (found_at ps)
  unfolding inspect_leftovers
  inspect_leftovers-leased [] h = refl
  inspect_leftovers-leased (p ∷ ps) (h, hs) =
      rw (h, inspect_leftovers-leased ps hs, inspect_leftovers) refl

  original_text :
      (p : String)
      → str_eq ev.original "" ≡ false
      → os.tree w p ≡ digest ev.original
      → is_original ev (digest_text (os.tree w p)) ≡ true
  unfolding same_tree
  original_text p nonempty o = rw o (ground (arith, nonempty, eq_iff ev.original ev.original))

  original-found :
      (p : String) (ps : List String)
      → str_eq ev.original "" ≡ false
      → All (λ q. str_eq q "" ≡ false) ps
      → any (λ q. str_eq q p) ps ≡ true
      → os.tree w p ≡ digest ev.original
      → str_eq (original ev (found_at ps)) "" ≡ false
  unfolding original same_tree
  original-found p [] nonempty named here o = cc
  original-found p (q ∷ ps) nonempty (named, rest) here o =
      elim (Bool-cases (is_original ev (digest_text (os.tree w q)))) [
        | inl found ↦ rw found named
        | inr skipped ↦ elim (Bool-cases (str_eq q p)) [
          | inl same ↦ absurd (
              ground (
                arith,
                original_text q nonempty (ap (os.tree w) ((eq_iff q p).0 same) ∙ o),
                skipped,
              ))
          | inr differs ↦
              rw skipped (original-found p ps nonempty rest (ground (arith, here, differs)) o)
        ]
      ]

  decided-planned :
      (t : Tree) (found : List Leftover) → is_planned ev t ≡ true → undecided ev t found ≡ false
  decided-planned absent found h = ground arith
  decided-planned unreadable found h = ground arith
  decided-planned (digest t) found h = ground arith

-- A recovery that obtains the lock and can list the directory has a plan in every state in which a
-- commit may be killed, where no other writer is at work beside the destination: the destination is
-- recoverable, the original has a digest, an original that stands set aside is among the entries, none
-- of which has an empty path, and the lease of every entry is free.
pub plan_recover-IsRecoverable :
    {W : Type 0} (os : Disk W) (ev : Evidence) (s : Staged) (aside rejected : String)
    (entries : List String) (lease : String → Lease) (w : W)
    → str_eq ev.original "" ≡ false
    → IsRecoverable os ev s aside rejected w
    → (os.files.tree w aside ≡ digest ev.original → any (λ q. str_eq q aside) entries ≡ true)
    → (os.files.tree w s.temp ≡ digest ev.original → any (λ q. str_eq q s.temp) entries ≡ true)
    → All (λ q. str_eq q "" ≡ false) entries
    → All (λ q. lease q ≡ leased) entries
    → (plan_recover os.files ev s.dest true (some entries) lease w).1 ≡ true
unfolding plan_recover settle_locked
plan_recover-IsRecoverable os ev s aside rejected entries lease w nonempty r has_aside has_temp
      named free =
    let found = found_at os.files ev lease w entries in
    let decided : undecided ev (os.files.tree w s.dest) found ≡ false = elim r [
      | inl planned ↦ decided-planned os.files ev lease w (os.files.tree w s.dest) found planned
      | inr (gone, inl o) ↦
          rw gone (original-found os.files ev lease w aside entries nonempty named (has_aside o) o)
      | inr (gone, inr o) ↦
          rw gone (original-found os.files ev lease w s.temp entries nonempty named (has_temp o) o)
    ] in
    let (o, ne, eq) = decide-decided ev (os.files.tree w s.dest) found decided in
    rw (inspect_leftovers-leased os.files ev lease w entries free, eq, settle) refl
