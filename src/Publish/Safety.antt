-- ===== src/Publish/Safety.antt =====
-- What a recovery of internal/publish deletes and keeps, and what it leaves at the destination.
use text.Mathlib.Text.{◌==◌ as str_eq}
use evident_output.Prelude.{
  Bool, true, false, not, ◌&&◌, ◌||◌, List, [], ◌∷◌, ◌++◌, String, ◌≡◌, ◌≢◌, refl, sym, ◌∙◌, ap,
  if◌then◌else◌, inl, inr, Bool-cases, append-nil, append_assoc, ap₂, arith,
}
use evident_output.Publish.Decide.{
  Tree, absent, unreadable, digest, Evidence, RecoveryOutcome, intact, restored_original,
  completed_replacement, unrecoverable, Leftover, Decision, decide, is_original, is_replacement,
  original, sort_leftovers, paths,
}

-- Not live, and holding a tree that the commit planned with.
abbrev pub is_proven : Evidence → Leftover → Bool
is_proven ev l = not l.live && (is_original ev l.tree || is_replacement ev l.tree)

-- The paths that a recovery may delete, and those that it keeps, when it restores `restore`.
abbrev pub deletable : Evidence → String → List Leftover → List String
deletable ev restore [] = []
deletable ev restore (l ∷ found) =
    (if str_eq l.path restore then [] else if is_proven ev l then l.path ∷ [] else [])
    ++ deletable ev restore found

abbrev pub retained : Evidence → String → List Leftover → List String
retained ev restore [] = []
retained ev restore (l ∷ found) =
    (if str_eq l.path restore then [] else if is_proven ev l then [] else l.path ∷ [])
    ++ retained ev restore found

abbrev pub decision : RecoveryOutcome → String → List String → List String → Decision
decision o r rs ks = record { outcome = o; restore = r; remove = rs; kept = ks }

sort_one :
    (ev : Evidence) (found : List Leftover) (o : RecoveryOutcome) (r p : String)
    (rs ks : List String)
    → ((rs ks : List String)
        → sort_leftovers ev found (decision o r rs ks)
          ≡ decision o r (rs ++ deletable ev r found) (ks ++ retained ev r found))
    → (same proven : Bool)
    → sort_leftovers ev found (
        if same
        then decision o r rs ks
        else if proven
        then decision o r (rs ++ p ∷ []) ks
        else decision o r rs (ks ++ p ∷ []))
      ≡ decision o r
          (rs ++ ((if same then [] else if proven then p ∷ [] else []) ++ deletable ev r found))
          (ks ++ ((if same then [] else if proven then [] else p ∷ []) ++ retained ev r found))
sort_one ev found o r p rs ks rest true proven = rest rs ks
sort_one ev found o r p rs ks rest false true =
    rest (rs ++ p ∷ []) ks
    ∙ ap (λ rs. decision o r rs (ks ++ retained ev r found))
        (append_assoc rs (p ∷ []) (deletable ev r found))
sort_one ev found o r p rs ks rest false false =
    rest rs (ks ++ p ∷ [])
    ∙ ap (decision o r (rs ++ deletable ev r found))
        (append_assoc ks (p ∷ []) (retained ev r found))

sort_leftovers_lem :
    (ev : Evidence) (found : List Leftover) (o : RecoveryOutcome) (r : String) (rs ks : List String)
    → sort_leftovers ev found (decision o r rs ks)
      ≡ decision o r (rs ++ deletable ev r found) (ks ++ retained ev r found)
unfolding sort_leftovers
sort_leftovers_lem ev [] o r rs ks = ap₂ (decision o r) (sym (append-nil rs)) (sym (append-nil ks))
sort_leftovers_lem ev (l ∷ found) o r rs ks =
    sort_one ev found o r l.path rs ks (sort_leftovers_lem ev found o r) (str_eq l.path r)
      (is_proven ev l)

-- Neither the destination nor, where it is gone, any leftover proves a planned tree.
abbrev pub undecided : Evidence → Tree → List Leftover → Bool
undecided ev absent found = str_eq (original ev found) ""
undecided ev unreadable found = true
undecided ev (digest t) found = not (is_original ev t) && not (is_replacement ev t)

abbrev pub planned_restore : Evidence → Tree → List Leftover → String
planned_restore ev absent found = original ev found
planned_restore ev unreadable found = ""
planned_restore ev (digest t) found = ""

-- Undecided, a recovery restores and deletes nothing and keeps every leftover.
pub decide-undecided :
    (ev : Evidence) (tree : Tree) (found : List Leftover)
    → undecided ev tree found ≡ true
    → decide ev tree found ≡ (decision unrecoverable "" [] (paths found), false)
unfolding decide
decide-undecided ev absent found h = rw h refl
decide-undecided ev unreadable found h = refl
decide-undecided ev (digest t) found h = ground arith

pub decide-decided :
    (ev : Evidence) (tree : Tree) (found : List Leftover)
    → undecided ev tree found ≡ false
    → let r = planned_restore ev tree found in
      (o : RecoveryOutcome) × (o ≢ unrecoverable)
      × (decide ev tree found ≡ (decision o r (deletable ev r found) (retained ev r found), true))
unfolding decide
decide-decided ev absent found h = (
  restored_original,
  ground arith,
  rw h (
      ap (λ d. (d, true))
        (sort_leftovers_lem ev found restored_original (original ev found) [] [])),
)
decide-decided ev unreadable found h = ground arith
decide-decided ev (digest t) found h = elim (Bool-cases (is_original ev t)) [
  | inl same ↦ (
    intact,
    ground arith,
    rw same (ap (λ d. (d, true)) (sort_leftovers_lem ev found intact "" [] [])),
  )
  | inr other ↦ elim (Bool-cases (is_replacement ev t)) [
    | inl same ↦ (
      completed_replacement,
      ground arith,
      rw other (
          rw same
            (ap (λ d. (d, true)) (sort_leftovers_lem ev found completed_replacement "" [] []))),
    )
    | inr neither ↦ ground arith
  ]
]
