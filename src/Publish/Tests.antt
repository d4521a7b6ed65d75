-- ===== src/Publish/Tests.antt =====
-- Recoveries, commits and removals of internal/publish at a destination of their own.
use evident_output.Prelude.{
  ◌∙◌, Bool-cases, inl, inr, sym, true, false, List, [], ◌∷◌, none, some, String, ◌≡◌, ◌≢◌, refl,
  ap, arith, if◌then◌else◌, All,
}
use evident_output.Publish.Decide.{
  Tree, absent, digest, Evidence, unrecoverable, restored_original, Leftover, decide, paths,
  original, same_tree, sort_leftovers,
}
use evident_output.Publish.Apply.{
  FileSystem, settle_locked, apply_decision, apply_removals, restore_original, remove_all,
}
use evident_output.Publish.Safety.{deletable}
use evident_output.Publish.Settled.{is_planned, settle_locked-planned}
use evident_output.Publish.Commit.{Kind, missing, directory, Disk, Staged, Guard, commit}
use evident_output.Publish.Disk.{IsDisk, AreNames, IsRecoverable}
use evident_output.Publish.Crash.{commit-IsRecoverable}
use evident_output.Publish.Removal.{remove, remove-IsUntouched, IsUntouched}
use evident_output.Publish.Inspect.{leased, plan_recover}
use evident_output.Publish.Resumed.{plan_recover-IsRecoverable}
use text.Mathlib.Text.{◌==◌ as str_eq}
use text.Mathlib.TextEquality.{eq_iff}

abbrev planned : Evidence
planned = record { original = "old"; replacement = "new" }

-- The original set aside, a staged replacement, and a tree that nobody can account for.
abbrev beside : List Leftover
beside =
    record { path = "was"; tree = "old"; live = false }
    ∷ record { path = "stage"; tree = "new"; live = false }
    ∷ record { path = "odd"; tree = "else"; live = false }
    ∷ []

abbrev odd_only : List Leftover
odd_only = record { path = "odd"; tree = "else"; live = false } ∷ []

-- A world is the destination's tree; a rename of the set-aside original brings it back.
abbrev disk : FileSystem Tree
disk = record {
  tree = λ w p. if str_eq p "dest" then w else absent;
  rename = λ w from to. if str_eq from "was" then some (digest "old") else none;
  remove = λ w p. (w, true);
}

decide-beside : (decide planned absent beside).1 ≡ true
unfolding decide original same_tree
decide-beside = refl

deletable-beside : deletable planned "was" beside ≡ "stage" ∷ []
unfolding same_tree
deletable-beside = refl

beside-outcome :
    (settle_locked disk planned "dest" beside true absent).1.outcome ≡ restored_original
unfolding settle_locked apply_decision apply_removals restore_original remove_all decide original
    same_tree sort_leftovers
beside-outcome = refl

beside-restored : (settle_locked disk planned "dest" beside true absent).1.outcome ≢ unrecoverable
beside-restored e = ground (arith, beside-outcome, e)

other_name : {p : String} → str_eq p "dest" ≡ false → p ≢ "dest"
other_name h e = ground (arith, h, ap (λ s. str_eq s "dest") e)

beside-apart : All (λ p. p ≢ "dest") (paths beside)
beside-apart = (other_name refl, (other_name refl, (other_name refl, tt)))

settle_locked-planned_example :
    is_planned planned (disk.tree ((settle_locked disk planned "dest" beside true absent).0) "dest")
    ≡ true
settle_locked-planned_example =
    settle_locked-planned disk planned "dest" (λ w p other. refl) beside absent beside-apart
      beside-restored

-- A world says what stands at each path. A rename needs another name and an entry that is there, and
-- no two entries are exchanged at once.
abbrev put : (String → Tree) → String → Tree → String → Tree
put w p t q = if str_eq q p then t else w q

abbrev kind_of : Tree → Kind
kind_of absent = missing
kind_of Tree.unreadable = Kind.unreadable
kind_of (digest t) = directory

kind_of-missing : (t : Tree) → kind_of t ≡ missing → t ≡ absent
kind_of-missing absent e = refl
kind_of-missing Tree.unreadable e = cc e
kind_of-missing (digest t) e = cc e

abbrev paths_disk : Disk (String → Tree)
paths_disk = record {
  files = record {
    tree = λ w p. w p;
    rename = λ w a b. if str_eq a b then none else some (put (put w b (w a)) a absent);
    remove = λ w p. (put w p absent, true);
  };
  kind = λ w p. kind_of (w p);
  exchange = λ w a b. none;
  discard = λ w p. put w p absent;
  unlink = λ w p. some (put w p absent);
}

same_name : (p : String) → str_eq p p ≡ true
same_name p = (eq_iff p p).1 refl

not_same : (p q : String) → p ≢ q → str_eq p q ≡ false
not_same p q h = elim (Bool-cases (str_eq p q)) [
  | inl e ↦ absurd (h ((eq_iff p q).0 e))
  | inr e ↦ e
]

rename-put :
    (w w' : String → Tree) (a b : String)
    → paths_disk.files.rename w a b ≡ some w'
    → w' ≡ put (put w b (w a)) a absent
rename-put w w' a b e = elim (Bool-cases (str_eq a b)) [
  | inl same ↦ absurd (cc (rw same at e))
  | inr differs ↦ sym (ap (λ o. elim o [ none ↦ w | some x ↦ x ]) (rw differs at e))
]

paths_disk-IsDisk : IsDisk paths_disk
paths_disk-IsDisk = record {
  renamed = λ w w' a b apart e.
      rw (rename-put w w' a b e, same_name a, same_name b, not_same b a (λ p. apart (sym p)))
        (refl, refl);
  rename_apart =
      λ w w' a b p e pa pb. rw (rename-put w w' a b e, not_same p a pa, not_same p b pb) refl;
  exchanged = λ w w' a b e. cc;
  remove_apart = λ w a p h. rw (not_same p a h) refl;
  discard_apart = λ w a p h. rw (not_same p a h) refl;
  unlinked = λ w w' a e.
      ap (λ x. x a) (sym (ap (λ o. elim o [ none ↦ w | some x ↦ x ]) e)) ∙ rw (same_name a) refl;
  missing_absent = λ w p e. kind_of-missing (w p) e;
}

abbrev staged : Staged
staged = record { dest = "dest"; temp = "temp"; tree = true; spent = false }

-- The original at the destination and the replacement beside it.
abbrev before_commit : String → Tree
before_commit = put (put (λ p. absent) "dest" (digest "old")) "temp" (digest "new")

different : {p q : String} → str_eq p q ≡ false → p ≢ q
different h e = ground (arith, h, (eq_iff _ _).1 e)

staged-AreNames : AreNames "dest" "temp" "aside" "rejected"
staged-AreNames = record {
  temp_dest = different refl;
  aside_dest = different refl;
  aside_temp = different refl;
  rejected_dest = different refl;
  rejected_temp = different refl;
  rejected_aside = different refl;
  temp_named = refl;
  aside_named = refl;
}

-- The check after the move refuses it.
abbrev refused : Guard (String → Tree)
refused = record { revalidate = λ w. none; verify = λ w. false }

commit-IsRecoverable_example :
    let m = commit paths_disk staged refused true "aside" "rejected" true false before_commit in
    All (IsRecoverable paths_disk planned staged "aside" "rejected") (before_commit ∷ m.passed)
    × IsRecoverable paths_disk planned staged "aside" "rejected" m.world
commit-IsRecoverable_example =
    commit-IsRecoverable paths_disk planned staged "aside" "rejected" paths_disk-IsDisk
      staged-AreNames refl refl refused true true false before_commit refl refl refl

-- The commit was killed after it had moved the original aside.
abbrev killed : String → Tree
killed = put (put before_commit "dest" absent) "aside" (digest "old")

plan_recover-IsRecoverable_example :
    (plan_recover paths_disk.files planned "dest" true
      (some ("temp" ∷ "aside" ∷ []))
      (λ p. leased)
      killed).1
    ≡ true
plan_recover-IsRecoverable_example =
    plan_recover-IsRecoverable paths_disk planned staged "aside" "rejected" ("temp" ∷ "aside" ∷ [])
      (λ p. leased) killed refl (inr (refl, inl refl)) (λ e. refl) (λ e. refl) (refl, (refl, tt))
      (refl, (refl, tt))

-- A check that is passed.
abbrev passing : Guard (String → Tree)
passing = record { revalidate = λ w. none; verify = λ w. true }

remove-IsUntouched_example :
    let r = remove paths_disk "dest" "aside" passing false true false before_commit in
    All
      (IsUntouched paths_disk "dest" "aside" passing paths_disk-IsDisk
        (different refl)
        (digest "old"))
      r.passed
    × IsUntouched paths_disk "dest" "aside" passing paths_disk-IsDisk
        (different refl)
        (digest "old")
        r.world
    × (false ≡ false
        → passing.revalidate before_commit ≡ none
        → r.error ≡ none
        → r.world "dest" ≡ absent)
remove-IsUntouched_example =
    remove-IsUntouched paths_disk "dest" "aside" passing paths_disk-IsDisk (different refl) false
      true false before_commit
