-- ===== src/Publish/Crash.antt =====
-- A commit of internal/publish that is killed: what recover.go finds in each state that commit.go
-- passes through.
use text.Mathlib.Text.{◌==◌ as str_eq}
use evident_output.Prelude.{
  Bool, true, false, not, [], ◌∷◌, Option, none, some, String, ◌≡◌, inl, inr, refl, sym, ◌∙◌, ap,
  if_cases, All, All-append, Bool-cases, Option-cases, arith,
}
use evident_output.Publish.Decide.{digest, Evidence}
use evident_output.Publish.Settled.{is_planned}
use evident_output.Publish.Commit.{
  Disk, Staged, CommitError, Moves, Guard, Outcome, moves, verified, require_staged, commit_locked,
  clean_up, discarded, commit,
}
use evident_output.Publish.Disk.{
  IsDisk, AreNames, IsRecoverable, IsLate, IsLate-IsRecoverable, IsMoved, moved, unmoved,
}
use evident_output.Publish.Swap.{original_planned, replacement_planned, move_tree-IsMoved}
use evident_output.Publish.RollBack.{IsEnded, old_apart, roll_back_tree-IsEnded, whole, left}

module _ {W : Type 0} (os : Disk W) (ev : Evidence) (s : Staged) (aside rejected : String) where
  module _ (laws : IsDisk os) (names : AreNames s.dest s.temp aside rejected)
      (some_original : str_eq ev.original "" ≡ false)
      (some_replacement : str_eq ev.replacement "" ≡ false) where
    verified-IsEnded :
        (g : Guard W) (allowed : Bool) (m : Moves W)
        → s.tree ≡ true
        → (IsMoved os ev s aside rejected) m
        → (IsEnded os ev s aside rejected laws names some_original some_replacement)
            (verified os s g allowed aside rejected m)
    unfolding verified
    verified-IsEnded g allowed m tree (unmoved e error old late before) =
        rw (error, verified) (left old (inl late) before)
    verified-IsEnded g allowed m tree (moved error d which orig before) =
        let planned =
          (replacement_planned os ev s aside rejected laws names some_original some_replacement) _
            d in
        let named = old_named in
        elim (Bool-cases (g.verify m.world)) [
          | inl good ↦
              rw (error, good, verified)
                (whole planned
                  (λ p.
                    (old_apart os ev s aside rejected laws names some_original some_replacement)
                      m.old s.dest names.temp_dest names.aside_dest which (sym p))
                  before)
          | inr bad ↦
              rw (error, bad, verified)
                (if_cases (IsEnded os ev s aside rejected laws names some_original some_replacement)
                  (not s.tree) _ _ (λ h. absurd (ground (arith, h, tree)))
                  (λ _.
                    (roll_back_tree-IsEnded os ev s aside rejected laws names some_original
                        some_replacement)
                      m.old m.world m.passed named which orig planned before))
        ]
      where
        named_as : (t : String) → m.old ≡ t → str_eq t "" ≡ false → str_eq m.old "" ≡ false
        named_as t e h = rw e h

        old_named : str_eq m.old "" ≡ false
        old_named = elim which [
          | inl e ↦ named_as s.temp e names.temp_named
          | inr e ↦ named_as aside e names.aside_named
        ]

    commit_locked-IsEnded :
        (g : Guard W) (allowed cancelled : Bool) (w : W)
        → s.tree ≡ true
        → os.files.tree w s.dest ≡ digest ev.original
        → os.files.tree w s.temp ≡ digest ev.replacement
        → (IsEnded os ev s aside rejected laws names some_original some_replacement)
            (commit_locked os s g allowed aside rejected cancelled w)
    unfolding commit_locked
    commit_locked-IsEnded g allowed cancelled w tree orig repl =
        if_cases (IsEnded os ev s aside rejected laws names some_original some_replacement)
          cancelled _ _ (λ _. stopped CommitError.ended)
          (λ _. elim (Option-cases (require_staged os s w)) [
            | inr (e, h) ↦ rw (h, commit_locked) (stopped e)
            | inl h ↦ elim (Option-cases (g.revalidate w)) [
              | inr (e, k) ↦ rw (h, k, commit_locked) (stopped e)
              | inl k ↦
                  rw (h, k, commit_locked)
                    (verified-IsEnded g allowed _ tree (
                      if_cases (IsMoved os ev s aside rejected) s.tree _ _
                        (λ _.
                          (move_tree-IsMoved os ev s aside rejected laws names some_original
                              some_replacement)
                            allowed w orig repl)
                        (λ f. absurd (ground (arith, f, tree)))))
            ]
          ])
      where
        stopped :
            (e : CommitError)
            → (IsEnded os ev s aside rejected laws names some_original some_replacement)
                (record { moves = moves os s w [] "" (some e); staged = s })
        stopped e =
            left refl
              (inl (
                inl (
                  (original_planned os ev s aside rejected laws names some_original
                      some_replacement)
                    _ orig)))
              tt

    clean_up-IsEnded :
        (g : Guard W) (allowed : Bool) (o : Outcome W)
        → (IsEnded os ev s aside rejected laws names some_original some_replacement) o
        → (IsEnded os ev s aside rejected laws names some_original some_replacement) (record {
          moves = (clean_up os s g allowed aside rejected o.moves).0;
          staged = o.staged;
        })
    unfolding clean_up
    clean_up-IsEnded g allowed o (left old w before) = rw (old, clean_up) (left refl w before)
    clean_up-IsEnded g allowed o (whole planned other before) =
        let w = (os.files.remove o.moves.world o.moves.old).0 in
        let still : is_planned ev (os.files.tree w s.dest) ≡ true =
          ap (is_planned ev) (laws.remove_apart o.moves.world o.moves.old s.dest other) ∙ planned in
        elim (Bool-cases (str_eq o.moves.old "")) [
          | inl none_moved ↦ rw (none_moved, clean_up) (whole planned other before)
          | inr some_moved ↦
              rw (some_moved, clean_up)
                (whole still other (
                  All-append (IsRecoverable os ev s aside rejected) o.moves.passed (w ∷ []) before
                    (inl still, tt)))
        ]

    -- All the way, and in the end, the destination is recoverable.
    abbrev IsSafe : Moves W → Type 0
    IsSafe m =
        All (IsRecoverable os ev s aside rejected) m.passed
        × (IsRecoverable os ev s aside rejected) m.world

    IsEnded-IsSafe :
        (o : Outcome W)
        → (IsEnded os ev s aside rejected laws names some_original some_replacement) o
        → IsSafe o.moves
    IsEnded-IsSafe o (whole planned other before) = (before, inl planned)
    IsEnded-IsSafe o (left old (inl late) before) =
        (before, (IsLate-IsRecoverable os ev s aside rejected) _ late)
    IsEnded-IsSafe o (left old (inr (spent, r)) before) = (before, r)

    discard-IsLate :
        (w : W)
        → (IsLate os ev s aside rejected) w
        → (IsLate os ev s aside rejected) (os.discard w s.temp)
    discard-IsLate w (inl planned) = inl (
        ap (is_planned ev) (laws.discard_apart w s.temp s.dest (λ p. names.temp_dest (sym p)))
        ∙ planned)
    discard-IsLate w (inr (gone, orig)) = inr (
      laws.discard_apart w s.temp s.dest (λ p. names.temp_dest (sym p)) ∙ gone,
      laws.discard_apart w s.temp aside names.aside_temp ∙ orig,
    )

    discarded-IsLate :
        (g : Guard W) (allowed : Bool) (o : Outcome W)
        → (IsLate os ev s aside rejected) o.moves.world
        → All (IsRecoverable os ev s aside rejected) o.moves.passed
        → IsSafe (discarded os s g allowed aside rejected o.staged o.moves)
    unfolding discarded
    discarded-IsLate g allowed o late before =
        let later =
          (IsLate-IsRecoverable os ev s aside rejected) _ (discard-IsLate o.moves.world late) in
        if_cases IsSafe o.staged.spent _ _
          (λ _. (before, (IsLate-IsRecoverable os ev s aside rejected) _ late))
          (λ _. (
            All-append (IsRecoverable os ev s aside rejected) o.moves.passed _ before (later, tt),
            later,
          ))

    discarded-IsSafe :
        (g : Guard W) (allowed : Bool) (o : Outcome W)
        → (IsEnded os ev s aside rejected laws names some_original some_replacement) o
        → IsSafe (discarded os s g allowed aside rejected o.staged o.moves)
    unfolding discarded
    discarded-IsSafe g allowed o (whole planned other before) =
        discarded-IsLate g allowed o (inl planned) before
    discarded-IsSafe g allowed o (left old (inl late) before) =
        discarded-IsLate g allowed o late before
    discarded-IsSafe g allowed o (left old (inr (spent, r)) before) =
        rw (spent, discarded) (before, r)

    finish :
        (g : Guard W) (allowed : Bool) (o : Outcome W)
        → (IsEnded os ev s aside rejected laws names some_original some_replacement) o
        → (e : Option CommitError)
        → IsSafe (elim e [
          | none ↦ o.moves
          | some _ ↦ discarded os s g allowed aside rejected o.staged o.moves
        ])
    finish g allowed o ended none = IsEnded-IsSafe o ended
    finish g allowed o ended (some e) = discarded-IsSafe g allowed o ended

    -- A commit of a tree over a tree that is killed at any time leaves the destination recoverable:
    -- before it begins, after each change that it makes to the file system, and in the end, either
    -- the destination holds the whole original or the whole replacement, or it is gone and the
    -- original stands beside it. That holds with and without an exchange, whichever calls fail, and
    -- on every way back. The names are different, and the file system keeps what it promises.
    pub commit-IsRecoverable :
        (g : Guard W) (allowed locked cancelled : Bool) (w : W)
        → s.tree ≡ true
        → os.files.tree w s.dest ≡ digest ev.original
        → os.files.tree w s.temp ≡ digest ev.replacement
        → All
            (IsRecoverable os ev s aside rejected)
            (w ∷ (commit os s g allowed aside rejected locked cancelled w).passed)
          × (IsRecoverable os ev s aside rejected)
              (commit os s g allowed aside rejected locked cancelled w).world
    unfolding commit
    commit-IsRecoverable g allowed locked cancelled w tree orig repl =
        let o = commit_locked os s g allowed aside rejected cancelled w in
        let ended = commit_locked-IsEnded g allowed cancelled w tree orig repl in
        let cleaned = clean_up-IsEnded g allowed o ended in
        let start : (IsRecoverable os ev s aside rejected) w = inl (
          (original_planned os ev s aside rejected laws names some_original some_replacement) _
            orig) in
        let m = (clean_up os s g allowed aside rejected o.moves).0 in
        let rest : IsSafe (commit os s g allowed aside rejected locked cancelled w) =
          if_cases IsSafe s.spent _ _ (λ _. (tt, start))
            (λ _.
              if_cases IsSafe (not locked) _ _
                (λ _.
                  discarded-IsLate g allowed
                    (record { moves = moves os s w [] "" (some CommitError.failed); staged = s })
                    (inl (
                      (original_planned os ev s aside rejected laws names some_original
                          some_replacement)
                        _ orig))
                    tt)
                (λ _.
                  finish g allowed (record { moves = m; staged = o.staged }) cleaned m.error)) in
        ((start, rest.0), rest.1)
