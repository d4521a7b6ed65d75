-- ===== src/Patch/Target.antt =====
-- internal/patch/patch.go and internal/patch/standard.go: the paths that a patch may touch.
use evident_output.Prelude.{
  ℕ, ◌+◌, Bool, true, false, ◌&&◌, List, [], ◌∷◌, ◌≡◌, refl, inl, inr, Bool-cases, bytes_eq_sound,
  subst, arith, if◌then◌else◌, Bytes, bytes_eq, leb, ◌==◌, any, map, split_on, join_with, is_empty,
  All, codes,
}
use evident_output.Paths.Clean.{slash, is_abs, clean}
use evident_output.Paths.Beneath.{escapes, IsNormal, clean-beneath}
use evident_output.Patch.Errors.{Result, ok, err, malformed, unsafe_path}

unfoldable pub workspace_path : Bytes → Result Bytes
workspace_path raw =
    if is_empty raw
    then err malformed
    else if is_abs raw
    then err malformed
    else if escapes (clean raw)
    then err malformed
    else ok (clean raw)

-- The simple case folding of `strings.EqualFold`, on the letters of ".git", which no letter outside
-- ASCII folds to.
abbrev pub fold_case : ℕ → ℕ
fold_case c = if leb b'A' c && leb c b'Z' then c + 32 else c

abbrev pub is_git : Bytes → Bool
is_git part = bytes_eq (map fold_case part) (codes ".git")

unfoldable pub safe_workspace_path : Bytes → Result Bytes
safe_workspace_path raw =
    if is_empty raw
    then err malformed
    else if any (λ c. c == 0) raw
    then err unsafe_path
    else if is_abs raw
    then err unsafe_path
    else if escapes (clean raw)
    then err unsafe_path
    else if any is_git (split_on slash (clean raw))
    then err unsafe_path
    else ok (clean raw)

-- A path made of one or more ordinary components.
pub record IsBeneath (p : Bytes) : Type 0 where
  pub parts : List Bytes
  pub normal : All IsNormal parts
  pub some_part : is_empty parts ≡ false
  pub spelled : p ≡ join_with slash parts

clean-IsBeneath :
    (raw : Bytes) → is_abs raw ≡ false → escapes (clean raw) ≡ false → IsBeneath (clean raw)
clean-IsBeneath raw a e =
    let (parts, n, s, j) = clean-beneath raw a e in
    record { parts = parts; normal = n; some_part = s; spelled = j }

workspace_path-inv :
    (raw p : Bytes)
    → workspace_path raw ≡ ok p
    → (is_abs raw ≡ false) × (escapes (clean raw) ≡ false) × (clean raw ≡ p)
unfolding workspace_path
workspace_path-inv raw p h = ground arith

safe_workspace_path-inv :
    (raw p : Bytes)
    → safe_workspace_path raw ≡ ok p
    → (is_abs raw ≡ false)
      × (escapes (clean raw) ≡ false)
      × (clean raw ≡ p)
      × (any is_git (split_on slash (clean raw)) ≡ false)
unfolding safe_workspace_path
safe_workspace_path-inv raw p h = ground arith

-- A path that the parser accepts is relative and stays beneath the root of the patch: it is one or
-- more ordinary components, none of them empty, `.` or `..`.
pub workspace_path-IsBeneath : (raw p : Bytes) → workspace_path raw ≡ ok p → IsBeneath p
workspace_path-IsBeneath raw p h =
    let (a, e, c) = workspace_path-inv raw p h in subst IsBeneath c (clean-IsBeneath raw a e)

-- `.git` in lower, upper and mixed case.
abbrev pub git_spellings : List Bytes
git_spellings =
    codes ".git"
    ∷ codes ".giT"
    ∷ codes ".gIt"
    ∷ codes ".gIT"
    ∷ codes ".Git"
    ∷ codes ".GiT"
    ∷ codes ".GIt"
    ∷ codes ".GIT"
    ∷ []

no_spelling :
    (name : Bytes) (parts : List Bytes)
    → is_git name ≡ true
    → any is_git parts ≡ false
    → any (bytes_eq name) parts ≡ false
no_spelling name [] g h = refl
no_spelling name (part ∷ parts) g h = elim (Bool-cases (bytes_eq name part)) [
  | inl e ↦
      let same : name ≡ part = bytes_eq_sound name part e in
      absurd (ground (arith, h, rw same at g))
  | inr e ↦ ground (arith, e, no_spelling name parts g (ground (arith, h)))
]

no_spellings :
    (parts names : List Bytes)
    → All (λ name. is_git name ≡ true) names
    → any is_git parts ≡ false
    → All (λ name. any (bytes_eq name) parts ≡ false) names
no_spellings parts [] gs h = tt
no_spellings parts (name ∷ names) (g, gs) h =
    (no_spelling name parts g h, no_spellings parts names gs h)

git_spellings-is_git : All (λ name. is_git name ≡ true) git_spellings
unfolding bytes_eq
git_spellings-is_git = (refl, (refl, (refl, (refl, (refl, (refl, (refl, (refl, tt))))))))

pub safe_workspace_path-IsBeneath :
    (raw p : Bytes)
    → safe_workspace_path raw ≡ ok p
    → IsBeneath p × All (λ name. any (bytes_eq name) (split_on slash p) ≡ false) git_spellings
safe_workspace_path-IsBeneath raw p h =
    let (a, e, c, g) = safe_workspace_path-inv raw p h in
    (
      subst IsBeneath c (clean-IsBeneath raw a e),
      no_spellings (split_on slash p) git_spellings git_spellings-is_git
          (subst (λ q. any is_git (split_on slash q) ≡ false) c g),
    )
