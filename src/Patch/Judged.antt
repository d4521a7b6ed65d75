-- ===== src/Patch/Judged.antt =====
-- What a file edit holds that internal/patch/header.go or internal/patch/standard.go has judged
-- representable.
use evident_output.Prelude.{[], ◌≡◌, sym, subst, arith, inl, inr, ◌⊎◌, All, if◌then◌else◌}
use evident_output.Patch.Errors.{ok}
use evident_output.Patch.Hunk.{File}
use evident_output.Patch.Counts.{WellCounted}
use evident_output.Patch.Header.{Header}
use evident_output.Patch.Target.{
  workspace_path, safe_workspace_path, IsBeneath, workspace_path-IsBeneath,
  safe_workspace_path-IsBeneath,
}
use evident_output.Patch.Judge.{file, standard_file, standard_paths, side_paths}

-- An edit that stays beneath the root of the patch, and whose hunks hold what their headers count.
pub record IsSafe (f : File) : Type 0 where
  pub target : IsBeneath f.path
  pub source : (f.from ≡ []) ⊎ IsBeneath f.from
  pub counted : All WellCounted f.hunks

file-inv :
    (h : Header) (f : File)
    → file h ≡ ok f
    → (workspace_path (side_paths h).1 ≡ ok f.path) × (f.from ≡ []) × (f.hunks ≡ h.hunks)
unfolding file
file-inv h f e = ground arith

pub file-IsSafe : (h : Header) (f : File) → All WellCounted h.hunks → file h ≡ ok f → IsSafe f
file-IsSafe h f w e =
    let (p, s, k) = file-inv h f e in
    record {
      target = workspace_path-IsBeneath _ f.path p;
      source = inl s;
      counted = subst (All WellCounted) (sym k) w;
    }

standard_file-inv :
    (h : Header) (f : File)
    → standard_file h ≡ ok f
    → (safe_workspace_path (if f.delete then (standard_paths h).0 else (standard_paths h).1)
        ≡ ok f.path)
      × ((f.from ≡ []) ⊎ (safe_workspace_path (standard_paths h).0 ≡ ok f.from))
      × (f.hunks ≡ h.hunks)
unfolding standard_file
standard_file-inv h f e = ground arith

pub standard_file-IsSafe :
    (h : Header) (f : File) → All WellCounted h.hunks → standard_file h ≡ ok f → IsSafe f
standard_file-IsSafe h f w e =
    let (p, s, k) = standard_file-inv h f e in
    record {
      target = (safe_workspace_path-IsBeneath _ f.path p).0;
      source = source_of s;
      counted = subst (All WellCounted) (sym k) w;
    }
  where
    source_of :
        (f.from ≡ []) ⊎ (safe_workspace_path (standard_paths h).0 ≡ ok f.from)
        → (f.from ≡ []) ⊎ IsBeneath f.from
    source_of (inl s) = inl s
    source_of (inr s) = inr (safe_workspace_path-IsBeneath _ f.from s).0
