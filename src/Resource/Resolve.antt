-- ===== src/Resource/Resolve.antt =====
-- internal/resource/resource.go: from a resource as the caller names it to its canonical identity.
use evident_output.Prelude.{ℕ, zero, suc, Bool, not, [], Bytes, bytes_eq, is_empty, if◌then◌else◌}
use evident_output.Resource.Key.{Key, fs, logical}

-- What package filepath and package strings do to a path or a name.
pub record FilePaths : Type 0 where
  pub is_abs : Bytes → Bool
  pub clean : Bytes → Bytes
  pub join : Bytes → Bytes → Bytes
  pub dir : Bytes → Bytes
  pub base : Bytes → Bytes
  pub trim_space : Bytes → Bytes

-- What `filepath.EvalSymlinks` answers.
pub data Evaluated : Type 0 where
  real : Bytes → Evaluated
  not_exist eval_failed : Evaluated

pub data Resource : Type 0 where
  fs_resource logical_resource : Bytes → Resource

pub data Resolved (A : Type 0) : Type 0 where
  resolved : A → Resolved A
  invalid failed out_of_fuel : Resolved A

module _ (fp : FilePaths) (eval_symlinks : Bytes → Evaluated) where
  -- The loop of `canonicalPath`.
  unfoldable pub canonical_from : ℕ → Bytes → Bytes → Bytes → Resolved Bytes
  canonical_from zero path existing tail = out_of_fuel
  canonical_from (suc fuel) path existing tail =
      let parent = fp.dir existing in
      let rest = canonical_from fuel path parent (fp.join (fp.base existing) tail) in
      elim (eval_symlinks existing) [
        | real r ↦ resolved (fp.join r tail)
        | eval_failed ↦ failed
        | not_exist ↦ if bytes_eq parent existing then resolved path else rest
      ]

  unfoldable pub canonical_path : ℕ → Bytes → Resolved Bytes
  unfolding canonical_from
  canonical_path fuel path = canonical_from fuel path path []

  abbrev pub as_fs_key : Resolved Bytes → Resolved Key
  as_fs_key (resolved p) = resolved (record { space = fs; name = p })
  as_fs_key invalid = invalid
  as_fs_key failed = failed
  as_fs_key out_of_fuel = out_of_fuel

  unfoldable pub resolve_fs : ℕ → Bytes → Bytes → Resolved Key
  unfolding canonical_path
  resolve_fs fuel path workspace =
      if is_empty path
      then invalid
      else if fp.is_abs path
      then as_fs_key (canonical_path fuel (fp.clean path))
      else if not (fp.is_abs workspace)
      then invalid
      else as_fs_key (canonical_path fuel (fp.clean (fp.join workspace path)))

  unfoldable pub resolve : ℕ → Resource → Bytes → Resolved Key
  unfolding resolve_fs
  resolve fuel (fs_resource path) workspace = resolve_fs fuel path workspace
  resolve fuel (logical_resource name) workspace =
      let trimmed = fp.trim_space name in
      if is_empty trimmed then invalid else resolved (record { space = logical; name = trimmed })
