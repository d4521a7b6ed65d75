-- ===== src/Patch/Judge.antt =====
-- internal/patch/header.go and internal/patch/standard.go: judging a section representable as an
-- edit of a regular file.
use evident_output.Prelude.{
  ℕ, ◌+◌, ◌*◌, ◌-◌, ◌%◌, Bool, true, false, not, ◌&&◌, ◌||◌, List, [], ◌∷◌, Option, none, some, leb,
  ◌==◌, if◌then◌else◌, Bytes, bytes_eq, length, take, drop, has_prefix, trim_prefix, is_empty,
  codes,
}
use evident_output.Patch.Errors.{
  Result, ok, err, ◌>>=◌, malformed, unsupported, delete_unsupported, rename_unsupported,
  binary_unsupported,
}
use evident_output.Patch.Hunk.{File}
use evident_output.Patch.Header.{Header}
use evident_output.Patch.Target.{workspace_path, safe_workspace_path}

abbrev pub dev_null : Bytes
dev_null = codes "/dev/null"

abbrev prefixed_or_null : Bytes → Bytes → Bool
prefixed_or_null p prefix = bytes_eq p dev_null || has_prefix p prefix

unfoldable pub side_paths : Header → Bytes × Bytes
side_paths h =
    if not h.has_paths
    then (h.git_path, h.git_path)
    else if prefixed_or_null h.old_path (codes "a/") && prefixed_or_null h.new_path (codes "b/")
    then (trim_prefix h.old_path (codes "a/"), trim_prefix h.new_path (codes "b/"))
    else (h.old_path, h.new_path)

-- `strconv.ParseUint s 8 32` of at most three digits, which cannot overflow.
unfoldable pub parse_octal : ℕ → Bytes → Option ℕ
parse_octal acc [] = some acc
parse_octal acc (c ∷ s) =
    let more = parse_octal (acc * 8 + (c - b'0')) s in
    if leb b'0' c && leb c b'7' then more else none

unfoldable pub regular_file_mode : Bytes → Result ℕ
unfolding parse_octal
regular_file_mode raw =
    if is_empty raw
    then ok 0
    else if not (length raw == 6)
    then err malformed
    else if bytes_eq (take 3 raw) (codes "120") || bytes_eq (take 3 raw) (codes "160")
    then err unsupported
    else if not (bytes_eq (take 3 raw) (codes "100"))
    then err malformed
    else elim (parse_octal 0 (drop 3 raw)) [ none ↦ err malformed | some perm ↦ ok perm ]

-- Method `file`: the judge of `Parse`.
unfoldable pub file : Header → Result File
file h =
    let (old_path, new_path) = side_paths h in
    if h.delete || bytes_eq new_path dev_null
    then err delete_unsupported
    else if h.rename
        || (h.has_paths && not (bytes_eq old_path dev_null) && not (bytes_eq old_path new_path))
    then err rename_unsupported
    else if h.binary
    then err binary_unsupported
    else do
      target ← workspace_path new_path
      mode ← regular_file_mode h.mode
      ok (record {
        path = target;
        create = h.create || bytes_eq old_path dev_null;
        delete = false;
        from = [];
        mode = mode;
        hunks = h.hunks;
      })

-- The paths by which `standardFile` judges: a full rename's own.
abbrev pub standard_paths : Header → Bytes × Bytes
standard_paths h =
    if h.rename && not (is_empty h.from) && not (is_empty h.to)
    then (h.from, h.to)
    else side_paths h

-- The source of a rename.
abbrev rename_source : Bool → Bytes → Result Bytes
rename_source renamed old_path = if renamed then safe_workspace_path old_path else ok []

-- Method `standardFile`: the judge of `ParseStandard`. `mode &= permissionMask` keeps nine bits.
unfoldable pub standard_file : Header → Result File
standard_file h =
    let (old_path, new_path) = standard_paths h in
    let create = h.create || bytes_eq old_path dev_null in
    let renamed = not create && not (is_empty old_path) && not (bytes_eq old_path new_path) in
    if h.binary
    then err binary_unsupported
    else if h.copied
    then err rename_unsupported
    else regular_file_mode h.mode >>= λ mode.
        if h.delete || bytes_eq new_path dev_null
        then (do
          target ← safe_workspace_path old_path
          ok (record {
            path = target;
            create = false;
            delete = true;
            from = [];
            mode = 0;
            hunks = h.hunks;
          }))
        else if renamed && not h.rename
        then err rename_unsupported
        else (do
          target ← safe_workspace_path new_path
          from ← rename_source renamed old_path
          ok (record {
            path = target;
            create = create;
            delete = false;
            from = from;
            mode = mode % 512;
            hunks = h.hunks;
          }))

-- Method `touched`: every path that an edit reads or writes.
unfoldable pub touched : File → List Bytes
touched f = if is_empty f.from then f.path ∷ [] else f.from ∷ f.path ∷ []
