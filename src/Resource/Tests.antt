-- ===== src/Resource/Tests.antt =====
-- Runs of the registry of internal/resource/registry.go on a few claims.
use evident_output.Prelude.{
  ◌+◌, ◌≤◌, Bytes, bytes_eq, ◌++◌, true, ℕ, false, [], ◌∷◌, none, ◌≡◌, refl, codes, ◌==◌,
  if◌then◌else◌, delete_func, arith,
}
use evident_output.Resource.Resolve.{
  FilePaths, Evaluated, real, not_exist, resolved, canonical_from, canonical_path,
}
use evident_output.Resource.Key.{fs, overlaps}
use evident_output.Resource.Claim.{read, write, Claim, Hold, conflicts}
use evident_output.Resource.Registry.{
  Registry, new_registry, admit_locked, release, is_ready, occupancy,
}
use evident_output.Resource.Rescan.{view, rescan, Stuck, Agrees, release-rescan}
use evident_output.Resource.Exclusion.{Compatible, count_ids, count_holds, release-Inv}
use evident_output.Resource.Run.{
  arrive, finish, Reach, here, next, Reach-Inv, held-Compatible, queue-Stuck, woken_once,
  free-nobody_waits,
}
use evident_output.Resource.Hold.{Wake, ready, ended, Context, hold}
use evident_output.Resource.Leak.{IsGone, IsFair, hold-IsGone}

-- A write on a tree, a read below it and a write of something else.
abbrev claim_of : ℕ → Claim
claim_of i =
    if i == 1
    then record { key = record { space = fs; name = codes "/srv" }; mode = write }
    else if i == 2
    then record { key = record { space = fs; name = codes "/srv/log" }; mode = read }
    else record { key = record { space = fs; name = codes "/tmp" }; mode = write }

abbrev tree : Hold
tree = record { id = 1; claim = claim_of 1 }

abbrev log : Hold
log = record { id = 2; claim = claim_of 2 }

abbrev tmp : Hold
tmp = record { id = 3; claim = claim_of 3 }

-- The tree is held, the log waits for it, and the other write is held too.
abbrev contended : Registry
contended = admit_locked (admit_locked (admit_locked new_registry tree) log) tmp

abbrev handed_over : Registry
handed_over = release contended tree

abbrev idle : Registry
idle = release (release handed_over log) tmp

contended-occupancy : occupancy contended ≡ (2, 1)
unfolding occupancy admit_locked new_registry conflicts overlaps
contended-occupancy = refl

handed_over-woken : handed_over.woken ≡ 1 ∷ 3 ∷ 2 ∷ []
unfolding release admit_locked new_registry conflicts overlaps
handed_over-woken = refl

contended-Reach : Reach claim_of new_registry contended
unfolding admit_locked new_registry conflicts overlaps
contended-Reach =
    next (next (next here (arrive tree refl refl refl)) (arrive log refl refl refl))
      (arrive tmp refl refl refl)

handed_over-Reach : Reach claim_of new_registry handed_over
handed_over-Reach = next contended-Reach (finish tree refl refl)

idle-Reach : Reach claim_of new_registry idle
idle-Reach = next (next handed_over-Reach (finish log refl refl)) (finish tmp refl refl)

idle-held : idle.held ≡ []
unfolding release admit_locked new_registry conflicts overlaps
idle-held = refl

held-Compatible_example : Compatible handed_over.held
held-Compatible_example = held-Compatible claim_of handed_over handed_over-Reach

woken_once_example : count_holds 2 contended.queue + count_ids 2 contended.woken ≤ 1
woken_once_example = woken_once claim_of contended contended-Reach 2

queue-Stuck_example : Stuck contended.held contended.queue
queue-Stuck_example = queue-Stuck claim_of contended contended-Reach

free-nobody_waits_example : idle.queue ≡ []
free-nobody_waits_example = free-nobody_waits claim_of idle idle-Reach idle-held

contended-Agrees : Agrees tree contended.held
unfolding admit_locked new_registry conflicts overlaps
contended-Agrees = (λ e. refl, (λ e. ground arith, tt))

release-rescan_example :
    view handed_over
    ≡ rescan contended.queue (delete_func (λ g. g.id == 1) contended.held) contended.woken []
release-rescan_example =
    release-rescan contended tree (queue-Stuck claim_of contended contended-Reach) contended-Agrees

handed_over-log_woken : count_ids 2 handed_over.woken ≡ 1
unfolding release admit_locked new_registry conflicts overlaps
handed_over-log_woken = refl

-- Somebody else releases the tree while the log waits.
abbrev tree_released : Registry → Registry × Wake
tree_released s = let s' = release s tree in (s', if is_ready s' log then ready else ended)

tree_released-IsFair : IsFair claim_of log tree_released
tree_released-IsFair = record {
  keeps = λ r v. release-Inv claim_of r tree refl v;
  wakes = λ r e. ground arith;
}

abbrev tree_held : Registry
tree_held = admit_locked new_registry tree

tree_held-Reach : Reach claim_of new_registry tree_held
unfolding new_registry conflicts overlaps
tree_held-Reach = next here (arrive tree refl refl refl)

log-IsGone : IsGone log tree_held × (count_ids 2 tree_held.woken ≡ 0)
unfolding admit_locked new_registry conflicts overlaps
log-IsGone = ((refl, refl), refl)

abbrev background : Context
background = record { holds = none; ended = false }

hold-IsGone_example :
    IsGone log (hold {R = ℕ} tree_held background log tree_released (λ c s. (s, 7))).0
hold-IsGone_example =
    hold-IsGone claim_of tree_held background log tree_released (λ c s. (s, 7)) refl
      (Reach-Inv claim_of tree_held-Reach) log-IsGone.0 log-IsGone.1 tree_released-IsFair
      (λ c s g. g)

-- Paths whose elements are single bytes.
abbrev all_but_last : Bytes → Bytes
all_but_last [] = []
all_but_last (x ∷ []) = []
all_but_last (x ∷ y ∷ r) = x ∷ all_but_last (y ∷ r)

abbrev last_only : Bytes → Bytes
last_only [] = []
last_only (x ∷ []) = x ∷ []
last_only (x ∷ y ∷ r) = last_only (y ∷ r)

abbrev byte_paths : FilePaths
byte_paths = record {
  is_abs = λ p. true;
  clean = λ p. p;
  join = λ a b. a ++ b;
  dir = all_but_last;
  base = last_only;
  trim_space = λ p. p;
}

-- Only the directory "a" exists, and it is a link to "r".
abbrev links : Bytes → Evaluated
links p = if bytes_eq p (b'a' ∷ []) then real (b'r' ∷ []) else not_exist

linked : canonical_path byte_paths links 4 (b'a' ∷ b'n' ∷ []) ≡ resolved (b'r' ∷ b'n' ∷ [])
unfolding canonical_path canonical_from bytes_eq
linked = refl
