-- ===== src/Resource/Claim.antt =====
-- internal/resource/registry.go: claims, when two of them conflict, and waiting or granted holds.
use evident_output.Prelude.{
  ℕ, Bool, true, false, ◌&&◌, ◌||◌, List, [], ◌∷◌, ◌++◌, ◌≡◌, refl, arith, any, ap,
}
use evident_output.Resource.Key.{Key, overlaps, overlaps_comm}

pub data Mode : Type 0 where
  read write : Mode

abbrev pub is_write : Mode → Bool
is_write write = true
is_write read = false

pub record Claim : Type 0 where
  pub key : Key
  pub mode : Mode

unfoldable pub conflicts : Claim → Claim → Bool
conflicts c o = (is_write c.mode || is_write o.mode) && overlaps c.key o.key

-- A `*hold`: the pointer's identity is a number. Its `released` flag and its `ready` channel, which
-- other goroutines read, are kept in the registry's lists of released and woken holds.
pub record Hold : Type 0 where
  pub id : ℕ
  pub claim : Claim

-- Some hold of the list conflicts with the claim.
abbrev pub any_conflict : Claim → List Hold → Bool
any_conflict c hs = any (λ g. conflicts g.claim c) hs

pub conflicts_comm : (c o : Claim) → conflicts c o ≡ conflicts o c
unfolding conflicts
conflicts_comm c o = ground (arith, overlaps_comm c.key o.key)

pub any_conflict-append :
    (c : Claim) (hs gs : List Hold)
    → any_conflict c (hs ++ gs) ≡ (any_conflict c hs || any_conflict c gs)
any_conflict-append c [] gs = refl
any_conflict-append c (h ∷ hs) gs = ground (arith, any_conflict-append c hs gs)

-- What overlaps a key overlaps a write on that very key, and so conflicts with the write.
pub conflicts-write_same_key :
    (c w r : Claim) → w.mode ≡ write → w.key ≡ r.key → conflicts c r ≡ true → conflicts w c ≡ true
unfolding conflicts
conflicts-write_same_key c w r m k h =
    ground (arith, overlaps_comm c.key w.key, ap (overlaps c.key) k)
