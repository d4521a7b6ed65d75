-- ===== src/Resource/Rescan.antt =====
-- The scan of internal/resource/registry.go that a release makes, which skips most waiters and may
-- stop early, against a plain pass over the whole queue.
use evident_output.Prelude.{
  ℕ, ◌+◌, true, ◌||◌, List, [], ◌∷◌, ◌++◌, none, some, ◌≡◌, refl, ◌∙◌, ap, arith, if◌then◌else◌,
  All, delete_func, ◌==◌, append-nil, append_assoc,
}
use evident_output.Resource.Key.{key_eq_sound}
use evident_output.Resource.Claim.{
  Claim, Hold, conflicts, conflicts_comm, any_conflict, any_conflict-append,
  conflicts-write_same_key,
}
use evident_output.Resource.Registry.{
  Registry, scan, conflicts_locked, grant, may_unblock, skips, ends_scan, regrant_loop,
  regrant_locked, grant_locked, release, admit_locked,
}

-- What a caller can tell of a registry: who holds, who waits in which order, and who was woken.
abbrev pub View : Type 0
View = List Hold × List Hold × List ℕ

abbrev pub view : Registry → View
view r = (r.held, r.queue, r.woken)

-- The plain pass: every waiter in arrival order is granted unless it conflicts with a hold or with
-- a waiter kept ahead of it.
unfoldable pub rescan : List Hold → List Hold → List ℕ → List Hold → View
rescan [] held woken waiting = (held, waiting, woken)
rescan (q ∷ rest) held woken waiting =
    let kept = rescan rest held woken (waiting ++ q ∷ []) in
    let granted = rescan rest (held ++ q ∷ []) (woken ++ q.id ∷ []) waiting in
    if any_conflict q.claim held || any_conflict q.claim waiting then kept else granted

scan-any_conflict : (c : Claim) (gs : List Hold) (v : ℕ) → (scan c gs v).0 ≡ any_conflict c gs
unfolding scan
scan-any_conflict c [] v = refl
scan-any_conflict c (g ∷ gs) v = ground (arith, scan-any_conflict c gs (v + 1))

pub conflicts_locked-any_conflict :
    (r : Registry) (h : Hold) (ahead : List Hold)
    → (conflicts_locked r h ahead).0 ≡ (any_conflict h.claim r.held || any_conflict h.claim ahead)
unfolding conflicts_locked
conflicts_locked-any_conflict r h ahead =
    let v = (scan h.claim r.held r.visits).1 in
    ground (arith, scan-any_conflict h.claim r.held r.visits, scan-any_conflict h.claim ahead v)

pub conflicts_locked-view :
    (r : Registry) (h : Hold) (ahead : List Hold) → view (conflicts_locked r h ahead).1 ≡ view r
unfolding conflicts_locked
conflicts_locked-view r h ahead = ground arith

-- Every waiter conflicts with the claim, or with something ahead of it.
abbrev pub BlockedBut : Claim → List Hold → List Hold → Type 0
BlockedBut c ahead [] = Unit
BlockedBut c ahead (q ∷ rest) =
    ((conflicts q.claim c || any_conflict q.claim ahead) ≡ true) × BlockedBut c (q ∷ ahead) rest

-- What conflicts with the first list conflicts with one of the other two.
abbrev pub Covers : List Hold → List Hold → List Hold → Type 0
Covers ahead held waiting =
    (c : Claim)
    → any_conflict c ahead ≡ true
    → (any_conflict c held || any_conflict c waiting) ≡ true

Covers-wait :
    (ahead held waiting : List Hold) (q : Hold)
    → Covers ahead held waiting
    → Covers (q ∷ ahead) held (waiting ++ q ∷ [])
Covers-wait ahead held waiting q h c e = ground (arith, any_conflict-append c waiting (q ∷ []), h c)

Covers-grant :
    (ahead held waiting : List Hold) (q : Hold)
    → Covers ahead held waiting
    → Covers (q ∷ ahead) (held ++ q ∷ []) waiting
Covers-grant ahead held waiting q h c e = ground (arith, any_conflict-append c held (q ∷ []), h c)

-- Once a waiter stands in the way of all that the claim could let in, nobody else is granted.
rescan-all_kept :
    (rel : Claim) (rest ahead held waiting : List Hold) (woken : List ℕ)
    → BlockedBut rel ahead rest
    → Covers ahead held waiting
    → ((c : Claim) → conflicts c rel ≡ true → any_conflict c waiting ≡ true)
    → rescan rest held woken waiting ≡ (held, waiting ++ rest, woken)
unfolding rescan
rescan-all_kept rel [] ahead held waiting woken b h w = rw append-nil
rescan-all_kept rel (q ∷ rest) ahead held waiting woken (b, bs) h w =
    let blocked : (any_conflict q.claim held || any_conflict q.claim waiting) ≡ true =
      ground (arith, h q.claim, w q.claim) in
    rw blocked (
      rescan-all_kept rel rest (q ∷ ahead) held (waiting ++ q ∷ []) woken bs
        (Covers-wait ahead held waiting q h)
        (λ c e. ground (arith, any_conflict-append c waiting (q ∷ []), w c e))
      ∙ rw append_assoc)

-- The registry after a comparison differs only in its count of visits.
conflicts_locked-held :
    (r : Registry) (h : Hold) (ahead : List Hold) → (conflicts_locked r h ahead).1.held ≡ r.held
conflicts_locked-held r h ahead = ap (λ v. v.0) (conflicts_locked-view r h ahead)

conflicts_locked-woken :
    (r : Registry) (h : Hold) (ahead : List Hold) → (conflicts_locked r h ahead).1.woken ≡ r.woken
conflicts_locked-woken r h ahead = ap (λ v. v.2) (conflicts_locked-view r h ahead)

write_on_key :
    (rel : Claim) (q : Hold) (waiting : List Hold)
    → ends_scan (some rel) q ≡ true
    → (c : Claim) → conflicts c rel ≡ true
    → any_conflict c (waiting ++ q ∷ []) ≡ true
write_on_key rel q waiting e c h = ground (
  arith,
  any_conflict-append c waiting (q ∷ []),
  key_eq_sound q.claim.key rel.key,
  conflicts-write_same_key c q.claim rel,
)

module _ (rel : Claim) where
  regrant_loop-rescan :
      (rest ahead waiting held : List Hold) (woken : List ℕ) (r : Registry)
      → r.held ≡ held
      → r.woken ≡ woken
      → BlockedBut rel ahead rest
      → Covers ahead held waiting
      → view (regrant_loop (some rel) rest r waiting) ≡ rescan rest held woken waiting
  unfolding regrant_loop skips may_unblock grant rescan
  regrant_loop-rescan [] ahead waiting held woken r eh ew b h = ground arith
  regrant_loop-rescan (q ∷ rest) ahead waiting held woken r eh ew (b, bs) h =
      let r₁ : Registry = record r { visits = r.visits + 1 } in
      let r₂ : Registry = (conflicts_locked r₁ q waiting).1 in
      let hit = conflicts_locked-any_conflict r₁ q waiting in
      let eh₂ : r₂.held ≡ held = conflicts_locked-held r₁ q waiting ∙ eh in
      let ew₂ : r₂.woken ≡ woken = conflicts_locked-woken r₁ q waiting ∙ ew in
      ground (
        arith,
        h q.claim,
        hit,
        regrant_loop-rescan rest (q ∷ ahead) (waiting ++ q ∷ []) held woken r₁ eh ew bs
            (Covers-wait ahead held waiting q h),
        regrant_loop-rescan rest (q ∷ ahead) waiting (held ++ q ∷ []) (woken ++ q.id ∷ [])
            (grant r₂ q) (ap (λ l. l ++ q ∷ []) eh₂) (ap (λ l. l ++ q.id ∷ []) ew₂) bs
            (Covers-grant ahead held waiting q h),
        regrant_loop-rescan rest (q ∷ ahead) (waiting ++ q ∷ []) held woken r₂ eh₂ ew₂ bs
            (Covers-wait ahead held waiting q h),
        λ (e : ends_scan (some rel) q ≡ true).
            rescan-all_kept rel rest (q ∷ ahead) held (waiting ++ q ∷ []) woken bs
              (Covers-wait ahead held waiting q h) (write_on_key rel q waiting e),
      )

-- With nothing released to judge by, the pass is the plain one.
regrant_loop-none :
    (rest waiting held : List Hold) (woken : List ℕ) (r : Registry)
    → r.held ≡ held
    → r.woken ≡ woken
    → view (regrant_loop none rest r waiting) ≡ rescan rest held woken waiting
unfolding regrant_loop skips grant rescan
regrant_loop-none [] waiting held woken r eh ew = ground arith
regrant_loop-none (q ∷ rest) waiting held woken r eh ew =
    let r₂ : Registry = (conflicts_locked r q waiting).1 in
    let eh₂ : r₂.held ≡ held = conflicts_locked-held r q waiting ∙ eh in
    let ew₂ : r₂.woken ≡ woken = conflicts_locked-woken r q waiting ∙ ew in
    ground (
      arith,
      conflicts_locked-any_conflict r q waiting,
      regrant_loop-none rest waiting (held ++ q ∷ []) (woken ++ q.id ∷ []) (grant r₂ q)
          (ap (λ l. l ++ q ∷ []) eh₂) (ap (λ l. l ++ q.id ∷ []) ew₂),
      regrant_loop-none rest (waiting ++ q ∷ []) held woken r₂ eh₂ ew₂,
    )

pub grant_locked-rescan : (r : Registry) → view (grant_locked r) ≡ rescan r.queue r.held r.woken []
unfolding grant_locked regrant_locked
grant_locked-rescan r = regrant_loop-none r.queue [] r.held r.woken r refl refl

-- Every waiter conflicts with something ahead of it.
abbrev pub Stuck : List Hold → List Hold → Type 0
Stuck ahead [] = Unit
Stuck ahead (q ∷ rest) = (any_conflict q.claim ahead ≡ true) × Stuck (q ∷ ahead) rest

-- The holds that share the identity of `h` make its claim.
abbrev pub Agrees : Hold → List Hold → Type 0
Agrees h = All (λ g. g.id ≡ h.id → g.claim ≡ h.claim)

any_conflict-delete :
    (c : Claim) (h : Hold) (gs : List Hold)
    → Agrees h gs
    → any_conflict c gs ≡ true
    → (conflicts c h.claim || any_conflict c (delete_func (λ g. g.id == h.id) gs)) ≡ true
any_conflict-delete c h [] a e = ground arith
any_conflict-delete c h (g ∷ gs) (a, as') e = ground (
  arith,
  any_conflict-delete c h gs as',
  conflicts_comm c g.claim,
  λ (s : g.id ≡ h.id). ap (conflicts c) (a s),
)

Stuck-BlockedBut :
    (h : Hold) (ahead kept rest : List Hold)
    → ((c : Claim)
        → any_conflict c ahead ≡ true
        → (conflicts c h.claim || any_conflict c kept) ≡ true)
    → Stuck ahead rest
    → BlockedBut h.claim kept rest
Stuck-BlockedBut h ahead kept [] f s = tt
Stuck-BlockedBut h ahead kept (q ∷ rest) f (s, ss) =
    (f q.claim s, Stuck-BlockedBut h (q ∷ ahead) (q ∷ kept) rest (λ c e. ground (arith, f c)) ss)

-- A release grants what a plain pass over the whole queue would grant, in the same order, although
-- it skips the waiters that do not conflict with the released claim and stops at a waiting write
-- on the released key: provided that every waiter was blocked before, and that whatever is held under
-- the released identity makes the released claim.
pub release-rescan :
    (r : Registry) (h : Hold)
    → Stuck r.held r.queue
    → Agrees h r.held
    → view (release r h) ≡ rescan r.queue (delete_func (λ g. g.id == h.id) r.held) r.woken []
unfolding release regrant_locked
release-rescan r h s a =
    let kept = delete_func (λ g. g.id == h.id) r.held in
    regrant_loop-rescan h.claim r.queue kept [] kept r.woken
      (record r { released = h.id ∷ r.released; held = kept }) refl refl
      (Stuck-BlockedBut h r.held kept r.queue (λ c e. any_conflict-delete c h r.held a e) s)
      (λ c e. ground arith)

-- An arriving claim is granted at once exactly when nothing held or queued conflicts with it, and
-- joins the tail of the queue otherwise.
pub admit_locked-view :
    (r : Registry) (h : Hold)
    → view (admit_locked r h) ≡ (
        if any_conflict h.claim r.held || any_conflict h.claim r.queue
        then (r.held, r.queue ++ h ∷ [], r.woken)
        else (r.held ++ h ∷ [], r.queue, r.woken ++ h.id ∷ []))
unfolding admit_locked
admit_locked-view r h =
    let v = (scan h.claim r.held r.visits).1 in
    ground (arith, scan-any_conflict h.claim r.held r.visits, scan-any_conflict h.claim r.queue v)
