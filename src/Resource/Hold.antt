-- ===== src/Resource/Hold.antt =====
-- internal/resource/registry.go: a whole acquisition, from the check for a nested claim to the
-- release after the callback. What other goroutines do while this one waits, and which way it
-- wakes, is the argument `env`; the callback, which other goroutines may also interleave with, is
-- `fn`. A panic of the callback is one of its results: the deferred release runs either way.
use evident_output.Prelude.{Bool, true, false, Option, none, some, if◌then◌else◌}
use evident_output.Resource.Claim.{Hold}
use evident_output.Resource.Registry.{
  Registry, admit_locked, abandon, release, is_ready, is_released,
}

pub data Wake : Type 0 where
  ready ended : Wake

-- `holds` is the value under `heldKey`; `ended` is `ctx.Err() != nil`.
pub record Context : Type 0 where
  pub holds : Option Hold
  pub ended : Bool

pub data HoldError : Type 0 where
  nested : Hold → HoldError
  cancelled : HoldError

pub data Outcome (R : Type 0) : Type 0 where
  returned : R → Outcome R
  refused : HoldError → Outcome R

-- The live claim that the context carries.
unfoldable pub holding : Registry → Context → Option Hold
holding r ctx = elim ctx.holds [ none ↦ none | some h ↦ if is_released r h then none else some h ]

unfoldable pub check_free : Registry → Context → Option HoldError
unfolding holding
check_free r ctx = elim (holding r ctx) [ none ↦ none | some h ↦ some (nested h) ]

-- `none` in place of the hold when the context ended first.
unfoldable pub acquire : Registry → Context → Hold → (Registry → Registry × Wake) → Registry × Bool
acquire r ctx h env =
    if ctx.ended
    then (r, false)
    else (let admitted = admit_locked r h in
        let (later, wake) = env admitted in
        if is_ready admitted h
        then (admitted, true)
        else elim wake [ ready ↦ (later, true) | ended ↦ (abandon later h, false) ])

module _ {R : Type 0} where
  unfoldable pub hold :
      Registry
      → Context
      → Hold
      → (Registry → Registry × Wake)
      → (Context → Registry → Registry × R)
      → Registry × Outcome R
  unfolding acquire
  hold r ctx h env fn =
      let (acquired, granted) = acquire r ctx h env in
      let (done, result) = fn (record ctx { holds = some h }) acquired in
      if granted then (release done h, returned result) else (acquired, refused cancelled)
