-- ===== src/Patch/Errors.antt =====
-- internal/patch/patch.go: the errors of package patch, and results that carry them. An error's
-- wrapped kind is kept; its message is not.
use evident_output.Prelude.{◌≡◌, refl}

pub data PatchError : Type 0 where
  malformed does_not_apply unsupported : PatchError
  delete_unsupported rename_unsupported binary_unsupported unsafe_path : PatchError

-- The two results of a Go function: an error, or the value where the error is nil.
pub data Result {ℓ} (V : Type ℓ) : Type ℓ where
  err : PatchError → Result V
  ok : V → Result V

pub ok_injective {ℓ} : {V : Type ℓ} (v w : V) → ok v ≡ ok w → v ≡ w
ok_injective v w h = cc

module _ {ℓ κ} {V : Type ℓ} {W : Type κ} where
  -- `if err != nil { return err }` before the rest of a function.
  infixl 5 ◌>>=◌
  abbrev pub ◌>>=◌ : Result V → (V → Result W) → Result W
  err e >>= rest = err e
  ok v >>= rest = rest v

  -- A successful chain has a successful first part.
  pub >>=-eq-ok :
      (first : Result V) (rest : V → Result W) {w : W}
      → first >>= rest ≡ ok w
      → (v : V) × (first ≡ ok v) × (rest v ≡ ok w)
  >>=-eq-ok (err e) rest h = cc
  >>=-eq-ok (ok v) rest h = (v, refl, h)
