-- ===== src/Resource/HoldResource.antt =====
-- internal/resource/registry.go: `HoldResource`, from a request to the callback under its claim.
use evident_output.Prelude.{ℕ, Bytes, none, some}
use evident_output.Resource.Claim.{Mode}
use evident_output.Resource.Registry.{Registry}
use evident_output.Resource.Hold.{Wake, Context, Outcome, refused, check_free, hold}
use evident_output.Resource.Resolve.{
  FilePaths, Evaluated, Resource, resolved, invalid, failed, out_of_fuel, resolve,
}

-- `OnContended` only reports, and is left out.
pub record Request : Type 0 where
  pub resource : Resource
  pub workspace : Bytes
  pub mode : Mode

pub data Requested (R : Type 0) : Type 0 where
  settled : Outcome R → Requested R
  unresolved : Requested R

module _ {R : Type 0} (fp : FilePaths) (eval_symlinks : Bytes → Evaluated) where
  -- `id` is the identity of the new hold.
  unfoldable pub hold_resource :
      ℕ
      → Registry
      → Context
      → Request
      → ℕ
      → (Registry → Registry × Wake)
      → (Context → Registry → Registry × R)
      → Registry × Requested R
  hold_resource fuel r ctx req id env fn = elim (check_free r ctx) [
    | some e ↦ (r, settled (refused e))
    | none ↦ elim (resolve fp eval_symlinks fuel req.resource req.workspace) [
      | resolved k ↦
          let (after, o) =
            hold r ctx (record { id = id; claim = record { key = k; mode = req.mode } }) env fn in
          (after, settled o)
      | invalid ↦ (r, unresolved)
      | failed ↦ (r, unresolved)
      | out_of_fuel ↦ (r, unresolved)
    ]
  ]
