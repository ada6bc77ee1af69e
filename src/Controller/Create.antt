-- ===== src/Controller/Create.antt =====
-- pkg/csi/controller.go: `CreateVolume`, the requests that only check their fields, and the constant
-- replies.
pub mod Context
use zerofs_csi_driver.Base.{Bool, true, false, Option, none, some, List, [], ◌∷◌, ◌++◌, Str, codes}
use zerofs_csi_driver.Base.Text.{Dict, insert}
use zerofs_csi_driver.Base.Text.Decimal.{ℤ, pos, format_int}
use zerofs_csi_driver.Host.{Result, ok, err, unknown}

-- The mount flags of a capability.
abbrev pub Capability : Type 0
Capability = List Str

-- `none` stands for nil. A nil map of parameters reads like an empty one.
pub record CreateVolumeRequest : Type 0 where
  pub name : Str
  pub capabilities : Option (List Capability)
  pub required_bytes : Option ℤ
  pub parameters : Dict

pub record Volume : Type 0 where
  pub volume_id : Str
  pub capacity_bytes : ℤ
  pub volume_context : Dict

abbrev pub failed_with : {A : Type 0} → Str → Result A
failed_with message = err (record { code = unknown; message = message })

-- `GetRequiredBytes` of a range that may be nil.
abbrev pub bytes_of : Option ℤ → ℤ
bytes_of none = pos 0
bytes_of (some n) = n

abbrev new_volume : CreateVolumeRequest → Volume
new_volume req = record {
  volume_id = req.name;
  capacity_bytes = bytes_of req.required_bytes;
  volume_context =
      insert (codes "capacity_bytes") (format_int (bytes_of req.required_bytes)) req.parameters;
}

checked_volume : Str → Option (List Capability) → Volume → Result Volume
checked_volume [] capabilities volume = failed_with (codes "volume name cannot be empty")
checked_volume (c ∷ name) none volume = failed_with (codes "volume capabilities cannot be empty")
checked_volume (c ∷ name) (some capabilities) volume = ok volume

unfoldable pub create_volume : CreateVolumeRequest → Result Volume
unfolding checked_volume
create_volume req = checked_volume req.name req.capabilities (new_volume req)

-- The publish context: volume and node.
unfoldable pub controller_publish_volume : Str → Str → Result Dict
controller_publish_volume [] node = failed_with (codes "volume ID cannot be empty")
controller_publish_volume (c ∷ volume) [] = failed_with (codes "node ID cannot be empty")
controller_publish_volume (c ∷ volume) (d ∷ node) =
    ok ((codes "nodeName", d ∷ node) ∷ (codes "volumeId", c ∷ volume) ∷ [])

unfoldable pub controller_unpublish_volume : Str → Result Unit
controller_unpublish_volume [] = failed_with (codes "volume ID cannot be empty")
controller_unpublish_volume (c ∷ volume) = ok tt

-- The capabilities that are confirmed.
unfoldable pub validate_volume_capabilities :
    Str → Option (List Capability) → Result (List Capability)
validate_volume_capabilities [] capabilities = failed_with (codes "volume ID cannot be empty")
validate_volume_capabilities (c ∷ volume) none =
    failed_with (codes "volume capabilities cannot be empty")
validate_volume_capabilities (c ∷ volume) (some capabilities) = ok capabilities

pub data ControllerCapability : Type 0 where
  create_delete_volume publish_unpublish_volume list_volumes : ControllerCapability

abbrev pub controller_get_capabilities : List ControllerCapability
controller_get_capabilities = create_delete_volume ∷ publish_unpublish_volume ∷ list_volumes ∷ []

-- `SnapshotId`, `SourceVolumeId` and `ReadyToUse`.
abbrev pub create_snapshot : Str → Str × Str × Bool
create_snapshot volume = (codes "snapshot-" ++ volume, volume, true)
