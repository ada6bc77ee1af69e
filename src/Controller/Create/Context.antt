-- ===== src/Controller/Create/Context.antt =====
-- What the node finds in the context of a volume that `CreateVolume` made.
use zerofs_csi_driver.Base.{
  ◌≡◌, ap, sym, ◌∙◌, Option, none, some, List, [], ◌∷◌, Str, codes, ◌===◌, if◌then◌else◌,
}
use zerofs_csi_driver.Base.Text.{lookup, lookup-insert}
use zerofs_csi_driver.Base.Text.Decimal.{parse_int, format_int, IsInt64, parse_int-format_int}
use zerofs_csi_driver.Host.{ok}
use zerofs_csi_driver.Controller.Create.{
  CreateVolumeRequest, Volume, Capability, bytes_of, new_volume, checked_volume, create_volume,
}

ok-injective : {A : Type 0} {a b : A} → ok a ≡ ok b → a ≡ b
ok-injective e = cc

checked_volume-ok :
    (name : Str) (capabilities : Option (List Capability)) (v w : Volume)
    → checked_volume name capabilities v ≡ ok w
    → v ≡ w
unfolding checked_volume
checked_volume-ok [] capabilities v w e = absurd (cc)
checked_volume-ok (c ∷ name) none v w e = absurd (cc)
checked_volume-ok (c ∷ name) (some x) v w e = ok-injective e

-- If CreateVolume returns a volume, then its context has the capacity in bytes, in decimal, under
-- capacity_bytes, and under each other key what the parameters of the request have there.
pub create_volume-lookup :
    (req : CreateVolumeRequest) (volume : Volume) (key : Str)
    → create_volume req ≡ ok volume
    → lookup key volume.volume_context ≡ (
        if codes "capacity_bytes" === key
        then some (format_int (bytes_of req.required_bytes))
        else lookup key req.parameters)
unfolding create_volume
create_volume-lookup req volume key e =
    ap (λ (v : Volume). lookup key v.volume_context)
      (sym (checked_volume-ok req.name req.capabilities (new_volume req) volume e))
    ∙ lookup-insert (codes "capacity_bytes") key (format_int (bytes_of req.required_bytes))
        req.parameters

-- If CreateVolume returns a volume for a request whose required bytes are an int64, then its context
-- has an entry capacity_bytes, which reads back as the required bytes.
pub create_volume-capacity :
    (req : CreateVolumeRequest) (volume : Volume)
    → IsInt64 (bytes_of req.required_bytes)
    → create_volume req ≡ ok volume
    → (text : Str) × (lookup (codes "capacity_bytes") volume.volume_context ≡ some text)
      × (parse_int text ≡ some (bytes_of req.required_bytes))
create_volume-capacity req volume h e = (
  format_int (bytes_of req.required_bytes),
  create_volume-lookup req volume (codes "capacity_bytes") e,
  parse_int-format_int (bytes_of req.required_bytes) h,
)
