-- ===== src/Node/Stats.antt =====
-- pkg/csi/node.go: `NodeGetVolumeStats`, and the constant replies `NodeGetCapabilities` and
-- `NodeGetInfo`.
pub mod Df
use zerofs_csi_driver.Base.{ℕ, Option, some, List, [], ◌∷◌, Str, codes, if◌then◌else◌}
use zerofs_csi_driver.Base.Text.{split, fields}
use zerofs_csi_driver.Base.Text.Decimal.{ℤ, parse_int}
use zerofs_csi_driver.Host.{
  Env, Exec, Call, Result, ok, err, internal, perform, pure, fail, ◌>>=◌, ◌>>◌,
}
use zerofs_csi_driver.Node.Request.{Service, given}

pub record StatsRequest : Type 0 where
  pub volume_id : Str
  pub volume_path : Str

-- `csi.VolumeUsage`, in bytes.
pub record VolumeUsage : Type 0 where
  pub total : ℤ
  pub used : ℤ
  pub available : ℤ

abbrev internal_error : Str → Result VolumeUsage
internal_error message = err (record { code = internal; message = message })

all_parsed : Option ℤ → Option ℤ → Option ℤ → Result VolumeUsage
all_parsed (some t) (some u) (some a) = ok (record { total = t; used = u; available = a })
all_parsed _ _ _ = internal_error (codes "failed to parse volume stats")

usage_of_fields : List Str → Result VolumeUsage
unfolding all_parsed
usage_of_fields (name ∷ total ∷ used ∷ available ∷ rest) =
    all_parsed (parse_int total) (parse_int used) (parse_int available)
usage_of_fields _ = internal_error (codes "unexpected number of fields in df output")

usage_of_lines : List Str → Result VolumeUsage
unfolding usage_of_fields
usage_of_lines (header ∷ line ∷ rest) = usage_of_fields (fields line)
usage_of_lines _ = internal_error (codes "unexpected df output format")

-- From the output of `df -B1`.
unfoldable pub parse_df : Str → Result VolumeUsage
unfolding usage_of_lines
parse_df text = usage_of_lines (split text b'\n')

module _ {E : Env} where
  unfoldable pub returned : {A : Type 0} → Result A → Exec E A
  returned (ok a) = pure a
  returned (err e) = fail e.code e.message

  unfoldable pub node_get_volume_stats : StatsRequest → Exec E VolumeUsage
  node_get_volume_stats req = do
    given (codes "volume ID cannot be empty") req.volume_id
    given (codes "volume path cannot be empty") req.volume_path
    o ← perform (Call.exec (codes "df") (codes "-B1" ∷ req.volume_path ∷ []))
    if o.failed
        then fail internal (codes "failed to get volume stats")
        else returned (parse_df o.text)

pub data NodeCapability : Type 0 where
  stage_unstage_volume get_volume_stats : NodeCapability

abbrev pub node_get_capabilities : List NodeCapability
node_get_capabilities = stage_unstage_volume ∷ get_volume_stats ∷ []

-- The node's name and `MaxVolumesPerNode`.
abbrev pub node_get_info : Service → Str × ℕ
node_get_info ns = (ns.node_id, 0)
