-- ===== src/Node/Capacity.antt =====
-- pkg/csi/controller.go and pkg/csi/node.go: the disk that a publish makes for a volume of `CreateVolume`
-- has the size that was asked for.
use zerofs_csi_driver.Base.{some-same, ◌≡◌, sym, subst, ◌∙◌, true, some, [], ◌∷◌, Str, codes}
use zerofs_csi_driver.Base.Text.{lookup}
use zerofs_csi_driver.Base.Text.Decimal.{ℤ, parse_int, IsInt64}
use zerofs_csi_driver.Host.{Env, Sys, Call, Event, did, ok}
use zerofs_csi_driver.Host.Calls.{is_truncate}
use zerofs_csi_driver.Host.Since.{Since, Since-map}
use zerofs_csi_driver.Controller.Create.{CreateVolumeRequest, Volume, bytes_of, create_volume}
use zerofs_csi_driver.Controller.Create.Context.{create_volume-capacity}
use zerofs_csi_driver.Node.Request.{Service, PublishRequest}
use zerofs_csi_driver.Node.Disk.{disk_path}
use zerofs_csi_driver.Node.Effects.{SizesDisk}
use zerofs_csi_driver.Node.Publish.{node_publish_volume}
use zerofs_csi_driver.Node.Publish.Effects.{node_publish_volume-IsProper}

-- A run of `truncate` is for the disk, and its size reads as the number of bytes.
abbrev pub SizesTo : ℤ → Str → Event → Type 0
SizesTo bytes disk (did (Call.exec program args) o) =
    is_truncate program ≡ true
    → (capacity : Str) × (parse_int capacity ≡ some bytes)
      × (args ≡ codes "-s" ∷ capacity ∷ disk ∷ [])
SizesTo bytes disk _ = Unit

module _ (req : PublishRequest) (bytes : ℤ) (text : Str)
    (there : lookup (codes "capacity_bytes") req.volume_context ≡ some text)
    (reads : parse_int text ≡ some bytes) where
  SizesDisk-SizesTo :
      (e : Event)
      → SizesDisk req.volume_context req.target_path e
      → SizesTo bytes (disk_path req.target_path) e
  SizesDisk-SizesTo (did (Call.exec program args) o) h = λ k.
      let (capacity, found, shape) = h k in
      let same : text ≡ capacity = some-same text capacity (sym there ∙ found) in
      (capacity, subst (λ (t : Str). parse_int t ≡ some bytes) same reads, shape)
  SizesDisk-SizesTo (did Call.lock r) h = tt
  SizesDisk-SizesTo (did _ r) h = tt

-- If CreateVolume returned a volume for required bytes that are an int64, and the volume's context is that
-- of a publish, then whatever the calls reply, the publish runs `truncate` only on the disk file below
-- its target path, with a size that reads as the required bytes.
pub node_publish_volume-sizes :
    {E : Env} (created : CreateVolumeRequest) (volume : Volume) (ns : Service)
    (req : PublishRequest) (s : Sys E)
    → IsInt64 (bytes_of created.required_bytes)
    → create_volume created ≡ ok volume
    → req.volume_context ≡ volume.volume_context
    → Since
        (SizesTo (bytes_of created.required_bytes) (disk_path req.target_path))
        s.log
        (node_publish_volume ns req s).1.log
node_publish_volume-sizes created volume ns req s h e k =
    let (text, there, reads) = create_volume-capacity created volume h e in
    let in_context : lookup (codes "capacity_bytes") req.volume_context ≡ some text =
      subst (λ c. lookup (codes "capacity_bytes") c ≡ some text) (sym k) there in
    Since-map (λ e (own, sizes). SizesDisk-SizesTo req _ text in_context reads e sizes)
      (node_publish_volume-IsProper ns req s)
