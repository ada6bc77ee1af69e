-- ===== src/Examples/Effects.antt =====
-- The theorems on what a request changes, applied.
use zerofs_csi_driver.Base.{◌≡◌, refl, some, [], ◌∷◌, codes, arith}
use zerofs_csi_driver.Base.Text.Decimal.{pos, format_int}
use zerofs_csi_driver.Host.{ok}
use zerofs_csi_driver.Host.Since.{Since}
use zerofs_csi_driver.Controller.Create.{CreateVolumeRequest, Volume, create_volume}
use zerofs_csi_driver.Node.Request.{PublishRequest}
use zerofs_csi_driver.Node.Disk.{disk_path}
use zerofs_csi_driver.Node.Effects.{ChangesOwn}
use zerofs_csi_driver.Node.Publish.{node_publish_volume}
use zerofs_csi_driver.Node.Publish.Effects.{IsProper}
use zerofs_csi_driver.Node.Unpublish.{node_unpublish_volume}
use zerofs_csi_driver.Node.Isolation.{requests-isolated}
use zerofs_csi_driver.Node.Capacity.{SizesTo, node_publish_volume-sizes}
use zerofs_csi_driver.Examples.Machine.{start}
use zerofs_csi_driver.Examples.Requests.{
  service, publish_request, unpublish_request, served, with_socket,
}

requests-isolated_example :
    Since
      (IsProper service publish_request)
      []
      (node_publish_volume {E = served} service publish_request (start with_socket)).1.log
    × Since
        (ChangesOwn (codes "ns") (codes "v1"))
        []
        (node_unpublish_volume {E = served} service unpublish_request (start with_socket)).1.log
requests-isolated_example =
    requests-isolated {E = served} service publish_request unpublish_request (start with_socket)

abbrev create_request : CreateVolumeRequest
create_request = record {
  name = codes "v1";
  capabilities = some ([] ∷ []);
  required_bytes = some (pos 1024);
  parameters = (codes "filesystem", codes "ext4") ∷ (codes "configMapName", codes "cm") ∷ [];
}

abbrev created_volume : Volume
created_volume = record {
  volume_id = codes "v1";
  capacity_bytes = pos 1024;
  volume_context =
      (codes "filesystem", codes "ext4")
      ∷ (codes "configMapName", codes "cm")
      ∷ (codes "capacity_bytes", codes "1024")
      ∷ [];
}

create_runs : create_volume create_request ≡ ok created_volume
unfolding create_volume format_int
create_runs = refl

abbrev publish_created : PublishRequest
publish_created = record publish_request { volume_context = created_volume.volume_context }

node_publish_volume-sizes_example :
    Since
      (SizesTo (pos 1024) (disk_path (codes "/t")))
      []
      (node_publish_volume {E = served} service publish_created (start with_socket)).1.log
node_publish_volume-sizes_example =
    node_publish_volume-sizes {E = served} create_request created_volume service publish_created
      (start with_socket) (omega arith) create_runs refl
