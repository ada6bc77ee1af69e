-- ===== src/Examples/Volumes.antt =====
-- The theorems on the controller, applied.
use zerofs_csi_driver.Base.{◌≡◌, refl, some, [], ◌∷◌, codes, arith, if◌then◌else◌, ◌===◌, Str}
use zerofs_csi_driver.Base.Text.{lookup}
use zerofs_csi_driver.Base.Text.Decimal.{pos, parse_int, format_int}
use zerofs_csi_driver.Base.{◌++◌, true}
use zerofs_csi_driver.Base.Text.{is_space, has_prefix}
use zerofs_csi_driver.Nbd.State.Paths.{IsVolume}
use zerofs_csi_driver.Controller.Bucket.{join_s3_prefix}
use zerofs_csi_driver.Controller.Bucket.Prefix.{join_s3_prefix-extends}
use zerofs_csi_driver.Host.{ok}
use zerofs_csi_driver.Examples.Machine.{no_files, start}
use zerofs_csi_driver.Controller.Create.{CreateVolumeRequest, Volume, create_volume}
use zerofs_csi_driver.Controller.Create.Context.{create_volume-lookup, create_volume-capacity}
use zerofs_csi_driver.Controller.Delete.{ControllerService, delete_volume_data_if_enabled}
use zerofs_csi_driver.Controller.Delete.Guards.{
  DeletesListed, delete_volume_data_if_enabled-DeletesListed,
}
use zerofs_csi_driver.Controller.Delete.Enabled.{
  UsesBucketAllowed, delete_volume_data_if_enabled-UsesBucketAllowed,
}
use zerofs_csi_driver.Examples.Requests.{deleting}

abbrev create_request : CreateVolumeRequest
create_request = record {
  name = codes "v1";
  capabilities = some ([] ∷ []);
  required_bytes = some (pos 1024);
  parameters = (codes "filesystem", codes "ext4") ∷ [];
}

abbrev created_volume : Volume
created_volume = record {
  volume_id = codes "v1";
  capacity_bytes = pos 1024;
  volume_context = (codes "filesystem", codes "ext4") ∷ (codes "capacity_bytes", codes "1024") ∷ [];
}

create_runs : create_volume create_request ≡ ok created_volume
unfolding create_volume format_int
create_runs = refl

create_volume-lookup_example : lookup (codes "filesystem") created_volume.volume_context ≡ (
    if codes "capacity_bytes" === codes "filesystem"
    then some (format_int (pos 1024))
    else lookup (codes "filesystem") create_request.parameters)
create_volume-lookup_example =
    create_volume-lookup create_request created_volume (codes "filesystem") create_runs

create_volume-capacity_example :
    (text : Str) × (lookup (codes "capacity_bytes") created_volume.volume_context ≡ some text)
    × (parse_int text ≡ some (pos 1024))
create_volume-capacity_example =
    create_volume-capacity create_request created_volume (omega arith) create_runs

abbrev controller : ControllerService
controller = record {
  mounter = some (codes "ns");
  parse_url =
      λ text. some (record { scheme = codes "s3"; host = codes "bucket"; path = codes "/data" });
}

delete_volume_data_if_enabled-DeletesListed_example :
    DeletesListed
      (delete_volume_data_if_enabled {E = deleting} controller (codes "v1") (start no_files)).1.log
delete_volume_data_if_enabled-DeletesListed_example =
    delete_volume_data_if_enabled-DeletesListed {E = deleting} controller (codes "v1")
      (start no_files) tt

delete_volume_data_if_enabled-UsesBucketAllowed_example :
    UsesBucketAllowed
      (delete_volume_data_if_enabled {E = deleting} controller (codes "v1") (start no_files)).1.log
delete_volume_data_if_enabled-UsesBucketAllowed_example =
    delete_volume_data_if_enabled-UsesBucketAllowed {E = deleting} controller (codes "v1")
      (start no_files) tt

pvc1-IsVolume : IsVolume (codes "pvc-1")
unfolding is_space
pvc1-IsVolume = record {
  name = record {
    plain = (refl, (refl, (refl, (refl, (refl, tt)))));
    given = refl;
    not_here = refl;
    not_up = refl;
  };
  no_space = (refl, (refl, (refl, (refl, (refl, tt)))));
}

pvc10-IsVolume : IsVolume (codes "pvc-1" ++ codes "0")
unfolding is_space
pvc10-IsVolume = record {
  name = record {
    plain = (refl, (refl, (refl, (refl, (refl, (refl, tt))))));
    given = refl;
    not_here = refl;
    not_up = refl;
  };
  no_space = (refl, (refl, (refl, (refl, (refl, (refl, tt))))));
}

join_s3_prefix-extends_example :
    has_prefix
      (join_s3_prefix (codes "data") (codes "pvc-1" ++ codes "0"))
      (join_s3_prefix (codes "data") (codes "pvc-1"))
    ≡ true
join_s3_prefix-extends_example =
    join_s3_prefix-extends (codes "data") (codes "pvc-1") (codes "0") pvc1-IsVolume pvc10-IsVolume
