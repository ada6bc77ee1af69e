-- ===== src/Controller/Delete.antt =====
-- pkg/csi/controller_delete.go, and `DeleteVolume` of pkg/csi/controller.go.
pub mod Frame
pub mod Guards
pub mod Enabled
use zerofs_csi_driver.Base.{
  Bool, true, false, Option, none, some, List, [], ◌∷◌, Str, codes, ◌===◌, trim_space,
  if◌then◌else◌,
}
use zerofs_csi_driver.Base.Text.{Dict, value_of, or_default, is_true_word}
use zerofs_csi_driver.Kube.{Secret, ClaimRef, PersistentVolume}
use zerofs_csi_driver.Host.{
  Env, Exec, Call, Answer, got, refused, Result, ok, err, unknown, perform, pure, fail, attempt,
  ◌>>=◌, ◌>>◌,
}
use zerofs_csi_driver.Mounter.Create.{required, not_empty}
use zerofs_csi_driver.Mounter.Remove.{remove_pod}
use zerofs_csi_driver.Controller.Bucket.{
  Url, DeleteConfig, Location, parse_s3_location, join_s3_prefix, delete_s3_prefix,
}

-- `controllerService`: the namespace of its mounter, if it has one (whose client is never nil), and
-- `url.Parse`.
pub record ControllerService : Type 0 where
  pub mounter : Option Str
  pub parse_url : Str → Option Url

abbrev handle_is : Str → Option Str → Bool
handle_is volume none = false
handle_is volume (some handle) = handle === volume

pub find_handle : Str → List PersistentVolume → Option PersistentVolume
find_handle volume [] = none
find_handle volume (pv ∷ pvs) =
    let rest = find_handle volume pvs in if handle_is volume pv.volume_handle then some pv else rest

abbrev matching : Str → Answer (List PersistentVolume) → Option PersistentVolume
matching volume (got pvs) = find_handle volume pvs
matching volume (refused text) = none

abbrev trimmed_class : Answer (Option Str) → Str
trimmed_class (got (some name)) = trim_space name
trimmed_class (got none) = []
trimmed_class (refused text) = []

-- The first entry that is not blank, without white space around it.
abbrev credential : Str → Str → Dict → Str
credential key other entries =
    or_default (trim_space (value_of key entries)) (trim_space (value_of other entries))

abbrev pub allows_deletion : Dict → Bool
allows_deletion parameters =
    is_true_word (trim_space (value_of (codes "deleteDataOnPVCDelete") parameters))

abbrev delete_config : Dict → Str → Str → DeleteConfig
delete_config config access_key secret_key = record {
  endpoint = trim_space (value_of (codes "awsEndpoint") config);
  region = trim_space (value_of (codes "awsDefaultRegion") config);
  allow_http = is_true_word (trim_space (value_of (codes "awsAllowHTTP") config));
  access_key_id = access_key;
  secret_key = secret_key;
}

module _ {E : Env} where
  unfoldable pub by_name_or_handle :
      Str → Answer PersistentVolume → Exec E (Option PersistentVolume)
  by_name_or_handle volume (got pv) = pure (some pv)
  by_name_or_handle volume (refused text) = do
    listed ← perform Call.list_persistent_volumes
    pure (matching volume listed)

  -- `none` also for an error, which the caller drops.
  unfoldable pub find_persistent_volume : Str → Exec E (Option PersistentVolume)
  find_persistent_volume volume = do
    named ← perform (Call.get_persistent_volume volume)
    by_name_or_handle volume named

  unfoldable pub class_of_claim : Option ClaimRef → Exec E Str
  class_of_claim none = pure []
  class_of_claim (some (namespace, name)) = do
    claim ← perform (Call.get_claim namespace name)
    pure (trimmed_class claim)

  -- The name of the storage class: the volume's, or else its claim's.
  unfoldable pub storage_class_of : Str → Option ClaimRef → Exec E Str
  storage_class_of [] claim = class_of_claim claim
  storage_class_of (c ∷ name) claim = pure (c ∷ name)

  -- The location of the volume's objects, the credentials, and the deletion.
  unfoldable pub delete_data : ControllerService → Str → Str → Dict → Exec E Unit
  delete_data cs namespace volume config = do
    loc ← parse_s3_location cs.parse_url (value_of (codes "storageURL") config)
    let name = trim_space (value_of (codes "awsCredentialsSecretName") config)
    not_empty (codes "configmap missing awsCredentialsSecretName") name
    answer ← perform (Call.get_secret namespace name)
    secret ← required (codes "failed to read credentials secret") answer
    let access_key = credential (codes "AWS_ACCESS_KEY_ID") (codes "username") secret.entries
    let secret_key = credential (codes "AWS_SECRET_ACCESS_KEY") (codes "password") secret.entries
    not_empty (codes "credentials secret missing access/secret key fields") access_key
    not_empty (codes "credentials secret missing access/secret key fields") secret_key
    delete_s3_prefix (delete_config config access_key secret_key)
        (record { bucket = loc.bucket; prefix = join_s3_prefix loc.prefix volume })

  unfoldable pub delete_configured : ControllerService → Str → Str → Str → Exec E Unit
  delete_configured cs namespace volume config_map = do
    not_empty (codes "StorageClass is missing parameters.configMapName") config_map
    answer ← perform (Call.get_config_map namespace config_map)
    config ← required (codes "failed to read configmap") answer
    delete_data cs namespace volume config

  unfoldable pub delete_for_class : ControllerService → Str → Str → Answer Dict → Exec E Unit
  delete_for_class cs namespace volume (refused text) = pure tt
  delete_for_class cs namespace volume (got parameters) =
      if allows_deletion parameters
      then delete_configured cs namespace volume
          (trim_space (value_of (codes "configMapName") parameters))
      else pure tt

  unfoldable pub delete_in_class : ControllerService → Str → Str → Str → Exec E Unit
  delete_in_class cs namespace volume [] = pure tt
  delete_in_class cs namespace volume (c ∷ name) = do
    answer ← perform (Call.get_storage_class (c ∷ name))
    delete_for_class cs namespace volume answer

  unfoldable pub delete_for_volume :
      ControllerService → Str → Str → Option PersistentVolume → Exec E Unit
  delete_for_volume cs namespace volume none = pure tt
  delete_for_volume cs namespace volume (some pv) = do
    name ← storage_class_of (trim_space pv.storage_class_name) pv.claim_ref
    delete_in_class cs namespace volume name

  unfoldable pub delete_with_mounter : ControllerService → Str → Option Str → Exec E Unit
  delete_with_mounter cs volume none = pure tt
  delete_with_mounter cs volume (some namespace) = do
    pv ← find_persistent_volume volume
    delete_for_volume cs namespace volume pv

  unfoldable pub delete_volume_data_if_enabled : ControllerService → Str → Exec E Unit
  delete_volume_data_if_enabled cs volume = delete_with_mounter cs volume cs.mounter

  unfoldable pub remove_pod_of : Str → Option Str → Exec E Unit
  remove_pod_of volume none = pure tt
  remove_pod_of volume (some namespace) = do attempt (remove_pod namespace volume); pure tt

  unfoldable pub data_deleted : Result Unit → Exec E Unit
  data_deleted (ok _) = pure tt
  data_deleted (err e) = fail unknown (codes "failed to delete volume data")

  unfoldable pub delete_volume : ControllerService → Str → Exec E Unit
  delete_volume cs [] = fail unknown (codes "volume ID cannot be empty")
  delete_volume cs (c ∷ volume) = do
    remove_pod_of (c ∷ volume) cs.mounter
    result ← attempt (delete_volume_data_if_enabled cs (c ∷ volume))
    data_deleted result
