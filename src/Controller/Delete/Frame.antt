-- ===== src/Controller/Delete/Frame.antt =====
-- pkg/csi/controller_delete.go: what a property needs to pass through the deletion of a volume's data.
use zerofs_csi_driver.Base.{◌≡◌, Bool, true, false, Option, none, some, [], ◌∷◌, Str}
use zerofs_csi_driver.Base.Text.{Dict}
use zerofs_csi_driver.Kube.{ClaimRef, PersistentVolume}
use zerofs_csi_driver.Host.{Env, Sys, Call, Answer, got, refused, perform}
use zerofs_csi_driver.Host.Keeps.{Keeps, keeps_rules}
use zerofs_csi_driver.Mounter.Quiet.{required-Keeps, not_empty-Keeps}
use zerofs_csi_driver.Controller.Bucket.{
  Url, DeleteConfig, Location, location_in, parse_s3_location, done_or_fail, delete_s3_prefix,
}
use zerofs_csi_driver.Controller.Delete.{
  ControllerService, by_name_or_handle, find_persistent_volume, class_of_claim, storage_class_of,
  delete_data, delete_configured, delete_in_class, delete_for_volume, delete_with_mounter,
}

-- The calls that list a bucket or delete objects.
abbrev pub uses_bucket : Call → Bool
uses_bucket (Call.list_objects b p) = true
uses_bucket (Call.delete_objects b ks) = true
uses_bucket _ = false

module _ {E : Env} {P : Sys E → Type 0} where
  pub done_or_fail-Keeps : (r : Answer Unit) → Keeps P (done_or_fail {E = E} r)
  unfolding done_or_fail
  done_or_fail-Keeps (got _) = search keeps_rules
  done_or_fail-Keeps (refused text) = search keeps_rules

  location_in-Keeps : (u : Option Url) → Keeps P (location_in {E = E} u)
  unfolding location_in
  location_in-Keeps none = search keeps_rules
  location_in-Keeps (some u) = search keeps_rules depth 8

  parse_s3_location-Keeps :
      (parse_url : Str → Option Url) (text : Str)
      → Keeps P (parse_s3_location {E = E} parse_url text)
  unfolding parse_s3_location
  parse_s3_location-Keeps parse_url text = location_in-Keeps (parse_url text)

-- The calls that leave the buckets alone keep the property.
module _ {E : Env} {P : Sys E → Type 0}
    (other : (c : Call) → uses_bucket c ≡ false → Keeps P (perform c)) where
  class_of_claim-Keeps : (claim : Option ClaimRef) → Keeps P (class_of_claim claim)
  unfolding class_of_claim
  class_of_claim-Keeps none = search keeps_rules
  class_of_claim-Keeps (some (namespace, name)) = search (keeps_rules, other)

  storage_class_of-Keeps :
      (name : Str) (claim : Option ClaimRef) → Keeps P (storage_class_of name claim)
  unfolding storage_class_of
  storage_class_of-Keeps [] claim = class_of_claim-Keeps claim
  storage_class_of-Keeps (c ∷ name) claim = search keeps_rules

  by_name_or_handle-Keeps :
      (volume : Str) (r : Answer PersistentVolume) → Keeps P (by_name_or_handle volume r)
  unfolding by_name_or_handle
  by_name_or_handle-Keeps volume (got pv) = search keeps_rules
  by_name_or_handle-Keeps volume (refused text) = search (keeps_rules, other)

  find_persistent_volume-Keeps : (volume : Str) → Keeps P (find_persistent_volume volume)
  unfolding find_persistent_volume
  find_persistent_volume-Keeps volume = search (keeps_rules, other, by_name_or_handle-Keeps)

  -- And so does the clean-up of a prefix.
  module _
      (cleans : (config : DeleteConfig) (loc : Location) → Keeps P (delete_s3_prefix config loc))
      (cs : ControllerService) (namespace volume : Str) where
    delete_data-Keeps : (config : Dict) → Keeps P (delete_data cs namespace volume config)
    unfolding delete_data
    delete_data-Keeps config =
        search
          (keeps_rules, other, parse_s3_location-Keeps, required-Keeps, not_empty-Keeps, cleans)
          depth 16

    pub delete_configured-Keeps :
        (config_map : Str) → Keeps P (delete_configured cs namespace volume config_map)
    unfolding delete_configured
    delete_configured-Keeps config_map =
        search (keeps_rules, other, required-Keeps, not_empty-Keeps, delete_data-Keeps) depth 10

  -- And so does what follows once the name of the storage class is known.
  module _ (cs : ControllerService) (volume : Str)
      (in_class : (namespace name : Str) → Keeps P (delete_in_class cs namespace volume name)) where
    delete_for_volume-Keeps :
        (namespace : Str) (pv : Option PersistentVolume)
        → Keeps P (delete_for_volume cs namespace volume pv)
    unfolding delete_for_volume
    delete_for_volume-Keeps namespace none = search keeps_rules
    delete_for_volume-Keeps namespace (some pv) =
        search (keeps_rules, storage_class_of-Keeps, in_class)

    pub delete_with_mounter-Keeps :
        (mounter : Option Str) → Keeps P (delete_with_mounter cs volume mounter)
    unfolding delete_with_mounter
    delete_with_mounter-Keeps none = search keeps_rules
    delete_with_mounter-Keeps (some namespace) =
        search (keeps_rules, find_persistent_volume-Keeps, delete_for_volume-Keeps)
