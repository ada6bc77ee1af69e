-- ===== src/Node/Unpublish.antt =====
-- pkg/csi/node.go: `NodeUnpublishVolume`.
pub mod Plain
pub mod Returns
pub mod Clears
pub mod Locking
pub mod Releases
pub mod Effects
pub mod Leaves
use zerofs_csi_driver.Base.{
  Bool, true, false, Option, none, some, [], ◌∷◌, Str, codes, trim_space, if◌then◌else◌,
}
use zerofs_csi_driver.Base.Text.{contains}
use zerofs_csi_driver.Host.{
  Env, Exec, Call, Read, contents, missing, read_error, Output, Result, ok, err, perform, pure,
  attempt, with_lock, ◌>>=◌, ◌>>◌,
}
use zerofs_csi_driver.Nbd.Devices.{find_mount_source}
use zerofs_csi_driver.Nbd.State.{volume_nbd_state_path, clear_volume_nbd_state}
use zerofs_csi_driver.Mounter.Timeout.{seconds}
use zerofs_csi_driver.Mounter.Manifest.{pod_name_of}
use zerofs_csi_driver.Mounter.Wait.{wait_for_pod_deletion}
use zerofs_csi_driver.Mounter.Remove.{remove_pod}
use zerofs_csi_driver.Node.Request.{
  Service, UnpublishRequest, node_unpublish, observe, record_stage_error, validate_unpublish,
}

abbrev trimmed_contents : Read → Str
trimmed_contents (contents b) = trim_space b
trimmed_contents missing = []
trimmed_contents read_error = []

abbrev has_failed : Result Unit → Bool
has_failed (ok _) = false
has_failed (err e) = true

module _ {E : Env} where
  -- A failed umount counts unless its output says that nothing was mounted.
  unfoldable pub judge_umount : Bool → Str → Exec E Unit
  judge_umount false text = pure tt
  judge_umount true text =
      if contains text (codes "not mounted")
      then pure tt
      else record_stage_error node_unpublish (codes "umount_fs")

  unfoldable pub unmount_target : Str → Exec E Unit
  unmount_target target = do
    o ← perform (Call.exec (codes "umount") (target ∷ []))
    judge_umount o.failed o.text
    observe node_unpublish (codes "umount_fs")

  -- The device: what findmnt printed, or else what the state file names. "" if neither.
  unfoldable pub device_to_detach : Str → Option Str → Exec E Str
  device_to_detach volume (some src) = pure src
  device_to_detach volume none = do
    b ← perform (Call.read_file (volume_nbd_state_path volume))
    pure (trimmed_contents b)

  -- `recordStageError` if the step failed, and go on.
  unfoldable pub count_failure : Bool → Str → Exec E Unit
  count_failure false stage = pure tt
  count_failure true stage = record_stage_error node_unpublish stage

  unfoldable pub detach_device : Str → Exec E Unit
  detach_device [] = pure tt
  detach_device (c ∷ dev) = do
    o ← perform (Call.exec (codes "nbd-client") (codes "-d" ∷ (c ∷ dev) ∷ []))
    count_failure o.failed (codes "detach_nbd")
    observe node_unpublish (codes "detach_nbd")

  unfoldable pub remove_volume_pod : Str → Str → Exec E Unit
  remove_volume_pod namespace volume = do
    result ← attempt (remove_pod namespace volume)
    count_failure (has_failed result) (codes "remove_pod")
    observe node_unpublish (codes "remove_pod")
    attempt (wait_for_pod_deletion (pod_name_of volume) namespace (seconds 30))
    pure tt

  unfoldable pub clear_locked : Str → Str → Exec E Unit
  clear_locked volume dev = with_lock (clear_volume_nbd_state volume dev)

  -- The part behind the guards.
  unfoldable pub unpublish : Service → UnpublishRequest → Exec E Unit
  unpublish ns req = do
    src ← find_mount_source req.target_path
    unmount_target req.target_path
    dev ← device_to_detach req.volume_id src
    detach_device dev
    remove_volume_pod ns.namespace req.volume_id
    clear_locked req.volume_id dev
    observe node_unpublish (codes "total")

  unfoldable pub node_unpublish_volume : Service → UnpublishRequest → Exec E Unit
  node_unpublish_volume ns req = do validate_unpublish req; unpublish ns req
