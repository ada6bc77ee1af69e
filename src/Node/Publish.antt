-- ===== src/Node/Publish.antt =====
-- pkg/csi/node.go: `NodePublishVolume`.
pub mod Plain
pub mod Format
pub mod Locking
pub mod Mounted
pub mod Rejects
pub mod Forgets
pub mod Agrees
pub mod Exclusive
pub mod Effects
use zerofs_csi_driver.Base.{
  Bool, true, false, Option, none, some, List, [], ◌∷◌, Str, codes, if◌then◌else◌,
}
use zerofs_csi_driver.Base.Text.{has_prefix}
use zerofs_csi_driver.Host.{
  Env, Exec, Call, Result, ok, err, internal, perform, pure, fail, attempt, with_lock, ◌>>=◌, ◌>>◌,
}
use zerofs_csi_driver.Nbd.Devices.{
  is_nbd_connected, find_mount_source, unmount_best_effort, detach_nbd_device_best_effort,
}
use zerofs_csi_driver.Nbd.State.{read_volume_nbd_state, clear_volume_nbd_state}
use zerofs_csi_driver.Mounter.Create.{create_pod}
use zerofs_csi_driver.Mounter.Remove.{remove_pod}
use zerofs_csi_driver.Node.Request.{
  Service, PublishRequest, node_publish, observe, fail_stage, context_value, validate_publish,
}
use zerofs_csi_driver.Node.Disk.{make_target, prepare_disk}
use zerofs_csi_driver.Node.Attach.{attach_disk}

abbrev flags_of : Option (List Str) → List Str
flags_of none = []
flags_of (some flags) = flags

abbrev pub is_nbd_source : Str → Bool
is_nbd_source src = has_prefix src (codes "/dev/nbd")

module _ {E : Env} where
  unfoldable pub detach_if_connected : Str → Result Bool → Exec E Unit
  detach_if_connected dev (ok true) = detach_nbd_device_best_effort dev
  detach_if_connected dev _ = pure tt

  unfoldable pub drop_stale : Str → Option Str → Exec E Unit
  drop_stale volume none = pure tt
  drop_stale volume (some dev) = do
    result ← attempt (is_nbd_connected dev)
    detach_if_connected dev result
    clear_volume_nbd_state volume dev

  unfoldable pub drop_recorded : Str → Exec E Unit
  drop_recorded volume = do stale ← read_volume_nbd_state volume; drop_stale volume stale

  -- What an earlier attempt left behind, under the lock.
  unfoldable pub drop_stale_state : Str → Exec E Unit
  drop_stale_state volume = with_lock (drop_recorded volume)

  unfoldable pub release : Str → Option Str → Exec E Unit
  release volume none = pure tt
  release volume (some dev) = do
    detach_nbd_device_best_effort dev
    clear_volume_nbd_state volume dev

  -- The deferred function, for a publish that failed. Its body takes no lock.
  unfoldable pub clean_up : Str → Str → Str → Exec E Unit
  clean_up namespace volume target = do
    unmount_best_effort target
    dev ← read_volume_nbd_state volume
    release volume dev
    attempt (remove_pod namespace volume)
    pure tt

  unfoldable pub pod_created : Result Unit → Exec E Unit
  pod_created (ok _) = observe node_publish (codes "create_pod")
  pod_created (err e) =
      fail_stage node_publish (codes "create_pod") internal (codes "failed to create pod")

  -- From the deferred function on.
  unfoldable pub publish_body : Service → PublishRequest → Str → Exec E Unit
  publish_body ns req filesystem = do
    made ← perform (Call.mkdir_all req.target_path)
    make_target made
    config_map ←
        context_value (codes "configMapName") (codes "failed to determine configMapName for volume")
          req.volume_context
    result ← attempt (create_pod ns.parse_quantity ns.namespace req.volume_id ns.node_id config_map)
    pod_created result
    prepare_disk req.volume_id req.target_path req.volume_context
    attach_disk ns.lower_rune req.volume_id req.target_path filesystem (flags_of req.capability)
    observe node_publish (codes "total")

  unfoldable pub settle : Service → PublishRequest → Result Unit → Exec E Unit
  settle ns req (ok _) = pure tt
  settle ns req (err e) = do
    clean_up ns.namespace req.volume_id req.target_path
    fail e.code e.message

  -- The part behind the check for a volume that is mounted already.
  unfoldable pub publish_fresh : Service → PublishRequest → Str → Exec E Unit
  publish_fresh ns req filesystem = do
    drop_stale_state req.volume_id
    result ← attempt (publish_body ns req filesystem)
    settle ns req result

  unfoldable pub publish_over : Service → PublishRequest → Str → Option Str → Exec E Unit
  publish_over ns req filesystem none = publish_fresh ns req filesystem
  publish_over ns req filesystem (some src) =
      if is_nbd_source src
      then observe node_publish (codes "total")
      else (unmount_best_effort req.target_path >> publish_fresh ns req filesystem)

  unfoldable pub node_publish_volume : Service → PublishRequest → Exec E Unit
  node_publish_volume ns req = do
    filesystem ← validate_publish req
    src ← find_mount_source req.target_path
    publish_over ns req filesystem src
