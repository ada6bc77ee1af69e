-- ===== src/Node/Unpublish/Returns.antt =====
-- `NodeUnpublishVolume` returns no error once its guards are passed.
use zerofs_csi_driver.Base.{
  ◌≡◌, ◌≢◌, refl, Bool, true, false, [], ◌∷◌, Option, none, some, Str, codes,
}
use zerofs_csi_driver.Host.{Env, pure, ◌>>=◌}
use zerofs_csi_driver.Host.Succeeds.{Succeeds, succeeds_rules}
use zerofs_csi_driver.Nbd.Devices.{find_mount_source}
use zerofs_csi_driver.Nbd.State.{remove_reservation, clear_volume_nbd_state}
use zerofs_csi_driver.Node.Request.{
  Service, UnpublishRequest, node_unpublish, present, observe, record_stage_error,
  validate_unpublish,
}
use zerofs_csi_driver.Node.Unpublish.{
  judge_umount, unmount_target, device_to_detach, count_failure, detach_device, remove_volume_pod,
  clear_locked, unpublish, node_unpublish_volume,
}

module _ {E : Env} where
  pub observe-Succeeds : (o t : Str) → Succeeds {E = E} (observe o t)
  unfolding observe
  observe-Succeeds o t = search succeeds_rules

  record_stage_error-Succeeds : (o t : Str) → Succeeds {E = E} (record_stage_error o t)
  unfolding record_stage_error
  record_stage_error-Succeeds o t = search succeeds_rules

  judge_umount-Succeeds : (failed : Bool) (text : Str) → Succeeds {E = E} (judge_umount failed text)
  unfolding judge_umount
  judge_umount-Succeeds false text = search succeeds_rules
  judge_umount-Succeeds true text = search (succeeds_rules, record_stage_error-Succeeds)

  pub unmount_target-Succeeds : (target : Str) → Succeeds {E = E} (unmount_target target)
  unfolding unmount_target
  unmount_target-Succeeds target =
      search (succeeds_rules, judge_umount-Succeeds, observe-Succeeds) depth 8

  pub find_mount_source-Succeeds : (target : Str) → Succeeds {E = E} (find_mount_source target)
  unfolding find_mount_source
  find_mount_source-Succeeds target = search succeeds_rules

  pub device_to_detach-Succeeds :
      (volume : Str) (src : Option Str) → Succeeds {E = E} (device_to_detach volume src)
  unfolding device_to_detach
  device_to_detach-Succeeds volume (some src) = search succeeds_rules
  device_to_detach-Succeeds volume none = search succeeds_rules

  count_failure-Succeeds :
      (failed : Bool) (stage : Str) → Succeeds {E = E} (count_failure failed stage)
  unfolding count_failure
  count_failure-Succeeds false stage = search succeeds_rules
  count_failure-Succeeds true stage = record_stage_error-Succeeds _ stage

  pub detach_device-Succeeds : (dev : Str) → Succeeds {E = E} (detach_device dev)
  unfolding detach_device
  detach_device-Succeeds [] = search succeeds_rules
  detach_device-Succeeds (c ∷ dev) =
      search (succeeds_rules, count_failure-Succeeds, observe-Succeeds) depth 8

  pub remove_volume_pod-Succeeds :
      (namespace volume : Str) → Succeeds {E = E} (remove_volume_pod namespace volume)
  unfolding remove_volume_pod
  remove_volume_pod-Succeeds namespace volume =
      search (succeeds_rules, count_failure-Succeeds, observe-Succeeds) depth 10

  pub remove_reservation-Succeeds : (dev : Str) → Succeeds {E = E} (remove_reservation dev)
  unfolding remove_reservation
  remove_reservation-Succeeds [] = search succeeds_rules
  remove_reservation-Succeeds (c ∷ dev) = search succeeds_rules

  pub clear_volume_nbd_state-Succeeds :
      (volume dev : Str) → Succeeds {E = E} (clear_volume_nbd_state volume dev)
  unfolding clear_volume_nbd_state
  clear_volume_nbd_state-Succeeds volume dev = search (succeeds_rules, remove_reservation-Succeeds)

  clear_locked-Succeeds : (volume dev : Str) → Succeeds {E = E} (clear_locked volume dev)
  unfolding clear_locked
  clear_locked-Succeeds volume dev = search (succeeds_rules, clear_volume_nbd_state-Succeeds)

  pub unpublish-Succeeds :
      (ns : Service) (req : UnpublishRequest) → Succeeds {E = E} (unpublish ns req)
  unfolding unpublish
  unpublish-Succeeds ns req =
      search
        (
          succeeds_rules, find_mount_source-Succeeds, unmount_target-Succeeds,
          device_to_detach-Succeeds, detach_device-Succeeds, remove_volume_pod-Succeeds,
          clear_locked-Succeeds, observe-Succeeds,
        )
        depth 14

  pub present-given :
      (operation message s : Str) → s ≢ [] → present {E = E} operation message s ≡ pure tt
  unfolding present
  present-given operation message [] h = absurd (h refl)
  present-given operation message (c ∷ s) h = refl

  pub guards-passed :
      (ns : Service) (req : UnpublishRequest)
      → req.volume_id ≢ []
      → req.target_path ≢ []
      → node_unpublish_volume {E = E} ns req ≡ unpublish ns req
  unfolding node_unpublish_volume validate_unpublish ◌>>=◌
  guards-passed ns req h k =
      rw
        (
          present-given node_unpublish (codes "volume ID cannot be empty") req.volume_id h,
          present-given node_unpublish (codes "target path cannot be empty") req.target_path k,
        )
        refl
