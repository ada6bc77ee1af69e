-- ===== src/Node/Unpublish/Plain.antt =====
-- An unpublish keeps what every quiet call keeps, if sections under the lock keep it too.
use zerofs_csi_driver.Base.{◌≡◌, Bool, true, false, [], ◌∷◌, Option, none, some, Str}
use zerofs_csi_driver.Host.{Env, Sys, Exec, Call, perform, with_lock}
use zerofs_csi_driver.Host.Keeps.{Keeps, Keeps-bind, Keeps-attempt, keeps_rules}
use zerofs_csi_driver.Host.Calls.{is_quiet}
use zerofs_csi_driver.Nbd.Devices.Quiet.{find_mount_source-Keeps}
use zerofs_csi_driver.Nbd.State.{clear_volume_nbd_state}
use zerofs_csi_driver.Nbd.State.Quiet.{clear_volume_nbd_state-Keeps}
use zerofs_csi_driver.Mounter.Objects.{IsOwnChange}
use zerofs_csi_driver.Mounter.Quiet.{remove_pod-Keeps, wait_for_pod_deletion-Keeps}
use zerofs_csi_driver.Node.Request.{Service, UnpublishRequest, node_unpublish}
use zerofs_csi_driver.Node.Request.Quiet.{
  observe-Keeps, record_stage_error-Keeps, validate_unpublish-Keeps,
}
use zerofs_csi_driver.Node.Attach.Plain.{IsPlainExec}
use zerofs_csi_driver.Node.Unpublish.{
  judge_umount, unmount_target, device_to_detach, count_failure, detach_device, remove_volume_pod,
  clear_locked, unpublish, node_unpublish_volume,
}

module _ {E : Env} {P : Sys E → Type 0}
    (quiet : (c : Call) → is_quiet c ≡ true → Keeps P (perform c)) where
  judge_umount-Keeps : (failed : Bool) (text : Str) → Keeps P (judge_umount failed text)
  unfolding judge_umount
  judge_umount-Keeps false text = search keeps_rules
  judge_umount-Keeps true text = search (keeps_rules, record_stage_error-Keeps quiet)

  pub unmount_target-Keeps : (target : Str) → Keeps P (unmount_target target)
  unfolding unmount_target
  unmount_target-Keeps target =
      search (keeps_rules, judge_umount-Keeps, observe-Keeps quiet) depth 8

  device_to_detach-Keeps : (volume : Str) (src : Option Str) → Keeps P (device_to_detach volume src)
  unfolding device_to_detach
  device_to_detach-Keeps volume (some src) = search keeps_rules
  device_to_detach-Keeps volume none = search (keeps_rules, quiet)

  count_failure-Keeps : (failed : Bool) (stage : Str) → Keeps P (count_failure failed stage)
  unfolding count_failure
  count_failure-Keeps false stage = search keeps_rules
  count_failure-Keeps true stage = record_stage_error-Keeps quiet node_unpublish stage

  pub detach_device-Keeps : (dev : Str) → Keeps P (detach_device dev)
  unfolding detach_device
  detach_device-Keeps [] = search keeps_rules
  detach_device-Keeps (c ∷ dev) =
      search (keeps_rules, count_failure-Keeps, observe-Keeps quiet) depth 8

  pub remove_volume_pod-Keeps :
      (namespace volume : Str)
      → ((c : Call) → IsOwnChange namespace volume c → Keeps P (perform c))
      → Keeps P (remove_volume_pod namespace volume)
  unfolding remove_volume_pod
  remove_volume_pod-Keeps namespace volume own =
      Keeps-bind _ _ (Keeps-attempt _ (remove_pod-Keeps quiet namespace volume own)) (λ r.
        search
          (keeps_rules, count_failure-Keeps, observe-Keeps quiet, wait_for_pod_deletion-Keeps quiet)
          depth 10)

module _ {E : Env} {P : Sys E → Type 0}
    (quiet : (c : Call) → is_quiet c ≡ true → Keeps P (perform c))
    (locks : (A : Type 0) (m : Exec E A) → IsPlainExec m → Keeps P (with_lock m)) (ns : Service)
    (req : UnpublishRequest)
    (own : (c : Call) → IsOwnChange ns.namespace req.volume_id c → Keeps P (perform c)) where
  clear_locked-Keeps : (volume dev : Str) → Keeps P (clear_locked volume dev)
  unfolding clear_locked
  clear_locked-Keeps volume dev =
      locks _ (clear_volume_nbd_state volume dev) (λ Q k. clear_volume_nbd_state-Keeps k volume dev)

  own_removed-Keeps : Keeps P (remove_volume_pod ns.namespace req.volume_id)
  own_removed-Keeps = remove_volume_pod-Keeps quiet ns.namespace req.volume_id own

  unpublish-Keeps : Keeps P (unpublish ns req)
  unfolding unpublish
  unpublish-Keeps =
      search
        (
          keeps_rules,
          find_mount_source-Keeps quiet,
          unmount_target-Keeps quiet,
          device_to_detach-Keeps quiet,
          detach_device-Keeps quiet,
          own_removed-Keeps,
          clear_locked-Keeps,
          observe-Keeps quiet,
        )
        depth 14

  pub node_unpublish_volume-Keeps : Keeps P (node_unpublish_volume ns req)
  unfolding node_unpublish_volume
  node_unpublish_volume-Keeps =
      search (keeps_rules, validate_unpublish-Keeps quiet, unpublish-Keeps)
