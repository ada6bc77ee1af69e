-- ===== src/Examples/Runs.antt =====
-- Runs of the driver on the small machine, which the theorems are applied to.
use zerofs_csi_driver.Base.{◌≡◌, refl, some, codes}
use zerofs_csi_driver.Base.Text.{trim_space}
use zerofs_csi_driver.Base.FilePath.{clean, join_path, base}
use zerofs_csi_driver.Host.{ok, err, internal, ◌>>=◌, with_lock}
use zerofs_csi_driver.Nbd.Devices.{
  is_nbd_device_path, device_number, sort_devices, listed, list_nbd_devices, is_positive, pid_state,
  is_nbd_connected, find_mount_source, unmount_found, unmount_best_effort, detach_attempts,
  detach_nbd_device_best_effort,
}
use zerofs_csi_driver.Nbd.State.{
  volume_nbd_state_path, device_reservation_path, check, ensure_run_dirs, read_volume_nbd_state,
  write_volume_nbd_state, remove_reservation, clear_volume_nbd_state, must_read_file,
}
use zerofs_csi_driver.Nbd.Exclusive.{recorded}
use zerofs_csi_driver.Nbd.Reserve.{
  note_volume, restore_reservation, reuse, reuse_state, remove_file, drop_if_stale,
  judge_reservation, collect_reservation, finish_reservation, claim, take_free, try_device,
  reserve_round, first_free, scan_devices, or_scan, reserve_nbd_device,
}
use zerofs_csi_driver.Mounter.Wait.{
  deletion_tick, deletion_ticks, wait_for_pod_deletion, ready_tick, ready_ticks, wait_for_pod_ready,
}
use zerofs_csi_driver.Mounter.Remove.{escalate, await_deletion, delete_if_there, remove_pod}
use zerofs_csi_driver.Mounter.Create.{
  required, not_empty, put_secret, submit, replace_pod, apply_pod, wrapped, get_daemon_set_uid,
  launch, create_pod,
}
use zerofs_csi_driver.Node.Request.{
  observe, record_stage_error, fail_stage, present, has_capability, context_value, validate_publish,
}
use zerofs_csi_driver.Node.Mkfs.{filesystem_name, mkfs_command}
use zerofs_csi_driver.Node.Disk.{
  make_target, sleep_or_fail, socket_attempt, socket_attempts, still_mounted, mounted_9p, mount_9p,
  truncated, create_disk, ensure_disk, unmounted_9p, prepare_disk,
}
use zerofs_csi_driver.Node.Attach.{
  reserved, reserve_locked, connected, connect_nbd, disconnect_and_fail, formatted, format_blank,
  format_if_blank, mounted_fs, mount_fs, attach_disk,
}
use zerofs_csi_driver.Node.Publish.{
  detach_if_connected, drop_stale, drop_recorded, drop_stale_state, release, clean_up, pod_created,
  publish_body, settle, publish_fresh, publish_over, node_publish_volume,
}
use zerofs_csi_driver.Examples.Machine.{Files, no_files, start}
use zerofs_csi_driver.Examples.Requests.{
  service, publish_request, served, unserved, mounted, with_socket,
}

pub create_pod_runs :
    (create_pod {E = served} service.parse_quantity
      (codes "ns")
      (codes "v1")
      (codes "n1")
      (codes "cm")
      (start no_files)).0
    ≡ ok tt
unfolding ◌>>=◌ deletion_tick deletion_ticks wait_for_pod_deletion ready_tick ready_ticks
    wait_for_pod_ready required not_empty put_secret submit replace_pod apply_pod wrapped
    get_daemon_set_uid launch create_pod
create_pod_runs = refl

pub publish_again_runs :
    (node_publish_volume {E = mounted} service publish_request (start no_files)).0 ≡ ok tt
unfolding ◌>>=◌ node_publish_volume validate_publish present has_capability context_value
    find_mount_source publish_over observe trim_space
publish_again_runs = refl

pub publish_fails :
    (publish_fresh {E = unserved} service publish_request (codes "ext4") (start with_socket)).0
    ≡ err (record { code = internal; message = codes "failed to create pod" })
unfolding ◌>>=◌ with_lock clean join_path base trim_space is_nbd_device_path device_number listed
    list_nbd_devices is_positive pid_state is_nbd_connected find_mount_source unmount_found
    unmount_best_effort detach_attempts detach_nbd_device_best_effort volume_nbd_state_path
    device_reservation_path check ensure_run_dirs read_volume_nbd_state write_volume_nbd_state
    remove_reservation clear_volume_nbd_state must_read_file note_volume restore_reservation reuse
    reuse_state remove_file drop_if_stale judge_reservation collect_reservation finish_reservation
    claim take_free try_device reserve_round first_free scan_devices or_scan reserve_nbd_device
    deletion_tick deletion_ticks wait_for_pod_deletion ready_tick ready_ticks wait_for_pod_ready
    escalate await_deletion delete_if_there remove_pod required not_empty put_secret submit
    replace_pod apply_pod wrapped get_daemon_set_uid launch create_pod observe record_stage_error
    fail_stage present has_capability context_value validate_publish filesystem_name mkfs_command
    make_target sleep_or_fail socket_attempt socket_attempts still_mounted mounted_9p mount_9p
    truncated create_disk ensure_disk unmounted_9p prepare_disk reserved reserve_locked connected
    connect_nbd disconnect_and_fail formatted format_blank format_if_blank mounted_fs mount_fs
    attach_disk detach_if_connected drop_stale drop_recorded drop_stale_state release clean_up
    pod_created publish_body settle publish_fresh publish_over node_publish_volume
publish_fails = refl

pub publish_records :
    recorded
      (λ (w : Files). w)
      (node_publish_volume {E = served} service publish_request (start with_socket)).1.world
      (codes "v1")
    ≡ some (codes "/dev/nbd2")
unfolding ◌>>=◌ with_lock sort_devices clean join_path base trim_space is_nbd_device_path
    device_number listed list_nbd_devices is_positive pid_state is_nbd_connected find_mount_source
    unmount_found unmount_best_effort detach_attempts detach_nbd_device_best_effort
    volume_nbd_state_path device_reservation_path check ensure_run_dirs read_volume_nbd_state
    write_volume_nbd_state remove_reservation clear_volume_nbd_state must_read_file note_volume
    restore_reservation reuse reuse_state remove_file drop_if_stale judge_reservation
    collect_reservation finish_reservation claim take_free try_device reserve_round first_free
    scan_devices or_scan reserve_nbd_device deletion_tick deletion_ticks wait_for_pod_deletion
    ready_tick ready_ticks wait_for_pod_ready escalate await_deletion delete_if_there remove_pod
    required not_empty put_secret submit replace_pod apply_pod wrapped get_daemon_set_uid launch
    create_pod observe record_stage_error fail_stage present has_capability context_value
    validate_publish filesystem_name mkfs_command make_target sleep_or_fail socket_attempt
    socket_attempts still_mounted mounted_9p mount_9p truncated create_disk ensure_disk unmounted_9p
    prepare_disk reserved reserve_locked connected connect_nbd disconnect_and_fail formatted
    format_blank format_if_blank mounted_fs mount_fs attach_disk detach_if_connected drop_stale
    drop_recorded drop_stale_state release clean_up pod_created publish_body settle publish_fresh
    publish_over node_publish_volume
publish_records = refl
