-- ===== src/Node/Disk.antt =====
-- pkg/csi/node.go: the 9p half of `NodePublishVolume`, up to the unmount of the 9p mount.
pub mod Quiet
pub mod Sockets
use zerofs_csi_driver.Base.{
  ℕ, zero, suc, Bool, true, false, Option, none, some, List, [], ◌∷◌, ◌++◌, Str, codes,
}
use zerofs_csi_driver.Base.Text.{Dict, lookup}
use zerofs_csi_driver.Base.FilePath.{join_path}
use zerofs_csi_driver.Host.{
  Env, Exec, Call, Stat, found, not_exist, stat_error, Output, internal, invalid_argument, perform,
  pure, fail, on_stat, ◌>>=◌, ◌>>◌,
}
use zerofs_csi_driver.Nbd.Devices.{find_mount_source}
use zerofs_csi_driver.Mounter.Config.{base_dir}
use zerofs_csi_driver.Node.Request.{node_publish, observe, fail_stage}

abbrev pub socket_path : Str → Str
socket_path volume = join_path (base_dir ∷ (codes "zerofs-" ++ (volume ++ codes ".9p.sock")) ∷ [])

abbrev pub nbd_socket_path : Str → Str
nbd_socket_path volume =
    join_path (base_dir ∷ (codes "zerofs-" ++ (volume ++ codes ".nbd.sock")) ∷ [])

abbrev pub disk_path : Str → Str
disk_path target = join_path (target ∷ codes ".nbd" ∷ codes "disk" ∷ [])

-- `maxRetries`
abbrev pub max_retries : ℕ
max_retries = 6

module _ {E : Env} where
  -- `os.MkdirAll` of the target
  unfoldable pub make_target : Bool → Exec E Unit
  make_target true = pure tt
  make_target false =
      fail_stage node_publish (codes "mkdir") internal (codes "failed to create target directory")

  -- After an attempt that found no socket, by the number of attempts that are left.
  unfoldable pub sleep_or_fail : ℕ → Exec E Unit → Exec E Unit
  sleep_or_fail zero next =
      fail_stage node_publish (codes "wait_socket") internal (codes "socket file does not exist")
  sleep_or_fail (suc left) next = perform (Call.sleep 10000) >> next

  unfoldable pub socket_attempt : Str → ℕ → Exec E Unit → Exec E Unit
  socket_attempt socket left next = do
    there ← perform (Call.stat socket)
    on_stat there (λ _. pure tt) (sleep_or_fail left next)
        (fail_stage node_publish (codes "wait_socket") internal
          (codes "error checking socket file"))

  -- The attempts that are left. No sleep follows the last one.
  unfoldable pub socket_attempts : ℕ → Str → Exec E Unit
  socket_attempts zero socket = pure tt
  socket_attempts (suc left) socket = socket_attempt socket left (socket_attempts left socket)

  -- A mount that fails is good enough if something is mounted there.
  unfoldable pub still_mounted : Option Str → Exec E Unit
  still_mounted (some src) = pure tt
  still_mounted none =
      fail_stage node_publish (codes "mount_9p") internal (codes "failed to mount volume")

  unfoldable pub mounted_9p : Str → Bool → Exec E Unit
  mounted_9p target false = pure tt
  mounted_9p target true = do src ← find_mount_source target; still_mounted src

  unfoldable pub mount_9p : Str → Str → Exec E Unit
  mount_9p socket target = do
    o ← perform (
        Call.exec (codes "mount") (
          codes "-t"
          ∷ codes "9p"
          ∷ codes "-o"
          ∷ codes "trans=unix,version=9p2000.L"
          ∷ socket
          ∷ target
          ∷ []))
    mounted_9p target o.failed
    observe node_publish (codes "mount_9p")

  unfoldable pub truncated : Bool → Exec E Unit
  truncated true =
      fail_stage node_publish (codes "create_disk") internal (codes "failed to create disk file")
  truncated false = observe node_publish (codes "create_disk")

  unfoldable pub create_disk : Str → Option Str → Exec E Unit
  create_disk disk none =
      fail invalid_argument (codes "no capacity information provided for volume")
  create_disk disk (some capacity) = do
    o ← perform (Call.exec (codes "truncate") (codes "-s" ∷ capacity ∷ disk ∷ []))
    truncated o.failed

  unfoldable pub ensure_disk : Dict → Str → Stat → Exec E Unit
  ensure_disk context disk (found _) = pure tt
  ensure_disk context disk not_exist = create_disk disk (lookup (codes "capacity_bytes") context)
  ensure_disk context disk stat_error = fail internal (codes "error checking disk file")

  unfoldable pub unmounted_9p : Bool → Exec E Unit
  unmounted_9p true =
      fail_stage node_publish (codes "umount_9p") internal (codes "failed to unmount 9p volume")
  unmounted_9p false = observe node_publish (codes "umount_9p")

  -- Volume, target and volume context.
  unfoldable pub prepare_disk : Str → Str → Dict → Exec E Unit
  prepare_disk volume target context = do
    socket_attempts max_retries (socket_path volume)
    mount_9p (socket_path volume) target
    there ← perform (Call.stat (disk_path target))
    ensure_disk context (disk_path target) there
    o ← perform (Call.exec (codes "umount") (target ∷ []))
    unmounted_9p o.failed
