-- ===== src/Node/Attach.antt =====
-- pkg/csi/node.go: the NBD half of `NodePublishVolume`: reserve, connect, format and mount.
pub mod Plain
pub mod Format
use zerofs_csi_driver.Base.{ℕ, Bool, true, false, List, [], ◌∷◌, Str, codes, trim_space}
use zerofs_csi_driver.Base.Text.{join}
use zerofs_csi_driver.Host.{
  Env, Exec, Call, Output, Result, ok, err, internal, resource_exhausted, perform, pure, fail,
  attempt, with_lock, ◌>>=◌, ◌>>◌,
}
use zerofs_csi_driver.Nbd.State.{clear_volume_nbd_state}
use zerofs_csi_driver.Nbd.Reserve.{reserve_nbd_device}
use zerofs_csi_driver.Node.Request.{node_publish, observe, record_stage_error, fail_stage}
use zerofs_csi_driver.Node.Mkfs.{mkfs_command}
use zerofs_csi_driver.Node.Disk.{nbd_socket_path}

-- The arguments of the last `mount`.
abbrev option_args : List Str → List Str → List Str
option_args [] rest = rest
option_args (f ∷ flags) rest = codes "-o" ∷ join (f ∷ flags) (codes ",") ∷ rest

abbrev pub mount_args : Str → List Str → Str → Str → List Str
mount_args filesystem flags dev target =
    codes "-t" ∷ filesystem ∷ option_args flags (dev ∷ target ∷ [])

abbrev pub blkid_args : Str → List Str
blkid_args dev = codes "-o" ∷ codes "value" ∷ codes "-s" ∷ codes "TYPE" ∷ dev ∷ []

abbrev pub connect_args : Str → Str → List Str
connect_args volume dev =
    codes "-unix"
    ∷ nbd_socket_path volume
    ∷ codes "-N"
    ∷ codes "disk"
    ∷ codes "-persist"
    ∷ codes "-timeout"
    ∷ codes "0"
    ∷ codes "-connections"
    ∷ codes "4"
    ∷ dev
    ∷ []

module _ {E : Env} where
  unfoldable pub reserved : Result Str → Exec E Str
  reserved (ok dev) = pure dev
  reserved (err e) =
      fail_stage node_publish (codes "reserve_nbd") resource_exhausted
        (codes "failed to reserve NBD device")

  unfoldable pub reserve_locked : Str → Exec E Str
  reserve_locked volume = do
    result ← with_lock (attempt (reserve_nbd_device volume))
    reserved result

  unfoldable pub connected : Str → Str → Bool → Exec E Unit
  connected volume dev false = observe node_publish (codes "connect_nbd")
  connected volume dev true = do
    with_lock (clear_volume_nbd_state volume dev)
    fail_stage node_publish (codes "connect_nbd") internal (codes "failed to connect to NBD device")

  unfoldable pub connect_nbd : Str → Str → Exec E Unit
  connect_nbd volume dev = do
    o ← perform (Call.exec (codes "nbd-client") (connect_args volume dev))
    connected volume dev o.failed

  -- A failed `mkfs` or `mount`: count it, disconnect the device, return the error.
  unfoldable pub disconnect_and_fail : Str → Str → Str → Exec E Unit
  disconnect_and_fail stage dev message = do
    record_stage_error node_publish stage
    perform (Call.exec (codes "nbd-client") (codes "-d" ∷ dev ∷ []))
    fail internal message

  unfoldable pub formatted : Str → Bool → Exec E Unit
  formatted dev false = observe node_publish (codes "mkfs")
  formatted dev true = disconnect_and_fail (codes "mkfs") dev (codes "failed to format NBD device")

  -- The type that `blkid` printed; its error is dropped.
  unfoldable pub format_blank : (ℕ → ℕ) → Str → Str → Str → Exec E Unit
  format_blank lower_rune filesystem dev (c ∷ fs_type) = pure tt
  format_blank lower_rune filesystem dev [] = do
    let (program, args) = mkfs_command lower_rune filesystem dev
    o ← perform (Call.exec program args)
    formatted dev o.failed

  unfoldable pub format_if_blank : (ℕ → ℕ) → Str → Str → Exec E Unit
  format_if_blank lower_rune filesystem dev = do
    o ← perform (Call.exec (codes "blkid") (blkid_args dev))
    format_blank lower_rune filesystem dev (trim_space o.text)

  unfoldable pub mounted_fs : Str → Bool → Exec E Unit
  mounted_fs dev false = observe node_publish (codes "mount_fs")
  mounted_fs dev true =
      disconnect_and_fail (codes "mount_fs") dev (codes "failed to mount NBD device")

  unfoldable pub mount_fs : Str → List Str → Str → Str → Exec E Unit
  mount_fs filesystem flags dev target = do
    o ← perform (Call.exec (codes "mount") (mount_args filesystem flags dev target))
    mounted_fs dev o.failed

  -- Volume, target, filesystem and mount flags.
  unfoldable pub attach_disk : (ℕ → ℕ) → Str → Str → Str → List Str → Exec E Unit
  attach_disk lower_rune volume target filesystem flags = do
    dev ← reserve_locked volume
    connect_nbd volume dev
    format_if_blank lower_rune filesystem dev
    mount_fs filesystem flags dev target
