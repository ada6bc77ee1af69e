-- ===== src/Nbd/State.antt =====
-- pkg/csi/nbd.go: the file that names a volume's device, and the file that reserves a device.
pub mod Quiet
pub mod Paths
use zerofs_csi_driver.Base.{
  ℕ, Bool, true, false, Option, none, some, List, [], ◌∷◌, ◌++◌, Str, codes, ◌===◌, trim_space,
  if◌then◌else◌,
}
use zerofs_csi_driver.Base.FilePath.{join_path, base}
use zerofs_csi_driver.Host.{
  Env, Exec, Call, Read, contents, missing, read_error, unknown, perform, pure, fail, ◌>>=◌, ◌>>◌,
}

-- `ZeroFSRunDir` and `nbdByDeviceDir`
abbrev pub run_dir : Str
run_dir = codes "/run/zerofs-csi"

abbrev pub by_device_dir : Str
by_device_dir = run_dir ++ codes "/by-device"

unfoldable pub volume_nbd_state_path : Str → Str
volume_nbd_state_path volume = join_path (run_dir ∷ volume ∷ [])

unfoldable pub device_reservation_path : Str → Str
device_reservation_path dev = join_path (by_device_dir ∷ base (trim_space dev) ∷ [])

abbrev pub device_in : Read → Option Str
device_in (contents b) = if trim_space b === [] then none else some (trim_space b)
device_in missing = none
device_in read_error = none

abbrev pub text_of : Read → Str
text_of (contents b) = b
text_of missing = []
text_of read_error = []

module _ {E : Env} where
  -- `if err != nil { return err }` behind a call whose reply says that it succeeded.
  unfoldable pub check : Bool → Str → Exec E Unit
  check true m = pure tt
  check false m = fail unknown m

  unfoldable pub ensure_run_dirs : Exec E Unit
  ensure_run_dirs = do
    a ← perform (Call.mkdir_all run_dir)
    check a (codes "mkdir")
    b ← perform (Call.mkdir_all by_device_dir)
    check b (codes "mkdir")

  -- `none` where Go returns ("", false).
  unfoldable pub read_volume_nbd_state : Str → Exec E (Option Str)
  read_volume_nbd_state volume = do
    b ← perform (Call.read_file (volume_nbd_state_path volume))
    pure (device_in b)

  unfoldable pub write_volume_nbd_state : Str → Str → Exec E Unit
  write_volume_nbd_state volume dev = do
    ensure_run_dirs
    done ← perform (Call.write_file (volume_nbd_state_path volume) (trim_space dev))
    check done (codes "write")

  unfoldable pub remove_reservation : Str → Exec E Unit
  remove_reservation [] = pure tt
  remove_reservation (c ∷ dev) = do
    perform (Call.remove (device_reservation_path (c ∷ dev)))
    pure tt

  unfoldable pub clear_volume_nbd_state : Str → Str → Exec E Unit
  clear_volume_nbd_state volume dev = do
    perform (Call.remove (volume_nbd_state_path volume))
    remove_reservation dev

  unfoldable pub must_read_file : Str → Exec E Str
  must_read_file path = do b ← perform (Call.read_file path); pure (text_of b)
