-- ===== src/Nbd/Reserve.antt =====
-- pkg/csi/nbd.go: `reserveNBDDevice`.
pub mod Plain
pub mod Collect
use zerofs_csi_driver.Base.{
  ℕ, ◌*◌, ◌^◌, ltb, Bool, true, false, Option, none, some, List, [], ◌∷◌, Str, codes, trim_space,
  is_blank, if◌then◌else◌,
}
use zerofs_csi_driver.Host.{
  Env, Exec, Call, Stat, found, not_exist, stat_error, Result, ok, err, unknown, perform, pure,
  fail, attempt, on_option, ◌>>=◌, ◌>>◌,
}
use zerofs_csi_driver.Nbd.Devices.{list_nbd_devices, is_nbd_connected}
use zerofs_csi_driver.Nbd.State.{
  volume_nbd_state_path, device_reservation_path, ensure_run_dirs, read_volume_nbd_state,
  write_volume_nbd_state, clear_volume_nbd_state, must_read_file,
}

-- `2*time.Hour`, in nanoseconds.
abbrev pub two_hours : ℕ
two_hours = 2 * 3600 * 10 ^ 9

module _ {E : Env} where
  -- Create the file with O_EXCL; if that works, write the volume into it and close it.
  unfoldable pub note_volume : Str → Str → Bool → Exec E Unit
  note_volume res volume true = do perform (Call.write_string res volume); pure tt
  note_volume res volume false = pure tt

  unfoldable pub restore_reservation : Str → Str → Stat → Exec E Unit
  restore_reservation res volume not_exist = do
    created ← perform (Call.create_excl res)
    note_volume res volume created
  restore_reservation res volume _ = pure tt

  -- A state file that names a device which is there is used again.
  unfoldable pub reuse : Str → Str → Stat → Exec E (Option Str)
  reuse volume existing (found age) = do
    there ← perform (Call.stat (device_reservation_path existing))
    restore_reservation (device_reservation_path existing) volume there
    pure (some existing)
  reuse volume existing _ = do clear_volume_nbd_state volume existing; pure none

  unfoldable pub reuse_state : Str → Option Str → Exec E (Option Str)
  reuse_state volume none = pure none
  reuse_state volume (some existing) = do
    there ← perform (Call.stat existing)
    reuse volume existing there

  unfoldable pub remove_file : Str → Exec E Unit
  remove_file res = do perform (Call.remove res); pure tt

  unfoldable pub drop_if_stale : Str → ℕ → Stat → Exec E Unit
  drop_if_stale res age not_exist = remove_file res
  drop_if_stale res age _ = if ltb two_hours age then remove_file res else pure tt

  -- What the by-device file says: the volume that reserved the device.
  unfoldable pub judge_reservation : Str → ℕ → Str → Exec E Unit
  judge_reservation res age [] = remove_file res
  judge_reservation res age (c ∷ volume) = do
    there ← perform (Call.stat (volume_nbd_state_path (c ∷ volume)))
    drop_if_stale res age there

  -- The reply to `Stat` holds what `time.Since(st.ModTime())` gives.
  unfoldable pub collect_reservation : Str → Stat → Exec E Unit
  collect_reservation res (found age) = do
    text ← must_read_file res
    judge_reservation res age (trim_space text)
  collect_reservation res _ = pure tt

  -- The rest of a round, once the state file is written or not.
  unfoldable pub finish_reservation : Str → Str → Result Unit → Exec E (Option Str)
  finish_reservation res dev (ok _) = pure (some dev)
  finish_reservation res dev (err e) = do perform (Call.remove res); fail e.code e.message

  unfoldable pub claim : Str → Str → Bool → Exec E (Option Str)
  claim volume dev false = pure none
  claim volume dev true = do
    perform (Call.write_string (device_reservation_path dev) volume)
    written ← attempt (write_volume_nbd_state volume dev)
    finish_reservation (device_reservation_path dev) dev written

  unfoldable pub take_free : Str → Str → Exec E (Option Str)
  take_free volume dev = do
    there ← perform (Call.stat (device_reservation_path dev))
    collect_reservation (device_reservation_path dev) there
    created ← perform (Call.create_excl (device_reservation_path dev))
    claim volume dev created

  -- One round of the loop; `none` is `continue`.
  unfoldable pub try_device : Str → Str → Result Bool → Exec E (Option Str)
  try_device volume dev (ok false) = take_free volume dev
  try_device volume dev _ = pure none

  -- A round of the loop, and what follows `continue`.
  unfoldable pub reserve_round : Str → Str → Exec E Str → Exec E Str
  reserve_round volume dev next = do
    connected ← attempt (is_nbd_connected dev)
    taken ← try_device volume dev connected
    on_option taken pure next

  unfoldable pub first_free : Str → List Str → Exec E Str
  first_free volume [] = fail unknown (codes "no free /dev/nbd* devices available")
  first_free volume (dev ∷ devs) = reserve_round volume dev (first_free volume devs)

  unfoldable pub scan_devices : Str → List Str → Exec E Str
  scan_devices volume [] = fail unknown (codes "no /dev/nbd* devices found")
  scan_devices volume (dev ∷ devs) = first_free volume (dev ∷ devs)

  unfoldable pub or_scan : Str → Option Str → Exec E Str
  or_scan volume (some d) = pure d
  or_scan volume none = do devs ← list_nbd_devices; scan_devices volume devs

  unfoldable pub reserve_nbd_device : Str → Exec E Str
  reserve_nbd_device volume = do
    ensure_run_dirs
    existing ← read_volume_nbd_state volume
    reused ← reuse_state volume existing
    or_scan volume reused
