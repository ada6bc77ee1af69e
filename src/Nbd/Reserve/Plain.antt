-- ===== src/Nbd/Reserve/Plain.antt =====
-- A reservation keeps whatever every call on files keeps.
use zerofs_csi_driver.Base.{ℕ, ◌≡◌, true, false, Bool, Option, none, some, List, [], ◌∷◌, Str}
use zerofs_csi_driver.Host.{Env, Sys, Exec, Call, Stat, found, not_exist, Result, ok, err, perform}
use zerofs_csi_driver.Host.Keeps.{Keeps, Keeps-bind, keeps_rules}
use zerofs_csi_driver.Host.Calls.{is_look, is_file_call, look-file_call}
use zerofs_csi_driver.Nbd.Devices.{is_nbd_connected, list_nbd_devices}
use zerofs_csi_driver.Nbd.Devices.Quiet.{pid_state-Keeps, listed-Keeps}
use zerofs_csi_driver.Nbd.State.{
  ensure_run_dirs, read_volume_nbd_state, write_volume_nbd_state, remove_reservation,
  clear_volume_nbd_state, must_read_file,
}
use zerofs_csi_driver.Nbd.State.Quiet.{check-Keeps}
use zerofs_csi_driver.Nbd.Reserve.{
  note_volume, restore_reservation, reuse, reuse_state, remove_file, drop_if_stale,
  judge_reservation, collect_reservation, finish_reservation, claim, take_free, try_device,
  reserve_round, first_free, scan_devices, or_scan, reserve_nbd_device,
}

module _ {E : Env} {P : Sys E → Type 0}
    (looks : (c : Call) → is_look c ≡ true → Keeps P (perform c)) where
  pub ensure_run_dirs-Looks : Keeps P ensure_run_dirs
  unfolding ensure_run_dirs
  ensure_run_dirs-Looks = search (keeps_rules, looks, check-Keeps) depth 8

  pub read_volume_nbd_state-Looks : (volume : Str) → Keeps P (read_volume_nbd_state volume)
  unfolding read_volume_nbd_state
  read_volume_nbd_state-Looks volume = search (keeps_rules, looks)

  must_read_file-Looks : (path : Str) → Keeps P (must_read_file path)
  unfolding must_read_file
  must_read_file-Looks path = search (keeps_rules, looks)

  pub is_nbd_connected-Looks : (dev : Str) → Keeps P (is_nbd_connected dev)
  unfolding is_nbd_connected
  is_nbd_connected-Looks dev = search (keeps_rules, looks, pid_state-Keeps)

  list_nbd_devices-Looks : Keeps P list_nbd_devices
  unfolding list_nbd_devices
  list_nbd_devices-Looks = search (keeps_rules, looks, listed-Keeps)

module _ {E : Env} {P : Sys E → Type 0}
    (files : (c : Call) → is_file_call c ≡ true → Keeps P (perform c)) where
  looks_of : (c : Call) → is_look c ≡ true → Keeps P (perform c)
  looks_of c h = files c (look-file_call c h)

  remove_reservation-Keeps : (dev : Str) → Keeps P (remove_reservation dev)
  unfolding remove_reservation
  remove_reservation-Keeps [] = search keeps_rules
  remove_reservation-Keeps (c ∷ dev) = search (keeps_rules, files)

  clear_volume_nbd_state-Keeps : (volume dev : Str) → Keeps P (clear_volume_nbd_state volume dev)
  unfolding clear_volume_nbd_state
  clear_volume_nbd_state-Keeps volume dev = search (keeps_rules, files, remove_reservation-Keeps)

  write_volume_nbd_state-Keeps : (volume dev : Str) → Keeps P (write_volume_nbd_state volume dev)
  unfolding write_volume_nbd_state
  write_volume_nbd_state-Keeps volume dev =
      Keeps-bind _ _ (ensure_run_dirs-Looks looks_of)
        (λ _. search (keeps_rules, files, check-Keeps))

  note_volume-Keeps : (res volume : Str) (created : Bool) → Keeps P (note_volume res volume created)
  unfolding note_volume
  note_volume-Keeps res volume true = search (keeps_rules, files)
  note_volume-Keeps res volume false = search keeps_rules

  restore_reservation-Keeps :
      (res volume : Str) (there : Stat) → Keeps P (restore_reservation res volume there)
  unfolding restore_reservation
  restore_reservation-Keeps res volume not_exist = search (keeps_rules, files, note_volume-Keeps)
  restore_reservation-Keeps res volume _ = search keeps_rules

  reuse-Keeps : (volume existing : Str) (there : Stat) → Keeps P (reuse volume existing there)
  unfolding reuse
  reuse-Keeps volume existing (found age) =
      search (keeps_rules, files, restore_reservation-Keeps) depth 8
  reuse-Keeps volume existing _ = search (keeps_rules, clear_volume_nbd_state-Keeps)

  reuse_state-Keeps : (volume : Str) (existing : Option Str) → Keeps P (reuse_state volume existing)
  unfolding reuse_state
  reuse_state-Keeps volume none = search keeps_rules
  reuse_state-Keeps volume (some existing) = search (keeps_rules, files, reuse-Keeps)

  remove_file-Keeps : (res : Str) → Keeps P (remove_file res)
  unfolding remove_file
  remove_file-Keeps res = search (keeps_rules, files)

  drop_if_stale-Keeps : (res : Str) (age : ℕ) (there : Stat) → Keeps P (drop_if_stale res age there)
  unfolding drop_if_stale
  drop_if_stale-Keeps res age not_exist = remove_file-Keeps res
  drop_if_stale-Keeps res age _ = search (keeps_rules, remove_file-Keeps)

  judge_reservation-Keeps :
      (res : Str) (age : ℕ) (volume : Str) → Keeps P (judge_reservation res age volume)
  unfolding judge_reservation
  judge_reservation-Keeps res age [] = remove_file-Keeps res
  judge_reservation-Keeps res age (c ∷ volume) = search (keeps_rules, files, drop_if_stale-Keeps)

  collect_reservation-Keeps : (res : Str) (there : Stat) → Keeps P (collect_reservation res there)
  unfolding collect_reservation
  collect_reservation-Keeps res (found age) =
      search (keeps_rules, must_read_file-Looks looks_of, judge_reservation-Keeps)
  collect_reservation-Keeps res _ = search keeps_rules

  finish_reservation-Keeps :
      (res dev : Str) (r : Result Unit) → Keeps P (finish_reservation res dev r)
  unfolding finish_reservation
  finish_reservation-Keeps res dev (ok _) = search keeps_rules
  finish_reservation-Keeps res dev (err e) = search (keeps_rules, files)

  claim-Keeps : (volume dev : Str) (created : Bool) → Keeps P (claim volume dev created)
  unfolding claim
  claim-Keeps volume dev false = search keeps_rules
  claim-Keeps volume dev true =
      search (keeps_rules, files, write_volume_nbd_state-Keeps, finish_reservation-Keeps) depth 8

  take_free-Keeps : (volume dev : Str) → Keeps P (take_free volume dev)
  unfolding take_free
  take_free-Keeps volume dev =
      search (keeps_rules, files, collect_reservation-Keeps, claim-Keeps) depth 8

  pub try_device-Keeps : (volume dev : Str) (r : Result Bool) → Keeps P (try_device volume dev r)
  unfolding try_device
  try_device-Keeps volume dev (ok false) = take_free-Keeps volume dev
  try_device-Keeps volume dev _ = search keeps_rules

  reserve_round-Keeps :
      (volume dev : Str) (next : Exec E Str)
      → Keeps P next
      → Keeps P (reserve_round volume dev next)
  unfolding reserve_round
  reserve_round-Keeps volume dev next k =
      search (keeps_rules, is_nbd_connected-Looks looks_of, try_device-Keeps) depth 8

  first_free-Keeps : (volume : Str) (devs : List Str) → Keeps P (first_free volume devs)
  unfolding first_free
  first_free-Keeps volume [] = search keeps_rules
  first_free-Keeps volume (dev ∷ devs) =
      reserve_round-Keeps volume dev _ (first_free-Keeps volume devs)

  scan_devices-Keeps : (volume : Str) (devs : List Str) → Keeps P (scan_devices volume devs)
  unfolding scan_devices
  scan_devices-Keeps volume [] = search keeps_rules
  scan_devices-Keeps volume (dev ∷ devs) = first_free-Keeps volume (dev ∷ devs)

  or_scan-Keeps : (volume : Str) (reused : Option Str) → Keeps P (or_scan volume reused)
  unfolding or_scan
  or_scan-Keeps volume (some d) = search keeps_rules
  or_scan-Keeps volume none =
      search (keeps_rules, list_nbd_devices-Looks looks_of, scan_devices-Keeps)

  pub reserve_nbd_device-Keeps : (volume : Str) → Keeps P (reserve_nbd_device volume)
  unfolding reserve_nbd_device
  reserve_nbd_device-Keeps volume = Keeps-bind _ _ (ensure_run_dirs-Looks looks_of) λ _.
      search (keeps_rules, read_volume_nbd_state-Looks looks_of, reuse_state-Keeps, or_scan-Keeps)
        depth 8
