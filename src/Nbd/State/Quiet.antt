-- ===== src/Nbd/State/Quiet.antt =====
-- The reads of the state files keep whatever every quiet call keeps; the writes, whatever every
-- plain call keeps.
use zerofs_csi_driver.Base.{◌≡◌, refl, Bool, true, false, [], ◌∷◌, Str}
use zerofs_csi_driver.Host.{Env, Sys, Call, perform}
use zerofs_csi_driver.Host.Keeps.{Keeps, keeps_rules}
use zerofs_csi_driver.Host.Calls.{is_quiet, is_plain}
use zerofs_csi_driver.Nbd.State.{
  check, ensure_run_dirs, read_volume_nbd_state, remove_reservation, clear_volume_nbd_state,
  must_read_file,
}

module _ {E : Env} {P : Sys E → Type 0} where
  pub check-Keeps : (b : Bool) (m : Str) → Keeps P (check {E = E} b m)
  unfolding check
  check-Keeps true m = search keeps_rules
  check-Keeps false m = search keeps_rules

module _ {E : Env} {P : Sys E → Type 0}
    (quiet : (c : Call) → is_quiet c ≡ true → Keeps P (perform c)) where
  pub ensure_run_dirs-Keeps : Keeps P ensure_run_dirs
  unfolding ensure_run_dirs
  ensure_run_dirs-Keeps = search (keeps_rules, quiet, check-Keeps) depth 8

  pub read_volume_nbd_state-Keeps : (volume : Str) → Keeps P (read_volume_nbd_state volume)
  unfolding read_volume_nbd_state
  read_volume_nbd_state-Keeps volume = search (keeps_rules, quiet)

  pub must_read_file-Keeps : (path : Str) → Keeps P (must_read_file path)
  unfolding must_read_file
  must_read_file-Keeps path = search (keeps_rules, quiet)

-- A quiet call is plain.
pub is_quiet-plain : (c : Call) → is_quiet c ≡ true → is_plain c ≡ true
is_quiet-plain Call.lock h = h
is_quiet-plain Call.unlock h = h
is_quiet-plain (Call.exec program args) h = h
is_quiet-plain (Call.create_secret x) h = h
is_quiet-plain (Call.update_secret x) h = h
is_quiet-plain (Call.delete_secret namespace name) h = h
is_quiet-plain (Call.create_pod x) h = h
is_quiet-plain (Call.delete_pod namespace name) h = h
is_quiet-plain (Call.force_delete_pod namespace name) h = h
is_quiet-plain _ h = refl

module _ {E : Env} {P : Sys E → Type 0}
    (plain : (c : Call) → is_plain c ≡ true → Keeps P (perform c)) where
  remove_reservation-Keeps : (dev : Str) → Keeps P (remove_reservation dev)
  unfolding remove_reservation
  remove_reservation-Keeps [] = search keeps_rules
  remove_reservation-Keeps (c ∷ dev) = search (keeps_rules, plain)

  pub clear_volume_nbd_state-Keeps :
      (volume dev : Str) → Keeps P (clear_volume_nbd_state volume dev)
  unfolding clear_volume_nbd_state
  clear_volume_nbd_state-Keeps volume dev = search (keeps_rules, plain, remove_reservation-Keeps)
