-- ===== src/Nbd/Devices/Quiet.antt =====
-- The operations on devices keep whatever every quiet call keeps.
use zerofs_csi_driver.Base.{ℕ, zero, suc, ◌≡◌, true, Option, none, some, List, Str}
use zerofs_csi_driver.Base.Text.Decimal.{ℤ, pos, negsuc}
use zerofs_csi_driver.Host.{Env, Sys, Exec, Call, Read, contents, missing, read_error, perform}
use zerofs_csi_driver.Host.Keeps.{Keeps, keeps_rules}
use zerofs_csi_driver.Host.Calls.{is_quiet}
use zerofs_csi_driver.Nbd.Devices.{
  find_mount_source, unmount_found, unmount_best_effort, detach_attempt, detach_attempts,
  detach_nbd_device_best_effort, is_positive, pid_state, is_nbd_connected, listed, list_nbd_devices,
}

module _ {E : Env} {P : Sys E → Type 0} where
  is_positive-Keeps : (z : Option ℤ) → Keeps P (is_positive {E = E} z)
  unfolding is_positive
  is_positive-Keeps none = search keeps_rules
  is_positive-Keeps (some (pos n)) = search keeps_rules
  is_positive-Keeps (some (negsuc n)) = search keeps_rules

  pub pid_state-Keeps : (r : Read) → Keeps P (pid_state {E = E} r)
  unfolding pid_state
  pid_state-Keeps (contents b) = is_positive-Keeps _
  pid_state-Keeps missing = search keeps_rules
  pid_state-Keeps read_error = search keeps_rules

  pub listed-Keeps : (matches : Option (List Str)) → Keeps P (listed {E = E} matches)
  unfolding listed
  listed-Keeps none = search keeps_rules
  listed-Keeps (some matches) = search keeps_rules

module _ {E : Env} {P : Sys E → Type 0}
    (quiet : (c : Call) → is_quiet c ≡ true → Keeps P (perform c)) where
  pub find_mount_source-Keeps : (target : Str) → Keeps P (find_mount_source target)
  unfolding find_mount_source
  find_mount_source-Keeps target = search (keeps_rules, quiet)

  unmount_found-Keeps : (target : Str) (src : Option Str) → Keeps P (unmount_found target src)
  unfolding unmount_found
  unmount_found-Keeps target none = search keeps_rules
  unmount_found-Keeps target (some src) = search (keeps_rules, quiet)

  pub unmount_best_effort-Keeps : (target : Str) → Keeps P (unmount_best_effort target)
  unfolding unmount_best_effort
  unmount_best_effort-Keeps target =
      search (keeps_rules, find_mount_source-Keeps, unmount_found-Keeps)

  detach_attempt-Keeps :
      (dev : Str) (next : Exec E Unit) → Keeps P next → Keeps P (detach_attempt dev next)
  unfolding detach_attempt
  detach_attempt-Keeps dev next k = search (keeps_rules, quiet)

  pub detach_attempts-Keeps : (left : ℕ) (dev : Str) → Keeps P (detach_attempts left dev)
  unfolding detach_attempts
  detach_attempts-Keeps zero dev = search keeps_rules
  detach_attempts-Keeps (suc left) dev = detach_attempt-Keeps dev _ (detach_attempts-Keeps left dev)

  pub detach-Keeps : (dev : Str) → Keeps P (detach_nbd_device_best_effort dev)
  unfolding detach_nbd_device_best_effort
  detach-Keeps dev = search (keeps_rules, detach_attempts-Keeps)

  pub is_nbd_connected-Keeps : (dev : Str) → Keeps P (is_nbd_connected dev)
  unfolding is_nbd_connected
  is_nbd_connected-Keeps dev = search (keeps_rules, quiet, pid_state-Keeps)

  pub list_nbd_devices-Keeps : Keeps P (list_nbd_devices)
  unfolding list_nbd_devices
  list_nbd_devices-Keeps = search (keeps_rules, quiet, listed-Keeps)
