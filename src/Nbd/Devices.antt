-- ===== src/Nbd/Devices.antt =====
-- pkg/csi/nbd.go: which NBD devices there are, whether one is connected, and detaching one.
pub mod Quiet
pub mod Order
pub mod Names
use zerofs_csi_driver.Base.{
  ℕ, zero, suc, ◌+◌, ◌^◌, ◌-◌, ltb, leb, Bool, true, false, ◌&&◌, Option, none, some, List, [], ◌∷◌,
  Str, codes, ◌===◌, trim_space, filter, if◌then◌else◌,
}
use zerofs_csi_driver.Base.Text.{drop_prefix, trim_prefix}
use zerofs_csi_driver.Base.Text.Decimal.{ℤ, pos, negsuc, is_digit, scan, parse_int}
use zerofs_csi_driver.Base.FilePath.{join_path, base}
use zerofs_csi_driver.Host.{
  Env, Exec, Call, Read, contents, missing, read_error, Output, Result, ok, err, unknown, perform,
  pure, fail, attempt, ◌>>=◌, ◌>>◌,
}

pub all_digits : Str → Bool
all_digits [] = true
all_digits (c ∷ s) = is_digit c && all_digits s

digits_left : Option Str → Bool
unfolding all_digits
digits_left none = false
digits_left (some []) = false
digits_left (some (c ∷ s)) = all_digits (c ∷ s)

-- `nbdDevicePathRe`: ^/dev/nbd\d+$
unfoldable pub is_nbd_device_path : Str → Bool
unfolding digits_left
is_nbd_device_path s = digits_left (drop_prefix s (codes "/dev/nbd"))

-- What `Atoi` returns beside its error: 0, or the greatest int for digits out of range.
number_of : Option ℕ → ℕ
number_of none = 0
number_of (some n) = if ltb n (2 ^ 63) then n else 2 ^ 63 - 1

unfoldable pub device_number : Str → ℕ
unfolding number_of scan
device_number dev = number_of (scan (trim_prefix (base dev) (codes "nbd")) 0)

-- `sort.Slice` by the number. It promises no order among equal numbers; this one keeps it.
pub insert_device : Str → List Str → List Str
insert_device d [] = d ∷ []
insert_device d (e ∷ es) =
    if ltb (device_number e) (device_number d) then e ∷ insert_device d es else d ∷ e ∷ es

unfoldable pub sort_devices : List Str → List Str
unfolding insert_device
sort_devices [] = []
sort_devices (d ∷ ds) = insert_device d (sort_devices ds)

abbrev pub pid_path : Str → Str
pid_path dev = join_path (codes "/sys/block" ∷ base (trim_space dev) ∷ codes "pid" ∷ [])

abbrev pub source_args : Str → List Str
source_args target = codes "-n" ∷ codes "-o" ∷ codes "SOURCE" ∷ codes "--target" ∷ target ∷ []

abbrev pub source_of : Output → Option Str
source_of o =
    if o.failed then none else if trim_space o.text === [] then none else some (trim_space o.text)

module _ {E : Env} where
  unfoldable pub listed : Option (List Str) → Exec E (List Str)
  listed none = fail unknown (codes "glob")
  listed (some matches) = pure (sort_devices (filter is_nbd_device_path matches))

  unfoldable pub list_nbd_devices : Exec E (List Str)
  list_nbd_devices = do matches ← perform (Call.glob (codes "/dev/nbd*")); listed matches

  unfoldable pub is_positive : Option ℤ → Exec E Bool
  is_positive none = fail unknown (codes "parse")
  is_positive (some (pos n)) = pure (ltb 0 n)
  is_positive (some (negsuc n)) = pure false

  unfoldable pub pid_state : Read → Exec E Bool
  pid_state (contents b) = is_positive (parse_int (trim_space b))
  pid_state missing = pure false
  pid_state read_error = fail unknown (codes "read")

  unfoldable pub is_nbd_connected : Str → Exec E Bool
  is_nbd_connected dev = do b ← perform (Call.read_file (pid_path dev)); pid_state b

  -- `none` for a target that is not mounted: Go returns ("", false).
  unfoldable pub find_mount_source : Str → Exec E (Option Str)
  find_mount_source target = do
    o ← perform (Call.exec (codes "findmnt") (source_args target))
    pure (source_of o)

  unfoldable pub unmount_found : Str → Option Str → Exec E Unit
  unmount_found target none = pure tt
  unmount_found target (some src) = do perform (Call.exec (codes "umount") (target ∷ [])); pure tt

  unfoldable pub unmount_best_effort : Str → Exec E Unit
  unmount_best_effort target =
      if target === []
      then pure tt
      else do found ← find_mount_source target; unmount_found target found

  -- An attempt, and what follows one that fails.
  unfoldable pub detach_attempt : Str → Exec E Unit → Exec E Unit
  detach_attempt dev next = do
    o ← perform (Call.exec (codes "nbd-client") (codes "-d" ∷ dev ∷ []))
    if o.failed then (perform (Call.sleep 500) >> next) else pure tt

  -- The attempts that are left.
  unfoldable pub detach_attempts : ℕ → Str → Exec E Unit
  detach_attempts zero dev = pure tt
  detach_attempts (suc left) dev = detach_attempt dev (detach_attempts left dev)

  unfoldable pub detach_nbd_device_best_effort : Str → Exec E Unit
  detach_nbd_device_best_effort dev =
      if trim_space dev === [] then pure tt else detach_attempts 5 (trim_space dev)
