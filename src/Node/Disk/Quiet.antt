-- ===== src/Node/Disk/Quiet.antt =====
-- The 9p half of a publish keeps whatever every quiet call keeps.
use zerofs_csi_driver.Base.{
  ℕ, zero, suc, ◌≡◌, refl, Bool, true, false, Option, none, some, [], ◌∷◌, Str, codes,
}
use zerofs_csi_driver.Base.Text.{Dict, lookup}
use zerofs_csi_driver.Host.{Env, Sys, Exec, Call, Stat, found, not_exist, stat_error, perform}
use zerofs_csi_driver.Host.Keeps.{Keeps, Keeps-bind, keeps_rules}
use zerofs_csi_driver.Host.Calls.{is_quiet}
use zerofs_csi_driver.Nbd.Devices.Quiet.{find_mount_source-Keeps}
use zerofs_csi_driver.Node.Request.Quiet.{observe-Keeps, fail_stage-Keeps}
use zerofs_csi_driver.Node.Disk.{
  disk_path, make_target, sleep_or_fail, socket_attempt, socket_attempts, still_mounted, mounted_9p,
  mount_9p, truncated, create_disk, ensure_disk, unmounted_9p, prepare_disk,
}

module _ {E : Env} {P : Sys E → Type 0}
    (quiet : (c : Call) → is_quiet c ≡ true → Keeps P (perform c)) where
  pub make_target-Keeps : (made : Bool) → Keeps P (make_target made)
  unfolding make_target
  make_target-Keeps true = search keeps_rules
  make_target-Keeps false = fail_stage-Keeps quiet _ _ _ _

  sleep_or_fail-Keeps :
      (left : ℕ) (next : Exec E Unit) → Keeps P next → Keeps P (sleep_or_fail left next)
  unfolding sleep_or_fail
  sleep_or_fail-Keeps zero next k = fail_stage-Keeps quiet _ _ _ _
  sleep_or_fail-Keeps (suc left) next k = search (keeps_rules, quiet)

  socket_attempt-Keeps :
      (socket : Str) (left : ℕ) (next : Exec E Unit)
      → Keeps P next
      → Keeps P (socket_attempt socket left next)
  unfolding socket_attempt
  socket_attempt-Keeps socket left next k =
      search (keeps_rules, quiet, sleep_or_fail-Keeps, fail_stage-Keeps quiet)

  pub socket_attempts-Keeps : (left : ℕ) (socket : Str) → Keeps P (socket_attempts left socket)
  unfolding socket_attempts
  socket_attempts-Keeps zero socket = search keeps_rules
  socket_attempts-Keeps (suc left) socket =
      socket_attempt-Keeps socket left _ (socket_attempts-Keeps left socket)

  still_mounted-Keeps : (src : Option Str) → Keeps P (still_mounted src)
  unfolding still_mounted
  still_mounted-Keeps none = fail_stage-Keeps quiet _ _ _ _
  still_mounted-Keeps (some src) = search keeps_rules

  mounted_9p-Keeps : (target : Str) (failed : Bool) → Keeps P (mounted_9p target failed)
  unfolding mounted_9p
  mounted_9p-Keeps target false = search keeps_rules
  mounted_9p-Keeps target true =
      search (keeps_rules, find_mount_source-Keeps quiet, still_mounted-Keeps)

  mount_9p-Keeps : (socket target : Str) → Keeps P (mount_9p socket target)
  unfolding mount_9p
  mount_9p-Keeps socket target =
      search (keeps_rules, quiet, mounted_9p-Keeps, observe-Keeps quiet) depth 8

  truncated-Keeps : (failed : Bool) → Keeps P (truncated failed)
  unfolding truncated
  truncated-Keeps true = fail_stage-Keeps quiet _ _ _ _
  truncated-Keeps false = observe-Keeps quiet _ _

  unmounted_9p-Keeps : (failed : Bool) → Keeps P (unmounted_9p failed)
  unfolding unmounted_9p
  unmounted_9p-Keeps true = fail_stage-Keeps quiet _ _ _ _
  unmounted_9p-Keeps false = observe-Keeps quiet _ _

  -- The disk is sized by the capacity of the volume context.
  module _ (target : Str) (context : Dict)
      (sized : (capacity : Str)
        → lookup (codes "capacity_bytes") context ≡ some capacity
        → Keeps P (
            perform
              (Call.exec (codes "truncate") (codes "-s" ∷ capacity ∷ disk_path target ∷ [])))) where
    create_disk-Keeps :
        (capacity : Option Str)
        → lookup (codes "capacity_bytes") context ≡ capacity
        → Keeps P (create_disk (disk_path target) capacity)
    unfolding create_disk
    create_disk-Keeps none e = search keeps_rules
    create_disk-Keeps (some capacity) e =
        Keeps-bind _ _ (sized capacity e) (λ o. truncated-Keeps o.failed)

    ensure_disk-Keeps : (there : Stat) → Keeps P (ensure_disk context (disk_path target) there)
    unfolding ensure_disk
    ensure_disk-Keeps (found age) = search keeps_rules
    ensure_disk-Keeps not_exist = create_disk-Keeps _ refl
    ensure_disk-Keeps stat_error = search keeps_rules

    pub prepare_disk-Keeps : (volume : Str) → Keeps P (prepare_disk volume target context)
    unfolding prepare_disk
    prepare_disk-Keeps volume =
        search
          (
            keeps_rules, quiet, socket_attempts-Keeps, mount_9p-Keeps, ensure_disk-Keeps,
            unmounted_9p-Keeps,
          )
          depth 12
