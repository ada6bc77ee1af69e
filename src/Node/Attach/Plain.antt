-- ===== src/Node/Attach/Plain.antt =====
-- The NBD half of a publish keeps what every plain call keeps, if sections under the lock and the
-- format of a blank device keep it too.
use zerofs_csi_driver.Base.{ℕ, ◌≡◌, Bool, true, false, List, Str}
use zerofs_csi_driver.Host.{Env, Sys, Exec, Call, Result, ok, err, perform, with_lock, attempt}
use zerofs_csi_driver.Host.Keeps.{Keeps, keeps_rules, Keeps-attempt}
use zerofs_csi_driver.Host.Calls.{is_quiet, is_plain, file_call-plain}
use zerofs_csi_driver.Nbd.State.{clear_volume_nbd_state}
use zerofs_csi_driver.Nbd.State.Quiet.{is_quiet-plain, clear_volume_nbd_state-Keeps}
use zerofs_csi_driver.Nbd.Reserve.{reserve_nbd_device}
use zerofs_csi_driver.Nbd.Reserve.Plain.{reserve_nbd_device-Keeps}
use zerofs_csi_driver.Node.Request.Quiet.{observe-Keeps, fail_stage-Keeps, record_stage_error-Keeps}
use zerofs_csi_driver.Node.Attach.{
  reserved, reserve_locked, connected, connect_nbd, disconnect_and_fail, format_if_blank,
  mounted_fs, formatted, mount_fs, attach_disk,
}

-- What every plain call keeps, the action keeps.
abbrev pub IsPlainExec : {E : Env} {A : Type 0} → Exec E A → Type 1
IsPlainExec {E} m =
    (Q : Sys E → Type 0) → ((c : Call) → is_plain c ≡ true → Keeps Q (perform c)) → Keeps Q m

module _ {E : Env} {P : Sys E → Type 0}
    (quiet : (c : Call) → is_quiet c ≡ true → Keeps P (perform c)) where
  disconnect_and_fail-Keeps :
      (stage dev message : Str) → Keeps P (disconnect_and_fail stage dev message)
  unfolding disconnect_and_fail
  disconnect_and_fail-Keeps stage dev message =
      search (keeps_rules, quiet, record_stage_error-Keeps quiet) depth 8

  -- What follows a format.
  pub formatted-Keeps : (dev : Str) (failed : Bool) → Keeps P (formatted dev failed)
  unfolding formatted
  formatted-Keeps dev false = observe-Keeps quiet _ _
  formatted-Keeps dev true = disconnect_and_fail-Keeps _ dev _

  mounted_fs-Keeps : (dev : Str) (failed : Bool) → Keeps P (mounted_fs dev failed)
  unfolding mounted_fs
  mounted_fs-Keeps dev false = observe-Keeps quiet _ _
  mounted_fs-Keeps dev true = disconnect_and_fail-Keeps _ dev _

  pub mount_fs-Keeps :
      (filesystem : Str) (flags : List Str) (dev target : Str)
      → Keeps P (mount_fs filesystem flags dev target)
  unfolding mount_fs
  mount_fs-Keeps filesystem flags dev target = search (keeps_rules, quiet, mounted_fs-Keeps)

  pub reserved-Keeps : (r : Result Str) → Keeps P (reserved r)
  unfolding reserved
  reserved-Keeps (ok dev) = search keeps_rules
  reserved-Keeps (err e) = fail_stage-Keeps quiet _ _ _ _

module _ {E : Env} {P : Sys E → Type 0}
    (plain : (c : Call) → is_plain c ≡ true → Keeps P (perform c)) where
  pub quiet_of : (c : Call) → is_quiet c ≡ true → Keeps P (perform c)
  quiet_of c h = plain c (is_quiet-plain c h)

  module _ (locks : (A : Type 0) (m : Exec E A) → IsPlainExec m → Keeps P (with_lock m))
      (formats : (lower_rune : ℕ → ℕ) (filesystem dev : Str)
        → Keeps P (format_if_blank lower_rune filesystem dev)) where
    reserve_locked-Keeps : (volume : Str) → Keeps P (reserve_locked volume)
    unfolding reserve_locked
    reserve_locked-Keeps volume =
        let section = locks _ (attempt (reserve_nbd_device volume)) (λ Q k.
          Keeps-attempt _ (reserve_nbd_device-Keeps (λ c h. k c (file_call-plain c h)) volume)) in
        search (keeps_rules, section, reserved-Keeps quiet_of)

    connected-Keeps : (volume dev : Str) (failed : Bool) → Keeps P (connected volume dev failed)
    unfolding connected
    connected-Keeps volume dev false = observe-Keeps quiet_of _ _
    connected-Keeps volume dev true =
        let section =
          locks _ (clear_volume_nbd_state volume dev)
            (λ Q k. clear_volume_nbd_state-Keeps k volume dev) in
        search (keeps_rules, section, fail_stage-Keeps quiet_of)

    connect_nbd-Keeps : (volume dev : Str) → Keeps P (connect_nbd volume dev)
    unfolding connect_nbd
    connect_nbd-Keeps volume dev = search (keeps_rules, plain, connected-Keeps)

    pub attach_disk-Keeps :
        (lower_rune : ℕ → ℕ) (volume target filesystem : Str) (flags : List Str)
        → Keeps P (attach_disk lower_rune volume target filesystem flags)
    unfolding attach_disk
    attach_disk-Keeps lower_rune volume target filesystem flags =
        search
          (keeps_rules, reserve_locked-Keeps, connect_nbd-Keeps, formats, mount_fs-Keeps quiet_of)
          depth 10
