-- ===== src/Nbd/Exclusive/Reserve.antt =====
-- pkg/csi/nbd.go: `reserveNBDDevice` keeps the agreement.
use zerofs_csi_driver.Base.{
  ◌≡◌, refl, sym, ap, ◌∙◌, true, Option, none, some, List, [], ◌∷◌, Str, codes, All,
}
use zerofs_csi_driver.Host.{
  Env, Sys, Call, Stat, found, not_exist, stat_error, unknown, ok, perform,
}
use zerofs_csi_driver.Host.Keeps.{Keeps}
use zerofs_csi_driver.Host.Triple.{
  Triple, Triple-pure, Triple-fail, Triple-perform, Triple-bind, Triple-seq, Triple-weaken,
  Triple-state, Keeps-Triple, Triple-ok,
}
use zerofs_csi_driver.Host.Calls.{is_quiet}
use zerofs_csi_driver.Host.Files.{IsReliable}
use zerofs_csi_driver.Nbd.Devices.{listed, list_nbd_devices}
use zerofs_csi_driver.Nbd.Devices.Names.{IsDevice, devices_of-All}
use zerofs_csi_driver.Nbd.State.{
  volume_nbd_state_path, device_reservation_path, device_in, ensure_run_dirs, read_volume_nbd_state,
  clear_volume_nbd_state,
}
use zerofs_csi_driver.Nbd.State.Quiet.{ensure_run_dirs-Keeps}
use zerofs_csi_driver.Nbd.State.Paths.{IsVolume, state_path-own, reservation_path-own}
use zerofs_csi_driver.Nbd.Reserve.{
  restore_reservation, reuse, reuse_state, scan_devices, or_scan, reserve_nbd_device,
}
use zerofs_csi_driver.Nbd.Exclusive.{
  recorded, IsExclusive, IsSame-call, same-recorded, IsExclusive-same,
}
use zerofs_csi_driver.Nbd.Exclusive.Collect.{Safe, quiet-touches, quiet-Safe}
use zerofs_csi_driver.Nbd.Exclusive.Claim.{HasDevice, Found}
use zerofs_csi_driver.Nbd.Exclusive.Scan.{IsBusyWhenOld, first_free-Found}
use zerofs_csi_driver.Nbd.Exclusive.Clear.{clear-Safe}

module _ {E : Env} (view : E.World → Str → Option Str) (rel : IsReliable E view) (v : Str)
    (h : IsVolume v) where
  abbrev Good : Sys E → Type 0
  Good = Safe view rel.files

  -- The device is recorded, as long as only quiet calls are made.
  quiet-Found :
      (d : Str) (c : Call) → is_quiet c ≡ true → Keeps (Found E view v (some d)) (perform c)
  unfolding perform
  quiet-Found d c q = record {
    holds = λ s (x, e).
        let same = IsSame-call view rel.files c s.world (λ p. quiet-touches c p q) in
        (IsExclusive-same view _ _ same x, same-recorded view _ _ v h same ∙ e);
  }

  abbrev IsThere : Stat → Type 0
  IsThere (found age) = Unit
  IsThere not_exist = ⊥
  IsThere stat_error = Unit

  stat-IsThere :
      (d : Str) (s : Sys E)
      → Found E view v (some d) s
      → IsThere (E.answer (Call.stat (device_reservation_path d)) s.world).0
  stat-IsThere d s (x, e) =
      let (dev, text) = x.reserved v d h e in
      let (age, there) =
        rel.files.stat_present s.world (device_reservation_path d) v (reservation_path-own d dev)
          text in
      rw there tt

  restore_reservation-Found :
      (d : Str) (there : Stat)
      → Triple
          (λ s. Found E view v (some d) s × IsThere there)
          (restore_reservation (device_reservation_path d) v there)
          (λ _. Found E view v (some d))
          Good
  unfolding restore_reservation
  restore_reservation-Found d not_exist = record { holds = λ s k. absurd k.1 }
  restore_reservation-Found d (found age) = Triple-pure tt (λ s k. k.0)
  restore_reservation-Found d stat_error = Triple-pure tt (λ s k. k.0)

  reuse-Found :
      (d : Str) (there : Stat)
      → Triple (Found E view v (some d)) (reuse v d there) (Found E view v) Good
  unfolding reuse
  reuse-Found d (found age) =
      Triple-bind _ _
        (Triple-perform (Call.stat (device_reservation_path d))
          (λ there s. Found E view v (some d) s × IsThere there)
          (λ s k. (
            (quiet-Found d (Call.stat (device_reservation_path d)) refl).holds s k,
            stat-IsThere d s k,
          )))
        (λ there.
          Triple-seq _ _ (restore_reservation-Found d there) (λ _. Triple-pure (some d) (λ s k. k)))
  reuse-Found d not_exist =
      Triple-seq _ _
        (Triple-state (clear_volume_nbd_state v d) (λ s k. clear-Safe view rel v h d s k.0 k.1))
        (λ _. Triple-pure none (λ s x. (x, tt)))
  reuse-Found d stat_error =
      Triple-seq _ _
        (Triple-state (clear_volume_nbd_state v d) (λ s k. clear-Safe view rel v h d s k.0 k.1))
        (λ _. Triple-pure none (λ s x. (x, tt)))

  pub reuse_state-Found :
      (o : Option Str) → Triple (Found E view v o) (reuse_state v o) (Found E view v) Good
  unfolding reuse_state
  reuse_state-Found none = Triple-pure none (λ s k. k)
  reuse_state-Found (some d) =
      Triple-bind _ _
        (Triple-weaken _ (λ s k. k) (λ a s k. k) (λ s k. k.0)
          (Keeps-Triple (perform (Call.stat d)) (quiet-Found d (Call.stat d) refl)))
        (reuse-Found d)

  HasDevice-refl :
      (s : Sys E) (o : Option Str) → recorded view s.world v ≡ o → HasDevice E view v o s
  HasDevice-refl s none e = tt
  HasDevice-refl s (some d) e = e

  pub read_volume_nbd_state-Found : Triple Good (read_volume_nbd_state v) (Found E view v) Good
  unfolding read_volume_nbd_state perform
  read_volume_nbd_state-Found =
      Triple-bind _ _
        (Triple-perform (Call.read_file (volume_nbd_state_path v))
          (λ b. Found E view v (device_in b))
          (λ s x.
            let path = volume_nbd_state_path v in
            let same = IsSame-call view rel.files (Call.read_file path) s.world (λ p. refl) in
            (
              (quiet-Safe view rel.files (Call.read_file path) refl).holds s x,
              HasDevice-refl _ _ (
                  same-recorded view _ _ v h same
                  ∙ ap device_in (sym (rel.files.read s.world path (state_path-own v h)))),
            )))
        (λ b. Triple-pure (device_in b) (λ s k. k))

  listed-devices :
      (o : Option (List Str)) → Triple Good (listed o) (λ ds s. Good s × All IsDevice ds) Good
  unfolding listed
  listed-devices none = Triple-fail unknown (codes "glob") (λ s x. x)
  listed-devices (some ds) = Triple-pure _ (λ s x. (x, devices_of-All ds))

  pub list_nbd_devices-devices :
      Triple Good list_nbd_devices (λ ds s. Good s × All IsDevice ds) Good
  unfolding list_nbd_devices
  list_nbd_devices-devices =
      Triple-bind _ _
        (Keeps-Triple _ (quiet-Safe view rel.files (Call.glob (codes "/dev/nbd*")) refl))
        listed-devices

  module _ (old : IsBusyWhenOld E) where
    pub scan_devices-Found :
        (ds : List Str)
        → All IsDevice ds
        → Triple Good (scan_devices v ds) (λ d. Found E view v (some d)) Good
    unfolding scan_devices
    scan_devices-Found [] k = Triple-fail unknown (codes "no /dev/nbd* devices found") (λ s x. x)
    scan_devices-Found (d ∷ ds) k = first_free-Found view rel v h old (d ∷ ds) k

    or_scan-Found :
        (o : Option Str)
        → Triple (Found E view v o) (or_scan v o) (λ d. Found E view v (some d)) Good
    unfolding or_scan
    or_scan-Found (some d) = Triple-pure d (λ s k. k)
    or_scan-Found none =
        Triple-bind _ _
          (Triple-weaken _ (λ s k. k.0) (λ a s k. k) (λ s k. k) list_nbd_devices-devices)
          (λ ds. record { holds = λ s (x, k). (scan_devices-Found ds k).holds s x })

    pub reserve_nbd_device-Exclusive :
        Triple
          (λ s. IsExclusive view s.world)
          (reserve_nbd_device v)
          (λ d. Found E view v (some d))
          (λ s. IsExclusive view s.world)
    unfolding reserve_nbd_device
    reserve_nbd_device-Exclusive =
        Triple-seq _ _
          (Keeps-Triple ensure_run_dirs (ensure_run_dirs-Keeps (quiet-Safe view rel.files)))
          (λ _.
            Triple-bind _ _ read_volume_nbd_state-Found
              (λ o. Triple-bind _ _ (reuse_state-Found o) or_scan-Found))

    -- In a state in which every device that a state file names is reserved by that file's volume, a
    -- reservation that returns a device has reserved it: it is an NBD device, the state file of the
    -- volume names it, its reservation names the volume, and the state is of that kind again, so
    -- that no other volume has the device. Notes and creates are reliable, and a device whose
    -- reservation is older than two hours is connected.
    pub reserve_nbd_device-reserves :
        (s : Sys E) (d : Str)
        → IsExclusive view s.world
        → (reserve_nbd_device v s).0 ≡ ok d
        → let w = (reserve_nbd_device v s).1.world in
          IsDevice d
          × (recorded view w v ≡ some d)
          × (view w (device_reservation_path d) ≡ some v)
          × IsExclusive view w
    reserve_nbd_device-reserves s d x e =
        let (after, named) =
          Triple-ok (reserve_nbd_device v) s d reserve_nbd_device-Exclusive x e in
        let (dev, text) = after.reserved v d h named in (dev, named, text, after)
