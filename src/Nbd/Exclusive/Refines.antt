-- ===== src/Nbd/Exclusive/Refines.antt =====
-- pkg/csi/nbd.go: seen from outside, the state files are an assignment of devices to volumes, and a
-- reservation changes it for its own volume alone.
use zerofs_csi_driver.Base.{
  ◌≡◌, refl, sym, ap, ◌∙◌, ◌≢◌, true, Option, none, some, List, [], ◌∷◌, Str, All, All-map,
}
use zerofs_csi_driver.Host.{Env, Sys, Call, perform}
use zerofs_csi_driver.Host.Keeps.{Keeps, keeps_rules}
use zerofs_csi_driver.Host.Triple.{
  Triple, Triple-pure, Triple-bind, Triple-seq, Triple-weaken, Triple-both, Keeps-Triple,
  Triple-end,
}
use zerofs_csi_driver.Host.Calls.{is_quiet}
use zerofs_csi_driver.Host.Files.{IsReliable, read_of}
use zerofs_csi_driver.Nbd.Devices.Quiet.{list_nbd_devices-Keeps}
use zerofs_csi_driver.Nbd.Devices.Names.{IsDevice}
use zerofs_csi_driver.Nbd.State.{volume_nbd_state_path, device_reservation_path, device_in}
use zerofs_csi_driver.Nbd.State.Quiet.{ensure_run_dirs-Keeps, read_volume_nbd_state-Keeps}
use zerofs_csi_driver.Nbd.State.Paths.{
  IsVolume, state_path-own, state_path-injective, state_path-reservation,
}
use zerofs_csi_driver.Nbd.Reserve.{reuse_state, scan_devices, or_scan, reserve_nbd_device}
use zerofs_csi_driver.Nbd.Exclusive.{recorded, IsExclusive}
use zerofs_csi_driver.Nbd.Exclusive.Collect.{quiet-Safe}
use zerofs_csi_driver.Nbd.Exclusive.Claim.{Found}
use zerofs_csi_driver.Nbd.Exclusive.Scan.{IsBusyWhenOld}
use zerofs_csi_driver.Nbd.Exclusive.Reserve.{
  read_volume_nbd_state-Found, reuse_state-Found, list_nbd_devices-devices, scan_devices-Found,
}
use zerofs_csi_driver.Nbd.Exclusive.Steps.{IsExclusive-one}
use zerofs_csi_driver.Nbd.Exclusive.Frame.{
  Unchanged, quiet-Unchanged, first_free-Unchanged, reuse-Unchanged,
}

-- The devices of the volumes.
abbrev pub Assignment : Type 0
Assignment = Str → Option Str

-- What a reservation or a release of one volume may do: the others keep their devices, and the
-- volume has none that another had.
pub record IsAssigned (v : Str) (a b : Assignment) : Type 0 where
  pub others : (u : Str) → IsVolume u → v ≢ u → b u ≡ a u
  pub fresh : (d u : Str) → b v ≡ some d → IsVolume u → v ≢ u → a u ≢ some d

module _ {E : Env} (view : E.World → Str → Option Str) (rel : IsReliable E view) (v : Str)
    (h : IsVolume v) where
  abbrev Agrees : Sys E → Type 0
  Agrees s = IsExclusive view s.world

  module _ (u : Str) (k : IsVolume u) (n : v ≢ u) (r : Option Str) where
    abbrev state : Str
    state = volume_nbd_state_path u

    apart : volume_nbd_state_path v ≢ state
    apart e = n (state_path-injective v u h k e)

    reservation-apart : (d : Str) → IsDevice d → device_reservation_path d ≢ state
    reservation-apart d dev e = state_path-reservation u d k dev (sym e)

    abbrev Same : Sys E → Type 0
    Same = Unchanged view rel.files v state (state_path-own u k) apart r

    quiet : (c : Call) → is_quiet c ≡ true → Keeps Same (perform c)
    quiet = quiet-Unchanged view rel.files v state (state_path-own u k) apart r

    reuse_state-Same :
        (o : Option Str) → ((d : Str) → o ≡ some d → IsDevice d) → Keeps Same (reuse_state v o)
    unfolding reuse_state
    reuse_state-Same none dev = search keeps_rules
    reuse_state-Same (some d) dev = search (
      keeps_rules,
      quiet,
      reuse-Unchanged view rel.files v state (state_path-own u k) apart r d
          (reservation-apart d (dev d refl)),
    )

    scan_devices-Same : (ds : List Str) → All IsDevice ds → Keeps Same (scan_devices v ds)
    unfolding scan_devices
    scan_devices-Same [] x = search keeps_rules
    scan_devices-Same (d ∷ ds) x =
        first_free-Unchanged view rel.files v state (state_path-own u k) apart r (d ∷ ds)
          (All-map IsDevice (λ e. device_reservation_path e ≢ state) reservation-apart (d ∷ ds) x)

    -- What the state file names is a device.
    kept_device :
        (o : Option Str) (s : Sys E) → Found E view v o s → (d : Str) → o ≡ some d → IsDevice d
    kept_device none s f d e = absurd (cc)
    kept_device (some c) s (x, named) d e = (x.reserved v d h (named ∙ e)).0

    reuse_state-both :
        (o : Option Str)
        → Triple
            (λ s. Found E view v o s × Same s)
            (reuse_state v o)
            (λ p s. Found E view v p s × Same s)
            (λ s. Agrees s × Same s)
    reuse_state-both o = record {
      holds = λ s (f, x).
          (Triple-both _ (reuse_state-Found view rel v h o)
              (reuse_state-Same o (kept_device o s f))).holds
            s (f, x);
    }

    module _ (old : IsBusyWhenOld E) where
      or_scan-both :
          (o : Option Str)
          → Triple
              (λ s. Found E view v o s × Same s)
              (or_scan v o)
              (λ d s. Found E view v (some d) s × Same s)
              (λ s. Agrees s × Same s)
      unfolding or_scan
      or_scan-both (some d) = Triple-pure d (λ s k. k)
      or_scan-both none =
          Triple-bind _ _
            (Triple-weaken _ (λ s (x, same). (x.0, same)) (λ a s k. k) (λ s k. k)
              (Triple-both _ (list_nbd_devices-devices view rel v h)
                (list_nbd_devices-Keeps quiet)))
            (λ ds. record {
              holds = λ s ((x, dev), same).
                  (Triple-both _ (scan_devices-Found view rel v h old ds dev)
                      (scan_devices-Same ds dev)).holds
                    s (x, same);
            })

      reserve_nbd_device-both :
          Triple
            (λ s. Agrees s × Same s)
            (reserve_nbd_device v)
            (λ d s. Found E view v (some d) s × Same s)
            (λ s. Agrees s × Same s)
      unfolding reserve_nbd_device
      reserve_nbd_device-both =
          Triple-seq _ _
            (Triple-both _ (Keeps-Triple _ (ensure_run_dirs-Keeps (quiet-Safe view rel.files)))
              (ensure_run_dirs-Keeps quiet))
            (λ _.
              Triple-bind _ _
                (Triple-both _ (read_volume_nbd_state-Found view rel v h)
                  (read_volume_nbd_state-Keeps quiet v))
                (λ o. Triple-bind _ _ (reuse_state-both o) or_scan-both))

  module _ (old : IsBusyWhenOld E) where
    -- A reservation refines the change of an assignment of devices to volumes. In a state in which every
    -- device that a state file names is reserved by that file's volume, a reservation for one
    -- volume, successful or not, leaves every other volume the device that it had, and its own
    -- volume has no device behind it that another one had. The volumes have plain names, notes and
    -- creates are reliable, and a device whose reservation is older than two hours is connected.
    pub reserve_nbd_device-IsAssigned :
        (s : Sys E)
        → IsExclusive view s.world
        → IsAssigned v (recorded view s.world) (recorded view (reserve_nbd_device v s).1.world)
    reserve_nbd_device-IsAssigned s x =
        let after : (u : Str)
            → IsVolume u
            → v ≢ u
            → Agrees (reserve_nbd_device v s).1
              × (view (reserve_nbd_device v s).1.world (volume_nbd_state_path u)
                  ≡ view s.world (volume_nbd_state_path u)) =
          λ u k n.
            (Triple-end (reserve_nbd_device v) (λ a t (f, same). (f.0, same))
                (reserve_nbd_device-both u k n (view s.world (volume_nbd_state_path u)) old)).holds
              s (x, refl) in
        let device_of : (o p : Option Str) → o ≡ p → device_in (read_of o) ≡ device_in (read_of p) =
          λ o p e. ap (λ (x : Option Str). device_in (read_of x)) e in
        record {
          others = λ u k n. device_of _ _ (after u k n).1;
          fresh = λ d u e k n taken.
              let (agrees, same) = after u k n in
              n (
                IsExclusive-one view (reserve_nbd_device v s).1.world v u d agrees h k e
                  (device_of _ _ same ∙ taken));
        }
