-- ===== src/Nbd/Exclusive/Finds.antt =====
-- pkg/csi/nbd.go: `reserveNBDDevice` finds a free device.
use mathlib.Core.List.{Memᴰ}
use zerofs_csi_driver.Base.{
  ◌≡◌, refl, sym, ap, subst, ◌∙◌, true, Option, none, some, List, Str, codes,
}
use zerofs_csi_driver.Host.{Env, Sys, Call, ok, perform, pure, ◌>>=◌}
use zerofs_csi_driver.Host.Keeps.{Keeps}
use zerofs_csi_driver.Host.Triple.{
  Triple, Outcome, Triple-pure, Triple-perform, Triple-bind, Triple-seq, Triple-weaken, Triple-both,
}
use zerofs_csi_driver.Host.Calls.{is_look, look-quiet}
use zerofs_csi_driver.Host.Files.{IsFileSystem}
use zerofs_csi_driver.Nbd.Devices.{listed, list_nbd_devices}
use zerofs_csi_driver.Nbd.Devices.Names.{IsDevice, devices_of, devices_of-All, devices_of-Mem}
use zerofs_csi_driver.Nbd.State.{
  volume_nbd_state_path, device_reservation_path, device_in, read_volume_nbd_state,
}
use zerofs_csi_driver.Nbd.Reserve.Plain.{ensure_run_dirs-Looks}
use zerofs_csi_driver.Nbd.State.Paths.{IsVolume, state_path-own}
use zerofs_csi_driver.Nbd.Reserve.{scan_devices, reuse_state, or_scan, reserve_nbd_device}
use zerofs_csi_driver.Nbd.Exclusive.{recorded, IsSame-call, same-recorded}
use zerofs_csi_driver.Nbd.Exclusive.Collect.{quiet-touches}
use zerofs_csi_driver.Nbd.Exclusive.Unfailing.{
  IsWritable, Fails, Always, returned, ensure_run_dirs-Always,
}
use zerofs_csi_driver.Nbd.Exclusive.Rounds.{
  IsOffered, IsCalm, Unreserved, looks-Unreserved, scan_devices-finds,
}

module _ {E : Env} (view : E.World → Str → Option Str) (fs : IsFileSystem E view)
    (wr : IsWritable E view) (v : Str) (h : IsVolume v) where
  module _ (d : Str) (dev : IsDevice d) (matches : List Str) (calm : IsCalm E d matches) where
    -- The free device has no reservation.
    abbrev Free : Sys E → Type 0
    Free = Unreserved view fs wr v h d dev matches calm

    looks : (c : Call) → is_look c ≡ true → Keeps Free (perform c)
    looks = looks-Unreserved view fs wr v h d dev matches calm

    -- The volume has no device yet either.
    abbrev Ready : Sys E → Type 0
    Ready s = Free s × (recorded view s.world v ≡ none)

    looks-Ready : (c : Call) → is_look c ≡ true → Keeps Ready (perform c)
    unfolding perform
    looks-Ready c k = record {
      holds = λ s (x, y).
          let same = IsSame-call view fs c s.world (λ p. quiet-touches c p (look-quiet c k)) in
          ((looks c k).holds s x, same-recorded view _ _ v h same ∙ y);
    }

    read-none : Triple Ready (read_volume_nbd_state v) (λ o s. (o ≡ none) × Free s) Fails
    unfolding read_volume_nbd_state
    read-none =
        let path = volume_nbd_state_path v in
        Triple-bind _ _
          (Triple-perform (Call.read_file path) (λ b s. (device_in b ≡ none) × Free s)
            (λ s (x, y). (
              ap device_in (fs.read s.world path (state_path-own v h)) ∙ y,
              (looks (Call.read_file path) refl).holds s x,
            )))
          (λ b. Triple-pure (device_in b) (λ s k. k))

    reuse_state-none :
        (o : Option Str)
        → Triple (λ s. (o ≡ none) × Free s) (reuse_state v o) (λ p s. (p ≡ none) × Free s) Fails
    unfolding reuse_state
    reuse_state-none none = Triple-pure none (λ s k. k)
    reuse_state-none (some c) = record { holds = λ s k. absurd (cc (k.0)) }

    module _ (there : Memᴰ d matches) where
      list_nbd_devices-lists :
          Triple Free list_nbd_devices (λ ds s. (ds ≡ devices_of matches) × Free s) Fails
      unfolding list_nbd_devices listed perform pure ◌>>=◌
      list_nbd_devices-lists = record {
        holds =
            λ s k. rw (k.1.listed) (refl, (looks (Call.glob (codes "/dev/nbd*")) refl).holds s k);
      }

      scan_listed :
          (ds : List Str)
          → Triple (λ s. (ds ≡ devices_of matches) × Free s) (scan_devices v ds) Always Fails
      scan_listed ds = record {
        holds = λ s (e, k).
            subst
              (λ (x : List Str). Outcome Always Fails (scan_devices v x s).0 (scan_devices v x s).1)
              (sym e)
              ((scan_devices-finds view fs wr v h d dev matches calm (devices_of matches)
                  (devices_of-All matches) (devices_of-Mem d matches dev there)).holds
                s k);
      }

      or_scan-finds :
          (o : Option Str) → Triple (λ s. (o ≡ none) × Free s) (or_scan v o) Always Fails
      unfolding or_scan
      or_scan-finds (some c) = record { holds = λ s k. absurd (cc (k.0)) }
      or_scan-finds none =
          Triple-bind _ _
            (Triple-weaken _ (λ s k. k.1) (λ a s k. k) (λ s k. k) list_nbd_devices-lists)
            scan_listed

      reserve-finds : Triple Ready (reserve_nbd_device v) Always Fails
      unfolding reserve_nbd_device
      reserve-finds =
          Triple-seq _ _
            (Triple-weaken _ (λ s k. (tt, k)) (λ a s k. k.1) (λ s k. k.0)
              (Triple-both _ (ensure_run_dirs-Always view wr v h)
                (ensure_run_dirs-Looks looks-Ready)))
            (λ _.
              Triple-bind _ _ read-none (λ o. Triple-bind _ _ (reuse_state-none o) or_scan-finds))

      -- Where directories can be made, state files written and files created that are not there, a volume
      -- that has no device yet gets one, if an NBD device that is a match of /dev/nbd* has no
      -- reservation and, when the reservation starts, no pid file: the reservation returns no
      -- error. Calls on files change neither that pid file nor the matches; programs may.
      pub reserve_nbd_device-finds :
          (s : Sys E)
          → IsOffered E d matches s.world
          → view s.world (device_reservation_path d) ≡ none
          → recorded view s.world v ≡ none
          → (c : Str) × ((reserve_nbd_device v s).0 ≡ ok c)
      reserve_nbd_device-finds s o x y = returned _ _ (reserve-finds.holds s ((x, o), y))
