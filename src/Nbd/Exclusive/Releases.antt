-- ===== src/Nbd/Exclusive/Releases.antt =====
-- pkg/csi/nbd.go: `clearVolumeNBDState` gives up the device of its volume, and of no other.
use zerofs_csi_driver.Base.{
  none-not_some, ◌≡◌, refl, sym, ap, ◌∙◌, ◌≢◌, Option, none, some, [], ◌∷◌, Str,
}
use zerofs_csi_driver.Host.{Env, Sys, Call, perform, pure, ◌>>=◌}
use zerofs_csi_driver.Host.Files.{IsReliable, read_of}
use zerofs_csi_driver.Nbd.Devices.{is_nbd_device_path}
use zerofs_csi_driver.Nbd.Devices.Names.{IsDevice}
use zerofs_csi_driver.Nbd.State.{
  volume_nbd_state_path, device_reservation_path, device_in, remove_reservation,
  clear_volume_nbd_state,
}
use zerofs_csi_driver.Nbd.State.Paths.{
  IsVolume, state_path-own, state_path-injective, state_path-reservation, reservation_path-own,
}
use zerofs_csi_driver.Nbd.Exclusive.{recorded, IsExclusive, Differs-call, reservation-recorded}
use zerofs_csi_driver.Nbd.Exclusive.Clear.{clear-Safe}
use zerofs_csi_driver.Nbd.Exclusive.Frame.{clear-Unchanged}
use zerofs_csi_driver.Nbd.Exclusive.Refines.{IsAssigned}

module _ {E : Env} (view : E.World → Str → Option Str) (rel : IsReliable E view) (v : Str)
    (h : IsVolume v) where
  remove_reservation-recorded :
      (d : Str)
      → IsDevice d
      → (s : Sys E) → recorded view (remove_reservation d s).1.world v ≡ recorded view s.world v
  unfolding remove_reservation perform pure ◌>>=◌
  remove_reservation-recorded [] dev s = refl
  remove_reservation-recorded (c ∷ d) dev s =
      let p = device_reservation_path (c ∷ d) in
      reservation-recorded view _ _ (c ∷ d) v dev h
        (Differs-call view rel.files (Call.remove p) p s.world (λ q. refl))

  remove_reservation-gone :
      (d : Str)
      → IsDevice d
      → (s : Sys E) → view (remove_reservation d s).1.world (device_reservation_path d) ≡ none
  unfolding remove_reservation perform pure is_nbd_device_path ◌>>=◌
  remove_reservation-gone [] dev s = absurd (cc)
  remove_reservation-gone (c ∷ d) dev s =
      rel.files.remove s.world (device_reservation_path (c ∷ d)) (reservation_path-own (c ∷ d) dev)

  clear-reservation :
      (d : Str)
      → IsDevice d
      → (s : Sys E) → view (clear_volume_nbd_state v d s).1.world (device_reservation_path d) ≡ none
  unfolding clear_volume_nbd_state perform ◌>>=◌
  clear-reservation d dev s = remove_reservation-gone d dev _

  clear-none :
      (d : Str)
      → IsDevice d
      → (s : Sys E) → recorded view (clear_volume_nbd_state v d s).1.world v ≡ none
  unfolding clear_volume_nbd_state perform ◌>>=◌
  clear-none d dev s =
      remove_reservation-recorded d dev _
      ∙ ap (λ (o : Option Str). device_in (read_of o))
          (rel.files.remove s.world (volume_nbd_state_path v) (state_path-own v h))

  clear-others :
      (d : Str) (s : Sys E)
      → IsDevice d
      → (u : Str) → IsVolume u
      → v ≢ u
      → recorded view (clear_volume_nbd_state v d s).1.world u ≡ recorded view s.world u
  clear-others d s dev u k n =
      ap (λ (o : Option Str). device_in (read_of o))
        ((clear-Unchanged view rel.files v (volume_nbd_state_path u) (state_path-own u k)
            (λ e. n (state_path-injective v u h k e)) _ d
            (λ e. state_path-reservation u d k dev (sym e))).holds
          s refl)

  -- In a state in which every device that a state file names is reserved by that file's volume, the
  -- clearing of a volume's state with the device that its state file names leaves every other volume
  -- the device that it had, leaves the volume without one, leaves no reservation of the
  -- cleared device, and leads to a state of that kind again. The volumes have plain names, and the
  -- file system is as assumed.
  pub clear_volume_nbd_state-releases :
      (d : Str) (s : Sys E)
      → IsExclusive view s.world
      → recorded view s.world v ≡ some d
      → let w = (clear_volume_nbd_state v d s).1.world in
        IsAssigned v (recorded view s.world) (recorded view w)
        × (recorded view w v ≡ none)
        × (view w (device_reservation_path d) ≡ none)
        × IsExclusive view w
  clear_volume_nbd_state-releases d s x e =
      let dev = (x.reserved v d h e).0 in
      let gone = clear-none d dev s in
      (
        record {
          others = λ u k n. clear-others d s dev u k n;
          fresh = λ c u taken k n. none-not_some c (sym gone ∙ taken);
        },
        gone,
        clear-reservation d dev s,
        clear-Safe view rel v h d s x e,
      )
