-- ===== src/Nbd/Exclusive/Clear.antt =====
-- pkg/csi/nbd.go: `clearVolumeNBDState` keeps the agreement.
use zerofs_csi_driver.Base.{
  some-same, ◌≡◌, refl, sym, ap, ◌∙◌, ◌≢◌, Option, none, some, [], ◌∷◌, Str,
}
use zerofs_csi_driver.Host.{Env, Sys, Call, pure, perform, ◌>>=◌}
use zerofs_csi_driver.Host.Files.{IsReliable, read_of}
use zerofs_csi_driver.Nbd.Devices.Names.{IsDevice}
use zerofs_csi_driver.Nbd.State.{
  volume_nbd_state_path, device_in, remove_reservation, clear_volume_nbd_state,
}
use zerofs_csi_driver.Nbd.State.Paths.{IsVolume, state_path-own}
use zerofs_csi_driver.Nbd.Reserve.{remove_file}
use zerofs_csi_driver.Nbd.Exclusive.{
  recorded, IsFree, Differs-call, IsExclusive-state, IsFree-state,
}
use zerofs_csi_driver.Nbd.Exclusive.Collect.{Safe, remove_file-Safe}

device_in-removed : (d : Str) → device_in (read_of none) ≢ some d
device_in-removed d e = absurd (cc)

module _ {E : Env} (view : E.World → Str → Option Str) (rel : IsReliable E view) (v : Str)
    (h : IsVolume v) where
  abbrev Good : Sys E → Type 0
  Good = Safe view rel.files

  -- The device of a volume is given up.
  remove_state-Free :
      (d : Str) (s : Sys E)
      → Good s
      → recorded view s.world v ≡ some d
      → let t = (perform (Call.remove (volume_nbd_state_path v)) s).1 in
        Good t × IsFree view t.world d
  unfolding perform
  remove_state-Free d s x e =
      let path = volume_nbd_state_path v in
      let change = Differs-call view rel.files (Call.remove path) path s.world (λ q. refl) in
      let gone = rel.files.remove s.world path (state_path-own v h) in
      let lost : (c : Str) → recorded view (E.answer (Call.remove path) s.world).1 v ≢ some c =
        λ c r.
          device_in-removed c (ap (λ (o : Option Str). device_in (read_of o)) (sym gone) ∙ r) in
      (
        IsExclusive-state view _ _ v h change (λ c r. absurd (lost c r)) x,
        IsFree-state view _ _ v d h change (lost d)
            (λ u uh n r. n (some-same v u (sym (x.reserved v d h e).1 ∙ (x.reserved u d uh r).1))),
      )

  remove_reservation-Safe :
      (d : Str)
      → IsDevice d
      → (s : Sys E) → Good s
      → IsFree view s.world d
      → Good (remove_reservation d s).1
  unfolding remove_reservation perform pure remove_file ◌>>=◌
  remove_reservation-Safe [] dev s x f = x
  remove_reservation-Safe (c ∷ d) dev s x f = remove_file-Safe view rel.files (c ∷ d) dev s f x

  pub clear-Safe :
      (d : Str) (s : Sys E)
      → Good s
      → recorded view s.world v ≡ some d
      → Good (clear_volume_nbd_state v d s).1
  unfolding clear_volume_nbd_state ◌>>=◌
  clear-Safe d s x e =
      let (y, free) = remove_state-Free d s x e in
      remove_reservation-Safe d (x.reserved v d h e).0 _ y free
