-- ===== src/Node/Unpublish/Leaves.antt =====
-- pkg/csi/node.go: what an unpublish leaves behind when findmnt prints another source.
use zerofs_csi_driver.Base.{true, false, ◌≡◌, ◌≢◌, refl, ap, Option, none, some, [], Str}
use zerofs_csi_driver.Host.{Env, Sys, Exec, Call, Result, ok, perform}
use zerofs_csi_driver.Host.Keeps.{Keeps, Keeps-with_lock}
use zerofs_csi_driver.Host.Triple.{
  Triple, Triple-pure, Triple-bind, Triple-seq, Triple-ok, Keeps-Triple,
}
use zerofs_csi_driver.Host.Triple.Known.{Triple-known, Triple-given}
use zerofs_csi_driver.Host.Calls.{is_quiet, is_change}
use zerofs_csi_driver.Host.Files.{touches, change-touches, read_of, IsFileSystem}
use zerofs_csi_driver.Nbd.Devices.{find_mount_source}
use zerofs_csi_driver.Nbd.Devices.Names.{IsDevice}
use zerofs_csi_driver.Nbd.Devices.Quiet.{find_mount_source-Keeps}
use zerofs_csi_driver.Nbd.State.{device_reservation_path, device_in}
use zerofs_csi_driver.Nbd.State.Paths.{
  IsVolume, state_path-own, reservation_path-own, state_path-reservation,
}
use zerofs_csi_driver.Nbd.Exclusive.{recorded}
use zerofs_csi_driver.Nbd.Exclusive.Collect.{IsVolume-given}
use zerofs_csi_driver.Nbd.Exclusive.Frame.{Unchanged, other-Keeps, quiet-Unchanged, clear-Unchanged}
use zerofs_csi_driver.Mounter.Objects.{own_of}
use zerofs_csi_driver.Node.Request.{Service, UnpublishRequest}
use zerofs_csi_driver.Node.Request.Quiet.{observe-Keeps}
use zerofs_csi_driver.Node.Unpublish.{
  device_to_detach, clear_locked, unpublish, node_unpublish_volume,
}
use zerofs_csi_driver.Node.Unpublish.Plain.{
  unmount_target-Keeps, detach_device-Keeps, remove_volume_pod-Keeps,
}
use zerofs_csi_driver.Node.Unpublish.Clears.{node_unpublish_volume-clears}
use zerofs_csi_driver.Node.Unpublish.Returns.{unpublish-Succeeds, guards-passed}

ok_unique : {A : Type 0} (r : Result A) (a b : A) → r ≡ ok a → r ≡ ok b → a ≡ b
ok_unique r a b e k = cc

module _ {E : Env} (view : E.World → Str → Option Str) (fs : IsFileSystem E view) (v : Str)
    (h : IsVolume v) (d : Str) (dev : IsDevice d) (src : Str)
    (other : device_reservation_path src ≢ device_reservation_path d) (text : Option Str) where
  abbrev Left : Sys E → Type 0
  Left =
      Unchanged view fs v (device_reservation_path d) (reservation_path-own d dev)
        (state_path-reservation v d h dev) text

  quiet-Left : (c : Call) → is_quiet c ≡ true → Keeps Left (perform c)
  quiet-Left =
      quiet-Unchanged view fs v (device_reservation_path d) (reservation_path-own d dev)
        (state_path-reservation v d h dev) text

  harmless-Left :
      (c : Call) → touches c (device_reservation_path d) ≡ false → Keeps Left (perform c)
  harmless-Left =
      other-Keeps view fs v (device_reservation_path d) (reservation_path-own d dev)
        (state_path-reservation v d h dev) text

  changes-Left : (c : Call) → is_change c ≡ true → Keeps Left (perform c)
  changes-Left c k = harmless-Left c (change-touches c _ k)

  clear_locked-Left : Keeps Left (clear_locked v src)
  unfolding clear_locked
  clear_locked-Left =
      Keeps-with_lock _ (harmless-Left Call.lock refl).holds
        (clear-Unchanged view fs v (device_reservation_path d) (reservation_path-own d dev)
          (state_path-reservation v d h dev) text src other)
        (harmless-Left Call.unlock refl).holds

  keep : {A : Type 0} (m : Exec E A) → Keeps Left m → Triple Left m (λ _. Left) Left
  keep m k = Keeps-Triple m k

  unpublish-Left :
      (ns : Service) (req : UnpublishRequest)
      → req.volume_id ≡ v
      → Triple
          (λ s.
            Left s
            × ((o : Option Str) → (find_mount_source req.target_path s).0 ≡ ok o → o ≡ some src))
          (unpublish ns req)
          (λ _. Left)
          Left
  unfolding unpublish device_to_detach
  unpublish-Left ns req e =
      Triple-bind _ _
        (Triple-known (λ o. o ≡ some src) (find_mount_source req.target_path)
          (find_mount_source-Keeps quiet-Left req.target_path) (λ s y. y))
        (λ o. Triple-given _ (λ known.
          rw (known, e)
            (Triple-seq _ _ (keep _ (unmount_target-Keeps quiet-Left req.target_path)) (λ _.
              Triple-bind {Q = λ c s. Left s × (c ≡ src)} _ _ (Triple-pure src (λ s y. (y, refl)))
                (λ c. Triple-given _ (λ same. rw same (
                  Triple-seq _ _ (keep _ (detach_device-Keeps quiet-Left src)) (λ _.
                    Triple-seq _ _
                      (keep _ (
                        remove_volume_pod-Keeps quiet-Left ns.namespace v
                          (own_of changes-Left ns.namespace v)))
                      (λ _.
                        Triple-seq _ _ (keep _ clear_locked-Left)
                          (λ _. keep _ (observe-Keeps quiet-Left _ _)))))))))))

-- If findmnt prints for the target a source whose reservation file is not that of the device which the
-- volume's state file names, as `findmnt --target` does for a path that is no mount point, then
-- NodeUnpublishVolume returns no error and forgets the device, but leaves its reservation
-- as it is. The volume has a plain name, and the file system is as assumed.
pub node_unpublish_volume-leaves :
    {E : Env} (view : E.World → Str → Option Str)
    → IsFileSystem E view
    → (ns : Service) (req : UnpublishRequest) (s : Sys E) (d src : Str) → IsVolume req.volume_id
    → req.target_path ≢ []
    → IsDevice d
    → recorded view s.world req.volume_id ≡ some d
    → (find_mount_source req.target_path s).0 ≡ ok (some src)
    → device_reservation_path src ≢ device_reservation_path d
    → let (r, t) = node_unpublish_volume ns req s in
      (r ≡ ok tt)
      × (recorded view t.world req.volume_id ≡ none)
      × (view t.world (device_reservation_path d) ≡ view s.world (device_reservation_path d))
node_unpublish_volume-leaves view fs ns req s d src h given dev e f other =
    let v = req.volume_id in
    let own = state_path-own v h in
    let (returned, gone) =
      node_unpublish_volume-clears view fs ns req s (IsVolume-given v h) given own in
    (
      returned,
      ap (λ (o : Option Str). device_in (read_of o)) gone,
      rw (guards-passed ns req (IsVolume-given v h) given) (
          Triple-ok (unpublish ns req) s tt
            (unpublish-Left view fs v h d dev src other (view s.world (device_reservation_path d))
              ns req refl)
            (refl, λ o k. ok_unique (find_mount_source req.target_path s).0 o (some src) k f)
            ((unpublish-Succeeds ns req).returns s)),
    )
