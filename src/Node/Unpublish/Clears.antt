-- ===== src/Node/Unpublish/Clears.antt =====
-- `NodeUnpublishVolume` always returns, and forgets the volume's device.
use zerofs_csi_driver.Base.{
  ◌≡◌, ◌≢◌, refl, ◌∙◌, true, false, [], ◌∷◌, Option, none, Str, ◌===◌, ===_iff, Bool-cases, inl,
  inr,
}
use zerofs_csi_driver.Host.{Env, Sys, Call, ok, perform}
use zerofs_csi_driver.Host.Keeps.{Keeps, Keeps-seq, keeps_rules}
use zerofs_csi_driver.Host.Succeeds.{Post, Post-bind, Post-keep, Post-with_lock}
use zerofs_csi_driver.Host.Files.{touches, is_own, IsFileSystem}
use zerofs_csi_driver.Nbd.State.{volume_nbd_state_path, remove_reservation, clear_volume_nbd_state}
use zerofs_csi_driver.Node.Request.{Service, UnpublishRequest, observe}
use zerofs_csi_driver.Node.Unpublish.{clear_locked, unpublish, node_unpublish_volume}
use zerofs_csi_driver.Node.Unpublish.Returns.{
  find_mount_source-Succeeds, unmount_target-Succeeds, device_to_detach-Succeeds,
  detach_device-Succeeds, remove_volume_pod-Succeeds, unpublish-Succeeds, guards-passed,
}

-- The state file of a volume is not there.
abbrev pub Absent : {E : Env} → (E.World → Str → Option Str) → Str → Sys E → Type 0
Absent view p s = view s.world p ≡ none

module _ {E : Env} (view : E.World → Str → Option Str) (fs : IsFileSystem E view) (p : Str)
    (own : is_own p ≡ true) where
  untouched-Absent : (c : Call) → touches c p ≡ false → Keeps (Absent {E = E} view p) (perform c)
  unfolding perform
  untouched-Absent c h = record { holds = λ s k. fs.untouched c s.world p own h ∙ k }

  remove-Absent : Post (Absent {E = E} view p) (perform (Call.remove p))
  unfolding perform
  remove-Absent = record { holds = λ s. fs.remove s.world p own }

  -- Whichever file is removed.
  remove-Keeps : (q : Str) → Keeps (Absent {E = E} view p) (perform (Call.remove q))
  remove-Keeps q = elim (Bool-cases (q === p)) [
    | inl same ↦
        let e = (===_iff q p).0 same in rw e (record { holds = λ s h. remove-Absent.holds s })
    | inr other ↦ untouched-Absent (Call.remove q) other
  ]

  remove_reservation-Absent : (dev : Str) → Keeps (Absent {E = E} view p) (remove_reservation dev)
  unfolding remove_reservation
  remove_reservation-Absent [] = search keeps_rules
  remove_reservation-Absent (c ∷ dev) = search (keeps_rules, remove-Keeps)

module _ {E : Env} (view : E.World → Str → Option Str) (fs : IsFileSystem E view) (volume : Str)
    (own : is_own (volume_nbd_state_path volume) ≡ true) where
  pub clear-Absent :
      (dev : Str)
      → Post
          (Absent {E = E} view (volume_nbd_state_path volume))
          (clear_volume_nbd_state volume dev)
  unfolding clear_volume_nbd_state
  clear-Absent dev =
      Post-keep _ _ (remove-Absent view fs _ own) (λ _. remove_reservation-Absent view fs _ own dev)

  clear_locked-Absent :
      (dev : Str)
      → Post (Absent {E = E} view (volume_nbd_state_path volume)) (clear_locked volume dev)
  unfolding clear_locked
  clear_locked-Absent dev =
      Post-with_lock _ (clear-Absent dev) (untouched-Absent view fs _ own Call.unlock refl)

  observe-Absent :
      (o t : Str) → Keeps (Absent {E = E} view (volume_nbd_state_path volume)) (observe o t)
  unfolding observe
  observe-Absent o t =
      Keeps-seq _ _ (untouched-Absent view fs _ own (Call.observe o t) refl) (search keeps_rules)

unpublish-Absent :
    {E : Env} (view : E.World → Str → Option Str)
    → IsFileSystem E view
    → (ns : Service) (req : UnpublishRequest) → is_own (volume_nbd_state_path req.volume_id) ≡ true
    → Post (Absent {E = E} view (volume_nbd_state_path req.volume_id)) (unpublish ns req)
unfolding unpublish
unpublish-Absent view fs ns req own =
    Post-bind _ _ (find_mount_source-Succeeds req.target_path) λ src.
      Post-bind _ _ (unmount_target-Succeeds req.target_path) λ _.
        Post-bind _ _ (device_to_detach-Succeeds req.volume_id src) λ dev.
          Post-bind _ _ (detach_device-Succeeds dev) λ _.
            Post-bind _ _ (remove_volume_pod-Succeeds ns.namespace req.volume_id) λ _.
              Post-keep _ _ (clear_locked-Absent view fs req.volume_id own dev)
                (λ _. observe-Absent view fs req.volume_id own _ _)

-- On a host whose file system is as assumed, NodeUnpublishVolume with a volume identifier and a target
-- path that are not empty returns no error, whatever its calls reply, and afterwards the state file
-- of the volume is not there, if the volume's identifier leads to a path in the driver's directory.
pub node_unpublish_volume-clears :
    {E : Env} (view : E.World → Str → Option Str)
    → IsFileSystem E view
    → (ns : Service) (req : UnpublishRequest) (s : Sys E) → req.volume_id ≢ []
    → req.target_path ≢ []
    → is_own (volume_nbd_state_path req.volume_id) ≡ true
    → ((node_unpublish_volume ns req s).0 ≡ ok tt)
      × (view (node_unpublish_volume ns req s).1.world (volume_nbd_state_path req.volume_id) ≡ none)
node_unpublish_volume-clears view fs ns req s h k own =
    rw (guards-passed ns req h k)
      ((unpublish-Succeeds ns req).returns s, (unpublish-Absent view fs ns req own).holds s)
