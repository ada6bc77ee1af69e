-- ===== src/Node/Unpublish/Releases.antt =====
-- pkg/csi/node.go: a whole unpublish, run alone, gives up the device of its volume, and of no other.
use zerofs_csi_driver.Base.{
  ◌≡◌, ◌≢◌, ◌⊎◌, inl, inr, refl, sym, ap, ◌∙◌, Bool-cases, Option, none, some, [], Str, ◌===◌,
  ===_iff, trim_space,
}
use zerofs_csi_driver.Host.{Env, Sys, Exec, Call, Read, contents, missing, read_error, ok, ◌>>=◌}
use zerofs_csi_driver.Host.Keeps.{Keeps}
use zerofs_csi_driver.Host.Triple.{
  Triple, Triple-pure, Triple-perform, Triple-bind, Triple-seq, Triple-weaken, Triple-state,
  Triple-with_lock, Triple-ok, Keeps-Triple,
}
use zerofs_csi_driver.Host.Triple.Known.{Triple-known, Triple-given}
use zerofs_csi_driver.Host.Files.{read_of, IsReliable}
use zerofs_csi_driver.Nbd.Devices.{find_mount_source}
use zerofs_csi_driver.Nbd.Devices.Quiet.{find_mount_source-Keeps}
use zerofs_csi_driver.Nbd.State.{volume_nbd_state_path, device_in}
use zerofs_csi_driver.Nbd.State.Paths.{IsVolume, state_path-own}
use zerofs_csi_driver.Nbd.Exclusive.{recorded, IsExclusive}
use zerofs_csi_driver.Nbd.Exclusive.GivesUp.{
  changes-Same, IsReleased, Same, IsOurs, Done, harmless-Same, quiet-Same, harmless-Done,
  quiet-Done, clear-Done,
}
use zerofs_csi_driver.Nbd.Exclusive.Collect.{IsVolume-given}
use zerofs_csi_driver.Mounter.Objects.{own_of}
use zerofs_csi_driver.Node.Request.{Service, UnpublishRequest}
use zerofs_csi_driver.Node.Request.Quiet.{observe-Keeps}
use zerofs_csi_driver.Node.Unpublish.{
  trimmed_contents, device_to_detach, clear_locked, unpublish, node_unpublish_volume,
}
use zerofs_csi_driver.Node.Unpublish.Plain.{
  unmount_target-Keeps, detach_device-Keeps, remove_volume_pod-Keeps,
}
use zerofs_csi_driver.Node.Unpublish.Returns.{unpublish-Succeeds, guards-passed}

-- The reading of the state file in an unpublish agrees with `readVolumeNBDState`.
trimmed_contents-device_in :
    (r : Read)
    → ((trimmed_contents r ≡ []) × (device_in r ≡ none)) ⊎ (device_in r ≡ some (trimmed_contents r))
trimmed_contents-device_in (contents b) = elim (Bool-cases (trim_space b === [])) [
  | inl blank ↦ inl ((===_iff (trim_space b) []).0 blank, rw blank refl)
  | inr text ↦ inr (rw text refl)
]
trimmed_contents-device_in missing = inl (refl, refl)
trimmed_contents-device_in read_error = inl (refl, refl)

module _ {E : Env} (view : E.World → Str → Option Str) where
  -- What findmnt prints for the target, if it prints anything, is the device that the volume's state
  -- file names.
  abbrev pub Trusts : Str → Str → Sys E → Type 0
  Trusts v target s =
      (src : Str)
      → (find_mount_source target s).0 ≡ ok (some src)
      → recorded view s.world v ≡ some src

module _ {E : Env} (view : E.World → Str → Option Str) (rel : IsReliable E view) (v : Str)
    (h : IsVolume v) where
  module _ (w0 : E.World) (x : IsExclusive view w0) where
    abbrev Before : Sys E → Type 0
    Before = Same view rel v h w0

    abbrev After : Sys E → Type 0
    After = Done view rel v h w0

    abbrev Ours : Str → Type 0
    Ours = IsOurs view rel v h w0

    -- What the step that asks findmnt gives.
    abbrev Source : Option Str → Type 0
    Source o = (c : Str) → o ≡ some c → recorded view w0 v ≡ some c

    abbrev Anything : Sys E → Type 0
    Anything s = Unit

    keep :
        {A B : Type 0} (m : Exec E A) (f : A → Exec E B)
        → Keeps Before m
        → ((a : A) → Triple Before (f a) (λ _. After) Anything)
        → Triple Before (m >>= f) (λ _. After) Anything
    keep m f k l =
        Triple-bind m f (Triple-weaken m (λ s y. y) (λ a s y. y) (λ s y. tt) (Keeps-Triple m k)) l

    recover :
        (r : Read) → r ≡ read_of (view w0 (volume_nbd_state_path v)) → Ours (trimmed_contents r)
    recover r e = elim (trimmed_contents-device_in r) [
      | inl (blank, none_there) ↦ inl (blank, ap device_in (sym e) ∙ none_there)
      | inr there ↦ inr (ap device_in (sym e) ∙ there)
    ]

    device_to_detach-Ours :
        (src : Option Str)
        → Source src
        → Triple Before (device_to_detach v src) (λ dev s. Before s × Ours dev) Anything
    unfolding device_to_detach
    device_to_detach-Ours (some c) k = Triple-pure c (λ s y. (y, inr (k c refl)))
    device_to_detach-Ours none k =
        let path = volume_nbd_state_path v in
        Triple-bind _ _
          (Triple-perform (Call.read_file path) (λ r s. Before s × (r ≡ read_of (view w0 path)))
            (λ s y. (
              (quiet-Same view rel v h w0 (Call.read_file path) refl).holds s y,
              rel.files.read s.world path (state_path-own v h)
                  ∙ ap read_of (y.all path (state_path-own v h)),
            )))
          (λ r. Triple-pure (trimmed_contents r) (λ s (y, e). (y, recover r e)))

    clear_locked-After :
        (dev : Str) → Ours dev → Triple Before (clear_locked v dev) (λ _. After) Anything
    unfolding clear_locked
    clear_locked-After dev k =
        Triple-weaken _ (λ s y. y) (λ a s y. y) (λ s y. tt)
          (Triple-with_lock _ (harmless-Same view rel v h w0 Call.lock (λ p. refl))
            (Triple-state _ (λ s y. clear-Done view rel v h w0 dev s x k y))
            (λ a. harmless-Done view rel v h w0 Call.unlock (λ p. refl))
            (harmless-Done view rel v h w0 Call.unlock (λ p. refl)))

  -- The part behind the guards, from a state with the files of `w0`.
  unpublish-After :
      (ns : Service) (req : UnpublishRequest)
      → req.volume_id ≡ v
      → (w0 : E.World) (x : IsExclusive view w0)
      → Triple
          (λ s.
            Same view rel v h w0 s
            × ((src : Option Str)
                → (find_mount_source req.target_path s).0 ≡ ok src
                → Source w0 x src))
          (unpublish ns req)
          (λ _. Done view rel v h w0)
          (λ s. Unit)
  unfolding unpublish
  unpublish-After ns req e w0 x =
      Triple-bind _ _
        (Triple-known (λ src. Source w0 x src) (find_mount_source req.target_path)
          (find_mount_source-Keeps (quiet-Same view rel v h w0) req.target_path) (λ s y. tt))
        (λ src. Triple-given _ (λ known.
          keep w0 x _ _ (unmount_target-Keeps (quiet-Same view rel v h w0) req.target_path) (λ _.
            rw e (
              Triple-bind _ _ (device_to_detach-Ours w0 x src known) (λ dev. Triple-given _ (λ ours.
                keep w0 x _ _ (detach_device-Keeps (quiet-Same view rel v h w0) dev) (λ _.
                  keep w0 x _ _
                    (remove_volume_pod-Keeps (quiet-Same view rel v h w0) ns.namespace v
                      (own_of (changes-Same view rel v h w0) ns.namespace v))
                    (λ _. Triple-seq _ _ (clear_locked-After w0 x dev ours) (λ _.
                      Triple-weaken _ (λ s y. y) (λ a s y. y) (λ s y. tt)
                        (Keeps-Triple _ (observe-Keeps (quiet-Done view rel v h w0) _ _)))))))))))

module _ {E : Env} (view : E.World → Str → Option Str) (rel : IsReliable E view) where
  -- Run alone on a volume with a plain name and a target path, in a state in which every device that a
  -- state file names is reserved by that file's volume, NodeUnpublishVolume refines the release of the
  -- volume's device: it leaves every other volume the device that it had, leaves the volume without
  -- one, and leads to a state of that kind again. What findmnt prints for the target, if it prints
  -- anything, is the device that the volume's state file names. Notes and creates are reliable.
  pub node_unpublish_volume-releases :
      (ns : Service) (req : UnpublishRequest) (s : Sys E)
      → IsVolume req.volume_id
      → req.target_path ≢ []
      → Trusts view req.volume_id req.target_path s
      → IsExclusive view s.world
      → let w = (node_unpublish_volume ns req s).1.world in
        IsReleased req.volume_id (recorded view s.world) (recorded view w) × IsExclusive view w
  node_unpublish_volume-releases ns req s h given trusts x =
      rw (guards-passed ns req (IsVolume-given req.volume_id h) given) (
        Triple-ok (unpublish ns req) s tt
          (unpublish-After view rel req.volume_id h ns req refl s.world x)
          (record { all = λ p own. refl }, λ src e c k. trusts c (e ∙ ap ok k))
          ((unpublish-Succeeds ns req).returns s))
