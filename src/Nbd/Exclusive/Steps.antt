-- ===== src/Nbd/Exclusive/Steps.antt =====
-- pkg/csi/nbd.go and pkg/csi/node.go: the critical sections under `nbdMu`, in any order and for any
-- volumes, and the calls of other requests between them.
use zerofs_csi_driver.Base.{some-same, none-not_some, ◌≡◌, sym, ◌∙◌, false, Option, none, some, Str}
use zerofs_csi_driver.Host.{Env, Sys, Call, perform}
use zerofs_csi_driver.Host.Triple.{Triple-end}
use zerofs_csi_driver.Host.Files.{touches, IsReliable}
use zerofs_csi_driver.Nbd.State.{clear_volume_nbd_state}
use zerofs_csi_driver.Nbd.State.Paths.{IsVolume}
use zerofs_csi_driver.Nbd.Reserve.{reserve_nbd_device}
use zerofs_csi_driver.Nbd.Exclusive.{recorded, IsExclusive, IsSame-call, IsExclusive-same}
use zerofs_csi_driver.Nbd.Exclusive.Scan.{IsBusyWhenOld}
use zerofs_csi_driver.Nbd.Exclusive.Clear.{clear-Safe}
use zerofs_csi_driver.Nbd.Exclusive.Reserve.{reserve_nbd_device-Exclusive}

module _ {W : Type 0} (view : W → Str → Option Str) where
  -- A device is that of at most one volume.
  pub IsExclusive-one :
      (w : W) (v u d : Str)
      → IsExclusive view w
      → IsVolume v
      → IsVolume u
      → recorded view w v ≡ some d
      → recorded view w u ≡ some d
      → v ≡ u
  IsExclusive-one w v u d x h k e f =
      some-same v u (sym (x.reserved v d h e).1 ∙ (x.reserved u d k f).1)

module _ {E : Env} (view : E.World → Str → Option Str) where
  pub data Step : Sys E → Sys E → Type 0 where
    reserve : (v : Str) (s : Sys E) → IsVolume v → Step s (reserve_nbd_device v s).1
    release :
        (v d : Str) (s : Sys E)
        → IsVolume v
        → recorded view s.world v ≡ some d
        → Step s (clear_volume_nbd_state v d s).1
    elsewhere : (c : Call) (s : Sys E) → ((p : Str) → touches c p ≡ false) → Step s (perform c s).1

  pub data Reach : Sys E → Sys E → Type 0 where
    here : (s : Sys E) → Reach s s
    later : (s t u : Sys E) → Reach s t → Step t u → Reach s u

  module _ (rel : IsReliable E view) (old : IsBusyWhenOld E) where
    Step-Exclusive : (s t : Sys E) → Step s t → IsExclusive view s.world → IsExclusive view t.world
    unfolding perform
    Step-Exclusive s _ (Step.reserve v _ h) x =
        (Triple-end (reserve_nbd_device v) (λ a t k. k.0)
            (reserve_nbd_device-Exclusive view rel v h old)).holds
          s x
    Step-Exclusive s _ (Step.release v d _ h e) x = clear-Safe view rel v h d s x e
    Step-Exclusive s _ (Step.elsewhere c _ h) x =
        IsExclusive-same view _ _ (IsSame-call view rel.files c s.world h) x

    Reach-Exclusive :
        (s t : Sys E) → Reach s t → IsExclusive view s.world → IsExclusive view t.world
    Reach-Exclusive s _ (Reach.here _) x = x
    Reach-Exclusive s u (Reach.later _ t _ r step) x =
        Step-Exclusive t u step (Reach-Exclusive s t r x)

    -- From a state in which no volume has a state file that names a device, reservations, releases of
    -- recorded devices and calls that touch no file of the driver lead, in any order and for any
    -- volumes, to states in which two volumes never have the same device. Notes and creates
    -- are reliable, and a device whose reservation is older than two hours is connected.
    pub Reach-one_volume :
        (s t : Sys E) (v u d : Str)
        → ((x : Str) → recorded view s.world x ≡ none)
        → Reach s t
        → IsVolume v
        → IsVolume u
        → recorded view t.world v ≡ some d
        → recorded view t.world u ≡ some d
        → v ≡ u
    Reach-one_volume s t v u d empty r h k e f =
        IsExclusive-one view t.world v u d
          (Reach-Exclusive s t r
            (record { reserved = λ x c xh xe. none-not_some c (sym (empty x) ∙ xe) }))
          h k e f
