-- ===== src/Node/Sequence.antt =====
-- pkg/csi/node.go and pkg/csi/driver.go: the requests that a node serves one after another, in any order
-- and for any volumes, with the reconciler of each start of the driver and with calls of other parts
-- between them.
use zerofs_csi_driver.Base.{none-not_some, ◌≡◌, ◌≢◌, sym, ◌∙◌, false, Option, none, some, [], Str}
use zerofs_csi_driver.Host.{Env, Sys, Call, perform}
use zerofs_csi_driver.Host.Files.{touches, IsReliable}
use zerofs_csi_driver.Nbd.State.{device_reservation_path}
use zerofs_csi_driver.Nbd.State.Paths.{IsVolume}
use zerofs_csi_driver.Nbd.Exclusive.{recorded, IsExclusive, IsSame-call, IsExclusive-same}
use zerofs_csi_driver.Nbd.Exclusive.Collect.{quiet-Safe}
use zerofs_csi_driver.Nbd.Exclusive.Scan.{IsBusyWhenOld}
use zerofs_csi_driver.Nbd.Exclusive.Steps.{IsExclusive-one}
use zerofs_csi_driver.Node.Request.{Service, PublishRequest, UnpublishRequest}
use zerofs_csi_driver.Node.Publish.{node_publish_volume}
use zerofs_csi_driver.Node.Publish.Exclusive.{node_publish_volume-Exclusive}
use zerofs_csi_driver.Node.Unpublish.{node_unpublish_volume}
use zerofs_csi_driver.Node.Unpublish.Releases.{Trusts, node_unpublish_volume-releases}
use zerofs_csi_driver.Node.Reconcile.{reconcile_orphaned_nbd_devices}
use zerofs_csi_driver.Node.Reconcile.Quiet.{reconcile-Keeps}

module _ {E : Env} (view : E.World → Str → Option Str) where
  -- A request is served whole, whether it succeeds or fails.
  pub data Serve : Sys E → Sys E → Type 0 where
    publish :
        (ns : Service) (req : PublishRequest) (s : Sys E)
        → IsVolume req.volume_id
        → Serve s (node_publish_volume ns req s).1
    unpublish :
        (ns : Service) (req : UnpublishRequest) (s : Sys E)
        → IsVolume req.volume_id
        → req.target_path ≢ []
        → Trusts view req.volume_id req.target_path s
        → Serve s (node_unpublish_volume ns req s).1
    reconcile : (s : Sys E) → Serve s (reconcile_orphaned_nbd_devices s).1
    elsewhere : (c : Call) (s : Sys E) → ((p : Str) → touches c p ≡ false) → Serve s (perform c s).1

  pub data Served : Sys E → Sys E → Type 0 where
    none_yet : (s : Sys E) → Served s s
    one_more : (s t u : Sys E) → Served s t → Serve t u → Served s u

  module _ (rel : IsReliable E view) (old : IsBusyWhenOld E) where
    Serve-Exclusive :
        (s t : Sys E) → Serve s t → IsExclusive view s.world → IsExclusive view t.world
    unfolding perform
    Serve-Exclusive s _ (Serve.publish ns req _ h) x =
        node_publish_volume-Exclusive view rel old ns req h s x
    Serve-Exclusive s _ (Serve.unpublish ns req _ h given trusts) x =
        (node_unpublish_volume-releases view rel ns req s h given trusts x).1
    Serve-Exclusive s _ (Serve.reconcile _) x =
        (reconcile-Keeps (quiet-Safe view rel.files)).holds s x
    Serve-Exclusive s _ (Serve.elsewhere c _ h) x =
        IsExclusive-same view _ _ (IsSame-call view rel.files c s.world h) x

    Served-Exclusive :
        (s t : Sys E) → Served s t → IsExclusive view s.world → IsExclusive view t.world
    Served-Exclusive s _ (Served.none_yet _) x = x
    Served-Exclusive s u (Served.one_more _ t _ r step) x =
        Serve-Exclusive t u step (Served-Exclusive s t r x)

    -- From a state in which no volume has a state file that names a device, publishes and unpublishes,
    -- served one after another in any order and for any volumes with plain names, whether they succeed
    -- or fail, with runs of the reconciler and calls that touch no file of the driver between them, lead
    -- to states in which the device of a volume is reserved by it, and is that of no other volume.
    -- Notes and creates are reliable, a device whose reservation is older than two hours is connected,
    -- and what findmnt prints at the start of an unpublish, if it prints anything, is the device that
    -- the volume's state file names.
    pub Served-one_volume :
        (s t : Sys E) (v u d : Str)
        → ((x : Str) → recorded view s.world x ≡ none)
        → Served s t
        → IsVolume v
        → IsVolume u
        → recorded view t.world v ≡ some d
        → (view t.world (device_reservation_path d) ≡ some v)
          × (recorded view t.world u ≡ some d → v ≡ u)
    Served-one_volume s t v u d empty r h k e =
        let x =
          Served-Exclusive s t r
            (record { reserved = λ a c ah ac. none-not_some c (sym (empty a) ∙ ac) }) in
        ((x.reserved v d h e).1, λ f. IsExclusive-one view t.world v u d x h k e f)
