-- ===== src/Node/Unpublish/Effects.antt =====
-- pkg/csi/node.go: an unpublish changes only its own volume's objects.
use zerofs_csi_driver.Base.{◌≡◌, true, List}
use zerofs_csi_driver.Host.{Env, Sys, Exec, Call, Event, perform, with_lock}
use zerofs_csi_driver.Host.Keeps.{Keeps}
use zerofs_csi_driver.Host.Calls.{is_plain}
use zerofs_csi_driver.Host.Since.{Grown, perform-Grown, with_lock-Grown}
use zerofs_csi_driver.Mounter.Objects.{IsOwnChange}
use zerofs_csi_driver.Node.Request.{Service, UnpublishRequest}
use zerofs_csi_driver.Node.Attach.Plain.{IsPlainExec, quiet_of}
use zerofs_csi_driver.Node.Effects.{ChangesOwn, plain-ChangesOwn, own-ChangesOwn}
use zerofs_csi_driver.Node.Unpublish.{node_unpublish_volume}
use zerofs_csi_driver.Node.Unpublish.Plain.{node_unpublish_volume-Keeps}

module _ {E : Env} (ns : Service) (req : UnpublishRequest) (base : List Event) where
  abbrev Owned : Sys E → Type 0
  Owned = Grown (ChangesOwn ns.namespace req.volume_id) base

  plain-Owned : (c : Call) → is_plain c ≡ true → Keeps Owned (perform c)
  plain-Owned c h = perform-Grown _ base c (plain-ChangesOwn ns.namespace req.volume_id c h)

  own-Owned : (c : Call) → IsOwnChange ns.namespace req.volume_id c → Keeps Owned (perform c)
  own-Owned c h = perform-Grown _ base c (own-ChangesOwn ns.namespace req.volume_id c h)

  section-Owned : (A : Type 0) (m : Exec E A) → IsPlainExec m → Keeps Owned (with_lock m)
  section-Owned A m k =
      with_lock-Grown (ChangesOwn ns.namespace req.volume_id) base m (λ r h. absurd (cc (h)))
        (λ r h. absurd (cc (h))) (k Owned plain-Owned)

  pub node_unpublish_volume-Owned : Keeps Owned (node_unpublish_volume ns req)
  node_unpublish_volume-Owned =
      node_unpublish_volume-Keeps (quiet_of plain-Owned) section-Owned ns req own-Owned
