-- ===== src/Node/Isolation.antt =====
-- pkg/csi/node.go: the requests for one volume leave the objects and the disks of the others alone.
use zerofs_csi_driver.Host.{Env, Sys}
use zerofs_csi_driver.Host.Since.{Since}
use zerofs_csi_driver.Node.Request.{Service, PublishRequest, UnpublishRequest}
use zerofs_csi_driver.Node.Effects.{ChangesOwn}
use zerofs_csi_driver.Node.Publish.{node_publish_volume}
use zerofs_csi_driver.Node.Publish.Effects.{IsProper, node_publish_volume-IsProper}
use zerofs_csi_driver.Node.Unpublish.{node_unpublish_volume}
use zerofs_csi_driver.Node.Unpublish.Effects.{node_unpublish_volume-Owned}

-- Whatever the calls reply, and also when the request fails, the calls that NodePublishVolume and
-- NodeUnpublishVolume make create, update and delete no object of the cluster but the pod and the
-- secret of the request's volume, in the service's namespace; and a publish runs `truncate` only to
-- give the disk file below the target path the capacity that the volume context has under
-- capacity_bytes.
pub requests-isolated :
    {E : Env} (ns : Service) (publish : PublishRequest) (unpublish : UnpublishRequest) (s : Sys E)
    → Since (IsProper ns publish) s.log (node_publish_volume ns publish s).1.log
      × Since
          (ChangesOwn ns.namespace unpublish.volume_id)
          s.log
          (node_unpublish_volume ns unpublish s).1.log
requests-isolated ns publish unpublish s = (
  node_publish_volume-IsProper ns publish s,
  (node_unpublish_volume-Owned ns unpublish s.log).holds s Since.nothing_new,
)
