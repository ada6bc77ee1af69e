-- ===== src/Node/Publish/Format.antt =====
-- `NodePublishVolume` never formats a device that holds a filesystem.
use zerofs_csi_driver.Host.{Env, Sys}
use zerofs_csi_driver.Mounter.Objects.{own_of}
use zerofs_csi_driver.Node.Request.{Service, PublishRequest}
use zerofs_csi_driver.Node.Attach.Format.{
  FormatsOnlyBlank, plain-IsSafe, changes-IsSafe, truncate-IsSafe, with_lock-IsSafe,
  format_if_blank-IsSafe,
}
use zerofs_csi_driver.Node.Publish.{node_publish_volume}
use zerofs_csi_driver.Node.Publish.Plain.{node_publish_volume-Keeps}

-- Whatever the node and the cluster reply, NodePublishVolume runs a program `mkfs` or `mkfs.*` only
-- directly after a `blkid -o value -s TYPE` of the device that is the program's last argument, and
-- only if that printed nothing but white space: if this holds of the calls made before the
-- request, it holds of the calls made by its end, also when the request fails.
pub node_publish_volume-FormatsOnlyBlank :
    {E : Env} (ns : Service) (req : PublishRequest) (s : Sys E)
    → FormatsOnlyBlank s.log
    → FormatsOnlyBlank (node_publish_volume ns req s).1.log
node_publish_volume-FormatsOnlyBlank ns req s h =
    (node_publish_volume-Keeps plain-IsSafe with_lock-IsSafe format_if_blank-IsSafe ns req
        (own_of changes-IsSafe ns.namespace req.volume_id) (λ capacity e. truncate-IsSafe _)).holds
      s h
