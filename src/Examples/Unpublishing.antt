-- ===== src/Examples/Unpublishing.antt =====
-- The theorems on unpublishing, applied.
use zerofs_csi_driver.Base.{◌≡◌, refl, false, none, some, codes}
use zerofs_csi_driver.Host.{ok}
use zerofs_csi_driver.Host.Locking.{mutex}
use zerofs_csi_driver.Nbd.State.{volume_nbd_state_path}
use zerofs_csi_driver.Node.Unpublish.{node_unpublish_volume}
use zerofs_csi_driver.Node.Unpublish.Clears.{node_unpublish_volume-clears}
use zerofs_csi_driver.Node.Unpublish.Locking.{ChangesHeld, node_unpublish_volume-Guarded}
use zerofs_csi_driver.Examples.Machine.{machine-IsFileSystem, start}
use zerofs_csi_driver.Examples.Requests.{
  service, unpublish_request, programs, absent_pod, unserved, own_state,
}
use zerofs_csi_driver.Examples.Paths.{v1_given, t_given, v1_own}

node_unpublish_volume-Guarded_example :
    let t = (node_unpublish_volume {E = unserved} service unpublish_request (start own_state)).1 in
    (mutex t.log ≡ some false) × ChangesHeld t.log
node_unpublish_volume-Guarded_example =
    node_unpublish_volume-Guarded {E = unserved} service unpublish_request (start own_state) refl tt

node_unpublish_volume-clears_example :
    ((node_unpublish_volume {E = unserved} service unpublish_request (start own_state)).0 ≡ ok tt)
    × ((node_unpublish_volume {E = unserved} service unpublish_request (start own_state)).1.world
          (volume_nbd_state_path (codes "v1"))
        ≡ none)
node_unpublish_volume-clears_example =
    node_unpublish_volume-clears {E = unserved} (λ w. w)
      (machine-IsFileSystem 0 programs absent_pod) service unpublish_request (start own_state)
      v1_given t_given v1_own
