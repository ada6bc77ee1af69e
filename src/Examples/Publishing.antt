-- ===== src/Examples/Publishing.antt =====
-- The theorems on publishing, applied.
use zerofs_csi_driver.Base.{◌≡◌, refl, false, none, some, codes}
use zerofs_csi_driver.Host.{internal}
use zerofs_csi_driver.Host.Locking.{mutex}
use zerofs_csi_driver.Node.Attach.Format.{FormatsOnlyBlank}
use zerofs_csi_driver.Node.Publish.{publish_fresh, node_publish_volume}
use zerofs_csi_driver.Node.Publish.Format.{node_publish_volume-FormatsOnlyBlank}
use zerofs_csi_driver.Node.Publish.Locking.{node_publish_volume-Holds}
use zerofs_csi_driver.Node.Publish.Mounted.{IsPublished, node_publish_volume-IsPublished}
use zerofs_csi_driver.Node.Request.{PublishRequest}
use zerofs_csi_driver.Node.Publish.Rejects.{IsRejected, node_publish_volume-IsRejected}
use zerofs_csi_driver.Node.Publish.Forgets.{recorded, publish_fresh-forgets}
use zerofs_csi_driver.Examples.Machine.{no_files, machine-IsFileSystem, start}
use zerofs_csi_driver.Examples.Requests.{
  service, publish_request, programs, absent_pod, served, unserved, mounted, with_socket,
}
use zerofs_csi_driver.Examples.Runs.{publish_again_runs, publish_fails}
use zerofs_csi_driver.Examples.Paths.{v1_own}

node_publish_volume-FormatsOnlyBlank_example :
    FormatsOnlyBlank
      (node_publish_volume {E = served} service publish_request (start with_socket)).1.log
node_publish_volume-FormatsOnlyBlank_example =
    node_publish_volume-FormatsOnlyBlank {E = served} service publish_request (start with_socket) tt

node_publish_volume-Holds_example :
    mutex (node_publish_volume {E = served} service publish_request (start with_socket)).1.log
    ≡ some false
node_publish_volume-Holds_example =
    node_publish_volume-Holds {E = served} service publish_request (start with_socket) refl

node_publish_volume-IsPublished_example :
    IsPublished publish_request
      (node_publish_volume {E = mounted} service publish_request (start no_files)).1.log
node_publish_volume-IsPublished_example =
    node_publish_volume-IsPublished {E = mounted} service publish_request (start no_files)
      publish_again_runs

publish_fresh-forgets_example :
    recorded {E = unserved}
      (λ w. w)
      (codes "v1")
      (publish_fresh {E = unserved} service publish_request (codes "ext4") (start with_socket)).1
    ≡ none
publish_fresh-forgets_example =
    publish_fresh-forgets {E = unserved} (λ w. w) (machine-IsFileSystem 0 programs absent_pod)
      service publish_request (codes "ext4") (start with_socket)
      (record { code = internal; message = codes "failed to create pod" }) v1_own publish_fails

abbrev bare_request : PublishRequest
bare_request = record publish_request { capability = none }

node_publish_volume-IsRejected_example :
    IsRejected {E = served}
      (start no_files)
      (node_publish_volume {E = served} service bare_request (start no_files))
node_publish_volume-IsRejected_example =
    node_publish_volume-IsRejected {E = served} service bare_request (start no_files) refl
