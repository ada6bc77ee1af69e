-- ===== src/Lib.antt =====
-- ZeroFS CSI driver: a Container Storage Interface driver for Kubernetes that serves a volume from an
-- object store. On the node, a pod per volume runs the ZeroFS server; the driver mounts its 9p share,
-- makes a disk file on it, unmounts it, attaches the disk over NBD, formats it and mounts it.
--
-- This library models the driver of pkg/csi and states what makes it correct. Files and code:
--   Base       strings as lists of code points, what the code uses of `strings`, `strconv` and
--              `path/filepath`, and lists and tests on the native numbers
--   Kube       the Kubernetes objects, with the fields that the code reads or sets
--   Process    what cmd/driver/main.go and pkg/csi/driver.go hand to gRPC and to the controller manager
--   Host       every call that the code makes outside itself, an environment that answers the calls,
--              and the monad: an action takes the world and a log of the calls made, and gives a value
--              or an error, a new world and a longer log
--   Nbd        pkg/csi/nbd.go: Devices (listNBDDevices, isNBDConnected, findMountSource,
--              unmountBestEffort, detachNBDDeviceBestEffort), State (the state file of a volume and
--              the reservation of a device), Reserve (reserveNBDDevice), Exclusive (the agreement of the
--              two kinds of file, and the critical sections under nbdMu as a step relation)
--   Mounter    pkg/csi/zerofs.go: Timeout (podReadyTimeout), Resources (parseResourceRequirements),
--              Config and Manifest (what CreatePod writes and asks for; Config/Reads has
--              a reader of that text), Wait (waitForPodDeletion,
--              waitForPodReady), Remove (RemovePod), Create (CreatePod)
--   Node       pkg/csi/node.go: Request (the service, the requests and their guards), Mkfs
--              (mkfsCommand), Disk and Attach (the two halves of the body of NodePublishVolume),
--              Publish, Unpublish, Stats, Reconcile (reconcileOrphanedNBDDevices), Sequence
--              (whole requests one after another), Effects, Isolation and Capacity (what requests
--              change); the metrics of pkg/csi/metrics.go are calls
--   Controller pkg/csi/controller.go (Create, and DeleteVolume in Delete), pkg/csi/controller_delete.go
--              (Delete), pkg/csi/s3_cleanup.go (Bucket)
--   Driver     pkg/csi/driver.go (Start, Stop, the identity service) and, in Main, cmd/driver/main.go;
--              Scope composes the two
--   Examples   a small machine, on which the theorems are applied
-- A component has children that are named for what they show. Keeps and Succeeds in Host are the
-- rules by which invariants, and the fact that no error is returned, pass through an action; Ends, what
-- holds of the log when an action returns; Triple, conditions before and after an action; Costs,
-- how many calls it makes; Since, the calls that it adds to the log. Host/Files states what is relied
-- on of the file system, for the driver's own files under /run/zerofs-csi.
--
-- Loops are recursion on lists or on counters: five attempts to detach, six looks at the socket. A wait
-- for a pod is recursion on the number of ticks before the deadline, which the reply to `start_timer`
-- gives, so no fuel is chosen. The deferred function of NodePublishVolume is `settle` and `clean_up`;
-- the mutex is a pair of calls, so that the log shows how it is used. An error keeps its gRPC code
-- and the fixed part of its text; log lines are left out. Each action runs by itself: requests that run
-- at the same time meet only through the replies of the environment, which are arbitrary, except in
-- Nbd/Exclusive/Steps, where reservations and releases of any volumes alternate. The theorems that assume
-- the file system leave out other writers of the driver's own files; those on exclusive use assume a
-- volume ID that is a file's name without spaces. A goroutine that the driver starts is a call.
--
-- The paginator of S3 says with its first reply how many pages it has; a key may be nil. `url.Parse` and
-- `ParseQuantity` are parameters.
--
-- Not modelled: gRPC, the controller manager and the Kubernetes client, which the code only calls, and
-- the registration of the collectors in pkg/csi/metrics.go.
pub mod Base
pub mod Kube
pub mod Process
pub mod Host
pub mod Nbd
pub mod Mounter
pub mod Node
pub mod Controller
pub mod Driver
pub mod Examples
