-- ===== src/Node.antt =====
-- pkg/csi/node.go: the node service.
pub mod Request
pub mod Mkfs
pub mod Disk
pub mod Attach
pub mod Publish
pub mod Unpublish
pub mod Stats
pub mod Reconcile
pub mod Effects
pub mod Isolation
pub mod Capacity
pub mod Sequence
