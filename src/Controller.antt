-- ===== src/Controller.antt =====
-- The controller: pkg/csi/controller.go, pkg/csi/controller_delete.go and pkg/csi/s3_cleanup.go.
pub mod Create
pub mod Bucket
pub mod Delete
pub mod Replies
