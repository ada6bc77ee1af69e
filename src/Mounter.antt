-- ===== src/Mounter.antt =====
-- pkg/csi/zerofs.go: the pod and the secret behind a volume. A mounter is its namespace here; the
-- client that it holds is the environment.
pub mod Timeout
pub mod Resources
pub mod Config
pub mod Manifest
pub mod Wait
pub mod Bounded
pub mod Remove
pub mod Create
pub mod Seen
pub mod Settled
pub mod Objects
pub mod Quiet
