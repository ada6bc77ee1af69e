-- ===== src/Nbd.antt =====
-- pkg/csi/nbd.go: the NBD devices of a node and the files in which they are reserved.
pub mod Devices
pub mod State
pub mod Reserve
pub mod Exclusive
