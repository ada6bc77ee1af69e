-- ===== src/Examples.antt =====
-- A small machine on which the theorems are applied, and runs of the driver on it.
pub mod Machine
pub mod Requests
pub mod Runs
pub mod Paths
mod Publishing
mod Unpublishing
mod Devices
pub mod Exclusive
mod Served
mod Statistics
mod Effects
mod Start
mod Pods
mod Volumes
