-- ===== src/Examples.antt =====
-- Concrete runs on which the theorems' hypotheses hold, with the theorems applied to them.
pub mod Manager
pub mod Pool
pub mod Guest
pub mod Metrics
pub mod Shim
pub mod Config
pub mod Snapshot
pub mod Hotplug
pub mod Jailer
pub mod Image
pub mod Cli
