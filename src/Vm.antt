-- ===== src/Vm.antt =====
-- pkg/vm: the manager of Firecracker VMs, and the pool of warm VMs over it.
pub mod World
pub mod Manager
pub mod Pool
pub mod Snapshot
pub mod Hotplug
pub mod Jailer
