-- ===== src/Lib.antt =====
-- A model of the Firecracker shim, the runtime that runs containers in Firecracker micro-VMs, and
-- the theorems about it.
--
-- The task service (pkg/shim/service.go) asks the pool (pkg/vm/pool.go) for a VM. The pool hands
-- out one that waits, or has the manager (pkg/vm/manager.go) create one; a VM comes back to the pool
-- or is destroyed. Two loops in the background refill the pool and destroy the VMs that wait too
-- long. In the VM runs an agent (cmd/fc-agent/main.go), which creates, starts, stops and removes
-- containers on the requests of a client on the host (pkg/agent/client.go). The metrics
-- (pkg/metrics/metrics.go) count what happens and export it as text. Snapshots of VMs
-- (pkg/vm/snapshot.go) can be restored by the manager, and a pool over the pool does so; drives are attached to running VMs (pkg/vm/hotplug.go), and a VM may
-- run in a jail (pkg/vm/jailer.go). Images of containers become block devices in pkg/image. The
-- configuration (pkg/config/config.go) is read from a file and the environment. The command line tool
-- (cmd/fcctl/main.go) looks at the directories of the sandboxes.
--
--   Base           shared: Boolean tests, lists, association lists for Go maps, integers
--   Domain         pkg/domain/types.go: sandboxes, containers, configurations
--   Vm.World       the memory, the manager's state and the calls made outside, for all of pkg/vm
--   Vm.Manager     pkg/vm/manager.go; its theorems by operation; Cid has the runs with restores,
--                  CidInv and CidRestore what each call keeps
--   Vm.Pool        pkg/vm/pool.go; its theorems by operation, and on all reachable states
--   Vm.Snapshot    pkg/vm/snapshot.go: taking and restoring; Cache has the stored snapshots, Pooled the
--                  `SnapshotPool`
--   Vm.Hotplug     pkg/vm/hotplug.go: the attached drives; Volumes has the preparation of volumes
--   Vm.Jailer      pkg/vm/jailer.go: the manager of jails (Lifecycle), Chroot, Cgroups, Args and
--                  Prerequisites; Mounts follows what is mounted in a jail
--   Image          pkg/image: Tools has the calls of programs and of the file system, Names and
--                  Collision the names, Filesystem the images; Fsify, Oci, Conversion and Convert are
--                  pkg/image/fsify.go, Rootfs is pkg/image/rootfs.go
--   Guest.Protocol the messages between client and agent, and the parameters of a request
--   Guest.Agent    cmd/fc-agent/main.go: the handlers; Lifecycle has the state of each container
--   Guest.Client   pkg/agent/client.go over any connection; Remote joins it to the agent
--   Metrics        pkg/metrics/metrics.go: Sort and Percentile, Window, Decimal, Collector
--   Shim           pkg/shim/service.go: the task service and its requests on tasks; Requests has the
--                  others, Tasks and Exits its runs, Outcomes its answers
--   Config         pkg/config/config.go: Settings has the records, Numbers the number readers of the
--                  standard library, Parser the text format, Loading the rest
--   Cli            cmd/fcctl/main.go: the scan for sandboxes, kill and cleanup
--   Examples       concrete runs, with the theorems applied to them
--
-- Pointers and memory. A `*Sandbox` is a `SandboxRef`: an address in the heap of `World`, with the ID
-- of the sandbox. The pool, the manager and the callers share that heap, so a write through one
-- reference is seen through all.
--
-- Calls outside. What the Firecracker SDK, the clock and the file system answer is an argument of
-- each operation (`CreateEnv`, `StopEnv`, `AcquireEnv`, `GuestEnv`, `TaskEnv`, ...), and the
-- theorems hold for every answer unless they say otherwise. The calls that the code makes are
-- recorded in `World.effects`, the agent's commands in `Agent.commands`, the files made for volumes
-- in a list of `FileEffect`, what is done to jails in one of `JailEffect`, and the programs that
-- pkg/image runs in one of `ImageEffect`.
--
-- Concurrency. A method is one step: the code holds a lock around the state that it changes, or sends
-- on the channel. Calls interleave as sequences of steps (`Vm.Pool.Run.Reach`,
-- `Vm.Manager.Cid.Reach`). The goroutines of `Warm` are taken in the order in which they finish.
-- `cleanupIdle` holds no lock: it is two steps, with any calls of others in between.
-- Only `Convert` of pkg/image/fsify.go holds its lock in several short sections: there a step is one
-- section or one wait of a goroutine (`Image.Convert.Reach`). Other interleavings inside a method are
-- not modelled.
--
-- Numbers. `cidCounter` is a uint32 and wraps; the atomic counters of the pool wrap at 2 ^ 64; the
-- int64 counters of the metrics wrap to negative numbers. Latencies are whole milliseconds, so a
-- native number stands for each float64 of a window. No definition runs on fuel: the
-- client pings at most 30 times, as its loop says, and every other loop is structural in the list or
-- the count that it goes through, and the one of `appendInt` in the slots left in its array, which
-- are shown to be enough.
--
-- Text. The configuration and the drives hold text as a list of code points (Base.Text), with Go's
-- `strings` functions on valid UTF-8; elsewhere a string is opaque. A duration is in nanoseconds, and
-- `scaled`, the float product that `time.ParseDuration` makes of a fraction, is a parameter.
--
-- Not modelled: logging, the per-sandbox locks, cancellation of a context inside a call, the
-- forwarding of events, the HTTP handler of the metrics, what the programs do that pkg/image runs, and
-- the parts that mostly call other libraries or print: the network (pkg/network/cni.go) and the other
-- commands of cmd/fcctl.
pub mod Base
pub mod Cli
pub mod Config
pub mod Domain
pub mod Examples
pub mod Guest
pub mod Image
pub mod Metrics
pub mod Shim
pub mod Vm
