-- ===== src/Metrics/Collector.antt =====
-- The `Collector` of pkg/metrics/metrics.go: its counters, gauges and latency windows. Every method
-- holds the lock, so a method is one step. The int64 counters wrap.
pub mod Gauges
use firecracker_shim.Base.{
  ℕ, zero, suc, ◌+◌, ◌-◌, ◌*◌, ◌≤◌, ◌<◌, ◌≡◌, refl, List, [], ◌∷◌, ◌++◌, arith, if◌then◌else◌,
  String, ◌=?◌, string_eq,
}
use firecracker_shim.Base.Int.{ℤ, pos, ◌+ℤ◌, ◌-ℤ◌, ltb_ℤ, wrap64}
use firecracker_shim.Metrics.Window.{append_with_limit}

pub record Collector : Type 0 where
  pub pool_available : ℤ
  pub pool_in_use : ℤ
  pub pool_hits : ℤ
  pub pool_misses : ℤ
  pub pool_max_size : ℤ
  pub pool_warming_time : List ℕ
  pub create_latencies : List ℕ
  pub start_latencies : List ℕ
  pub stop_latencies : List ℕ
  pub delete_latencies : List ℕ
  pub total_vms_created : ℤ
  pub total_vms_destroyed : ℤ
  pub total_containers : ℤ
  pub active_containers : ℤ
  pub vm_create_errors : ℤ
  pub vm_destroy_errors : ℤ
  pub container_errors : ℤ
  pub agent_connect_errors : ℤ
  pub total_memory_mb : ℤ
  pub total_vcpus : ℤ

abbrev pub new_collector : Collector
new_collector = record {
  pool_available = pos 0;
  pool_in_use = pos 0;
  pool_hits = pos 0;
  pool_misses = pos 0;
  pool_max_size = pos 0;
  pool_warming_time = [];
  create_latencies = [];
  start_latencies = [];
  stop_latencies = [];
  delete_latencies = [];
  total_vms_created = pos 0;
  total_vms_destroyed = pos 0;
  total_containers = pos 0;
  active_containers = pos 0;
  vm_create_errors = pos 0;
  vm_destroy_errors = pos 0;
  container_errors = pos 0;
  agent_connect_errors = pos 0;
  total_memory_mb = pos 0;
  total_vcpus = pos 0;
}

-- `n++`, and `if n < 0 { n = 0 }`.
abbrev pub incr : ℤ → ℤ
incr n = wrap64 (n +ℤ pos 1)

abbrev pub clamp : ℤ → ℤ
clamp n = if ltb_ℤ n (pos 0) then pos 0 else n

-- `n--`, clamped.
abbrev pub decr : ℤ → ℤ
decr n = clamp (wrap64 (n -ℤ pos 1))

unfoldable pub set_pool_stats : ℤ → ℤ → ℤ → Collector → Collector
set_pool_stats available in_use max_size c = record c {
  pool_available = available;
  pool_in_use = in_use;
  pool_max_size = max_size;
}

unfoldable pub record_pool_hit : Collector → Collector
record_pool_hit c = record c { pool_hits = incr c.pool_hits }

unfoldable pub record_pool_miss : Collector → Collector
record_pool_miss c = record c { pool_misses = incr c.pool_misses }

unfoldable pub record_pool_warm_time : ℕ → Collector → Collector
record_pool_warm_time ms c = record c {
  pool_warming_time = append_with_limit c.pool_warming_time ms 100;
}

unfoldable pub record_latency : String → ℕ → Collector → Collector
record_latency operation ms c =
    if operation =? "create"
    then record c { create_latencies = append_with_limit c.create_latencies ms 100 }
    else if operation =? "start"
    then record c { start_latencies = append_with_limit c.start_latencies ms 100 }
    else if operation =? "stop"
    then record c { stop_latencies = append_with_limit c.stop_latencies ms 100 }
    else if operation =? "delete"
    then record c { delete_latencies = append_with_limit c.delete_latencies ms 100 }
    else c

unfoldable pub record_vm_created : ℤ → ℤ → Collector → Collector
record_vm_created memory vcpus c = record c {
  total_vms_created = incr c.total_vms_created;
  total_memory_mb = wrap64 (c.total_memory_mb +ℤ memory);
  total_vcpus = wrap64 (c.total_vcpus +ℤ vcpus);
}

unfoldable pub record_vm_destroyed : ℤ → ℤ → Collector → Collector
record_vm_destroyed memory vcpus c = record c {
  total_vms_destroyed = incr c.total_vms_destroyed;
  total_memory_mb = clamp (wrap64 (c.total_memory_mb -ℤ memory));
  total_vcpus = clamp (wrap64 (c.total_vcpus -ℤ vcpus));
}

unfoldable pub record_container_created : Collector → Collector
record_container_created c = record c {
  total_containers = incr c.total_containers;
  active_containers = incr c.active_containers;
}

unfoldable pub record_container_destroyed : Collector → Collector
record_container_destroyed c = record c { active_containers = decr c.active_containers }

unfoldable pub record_vm_create_error : Collector → Collector
record_vm_create_error c = record c { vm_create_errors = incr c.vm_create_errors }

unfoldable pub record_vm_destroy_error : Collector → Collector
record_vm_destroy_error c = record c { vm_destroy_errors = incr c.vm_destroy_errors }

unfoldable pub record_container_error : Collector → Collector
record_container_error c = record c { container_errors = incr c.container_errors }

unfoldable pub record_agent_connect_error : Collector → Collector
record_agent_connect_error c = record c { agent_connect_errors = incr c.agent_connect_errors }

-- The events of the counter methods.
pub data Event : Type 0 where
  pool_hit : Event
  pool_miss : Event
  vm_created : ℤ → ℤ → Event
  vm_destroyed : ℤ → ℤ → Event
  container_created : Event
  container_destroyed : Event

unfoldable pub record_event : Event → Collector → Collector
unfolding record_pool_hit record_pool_miss record_vm_created record_vm_destroyed
    record_container_created record_container_destroyed
record_event pool_hit c = record_pool_hit c
record_event pool_miss c = record_pool_miss c
record_event (vm_created m v) c = record_vm_created m v c
record_event (vm_destroyed m v) c = record_vm_destroyed m v c
record_event container_created c = record_container_created c
record_event container_destroyed c = record_container_destroyed c

unfoldable pub record_all : List Event → Collector → Collector
unfolding record_event
record_all [] c = c
record_all (e ∷ es) c = record_all es (record_event e c)
