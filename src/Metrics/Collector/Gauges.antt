-- ===== src/Metrics/Collector/Gauges.antt =====
-- The container gauge and the counters of the `Collector` of pkg/metrics/metrics.go.
use firecracker_shim.Base.{
  ℕ, suc, ◌+◌, ◌-◌, ◌^◌, ◌≤◌, ◌<◌, ◌≡◌, refl, ap, ◌∙◌, List, [], ◌∷◌, arith, length,
}
use firecracker_shim.Base.Int.{pos, ◌+ℤ◌, ◌-ℤ◌}
use firecracker_shim.Metrics.Collector.{
  Collector, new_collector, incr, Event, pool_hit, pool_miss, vm_created, vm_destroyed,
  container_created, container_destroyed, record_event, record_all, decr,
}

-- How many containers a run of events creates and destroys.
abbrev pub created : List Event → ℕ
created [] = 0
created (container_created ∷ es) = suc (created es)
created (_ ∷ es) = created es

abbrev pub destroyed : List Event → ℕ
destroyed [] = 0
destroyed (container_destroyed ∷ es) = suc (destroyed es)
destroyed (_ ∷ es) = destroyed es

incr-pos : (n : ℕ) → suc n < 2 ^ 63 → incr (pos n) ≡ pos (suc n)
unfolding ◌+ℤ◌
incr-pos n h = ground arith

decr-pos : (n : ℕ) → n < 2 ^ 63 → decr (pos n) ≡ pos (n - 1)
unfolding ◌-ℤ◌
decr-pos n h = ground arith

-- The gauge and the counter of a collector have these values.
abbrev pub Gauge : Collector → ℕ → ℕ → Type 0
Gauge c total active = (c.total_containers ≡ pos total) × (c.active_containers ≡ pos active)

Gauge-all :
    (es : List Event) (c : Collector) (t n : ℕ)
    → Gauge c t n
    → n ≤ t
    → t + length es < 2 ^ 63
    → (n' : ℕ) × Gauge (record_all es c) (t + created es) n'
      × (n' ≤ n + created es)
      × (n + created es ≤ n' + destroyed es)
unfolding record_all
Gauge-all [] c t n g le h = (n, (g.0 ∙ ap pos (omega arith), g.1), omega arith, omega arith)
Gauge-all (pool_hit ∷ es) c t n g le h =
    Gauge-all es (record_event pool_hit c) t n g le (omega arith)
Gauge-all (pool_miss ∷ es) c t n g le h =
    Gauge-all es (record_event pool_miss c) t n g le (omega arith)
Gauge-all (vm_created m v ∷ es) c t n g le h =
    Gauge-all es (record_event (vm_created m v) c) t n g le (omega arith)
Gauge-all (vm_destroyed m v ∷ es) c t n g le h =
    Gauge-all es (record_event (vm_destroyed m v) c) t n g le (omega arith)
Gauge-all (container_created ∷ es) c t n g le h =
    let up : Gauge (record_event container_created c) (suc t) (suc n) =
      (ap incr g.0 ∙ incr-pos t (omega arith), ap incr g.1 ∙ incr-pos n (omega arith)) in
    let (n', g', low, high) =
      Gauge-all es (record_event container_created c) (suc t) (suc n) up (omega arith)
        (omega arith) in
    (n', (g'.0 ∙ ap pos (omega arith), g'.1), omega (arith, low), omega (arith, high))
Gauge-all (container_destroyed ∷ es) c t n g le h =
    let down : Gauge (record_event container_destroyed c) t (n - 1) =
      (g.0, ap decr g.1 ∙ decr-pos n (omega arith)) in
    let (n', g', low, high) =
      Gauge-all es (record_event container_destroyed c) t (n - 1) down (omega arith)
        (omega arith) in
    (n', g', omega (arith, low), omega (arith, high))

-- After any run of fewer than 2 ^ 63 events on a new collector, the container counter is the number
-- of creations in the run, and the gauge of active containers is not negative, at most the number of
-- creations, and at least the creations less the destructions.
pub active_containers_bounds :
    (es : List Event)
    → length es < 2 ^ 63
    → (n : ℕ) × Gauge (record_all es new_collector) (created es) n
      × (n ≤ created es)
      × (created es ≤ n + destroyed es)
active_containers_bounds es h =
    let (n, g, low, high) =
      Gauge-all es new_collector 0 0 (refl, refl) (omega arith) (omega arith) in
    (n, (g.0 ∙ ap pos (omega arith), g.1), omega (arith, low), omega (arith, high))
