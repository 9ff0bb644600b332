-- ===== src/Examples/Metrics.antt =====
-- Runs of pkg/metrics/metrics.go.
use Prim.Native.Nat.{min}
use firecracker_shim.Base.{ℕ, suc, ◌-◌, ◌/◌, ◌≤◌, ◌≡◌, List, [], ◌∷◌, arith, length}
use firecracker_shim.Metrics.Window.{append_all, latest, window_holds_latest}
use firecracker_shim.Metrics.Percentile.{percentile, at_most, at_least, percentile_rank}
use firecracker_shim.Metrics.Collector.{Event, container_created, container_destroyed, pool_hit}

abbrev samples : List ℕ
samples = 40 ∷ 10 ∷ 30 ∷ 10 ∷ []

-- Half of the last index, and the last index.
abbrev half : ℕ → ℕ
half n = n / 2

abbrev last : ℕ → ℕ
last n = n

window_holds_latest_example :
    (append_all [] samples 3 ≡ latest 3 samples)
    × (length (append_all [] samples 3) ≡ min 3 (length samples))
window_holds_latest_example = window_holds_latest samples 3 (omega arith)

percentile_rank_example :
    (suc (half 3) ≤ at_most (percentile half samples) samples)
    × (4 - half 3 ≤ at_least (percentile half samples) samples)
percentile_rank_example = percentile_rank half 40 (10 ∷ 30 ∷ 10 ∷ []) (λ n. omega arith)

abbrev events : List Event
events = container_destroyed ∷ container_created ∷ pool_hit ∷ container_created ∷ []
