-- ===== src/Metrics.antt =====
-- pkg/metrics/metrics.go: the counters, the latency windows and their percentiles, and the numbers
-- in the exported text.
pub mod Sort
pub mod Percentile
pub mod Window
pub mod Decimal
pub mod Collector
