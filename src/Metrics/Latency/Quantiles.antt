-- ===== src/Metrics/Latency/Quantiles.antt =====
-- QuantileMillis of metrics/latency.go: the rank that it finds.
use adaptive_caching.Base.{ℕ, suc, ◌<◌, ◌≤◌, List, take}
use adaptive_caching.Metrics.Totals.{in_buckets}

-- The observations in the first buckets.
abbrev pub below : ℕ → List ℕ → ℕ
below j bs = in_buckets (take j bs)

-- The bucket in which the observation of a rank lies, counted from 0 in ascending order.
abbrev pub HasRank : ℕ → List ℕ → ℕ → Type 0
HasRank target bs j = (below j bs ≤ target) × (target < below (suc j) bs)
