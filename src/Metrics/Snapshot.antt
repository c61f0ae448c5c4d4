-- ===== src/Metrics/Snapshot.antt =====
-- Snapshot of metrics/collector.go, and the columns of its CSV row.
use adaptive_caching.Base.{
  ℕ, ◌+◌, ◌%◌, List, [], ◌∷◌, Key, Int64, add64, lt64, ltb, two64, if◌then◌else◌,
}
use adaptive_caching.Floats.{Float64, Platform, literal, of_uint64, of_int64, div_float}
use adaptive_caching.Policy.{PolicyName}
use adaptive_caching.Policy.Registry.{name_text}
use adaptive_caching.Metrics.{Collector}
use adaptive_caching.Metrics.Latency.{mean_millis, quantile_millis}

pub record Stats : Type 0 where
  pub total_requests : ℕ
  pub hits : ℕ
  pub misses : ℕ
  pub hit_rate : Float64
  pub byte_hit_rate : Float64
  pub bytes_served : Int64
  pub bytes_fetched : Int64
  pub latency_mean : Float64
  pub latency_p50 : Float64
  pub latency_p95 : Float64
  pub latency_p99 : Float64
  pub capacity : Int64
  pub bytes_used : Int64
  pub metadata_bytes : Int64
  pub object_count : ℕ
  pub current_policy : PolicyName
  pub policy_switches : ℕ
  pub switch_overhead_total_ms : Float64
  pub detection_delay_mean : Float64
  pub detection_accuracy : Float64
  pub evictions : ℕ
  pub backend_requests : ℕ

-- The rates, which stay 0 without a request or a byte.
unfoldable pub hit_rate : ℕ → ℕ → Float64
hit_rate hits misses =
    let n = (hits + misses) % two64 in
    if ltb 0 n then div_float (of_uint64 hits) (of_uint64 n) else literal 0 1

unfoldable pub byte_hit_rate : Int64 → Int64 → Float64
byte_hit_rate served fetched =
    let b = add64 served fetched in
    if lt64 0 b then div_float (of_int64 served) (of_int64 b) else literal 0 1

unfoldable pub snapshot : Platform → Collector → Stats
unfolding hit_rate byte_hit_rate
snapshot pf c = record {
  total_requests = c.total;
  hits = c.hits;
  misses = c.misses;
  hit_rate = hit_rate c.hits c.misses;
  byte_hit_rate = byte_hit_rate c.bytes_served c.bytes_fetched;
  bytes_served = c.bytes_served;
  bytes_fetched = c.bytes_fetched;
  latency_mean = mean_millis c.latency;
  latency_p50 = quantile_millis pf (literal 50 100) c.latency;
  latency_p95 = quantile_millis pf (literal 95 100) c.latency;
  latency_p99 = quantile_millis pf (literal 99 100) c.latency;
  capacity = c.state.capacity;
  bytes_used = c.state.bytes_used;
  metadata_bytes = c.state.metadata_bytes;
  object_count = c.state.object_count;
  current_policy = c.policy;
  policy_switches = c.switches;
  switch_overhead_total_ms = div_float (of_uint64 c.switch_overhead) (literal 1000 1);
  detection_delay_mean = literal 0 1;
  detection_accuracy = literal 0 1;
  evictions = c.evictions;
  backend_requests = c.backend_reqs;
}

-- The columns of a CSV file, `csvHeader`.
abbrev pub csv_header : List Key
csv_header =
    "total_requests" ∷ "hits" ∷ "misses" ∷ "hit_rate" ∷ "byte_hit_rate" ∷ "bytes_served"
    ∷ "bytes_fetched" ∷ "latency_mean_ms" ∷ "latency_p50_ms" ∷ "latency_p95_ms" ∷ "latency_p99_ms"
    ∷ "capacity" ∷ "bytes_used" ∷ "metadata_bytes" ∷ "object_count" ∷ "current_policy"
    ∷ "policy_switches" ∷ "switch_overhead_total_ms" ∷ "detection_delay_mean" ∷ "detection_accuracy"
    ∷ "evictions" ∷ "backend_requests" ∷ []

-- The texts of numbers: strconv.FormatUint, FormatInt and FormatFloat.
pub record Formats : Type 0 where
  pub unsigned : ℕ → Key
  pub signed : Int64 → Key
  pub float : Float64 → Key

-- Stats.Row
unfoldable pub row : Formats → Stats → List Key
row f s =
    f.unsigned s.total_requests
    ∷ f.unsigned s.hits
    ∷ f.unsigned s.misses
    ∷ f.float s.hit_rate
    ∷ f.float s.byte_hit_rate
    ∷ f.signed s.bytes_served
    ∷ f.signed s.bytes_fetched
    ∷ f.float s.latency_mean
    ∷ f.float s.latency_p50
    ∷ f.float s.latency_p95
    ∷ f.float s.latency_p99
    ∷ f.signed s.capacity
    ∷ f.signed s.bytes_used
    ∷ f.signed s.metadata_bytes
    ∷ f.signed s.object_count
    ∷ name_text s.current_policy
    ∷ f.unsigned s.policy_switches
    ∷ f.float s.switch_overhead_total_ms
    ∷ f.float s.detection_delay_mean
    ∷ f.float s.detection_accuracy
    ∷ f.unsigned s.evictions
    ∷ f.unsigned s.backend_requests
    ∷ []
