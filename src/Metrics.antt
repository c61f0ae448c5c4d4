-- ===== src/Metrics.antt =====
-- metrics/collector.go: the counters. Each is an atomic of 64 bits; a method is one step.
pub mod Latency
pub mod Memory
pub mod Totals
pub mod Tallies
pub mod Snapshot
use adaptive_caching.Base.{ℕ, ◌+◌, ◌%◌, Bool, Int64, add64, two64, if◌then◌else◌}
use adaptive_caching.Types.{Request}
use adaptive_caching.Policy.{PolicyName, no_policy}
use adaptive_caching.Floats.{Platform, literal, lt_float, mul_float, to_uint64}
use adaptive_caching.Events.Payloads.{SwitchEvent}
use adaptive_caching.Metrics.Latency.{Histogram, new_histogram, record_value, reset_histogram}

pub record CacheState : Type 0 where
  pub capacity : Int64
  pub bytes_used : Int64
  pub metadata_bytes : Int64
  pub object_count : ℕ

pub record Collector : Type 0 where
  pub total : ℕ
  pub hits : ℕ
  pub misses : ℕ
  pub bytes_served : Int64
  pub bytes_fetched : Int64
  pub evictions : ℕ
  pub evicted_bytes : Int64
  pub backend_reqs : ℕ
  pub switches : ℕ
  pub switch_overhead : ℕ
  pub tuning_attempts : ℕ
  pub tuning_accepted : ℕ
  pub latency : Histogram
  pub policy : PolicyName
  pub state : CacheState

-- `Add(1)` on an atomic.Uint64.
abbrev pub bump : ℕ → ℕ
bump n = (n + 1) % two64

unfoldable pub new_collector : Collector
new_collector = record {
  total = 0;
  hits = 0;
  misses = 0;
  bytes_served = 0;
  bytes_fetched = 0;
  evictions = 0;
  evicted_bytes = 0;
  backend_reqs = 0;
  switches = 0;
  switch_overhead = 0;
  tuning_attempts = 0;
  tuning_accepted = 0;
  latency = new_histogram;
  policy = no_policy;
  state = record { capacity = 0; bytes_used = 0; metadata_bytes = 0; object_count = 0 };
}

unfoldable pub record_request : Request → Bool → Int64 → Collector → Collector
record_request r hit latency c =
    let counted =
      if hit
      then record c {
        total = bump c.total;
        hits = bump c.hits;
        bytes_served = add64 c.bytes_served r.size;
      }
      else record c {
        total = bump c.total;
        misses = bump c.misses;
        bytes_fetched = add64 c.bytes_fetched r.size;
        backend_reqs = bump c.backend_reqs;
      } in
    record counted { latency = record_value latency c.latency }

unfoldable pub record_fetch : Int64 → Collector → Collector
record_fetch size c = record c { bytes_fetched = add64 c.bytes_fetched size }

unfoldable pub record_eviction : Int64 → Collector → Collector
record_eviction size c = record c {
  evictions = bump c.evictions;
  evicted_bytes = add64 c.evicted_bytes size;
}

-- RecordSwitch. The overhead is counted in microseconds.
unfoldable pub record_switch : Platform → SwitchEvent → Collector → Collector
record_switch pf e c =
    let added =
      if lt_float (literal 0 1) e.overhead_ms
      then (c.switch_overhead + to_uint64 pf (mul_float e.overhead_ms (literal 1000 1))) % two64
      else c.switch_overhead in
    record c { switches = bump c.switches; switch_overhead = added; policy = e.to }

-- The part of RecordTuning's event that is read: whether the proposal was accepted.
unfoldable pub record_tuning : Bool → Collector → Collector
record_tuning accepted c =
    if accepted
    then record c {
      tuning_attempts = bump c.tuning_attempts;
      tuning_accepted = bump c.tuning_accepted;
    }
    else record c { tuning_attempts = bump c.tuning_attempts }

unfoldable pub observe_cache : CacheState → Collector → Collector
observe_cache s c = record c { state = s }

unfoldable pub set_policy : PolicyName → Collector → Collector
set_policy name c = record c { policy = name }

-- Reset leaves the policy's name and the state of the cache.
unfoldable pub reset_collector : Collector → Collector
reset_collector c = record c {
  total = 0;
  hits = 0;
  misses = 0;
  bytes_served = 0;
  bytes_fetched = 0;
  evictions = 0;
  evicted_bytes = 0;
  backend_reqs = 0;
  switches = 0;
  switch_overhead = 0;
  tuning_attempts = 0;
  tuning_accepted = 0;
  latency = reset_histogram c.latency;
}
