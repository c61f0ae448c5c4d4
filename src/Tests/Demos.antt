-- ===== src/Tests/Demos.antt =====
-- The command's loops on a new cache of 100 bytes with LRU, and a quantile of two latencies.
use adaptive_caching.Base.{◌^◌, ◌<◌, ◌≡◌, refl, true, List, [], ◌∷◌, none, some, arith}
use adaptive_caching.Floats.{
  Platform, literal, lt_float, div_float, of_uint64, add_float, mul_float, to_uint64, round_ratio,
  exponent,
}
use adaptive_caching.Policy.Lru.{Lru, lru_policy, new_lru, reset}
use adaptive_caching.Policy.Lru.Contract.{lru-IsLawful}
use adaptive_caching.Events.{Event, Channel, receive, new_bus}
use adaptive_caching.Events.Invariant as BusInvariant
use adaptive_caching.Metrics.Memory.{Sizes, RuntimeMemory}
use adaptive_caching.Metrics.Latency.{
  Histogram, new_histogram, record_value, bump_at, bucket_index, shift_of, len_bits,
  quantile_millis, target_rank, select, bucket_midpoint, bucket_low, bucket_width, million,
}
use adaptive_caching.Cache.{Cache, Options, new}
use adaptive_caching.Cache.Invariant.{IsValid}
use adaptive_caching.Cache.History.{new-IsValid, IsFresh}
use adaptive_caching.Command.{Draw, draw_key, decimal, drain_events}
use adaptive_caching.Command.Session.{open_session-IsValid}
use adaptive_caching.Config.{default}

program : Unit {0}
unfolding receive drain_events decimal draw_key new_histogram record_value bump_at bucket_index
    shift_of len_bits target_rank select quantile_millis bucket_midpoint bucket_low bucket_width
    literal lt_float div_float of_uint64 add_float mul_float to_uint64 round_ratio exponent
program = tt

key_text : draw_key 1207 ≡ "key-1207"
unfolding program
key_text = refl

abbrev options : Options Lru
options = record {
  capacity = 100;
  policy = some new_lru;
  bus = some new_bus;
  metrics = none;
  request_sample_rate = 1;
}

abbrev start : Cache lru_policy
start = new lru_policy options

start-IsValid : IsValid lru-IsLawful start
unfolding new_lru reset
start-IsValid =
    new-IsValid lru-IsLawful options (omega arith) (lru-IsLawful.reset_law new_lru)
      BusInvariant.new_bus-IsValid

abbrev draws : List Draw
draws =
    record { number = 7; start = 1; end = 2; now = 3 }
    ∷ record { number = 7; start = 4; end = 5; now = 6 }
    ∷ []

abbrev idle : RuntimeMemory
idle = record {
  heap_alloc_bytes = 0;
  heap_sys_bytes = 0;
  heap_objects = 0;
  total_allocated = 0;
  sys_bytes = 0;
  num_gc = 0;
}

abbrev sizes : Sizes
sizes = record { entry_struct_bytes = 120; map_entry_overhead_bytes = 48; runtime = idle }

abbrev plain : Platform
plain = record { to_uint64 = λ x. 0; to_int64 = λ x. 0 }

abbrev sent : Event
sent = record { seq = 1; timestamp = 5; kind = 5 }

abbrev pending : Channel
pending = record { queue = sent ∷ sent ∷ []; size = 4; waiting = 0; received = []; closed = true }

-- Latencies of 5 and of 300 nanoseconds.
two_latencies : Histogram
two_latencies = record_value 300 (record_value 5 new_histogram)

-- The upper one lies in the bucket from 288 to 303.
upper : quantile_millis plain (literal 99 100) two_latencies ≡ div_float (literal 296 1) million
unfolding program two_latencies
upper = refl

small_default : default.cache.capacity < 2 ^ 62
unfolding default
small_default = omega arith

new_IsFresh : IsFresh lru-IsLawful (some new_lru)
unfolding new_lru reset
new_IsFresh = lru-IsLawful.reset_law new_lru

opened : Cache lru_policy
opened = (open_session-IsValid lru-IsLawful default (some new_lru) 5 small_default new_IsFresh).0
