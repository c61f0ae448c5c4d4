-- ===== src/Metrics/Tallies.antt =====
-- What the counters of metrics/collector.go count.
use adaptive_caching.Base.{ℕ, ◌+◌, ◌%◌, ◌≡◌, Bool, true, false, List, [], ◌∷◌, two64, if◌then◌else◌}
use adaptive_caching.Metrics.{Collector}
use adaptive_caching.Metrics.Totals.{Call, request, fetch, eviction, tuning, switching, reset}

-- What a call adds to a tally.
abbrev pub requests : Call → ℕ
requests (request r hit latency) = 1
requests _ = 0

abbrev pub hit_requests : Call → ℕ
hit_requests (request r true latency) = 1
hit_requests _ = 0

abbrev pub missed_requests : Call → ℕ
missed_requests (request r false latency) = 1
missed_requests _ = 0

abbrev pub served : Call → ℕ
served (request r true latency) = r.size
served _ = 0

abbrev pub fetched : Call → ℕ
fetched (request r false latency) = r.size
fetched (fetch size) = size
fetched _ = 0

abbrev pub evicted : Call → ℕ
evicted (eviction size) = 1
evicted _ = 0

abbrev pub evicted_size : Call → ℕ
evicted_size (eviction size) = size
evicted_size _ = 0

abbrev pub switched : Call → ℕ
switched (switching pf e) = 1
switched _ = 0

abbrev pub attempted : Call → ℕ
attempted (tuning accepted) = 1
attempted _ = 0

abbrev pub adopted : Call → ℕ
adopted (tuning true) = 1
adopted _ = 0

abbrev is_reset : Call → Bool
is_reset reset = true
is_reset _ = false

abbrev after : (Call → ℕ) → ℕ → Call → ℕ
after f n k = if is_reset k then 0 else n + f k

-- The sum over the calls since the last Reset; where there is none, over all of them and `n`.
abbrev pub tally : (Call → ℕ) → ℕ → List Call → ℕ
tally f n [] = n
tally f n (k ∷ ks) = tally f (after f n k) ks

-- The counters are these numbers, modulo 2 ^ 64.
pub record AreTallied (n : (Call → ℕ) → ℕ) (c : Collector) : Type 0 where
  pub total : c.total ≡ n requests % two64
  pub hits : c.hits ≡ n hit_requests % two64
  pub misses : c.misses ≡ n missed_requests % two64
  pub backend_reqs : c.backend_reqs ≡ n missed_requests % two64
  pub bytes_served : c.bytes_served ≡ n served % two64
  pub bytes_fetched : c.bytes_fetched ≡ n fetched % two64
  pub evictions : c.evictions ≡ n evicted % two64
  pub evicted_bytes : c.evicted_bytes ≡ n evicted_size % two64
  pub switches : c.switches ≡ n switched % two64
  pub tuning_attempts : c.tuning_attempts ≡ n attempted % two64
  pub tuning_accepted : c.tuning_accepted ≡ n adopted % two64
