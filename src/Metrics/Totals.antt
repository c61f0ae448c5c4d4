-- ===== src/Metrics/Totals.antt =====
-- Histories of calls on the collector of metrics/collector.go.
use adaptive_caching.Base.{
  ℕ, zero, suc, ◌+◌, ◌%◌, ◌<◌, ◌≡◌, refl, sym, ◌∙◌, ap, inl, inr, Bool, true, false, List, [], ◌∷◌,
  arith, Int64, two63, two64, length, replicate, length-replicate, leb, Bool-cases,
}
use adaptive_caching.Types.{Request}
use adaptive_caching.Floats.{Platform}
use adaptive_caching.Events.Payloads.{SwitchEvent}
use adaptive_caching.Policy.{PolicyName}
use adaptive_caching.Metrics.{
  Collector, CacheState, new_collector, record_request, record_fetch, record_eviction,
  record_tuning, record_switch, observe_cache, set_policy, reset_collector,
}
use adaptive_caching.Metrics.Latency.{
  Histogram, num_buckets, bump_at, bucket_index, record_value, new_histogram, reset_histogram,
}
use adaptive_caching.Metrics.Latency.Buckets.{IsBucketOf, bucket_index-IsBucketOf}

-- A method of the collector, with its arguments.
pub data Call : Type 0 where
  request : Request → Bool → Int64 → Call
  fetch : Int64 → Call
  eviction : Int64 → Call
  tuning : Bool → Call
  switching : Platform → SwitchEvent → Call
  observation : CacheState → Call
  policy : PolicyName → Call
  reset : Call

unfoldable pub call : Call → Collector → Collector
call (request r hit latency) c = record_request r hit latency c
call (fetch size) c = record_fetch size c
call (eviction size) c = record_eviction size c
call (tuning accepted) c = record_tuning accepted c
call (switching pf e) c = record_switch pf e c
call (observation s) c = observe_cache s c
call (policy name) c = set_policy name c
call reset c = reset_collector c

unfoldable pub calls : List Call → Collector → Collector
unfolding call
calls [] c = c
calls (k ∷ ks) c = calls ks (call k c)

-- The observations that are in some bucket.
abbrev pub in_buckets : List ℕ → ℕ
in_buckets [] = 0
in_buckets (b ∷ bs) = b + in_buckets bs

-- The histogram has all its buckets, and they hold as many observations as are counted.
pub record IsCounted (h : Histogram) : Type 0 where
  pub all : length h.buckets ≡ num_buckets
  pub counted : h.count ≡ in_buckets h.buckets % two64

-- Every request is a hit or a miss, a miss is a request to the backend, and the histogram counts.
pub record IsBalanced (c : Collector) : Type 0 where
  pub requests : c.total ≡ (c.hits + c.misses) % two64
  pub backend : c.backend_reqs ≡ c.misses
  pub latencies : IsCounted c.latency

length-bump_at : (i : ℕ) (bs : List ℕ) → length (bump_at i bs) ≡ length bs
unfolding bump_at
length-bump_at i [] = refl
length-bump_at zero (b ∷ bs) = refl
length-bump_at (suc i) (b ∷ bs) = ap suc (length-bump_at i bs)

in_buckets-bump_at :
    (i : ℕ) (bs : List ℕ)
    → i < length bs
    → in_buckets (bump_at i bs) % two64 ≡ (in_buckets bs + 1) % two64
unfolding bump_at
in_buckets-bump_at i [] h = absurd (omega (arith, h))
in_buckets-bump_at zero (b ∷ bs) h = omega arith
in_buckets-bump_at (suc i) (b ∷ bs) h = omega (arith, in_buckets-bump_at i bs (omega (arith, h)))

in_buckets-replicate : (n : ℕ) → in_buckets (replicate n 0) ≡ 0
in_buckets-replicate zero = refl
in_buckets-replicate (suc n) = omega (arith, in_buckets-replicate n)

pub empty-IsCounted :
    (m s : ℕ)
    → IsCounted (record { buckets = replicate num_buckets 0; count = 0; sum = s; max = m })
empty-IsCounted m s = record {
  all = length-replicate {A = ℕ} num_buckets 0;
  counted = ap (λ n. n % two64) (sym (in_buckets-replicate num_buckets));
}

-- Record counts an observation and puts it into a bucket, or ignores a negative one.
pub record_value-IsCounted :
    (d : Int64) (h : Histogram) → IsCounted h → IsCounted (record_value d h)
unfolding record_value
record_value-IsCounted d h v = elim (Bool-cases (leb two63 d)) [
  | inl negative ↦ rw negative v
  | inr natural ↦
      let bucket : IsBucketOf d (bucket_index d) = bucket_index-IsBucketOf d (ground arith) in
      rw natural (record {
        all = length-bump_at (bucket_index d) h.buckets ∙ v.all;
        counted = omega (
          arith,
          v.counted,
          in_buckets-bump_at (bucket_index d) h.buckets (omega (arith, bucket.exists, v.all)),
        );
      })
]

call-IsBalanced : (k : Call) (c : Collector) → IsBalanced c → IsBalanced (call k c)
unfolding call record_request record_fetch record_eviction record_tuning record_switch observe_cache
    set_policy reset_collector reset_histogram
call-IsBalanced (request r true latency) c v = record {
  requests = omega (arith, v.requests);
  backend = v.backend;
  latencies = record_value-IsCounted latency c.latency v.latencies;
}
call-IsBalanced (request r false latency) c v = record {
  requests = omega (arith, v.requests);
  backend = ap (λ n. (n + 1) % two64) v.backend;
  latencies = record_value-IsCounted latency c.latency v.latencies;
}
call-IsBalanced (fetch size) c v = record {
  requests = v.requests;
  backend = v.backend;
  latencies = v.latencies;
}
call-IsBalanced (eviction size) c v = record {
  requests = v.requests;
  backend = v.backend;
  latencies = v.latencies;
}
call-IsBalanced (tuning true) c v = record {
  requests = v.requests;
  backend = v.backend;
  latencies = v.latencies;
}
call-IsBalanced (tuning false) c v = record {
  requests = v.requests;
  backend = v.backend;
  latencies = v.latencies;
}
call-IsBalanced (switching pf e) c v = record {
  requests = v.requests;
  backend = v.backend;
  latencies = v.latencies;
}
call-IsBalanced (observation s) c v = record {
  requests = v.requests;
  backend = v.backend;
  latencies = v.latencies;
}
call-IsBalanced (policy name) c v = record {
  requests = v.requests;
  backend = v.backend;
  latencies = v.latencies;
}
call-IsBalanced reset c v = record {
  requests = refl;
  backend = refl;
  latencies = empty-IsCounted 0 0;
}

pub new_collector-IsBalanced : IsBalanced new_collector
unfolding new_collector new_histogram
new_collector-IsBalanced = record {
  requests = refl;
  backend = refl;
  latencies = empty-IsCounted 0 0;
}

-- After any calls of a balanced collector's methods (Reset included): the requests are the hits and
-- the misses together, a miss is a request to the backend, and the buckets of the histogram hold as
-- many latencies as were counted, all modulo 2 ^ 64; no latency falls outside the buckets.
pub calls-IsBalanced : (ks : List Call) (c : Collector) → IsBalanced c → IsBalanced (calls ks c)
unfolding calls
calls-IsBalanced [] c v = v
calls-IsBalanced (k ∷ ks) c v = calls-IsBalanced ks (call k c) (call-IsBalanced k c v)
