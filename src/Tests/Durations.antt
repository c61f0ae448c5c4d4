-- ===== src/Tests/Durations.antt =====
-- A duration of a millisecond, and its bucket.
use adaptive_caching.Base.{◌≡◌, refl, arith}
use adaptive_caching.Metrics.Latency.{len_bits, shift_of, bucket_index, bucket_low, bucket_width}
use adaptive_caching.Metrics.Latency.Buckets.{IsBucketOf, bucket_index-IsBucketOf}

program : Unit {0}
unfolding len_bits shift_of bucket_index bucket_low bucket_width
program = tt

-- The bucket of a million nanoseconds reaches from 983040 on, 32768 wide.
millisecond :
    (bucket_low (bucket_index 1000000) ≡ 983040) × (bucket_width (bucket_index 1000000) ≡ 32768)
unfolding program
millisecond = (refl, refl)

bucket_index-IsBucketOf_example : IsBucketOf 1000000 (bucket_index 1000000)
bucket_index-IsBucketOf_example = bucket_index-IsBucketOf 1000000 (omega arith)
