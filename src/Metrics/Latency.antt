-- ===== src/Metrics/Latency.antt =====
-- metrics/latency.go: the bucketed latency histogram over nanoseconds.
pub mod Buckets
pub mod Quantiles
pub mod Ranks
use adaptive_caching.Base.{
  ℕ, zero, suc, ◌+◌, ◌-◌, ◌*◌, ◌/◌, ◌%◌, ◌^◌, List, [], ◌∷◌, Option, none, some, Int64, two63,
  two64, replicate, ltb, leb, ◌==◌, if◌then◌else◌,
}
use adaptive_caching.Floats.{
  Float64, Platform, literal, of_uint64, add_float, mul_float, div_float, lt_float, to_uint64,
}

-- `subBits`, `subCount` and `numBuckets`.
abbrev pub sub_bits : ℕ
sub_bits = 4

abbrev pub sub_count : ℕ
sub_count = 2 ^ sub_bits

abbrev pub num_buckets : ℕ
num_buckets = (64 - sub_bits + 1) * sub_count

pub record Histogram : Type 0 where
  pub buckets : List ℕ
  pub count : ℕ
  pub sum : ℕ
  pub max : ℕ

unfoldable pub new_histogram : Histogram
new_histogram = record { buckets = replicate num_buckets 0; count = 0; sum = 0; max = 0 }

-- `bits.Len64(v)`: the bits of a number, which the first argument bounds.
unfoldable pub len_bits : ℕ → ℕ → ℕ
len_bits zero v = 0
len_bits (suc f) v = let rest = len_bits f (v / 2) in if v == 0 then 0 else suc rest

-- `uint(exp - subBits)`
unfoldable pub shift_of : ℕ → ℕ
shift_of v = len_bits 64 v - 1 - sub_bits

unfoldable pub bucket_index : ℕ → ℕ
unfolding shift_of
bucket_index v =
    if ltb v sub_count then v else (shift_of v + 1) * sub_count + (v / 2 ^ shift_of v - sub_count)

-- The bucket that bucketMidpoint describes: its lower end and its width.
unfoldable pub bucket_low : ℕ → ℕ
bucket_low i =
    if ltb i sub_count then i else ((sub_count + i % sub_count) * 2 ^ (i / sub_count - 1)) % two64

unfoldable pub bucket_width : ℕ → ℕ
bucket_width i = if ltb i sub_count then 1 else 2 ^ (i / sub_count - 1) % two64

-- `h.buckets[i].Add(1)`
unfoldable pub bump_at : ℕ → List ℕ → List ℕ
bump_at i [] = []
bump_at zero (b ∷ bs) = ((b + 1) % two64) ∷ bs
bump_at (suc i) (b ∷ bs) = b ∷ bump_at i bs

-- Record. A duration is an int64; the loop that raises the maximum ends at the larger of the two.
unfoldable pub record_value : Int64 → Histogram → Histogram
unfolding bucket_index bump_at
record_value d h = if leb two63 d then h else record {
  buckets = bump_at (bucket_index d) h.buckets;
  count = (h.count + 1) % two64;
  sum = (h.sum + d) % two64;
  max = if leb d h.max then h.max else d;
}

-- The scan of QuantileMillis, from bucket `i` on: the first bucket at which more than `target`
-- observations have been seen; `none` leads to the maximum.
unfoldable pub select : ℕ → ℕ → ℕ → List ℕ → Option ℕ
select target i seen [] = none
select target i seen (c ∷ bs) =
    let rest = select target (suc i) ((seen + c) % two64) bs in
    if c == 0 then rest else if ltb target ((seen + c) % two64) then some i else rest

-- bucketMidpoint
unfoldable pub bucket_midpoint : ℕ → Float64
unfolding bucket_low bucket_width
bucket_midpoint i =
    if ltb i sub_count
    then of_uint64 i
    else add_float (of_uint64 (bucket_low i)) (div_float (of_uint64 (bucket_width i)) (literal 2 1))

abbrev pub million : Float64
million = literal 1000000 1

unfoldable pub mean_millis : Histogram → Float64
mean_millis h =
    if h.count == 0
    then literal 0 1
    else div_float (div_float (of_uint64 h.sum) (of_uint64 h.count)) million

unfoldable pub max_millis : Histogram → Float64
max_millis h = div_float (of_uint64 h.max) million

-- The rank that QuantileMillis looks for.
unfoldable pub target_rank : Platform → Float64 → ℕ → ℕ
target_rank pf q total =
    let q₁ = if lt_float q (literal 0 1) then literal 0 1 else q in
    let q₂ = if lt_float (literal 1 1) q₁ then literal 1 1 else q₁ in
    let target = to_uint64 pf (mul_float q₂ (of_uint64 total)) in
    if leb total target then total - 1 else target

unfoldable pub quantile_millis : Platform → Float64 → Histogram → Float64
unfolding target_rank select bucket_midpoint max_millis
quantile_millis pf q h =
    if h.count == 0 then literal 0 1 else elim (select (target_rank pf q h.count) 0 0 h.buckets) [
      | none ↦ max_millis h
      | some i ↦ div_float (bucket_midpoint i) million
    ]

unfoldable pub reset_histogram : Histogram → Histogram
reset_histogram h = record { buckets = replicate num_buckets 0; count = 0; sum = 0; max = 0 }
