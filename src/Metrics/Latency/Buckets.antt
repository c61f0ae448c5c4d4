-- ===== src/Metrics/Latency/Buckets.antt =====
-- bucketIndex and bucketMidpoint of metrics/latency.go.
use native.Mathlib.Nat.{
  pow-suc, pow-le-pow_right, mod-eq_of_lt, le-div_iff_mul-le, div-lt_iff_lt-mul, div-add-mod',
  mod-lt,
}
use adaptive_caching.Base.{
  ℕ, zero, suc, ◌+◌, ◌-◌, ◌*◌, ◌/◌, ◌%◌, ◌^◌, ◌<◌, ◌≤◌, ◌≡◌, ◌≢◌, refl, ap, ◌⊎◌, inl, inr, false,
  arith, ltb, Bool-cases, ℕ_discrete, ◌∙◌, two64,
}
use adaptive_caching.Metrics.Latency.{
  num_buckets, len_bits, shift_of, bucket_index, bucket_low, bucket_width,
}

len_bits_zero : (f : ℕ) → len_bits f 0 ≡ 0
unfolding len_bits
len_bits_zero zero = refl
len_bits_zero (suc f) = refl

-- `l` bits are enough for a number, and not one fewer.
record HasLength (v l : ℕ) : Type 0 where
  upper : v < 2 ^ l
  lower : v ≢ 0 → 2 ^ l ≤ 2 * v

len_bits_none : (f v : ℕ) → v ≡ 0 → len_bits f v ≡ 0
len_bits_none f v h = ap (len_bits f) h ∙ len_bits_zero f

len_bits_more : (f v : ℕ) → v ≢ 0 → len_bits (suc f) v ≡ suc (len_bits f (v / 2))
unfolding len_bits
len_bits_more f v h = ground arith

doubled : (v l : ℕ) → v ≢ 0 → HasLength (v / 2) l → (v / 2 ≡ 0 → l ≡ 0) → HasLength v (suc l)
doubled v l some_set r none_set = record {
  upper = omega (arith, r.upper, pow-suc 2 l);
  lower = λ _. elim (ℕ_discrete (v / 2) 0) [
    | yes e ↦
        let one : 2 ^ l ≡ 1 = ap (λ n. 2 ^ n) (none_set e) in
        omega (arith, one, some_set, pow-suc 2 l)
    | no e ↦ omega (arith, r.lower e, pow-suc 2 l)
  ];
}

-- bits.Len64 within its fuel.
len_bits-HasLength : (f v : ℕ) → v < 2 ^ f → HasLength v (len_bits f v) × (len_bits f v ≤ f)
len_bits-HasLength zero v h =
    let e : v ≡ 0 = omega (arith, h) in
    rw (len_bits_none 0 v e) (record { upper = h; lower = λ n. absurd (n e) }, omega arith)
len_bits-HasLength (suc f) v h = elim (ℕ_discrete v 0) [
  | yes e ↦
      rw (len_bits_none (suc f) v e)
        (record { upper = omega (arith, e); lower = λ n. absurd (n e) }, omega arith)
  | no e ↦
      let (r, b) = len_bits-HasLength f (v / 2) (omega (arith, h, pow-suc 2 f)) in
      rw (len_bits_more f v e)
        (doubled v (len_bits f (v / 2)) e r (len_bits_none f (v / 2)), omega (arith, b))
]

pow_5 : (s : ℕ) → 2 ^ (5 + s) ≡ 32 * 2 ^ s
pow_5 zero = omega arith
pow_5 (suc s) =
    let next : 5 + suc s ≡ suc (5 + s) = omega arith in
    ap (λ n. 2 ^ n) next ∙ pow-suc 2 (5 + s) ∙ omega (arith, pow_5 s, pow-suc 2 s)

pow_pos : (s : ℕ) → 0 < 2 ^ s
pow_pos zero = omega arith
pow_pos (suc s) = omega (arith, pow_pos s, pow-suc 2 s)

long_enough : (v l : ℕ) → 16 ≤ v → v < 2 ^ l → 5 ≤ l
long_enough v l big h = elim (Bool-cases (ltb l 5)) [
  | inl short ↦
      let bound : 2 ^ l ≤ 2 ^ 4 = pow-le-pow_right {n = 2} (omega arith) {j = 4} (ground arith) in
      absurd (omega (arith, bound, big, h))
  | inr long ↦ ground arith
]

-- A value v from 16 on, of 5 + s bits: q is the number that its upper 5 bits make.
record IsSplit (v s q : ℕ) : Type 0 where
  few : s < 60
  from_16 : 16 ≤ q
  to_32 : q < 32
  low : q * 2 ^ s ≤ v
  high : v < (q + 1) * 2 ^ s
  fine : 16 * 2 ^ s ≤ v

IsSplit-at : (v l s : ℕ) → HasLength v l → l ≤ 64 → l ≡ 5 + s → 16 ≤ v → IsSplit v s (v / 2 ^ s)
IsSplit-at v l s r b size big =
    let whole : 2 ^ l ≡ 32 * 2 ^ s = ap (λ n. 2 ^ n) size ∙ pow_5 s in
    let lower : 2 ^ l ≤ 2 * v = r.lower (omega (arith, big)) in
    let parts : v / 2 ^ s * 2 ^ s + v % 2 ^ s ≡ v = div-add-mod' v (2 ^ s) in
    let rest : v % 2 ^ s < 2 ^ s = mod-lt v (pow_pos s) in
    let next : (v / 2 ^ s + 1) * 2 ^ s ≡ v / 2 ^ s * 2 ^ s + 2 ^ s =
      right_distrib (v / 2 ^ s) (2 ^ s) in
    record {
      few = omega (arith, b, size);
      from_16 = (le-div_iff_mul-le {k = 2 ^ s} (pow_pos s)).1 (omega (arith, whole, lower));
      to_32 = (div-lt_iff_lt-mul {k = 2 ^ s} (pow_pos s)).1 (omega (arith, r.upper, whole));
      low = omega (arith, parts);
      high = omega (arith, parts, rest, next);
      fine = omega (arith, whole, lower);
    }
  where
    right_distrib : (a b : ℕ) → (a + 1) * b ≡ a * b + b
    right_distrib a b = omega arith

split : (v : ℕ) → 16 ≤ v → v < two64 → IsSplit v (shift_of v) (v / 2 ^ shift_of v)
unfolding shift_of
split v big h =
    let (r, b) = len_bits-HasLength 64 v h in
    let long : 5 ≤ len_bits 64 v = long_enough v (len_bits 64 v) big r.upper in
    IsSplit-at v (len_bits 64 v) (shift_of v) r b (omega (arith, long)) big

-- What a bucket promises of its value: it is one of the histogram's, the value lies in it, and its
-- width is 1 or at most a sixteenth of the value.
pub record IsBucketOf (v i : ℕ) : Type 0 where
  pub exists : i < num_buckets
  pub from : bucket_low i ≤ v
  pub below : v < bucket_low i + bucket_width i
  pub narrow : (bucket_width i ≡ 1) ⊎ (16 * bucket_width i ≤ v)

small-IsBucketOf : (v : ℕ) → v < 16 → IsBucketOf v (bucket_index v)
unfolding bucket_index bucket_low bucket_width
small-IsBucketOf v h = record {
  exists = ground arith;
  from = ground arith;
  below = ground arith;
  narrow = inl (ground arith);
}

module _ (v s q i : ℕ) (r : IsSplit v s q) (h : v < two64) (is : i ≡ (s + 1) * 16 + (q - 16)) where
  quotient_of : i / 16 - 1 ≡ s
  quotient_of = omega (arith, is, r.from_16, r.to_32)

  remainder_of : 16 + i % 16 ≡ q
  remainder_of = omega (arith, is, r.from_16, r.to_32)

  low_of : bucket_low i ≡ q * 2 ^ s
  unfolding bucket_low
  low_of =
      let at : ltb i 16 ≡ false = ground (arith, is, r.from_16) in
      rw (at, quotient_of, remainder_of) (mod-eq_of_lt (omega (arith, r.low, h)))

  width_of : bucket_width i ≡ 2 ^ s
  unfolding bucket_width
  width_of =
      let at : ltb i 16 ≡ false = ground (arith, is, r.from_16) in
      rw (at, quotient_of) (mod-eq_of_lt (omega (arith, r.fine, h)))

  split-IsBucketOf : IsBucketOf v i
  split-IsBucketOf = record {
    exists = omega (arith, is, r.few, r.to_32);
    from = rw low_of r.low;
    below = rw (low_of, width_of) (omega (arith, r.high));
    narrow = inr (rw width_of r.fine);
  }

-- Every duration of 64 bits, as nanoseconds, has a bucket: the index is in range, the duration lies
-- in the bucket, and the bucket's width is 1 or at most a sixteenth (6.25%) of the duration.
pub bucket_index-IsBucketOf : (v : ℕ) → v < two64 → IsBucketOf v (bucket_index v)
unfolding bucket_index
bucket_index-IsBucketOf v h = elim (Bool-cases (ltb v 16)) [
  | inl small ↦ small-IsBucketOf v (ground arith)
  | inr big ↦
      split-IsBucketOf v (shift_of v) (v / 2 ^ shift_of v) (bucket_index v)
        (split v (ground arith) h) h (ground arith)
]
