-- ===== src/Metrics/Latency/Ranks.antt =====
-- QuantileMillis of metrics/latency.go: which observation a quantile asks for.
use native.Mathlib.Nat.{div-mul-le_self, lt-mul-div-succ}
use adaptive_caching.Base.{
  ℕ, suc, ◌-◌, ◌*◌, ◌/◌, ◌%◌, ◌<◌, ◌≤◌, ◌≡◌, ◌≢◌, ◌⊎◌, inl, inr, refl, sym, subst, arith, two64,
  ltb, leb, true, false, ◌||◌, Bool-cases, if◌then◌else◌,
}
use adaptive_caching.Floats.{
  Float64, nan, inf, fin, units, one_units, Platform, literal, lt_float, mul_float, of_uint64,
  round_ratio, exponent, to_uint64,
}
use adaptive_caching.Metrics.Latency.{target_rank}

-- A quantile is brought into the range from 0 to 1. (A NaN is in no range, and stays.)
abbrev pub IsClamped : Float64 → Float64 → Type 0
IsClamped q c =
    ((lt_float q (literal 0 1) ≡ true) × (c ≡ literal 0 1))
    ⊎ ((lt_float q (literal 0 1) ≡ false) × (lt_float (literal 1 1) q ≡ true) × (c ≡ literal 1 1))
    ⊎ ((lt_float q (literal 0 1) ≡ false) × (lt_float (literal 1 1) q ≡ false) × (c ≡ q))

-- The whole part `r` of `u` units, of which `one` make 1, or the last of `n` ranks if that is not below `n`. A number of
-- 2 ^ 64 or more is converted as the platform likes.
abbrev pub IsWhole : ℕ → ℕ → ℕ → ℕ → Type 0
IsWhole one n u r =
    ((r * one ≤ u) × (u < suc r * one)) ⊎ ((n * one ≤ u) × (suc r ≡ n)) ⊎ (two64 * one ≤ u)

-- The rank among `n` that a product asks for.
abbrev pub IsAsked : Float64 → ℕ → ℕ → Type 0
IsAsked nan n r = Unit
IsAsked (inf s) n r = Unit
IsAsked (fin false m e) n r = IsWhole one_units n (units m e) r
IsAsked (fin true m e) n r = (r ≡ 0) ⊎ (one_units ≤ units m e)

-- The rank of a quantile among `n` observations, counted from 0: the whole part of the product of
-- the clamped quantile and `n`.
abbrev pub IsRank : Float64 → ℕ → ℕ → Type 0
IsRank q n r = (c : Float64) × IsClamped q c × IsAsked (mul_float c (of_uint64 n)) n r

-- The rank for a product.
abbrev clipped : Platform → Float64 → ℕ → ℕ
clipped pf x n = if leb n (to_uint64 pf x) then n - 1 else to_uint64 pf x

clip-IsWhole :
    (one n u w x : ℕ)
    → n ≢ 0
    → w * one ≤ u
    → u < suc w * one
    → IsWhole one n u
        (if leb n (if leb two64 w then x else w) then n - 1 else (if leb two64 w then x else w))
clip-IsWhole one n u w x some_there low high = elim (Bool-cases (leb two64 w)) [
  | inl beyond ↦ inr (inr (mul_bound two64 w one u (ground (arith, beyond)) low))
  | inr fits ↦ elim (Bool-cases (leb n w)) [
    | inl above ↦
        rw (fits, above)
          (inr (inl (mul_bound n w one u (ground (arith, above)) low, ground (arith, some_there))))
    | inr below ↦ rw (fits, below) (inl (low, high))
  ]
]
  where
    mul_bound : (a b c d : ℕ) → a ≤ b → b * c ≤ d → a * c ≤ d
    mul_bound a b c d h k = grind arith

whole_above : (u one : ℕ) → 0 < one → u < suc (u / one) * one
whole_above u one h = grind (arith, lt-mul-div-succ u h)

-- A negative product below 1 has the whole part 0.
negative_rank :
    (one n u x : ℕ)
    → n ≢ 0
    → 0 < one
    → ((if leb n (if ltb 0 (u / one) || leb two64 (u / one) then x else u / one)
          then n - 1
          else (if ltb 0 (u / one) || leb two64 (u / one) then x else u / one))
        ≡ 0)
      ⊎ (one ≤ u)
negative_rank one n u x some_there h = elim (Bool-cases (ltb 0 (u / one))) [
  | inl large ↦ inr (one_below (u / one) one u (ground (arith, large)) (div-mul-le_self u one))
  | inr small ↦
      let none_there : u / one ≡ 0 = ground (arith, small) in
      inl (rw none_there (ground (arith, some_there)))
]
  where
    one_below : (a b c : ℕ) → 1 ≤ a → a * b ≤ c → b ≤ c
    one_below a b c h k = grind arith

one_units_pos : 0 < one_units
one_units_pos = omega arith

clipped-IsAsked : (pf : Platform) (x : Float64) (n : ℕ) → n ≢ 0 → IsAsked x n (clipped pf x n)
unfolding to_uint64
clipped-IsAsked pf nan n some_there = tt
clipped-IsAsked pf (inf s) n some_there = tt
clipped-IsAsked pf (fin false m e) n some_there =
    clip-IsWhole one_units n (units m e) (units m e / one_units)
      (pf.to_uint64 (fin false m e) % two64) some_there (div-mul-le_self (units m e) one_units)
      (whole_above (units m e) one_units one_units_pos)
clipped-IsAsked pf (fin true m e) n some_there =
    negative_rank one_units n (units m e) (pf.to_uint64 (fin true m e) % two64) some_there
      one_units_pos

ordered : lt_float (literal 1 1) (literal 0 1) ≡ false
unfolding literal lt_float round_ratio exponent
ordered = refl

pub target_rank-IsRank :
    (pf : Platform) (q : Float64) (n : ℕ) → n ≢ 0 → IsRank q n (target_rank pf q n)
unfolding target_rank to_uint64
target_rank-IsRank pf q n some_there = elim (Bool-cases (lt_float q (literal 0 1))) [
  | inl below ↦ clamped (literal 0 1) (inl (below, refl)) (rw (target_rank, below, ordered) refl)
  | inr within ↦ elim (Bool-cases (lt_float (literal 1 1) q)) [
    | inl above ↦
        clamped (literal 1 1) (inr (inl (within, above, refl)))
          (rw (target_rank, within, above) refl)
    | inr inside ↦
        clamped q (inr (inr (within, inside, refl))) (rw (target_rank, within, inside) refl)
  ]
]
  where
    clamped :
        (c : Float64)
        → IsClamped q c
        → target_rank pf q n ≡ clipped pf (mul_float c (of_uint64 n)) n
        → IsRank q n (target_rank pf q n)
    clamped c h e = (
      c,
      h,
      subst (IsAsked (mul_float c (of_uint64 n)) n) (sym e)
          (clipped-IsAsked pf (mul_float c (of_uint64 n)) n some_there),
    )
