-- ===== src/Policy/Lfu/Decay.antt =====
-- SetParam and recomputeAgeMax of cache/policy/lfu.go.
use adaptive_caching.Base.{
  ℕ, ◌≤◌, ◌≡◌, ◌≢◌, ◌⊎◌, refl, sym, subst, [], ap, inl, inr, true, false, ◌||◌, Option, none, some,
  arith, Key, key_dec, Bool-cases, if◌then◌else◌, ltb, is_some,
}
use adaptive_caching.Floats.{Float64, Platform, literal, lt_float, le_float, div_float, to_uint64}
use adaptive_caching.Types.Parameters.{ParamError, no_such_parameter, out_of_range}
use adaptive_caching.Policy.Lfu.{Lfu, reset}
use adaptive_caching.Policy.Lfu.Tuning.{
  recompute_age_max, new_lfu, set_param, default_decay, min_decay, max_decay,
}
use adaptive_caching.Policy.Lfu.Invariant.{IsValid, tuned, tuned-IsValid}
use adaptive_caching.Policy.Lfu.Moves.{freq_of}
use adaptive_caching.Policy.Lfu.Rebuild.{reset-IsValid}

-- The period between two passes: 0, which stands for never, if the decay is at most 0, and else at
-- least 1.
abbrev pub IsPeriod : Float64 → ℕ → Type 0
IsPeriod d m =
    ((le_float d (literal 0 1) ≡ true) × (m ≡ 0)) ⊎ ((le_float d (literal 0 1) ≡ false) × (1 ≤ m))

recompute_lem :
    (pf : Platform) (d : Float64) (c : ℕ) (p : Lfu)
    → (m : ℕ) × (recompute_age_max pf (record p { decay = d; age_cnt = c }) ≡ tuned d c m p)
      × IsPeriod d m
unfolding recompute_age_max
recompute_lem pf d c p = elim (Bool-cases (le_float d (literal 0 1))) [
  | inl off ↦ (0, rw off refl, inl (off, refl))
  | inr on ↦
      let k = to_uint64 pf (div_float (literal 1 1) d) in
      (if ltb k 1 then 1 else k, rw on refl, inr (on, ground arith))
]

-- What SetParam gives: the new state and the error.
abbrev pub IsSetParam : Key → Float64 → Lfu → Lfu × Option ParamError → Type 0
IsSetParam name v p r =
    ((r.1 ≡ some (no_such_parameter name)) × (name ≢ "decay_lambda") × (r.0 ≡ p))
    ⊎ ((r.1 ≡ some (out_of_range name v min_decay max_decay))
        × (name ≡ "decay_lambda")
        × (lt_float v min_decay || lt_float max_decay v ≡ true)
        × (r.0 ≡ p))
    ⊎ ((r.1 ≡ none)
        × (name ≡ "decay_lambda")
        × (lt_float v min_decay || lt_float max_decay v ≡ false)
        × (r.0.decay ≡ v)
        × (r.0.age_cnt ≡ 0)
        × IsPeriod v r.0.age_max
        × ((k : Key) → freq_of r.0 k ≡ freq_of p k))

-- SetParam of a valid LFU keeps it valid. It fails on another name than decay_lambda and on a value
-- below 0 or above 1, and changes nothing then. Else it sets the decay, restarts the counter of
-- accesses, makes the period 0 for a decay of at most 0 and at least 1 for any other (a NaN, too),
-- and leaves every frequency.
pub set_param-IsSetParam :
    (pf : Platform) (name : Key) (v : Float64) (p : Lfu)
    → IsValid p
    → IsValid (set_param pf name v p).0 × IsSetParam name v p (set_param pf name v p)
unfolding set_param
set_param-IsSetParam pf name v p valid =
    elim (key_dec name "decay_lambda") as (λ d. Holds (chosen_by d)) [
      | no n ↦ (valid, inl (refl, n, refl))
      | yes e ↦ elim (Bool-cases (lt_float v min_decay || lt_float max_decay v)) [
        | inl out ↦ rw out (valid, inr (inl (refl, e, refl, refl)))
        | inr within ↦
            let (m, same, period) = recompute_lem pf v 0 p in
            rw within (
              rw same (
                tuned-IsValid v 0 m p valid,
                inr (inr (refl, e, refl, refl, refl, period, λ k. refl)),
              ))
      ]
    ]
  where
    Holds : Lfu × Option ParamError → Type 0
    Holds r = IsValid r.0 × IsSetParam name v p r

    chosen_by : Dec (name ≡ "decay_lambda") → Lfu × Option ParamError
    chosen_by (no _) = (p, some (no_such_parameter name))
    chosen_by (yes _) =
        if lt_float v min_decay || lt_float max_decay v
        then (p, some (out_of_range name v min_decay max_decay))
        else (recompute_age_max pf (record p { decay = v; age_cnt = 0 }), none)

pub set_param-IsValid :
    (pf : Platform) (name : Key) (v : Float64) (p : Lfu)
    → IsValid p
    → IsValid (set_param pf name v p).0
      × ((k : Key) → is_some (freq_of (set_param pf name v p).0 k) ≡ is_some (freq_of p k))
set_param-IsValid pf name v p valid =
    let (valid', outcome) = set_param-IsSetParam pf name v p valid in
    (
      valid',
      λ k. elim outcome [
        | inl (e, n, same) ↦ ap (λ q. is_some (freq_of q k)) same
        | inr (inl (e, n, out, same)) ↦ ap (λ q. is_some (freq_of q k)) same
        | inr (inr (e, n, within, d, c, period, freqs)) ↦ ap is_some (freqs k)
      ],
    )

abbrev bare : Lfu
bare = record {
  buckets = [];
  items = [];
  n = 0;
  age_cnt = 0;
  age_max = 0;
  decay = default_decay;
  metadata = 0;
  next = 0;
}

bare-IsValid : IsValid bare
unfolding reset
bare-IsValid = reset-IsValid bare

-- NewLFU
pub new_lfu-IsValid : (pf : Platform) → IsValid (new_lfu pf)
unfolding new_lfu
new_lfu-IsValid pf =
    let (m, same, period) = recompute_lem pf default_decay 0 bare in
    subst IsValid (sym same) (tuned-IsValid default_decay 0 m bare bare-IsValid)
