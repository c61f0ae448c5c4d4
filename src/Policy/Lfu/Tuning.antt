-- ===== src/Policy/Lfu/Tuning.antt =====
-- cache/policy/lfu.go: NewLFU, the parameter decay_lambda, and LFU behind the interface.
use adaptive_caching.Base.{
  true, [], ◌∷◌, Option, none, some, Key, key_dec, ltb, ◌||◌, if◌then◌else◌, done, ◌>>=◌, MapOrder,
}
use adaptive_caching.Floats.{Float64, Platform, literal, lt_float, le_float, div_float, to_uint64}
use adaptive_caching.Types.Parameters.{
  Memory, ParamSet, allocate, ParamError, no_such_parameter, out_of_range,
}
use adaptive_caching.Policy.{EvictionPolicy, lfu}
use adaptive_caching.Policy.Lfu.{
  Lfu, on_access, on_insert, on_remove, victim, candidates, reset, rebuild, metadata_bytes,
}

-- The defaults and bounds of `decay_lambda`.
abbrev pub default_decay : Float64
default_decay = literal 5 100

abbrev pub min_decay : Float64
min_decay = literal 0 1

abbrev pub max_decay : Float64
max_decay = literal 1 1

abbrev decay_step : Float64
decay_step = literal 1 100

-- recomputeAgeMaxLocked
unfoldable pub recompute_age_max : Platform → Lfu → Lfu
recompute_age_max pf p =
    if le_float p.decay (literal 0 1)
    then record p { age_max = 0 }
    else (let k = to_uint64 pf (div_float (literal 1 1) p.decay) in
        record p { age_max = if ltb k 1 then 1 else k })

unfoldable pub new_lfu : Platform → Lfu
unfolding recompute_age_max
new_lfu pf = recompute_age_max pf (record {
  buckets = [];
  items = [];
  n = 0;
  age_cnt = 0;
  age_max = 0;
  decay = default_decay;
  metadata = 0;
  next = 0;
})

unfoldable pub params : Lfu → Memory → ParamSet × Memory
params p mem =
    let (a, mem') =
      allocate
        (record {
          name = "decay_lambda";
          min = min_decay;
          max = max_decay;
          default = default_decay;
          current = p.decay;
          step = decay_step;
          metric = "hit_rate";
        })
        mem in
    (("decay_lambda", a) ∷ [], mem')

unfoldable pub set_param : Platform → Key → Float64 → Lfu → Lfu × Option ParamError
unfolding recompute_age_max
set_param pf name v p = elim (key_dec name "decay_lambda") [
  | no _ ↦ (p, some (no_such_parameter name))
  | yes _ ↦
      if lt_float v min_decay || lt_float max_decay v
      then (p, some (out_of_range name v min_decay max_decay))
      else (recompute_age_max pf (record p { decay = v; age_cnt = 0 }), none)
]

-- LFU behind the interface.
abbrev pub lfu_policy : Platform → MapOrder → EvictionPolicy
lfu_policy pf m = record {
  State = Lfu;
  name = λ _. lfu;
  on_access = λ k _ p. on_access m k p;
  on_insert = on_insert;
  on_remove = λ k _ p. done (on_remove k p);
  victim = λ p. victim p >>= λ k. done (p, k);
  candidates = λ n p. candidates n p >>= λ ks. done (p, ks);
  should_admit = λ _ _ _. true;
  params = params;
  set_param = set_param pf;
  rebuild = λ es p. done (rebuild es p);
  metadata_bytes = metadata_bytes;
  reset = reset;
}
