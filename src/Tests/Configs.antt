-- ===== src/Tests/Configs.antt =====
-- The registry of the three policies, the default configuration, and the command at small inputs.
use adaptive_caching.Base.{
  ℕ, ◌^◌, ◌≡◌, ◌⊎◌, ◌↔◌, refl, Bool, true, false, [], ◌∷◌, Option, none, some, key_dec, ℕ_discrete,
  lookup, upsert, Distinct, two63,
}
use adaptive_caching.Floats.{
  Platform, nan, literal, lt_float, le_float, of_int64, div_float, to_int64, round_ratio, exponent,
}
use adaptive_caching.Policy.Registry.{Registry, insert_name, register, new_policy, names, is_known}
use adaptive_caching.Config.{
  Config, default, default_flags, check_policy, validate, parse, accepted, frame_interval,
}
use adaptive_caching.Config.Checks.{IsSane, validate-IsSane}
use adaptive_caching.Config.Parsing.{parse-IsSane}
use adaptive_caching.Command.{resolve, resolved, chosen_name, policy_flag_choices}
use adaptive_caching.Command.Frames.{resolve-IsSane}

program : Unit {0}
unfolding lookup upsert key_dec ℕ_discrete literal lt_float le_float of_int64 div_float to_int64
    round_ratio exponent insert_name register new_policy names is_known default default_flags
    check_policy validate parse frame_interval resolve chosen_name policy_flag_choices
program = tt

-- A number stands for each policy.
abbrev registry : Registry ℕ
registry = ("lru", λ _. 1) ∷ ("lfu", λ _. 2) ∷ ("clock", λ _. 3) ∷ []

listed : names registry ≡ "clock" ∷ "lfu" ∷ "lru" ∷ []
unfolding program
listed = refl

choices : policy_flag_choices registry ≡ "none, clock, lfu, lru"
unfolding program
choices = refl

sane : validate registry default ≡ []
unfolding program
sane = refl

-- A NaN passes for a frame rate, and so does a rate whose interval does not fit into 64 bits.
unordered : validate registry (record default { frame_rate_hz = nan }) ≡ []
unfolding program
unordered = refl

abbrev slow : Config
slow = record default { frame_rate_hz = literal 1 (10 ^ 12) }

too_slow : validate registry slow ≡ []
unfolding program
too_slow = refl

-- What x86-64 gives for a value that does not fit, the least int64.
abbrev least : Platform
least = record { to_uint64 = λ x. two63; to_int64 = λ x. two63 }

negative_interval : frame_interval least slow ≡ two63
unfolding program
negative_interval = refl

tenth_of_second : frame_interval least default ≡ 100000000
unfolding program
tenth_of_second = refl

registry-Distinct : Distinct key_dec registry
unfolding program
registry-Distinct = (refl, (refl, (refl, tt)))

validate-IsSane_example : (validate registry slow ≡ []) ↔ IsSane registry slow
validate-IsSane_example = validate-IsSane registry slow

abbrev reads : Bool → Config → Option Config
reads true c = some c
reads false c = none

parse-IsSane_example :
    (parse reads registry true ≡ accepted default)
    ↔ ((reads true default ≡ some default) × IsSane registry default)
parse-IsSane_example = parse-IsSane reads registry true default

resolve-IsSane_example :
    ((default.cache.policy ≡ "none") × (resolve registry "" default ≡ resolved none))
    ⊎ ((q : ℕ) × (new_policy default.cache.policy registry ≡ some q)
        × (resolve registry "" default ≡ resolved (some q)))
resolve-IsSane_example = resolve-IsSane registry default ((validate-IsSane registry default).0 sane)
