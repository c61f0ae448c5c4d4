-- ===== src/Config.antt =====
-- config/config.go, config/validate.go and config/flags.go: the configuration, its defaults and its
-- checks. The decoder of YAML is third-party code and an argument of `parse`. UIConfig and LogConfig
-- have one field each, which stands in Config itself.
pub mod Checks
pub mod Texts
pub mod Decimals
pub mod ByteSize
pub mod Parsing
use adaptive_caching.Base.{
  ℕ, ◌+◌, ◌*◌, ◌^◌, Bool, true, false, ◌||◌, not, List, [], ◌∷◌, ◌++◌, Option, none, some, Key,
  key_dec, ite, Int64, lt64, two63, ◌==◌, if◌then◌else◌,
}
use adaptive_caching.Floats.{
  Float64, Platform, literal, lt_float, le_float, of_int64, div_float, to_int64,
}
use adaptive_caching.Policy.Registry.{Registry, is_known, names}

pub record FeatureFlags : Type 0 where
  pub adaptive : Bool
  pub tuning : Bool
  pub size_aware : Bool
  pub tiers : Bool
  pub shadow : Bool

unfoldable pub default_flags : FeatureFlags
default_flags = record {
  adaptive = false;
  tuning = false;
  size_aware = false;
  tiers = false;
  shadow = false;
}

pub record CacheConfig : Type 0 where
  pub capacity : Int64
  pub policy : Key

pub record EventsConfig : Type 0 where
  pub bus_buffer : Int64
  pub metrics_buffer : Int64
  pub frame_buffer : Int64
  pub request_sample_rate : ℕ

pub record Config : Type 0 where
  pub cache : CacheConfig
  pub events : EventsConfig
  pub frame_rate_hz : Float64
  pub log_level : Key
  pub features : FeatureFlags

unfoldable pub default : Config
unfolding default_flags
default = record {
  cache = record { capacity = 100 * 1000 * 1000; policy = "lru" };
  events = record {
    bus_buffer = 1024;
    metrics_buffer = 8192;
    frame_buffer = 256;
    request_sample_rate = 1000;
  };
  frame_rate_hz = literal 10 1;
  log_level = "info";
  features = default_flags;
}

-- The errors of Validate, with what their texts report.
pub data Problem : Type 0 where
  capacity_not_positive : Int64 → Problem
  policy_empty : Problem
  policy_unknown : Key → List Key → Problem
  bus_buffer_not_positive metrics_buffer_not_positive frame_buffer_not_positive : Int64 → Problem
  sample_rate_zero : Problem
  frame_rate_out_of_range : Float64 → Problem
  log_level_unknown : Key → Problem

abbrev pub valid_log_levels : List Key
valid_log_levels = "debug" ∷ "info" ∷ "warn" ∷ "error" ∷ []

abbrev pub max_frame_rate : Float64
max_frame_rate = literal 240 1

abbrev pub valid_log_level : List Key → Key → Bool
valid_log_level [] level = false
valid_log_level (l ∷ ls) level = ite (key_dec level l) true (valid_log_level ls level)

-- `append(errs, ...)` under a condition.
abbrev pub check : Bool → Problem → List Problem → List Problem
check bad e errs = if bad then errs ++ e ∷ [] else errs

-- `v <= 0`
abbrev pub not_positive : Int64 → Bool
not_positive v = lt64 v 1

module _ {P : Type 0} where
  unfoldable pub check_policy : Registry P → Key → List Problem → List Problem
  unfolding is_known names
  check_policy r name errs = elim (key_dec name "") [
    | yes _ ↦ errs ++ policy_empty ∷ []
    | no _ ↦ elim (key_dec name "none") [
      | yes _ ↦ errs
      | no _ ↦ check (not (is_known name r)) (policy_unknown name (names r)) errs
    ]
  ]

  unfoldable pub validate : Registry P → Config → List Problem
  unfolding check_policy
  validate r c =
      let e₁ = check (not_positive c.cache.capacity) (capacity_not_positive c.cache.capacity) [] in
      let e₂ = check_policy r c.cache.policy e₁ in
      let e₃ =
        check (not_positive c.events.bus_buffer) (bus_buffer_not_positive c.events.bus_buffer) e₂ in
      let e₄ =
        check (not_positive c.events.metrics_buffer)
          (metrics_buffer_not_positive c.events.metrics_buffer) e₃ in
      let e₅ =
        check (not_positive c.events.frame_buffer) (frame_buffer_not_positive c.events.frame_buffer)
          e₄ in
      let e₆ = check (c.events.request_sample_rate == 0) sample_rate_zero e₅ in
      let e₇ =
        check (le_float c.frame_rate_hz (literal 0 1) || lt_float max_frame_rate c.frame_rate_hz)
          (frame_rate_out_of_range c.frame_rate_hz) e₆ in
      check (not (valid_log_level valid_log_levels c.log_level)) (log_level_unknown c.log_level) e₇

-- The errors of Parse.
pub data ParseError : Type 0 where
  malformed : ParseError
  invalid : List Problem → ParseError

pub data Parsed : Type 0 where
  accepted : Config → Parsed
  rejected : ParseError → Parsed

-- `decode` is yaml.Unmarshal over a configuration that holds the defaults; `none` is its error.
unfoldable pub parse : {P D : Type 0} → (D → Config → Option Config) → Registry P → D → Parsed
unfolding validate default
parse decode r data_ = elim (decode data_ default) [
  | none ↦ rejected malformed
  | some c ↦ elim (validate r c) [ [] ↦ accepted c | p ∷ ps ↦ rejected (invalid (p ∷ ps)) ]
]

-- Load, which ends with the error of the file, or with that of Parse. `file` is what os.ReadFile
-- returns.
pub data Loaded : Type 0 where
  loaded : Config → Loaded
  unreadable : Loaded
  not_parsed : ParseError → Loaded

unfoldable pub load : {P D : Type 0} → (D → Config → Option Config) → Registry P → Option D → Loaded
unfolding parse
load decode r none = unreadable
load decode r (some data_) = elim (parse decode r data_) [
  | accepted c ↦ loaded c
  | rejected e ↦ not_parsed e
]

-- FrameInterval, in nanoseconds.
unfoldable pub frame_interval : Platform → Config → Int64
frame_interval pf c =
    if le_float c.frame_rate_hz (literal 0 1)
    then 100 * 1000000
    else to_int64 pf (div_float (of_int64 1000000000) c.frame_rate_hz)
