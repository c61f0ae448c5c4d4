-- ===== src/Command.antt =====
-- cmd/adaptive-cache/main.go: how the command resolves the policy, drives the cache and builds frames.
-- Flags, signals, tickers and output are left out; the random numbers are an argument.
pub mod Loops
pub mod Frames
pub mod Session
use Prim.Native.String.{◌++◌}
use adaptive_caching.Base.{
  ℕ, zero, suc, ◌+◌, ◌*◌, ◌/◌, ◌%◌, Bool, true, false, List, [], ◌∷◌, Option, none, some, Key,
  key_dec, Int64, two63, lt64, ltb, ◌==◌, length, replicate, Run, done, ◌>>=◌, if◌then◌else◌,
}
use adaptive_caching.Floats.{
  Float64, Platform, literal, of_int64, of_uint64, add_float, div_float, lt_float,
}
use adaptive_caching.Types.{Value, Time, sub_time}
use adaptive_caching.Types.Workload.{unknown_workload, workload_text}
use adaptive_caching.Policy.{EvictionPolicy, PolicyName}
use adaptive_caching.Policy.Registry.{Registry, new_policy, names, name_text}
use adaptive_caching.Events.{Channel, receive}
use adaptive_caching.Events.Payloads.{Frame}
use adaptive_caching.Metrics.Memory.{Sizes}
use adaptive_caching.Metrics.Snapshot.{snapshot}
use adaptive_caching.Store.{object_count}
use adaptive_caching.Cache.{Cache, get, put, policy_name}
use adaptive_caching.Cache.Occupancy.{memory, stats}
use adaptive_caching.Config.{Config}

-- The policy of a run: `resolved none` is the run without a policy.
pub data Resolved (P : Type 0) : Type 0 where
  resolved : Option P → Resolved P
  unknown_policy : Key → List Key → Resolved P

-- `flag` is the value of --policy.
unfoldable pub chosen_name : Key → Config → Key
chosen_name flag cfg = elim (key_dec flag "") [ yes _ ↦ cfg.cache.policy | no _ ↦ flag ]

unfoldable pub resolve : {P : Type 0} → Registry P → Key → Config → Resolved P
unfolding chosen_name new_policy names
resolve r flag cfg = elim (key_dec (chosen_name flag cfg) "none") [
  | yes _ ↦ resolved none
  | no _ ↦ elim (new_policy (chosen_name flag cfg) r) [
    | none ↦ unknown_policy (chosen_name flag cfg) (names r)
    | some p ↦ resolved (some p)
  ]
]

-- policyFlagChoices
abbrev join_choices : Key → List Key → Key
join_choices out [] = out
join_choices out (n ∷ ns) = join_choices (out ++ ", " ++ n) ns

unfoldable pub policy_flag_choices : {P : Type 0} → Registry P → Key
unfolding names
policy_flag_choices r = join_choices "none" (names r)

-- `fmt.Sprintf("key-%d", n)`, for a number of at most four digits.
abbrev digit : ℕ → Key
digit n =
    if n == 0
    then "0"
    else if n == 1
    then "1"
    else if n == 2
    then "2"
    else if n == 3
    then "3"
    else if n == 4
    then "4"
    else if n == 5
    then "5"
    else if n == 6
    then "6"
    else if n == 7
    then "7"
    else if n == 8
    then "8"
    else "9"

unfoldable pub decimal : ℕ → ℕ → Key
decimal zero n = digit (n % 10)
decimal (suc fuel) n =
    let rest = decimal fuel (n / 10) in if ltb n 10 then digit n else rest ++ digit (n % 10)

unfoldable pub draw_key : ℕ → Key
unfolding decimal
draw_key n = "key-" ++ decimal 3 (n % 2000)

-- One round of `generate`: the number drawn, and the readings of the clock in Get and Put.
pub record Draw : Type 0 where
  pub number : ℕ
  pub start : Time
  pub end : Time
  pub now : Time

abbrev pub demo_payload : Value
demo_payload = replicate 1024 0

-- `d.Seconds()`, for a duration that is not negative.
unfoldable pub seconds : Int64 → Float64
seconds d =
    add_float (of_uint64 (d / 1000000000))
      (div_float (of_uint64 (d % 1000000000)) (literal 1000000000 1))

unfoldable pub progress_of : Int64 → Int64 → Float64
progress_of elapsed total =
    if lt64 0 total
    then (let x = div_float (of_int64 elapsed) (of_int64 total) in
        if lt_float (literal 1 1) x then literal 1 1 else x)
    else literal 0 1

module _ (p : EvictionPolicy) where
  unfoldable pub generate_round : Draw → Cache p → Run (Cache p)
  unfolding draw_key
  generate_round d c = do
    (c', found) ← get p (draw_key d.number) d.start d.end c
    elim found [
      | some _ ↦ done c'
      | none ↦ do (c'', e) ← put p (draw_key d.number) demo_payload 1024 d.now c'; done c''
    ]

  -- The rounds until the context is done.
  unfoldable pub generate : List Draw → Cache p → Run (Cache p)
  unfolding generate_round
  generate [] c = done c
  generate (d ∷ ds) c = generate_round d c >>= generate ds

  unfoldable pub build_frame : Platform → Sizes → Time → Time → Int64 → Cache p → Cache p × Frame
  unfolding seconds progress_of
  build_frame pf sizes start now total c =
      let c₁ = stats p sizes c in
      let s = snapshot pf c₁.metrics in
      let (c₂, mem) = memory p sizes c₁ in
      let elapsed = sub_time now start in
      (
        c₂,
        record {
          seq = c₂.seq;
          wall_clock = now;
          progress = progress_of elapsed total;
          hit_rate = s.hit_rate;
          byte_hit_rate = s.byte_hit_rate;
          throughput =
              if lt64 0 elapsed
              then div_float (of_uint64 s.total_requests) (seconds elapsed)
              else literal 0 1;
          p50 = s.latency_p50;
          p95 = s.latency_p95;
          p99 = s.latency_p99;
          policy = name_text (policy_name p c₂.policy);
          policy_residency = s.total_requests;
          workload = workload_text unknown_workload;
          confidence = literal 0 1;
          bytes_used = s.bytes_used;
          capacity = c₂.store.capacity;
          object_count = s.object_count;
          metadata_bytes = mem.metadata_bytes;
        },
      )

-- drainEvents, for so many receives.
unfoldable pub drain_events : ℕ → Channel → Channel
unfolding receive
drain_events zero ch = ch
drain_events (suc n) ch = drain_events n (receive ch)
