-- ===== src/Events/Payloads.antt =====
-- events/types.go: the payloads of events, and the frame that the command prints.
use adaptive_caching.Base.{ℕ, Bool, Key, Int64, ◌==◌, if◌then◌else◌}
use adaptive_caching.Types.{Time}
use adaptive_caching.Types.Workload.{WorkloadType, Features}
use adaptive_caching.Floats.{Float64}
use adaptive_caching.Policy.{PolicyName}
use adaptive_caching.Events.{EventType}

-- Type.String
unfoldable pub event_text : EventType → Key
event_text t =
    if t == 0
    then "request"
    else if t == 1
    then "hit"
    else if t == 2
    then "miss"
    else if t == 3
    then "eviction"
    else if t == 4
    then "detection"
    else if t == 5
    then "switch"
    else if t == 6
    then "tuning"
    else if t == 7
    then "tier_promote"
    else if t == 8
    then "tier_demote"
    else if t == 9
    then "scenario_mark"
    else if t == 10
    then "run_start"
    else if t == 11
    then "run_end"
    else "unknown"

-- `from` and `to` are texts in Go; the policies that exist have the names of PolicyName.
pub record SwitchEvent : Type 0 where
  pub from : PolicyName
  pub to : PolicyName
  pub workload : WorkloadType
  pub confidence : Float64
  pub hit_rate_before : Float64
  pub reason : Key
  pub overhead_ms : Float64
  pub entries_kept : Int64

pub record DetectionEvent : Type 0 where
  pub workload : WorkloadType
  pub previous : WorkloadType
  pub confidence : Float64
  pub features : Features
  pub window_start : ℕ
  pub window_end : ℕ

pub record TuningEvent : Type 0 where
  pub policy : PolicyName
  pub parameter : Key
  pub old_value : Float64
  pub new_value : Float64
  pub metric_before : Float64
  pub metric_after : Float64
  pub accepted : Bool

pub record ScenarioMarkEvent : Type 0 where
  pub seq : ℕ
  pub from_workload : WorkloadType
  pub to_workload : WorkloadType
  pub segment_name : Key

-- The features and the shadow rates stay unset in every frame that is built, and are left out.
pub record Frame : Type 0 where
  pub seq : ℕ
  pub wall_clock : Time
  pub progress : Float64
  pub hit_rate : Float64
  pub byte_hit_rate : Float64
  pub throughput : Float64
  pub p50 : Float64
  pub p95 : Float64
  pub p99 : Float64
  pub policy : Key
  pub policy_residency : ℕ
  pub workload : Key
  pub confidence : Float64
  pub bytes_used : Int64
  pub capacity : Int64
  pub object_count : ℕ
  pub metadata_bytes : Int64
