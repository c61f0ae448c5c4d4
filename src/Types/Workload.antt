-- ===== src/Types/Workload.antt =====
-- types/workload.go: the classes of access patterns, and the features that a detector reports. A
-- WorkloadType is a uint8.
use adaptive_caching.Base.{ℕ, Key, Int64, ◌==◌, if◌then◌else◌}
use adaptive_caching.Types.{Time}
use adaptive_caching.Floats.{Float64}

abbrev pub WorkloadType : Type 0
WorkloadType = ℕ

abbrev pub unknown_workload : WorkloadType
unknown_workload = 0

-- WorkloadType.String
unfoldable pub workload_text : WorkloadType → Key
workload_text w =
    if w == 0
    then "unknown"
    else if w == 1
    then "temporal"
    else if w == 2
    then "spatial"
    else if w == 3
    then "working_set"
    else if w == 4
    then "random"
    else if w == 5
    then "bursty"
    else if w == 6
    then "mixed"
    else "unknown"

pub record Features : Type 0 where
  pub reuse_distance_mean : Float64
  pub reuse_distance_p50 : Float64
  pub reuse_distance_p95 : Float64
  pub repeated_key_ratio : Float64
  pub inter_arrival_mean : Float64
  pub key_distance_mean : Float64
  pub contiguous_ratio : Float64
  pub range_density : Float64
  pub unique_keys : Int64
  pub top_k_concentration : Float64
  pub key_entropy : Float64
  pub zipf_alpha_estimate : Float64
  pub request_rate_mean : Float64
  pub request_rate_std_dev : Float64
  pub burstiness_cv : Float64
  pub spike_ratio : Float64
  pub working_set_estimate : Int64
  pub active_set_stability : Float64
  pub size_mean : Float64
  pub size_median : Float64
  pub size_p95 : Float64
  pub size_variance : Float64
  pub small_ratio : Float64
  pub medium_ratio : Float64
  pub large_ratio : Float64
  pub bytes_requested : Int64

pub record WorkloadPrediction : Type 0 where
  pub kind : WorkloadType
  pub confidence : Float64
  pub features : Features
  pub window_start : ℕ
  pub window_end : ℕ
  pub detected_at : Time
