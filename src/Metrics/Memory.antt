-- ===== src/Metrics/Memory.antt =====
-- metrics/memory.go: the memory breakdown. The sizes that `unsafe.Sizeof` gives, and the numbers that
-- the Go runtime reports, are parameters.
use adaptive_caching.Base.{ℕ, ◌*◌, ◌%◌, Int64, add64, lt64, two64, if◌then◌else◌}
use adaptive_caching.Floats.{Float64, literal, of_int64, div_float}

-- RuntimeMemory
pub record RuntimeMemory : Type 0 where
  pub heap_alloc_bytes : ℕ
  pub heap_sys_bytes : ℕ
  pub heap_objects : ℕ
  pub total_allocated : ℕ
  pub sys_bytes : ℕ
  pub num_gc : ℕ

pub record MemoryBreakdown : Type 0 where
  pub object_count : ℕ
  pub payload_bytes : Int64
  pub key_bytes : Int64
  pub entry_bytes : Int64
  pub index_bytes : Int64
  pub policy_bytes : Int64
  pub metadata_bytes : Int64
  pub overhead_ratio : Float64
  pub runtime : RuntimeMemory

-- `entryStructBytes` and `mapEntryOverheadBytes`, and what ReadRuntimeMemory returns.
pub record Sizes : Type 0 where
  pub entry_struct_bytes : Int64
  pub map_entry_overhead_bytes : Int64
  pub runtime : RuntimeMemory

unfoldable pub overhead_ratio : Int64 → Int64 → Float64
overhead_ratio payload metadata =
    let total = add64 payload metadata in
    if lt64 0 total then div_float (of_int64 metadata) (of_int64 total) else literal 0 1

unfoldable pub account_memory : Sizes → ℕ → Int64 → Int64 → Int64 → MemoryBreakdown
unfolding overhead_ratio
account_memory sizes object_count payload_bytes key_bytes policy_bytes =
    let entry_bytes = (object_count * sizes.entry_struct_bytes) % two64 in
    let index_bytes = (object_count * sizes.map_entry_overhead_bytes) % two64 in
    let metadata_bytes = add64 (add64 (add64 key_bytes entry_bytes) index_bytes) policy_bytes in
    record {
      object_count = object_count;
      payload_bytes = payload_bytes;
      key_bytes = key_bytes;
      entry_bytes = entry_bytes;
      index_bytes = index_bytes;
      policy_bytes = policy_bytes;
      metadata_bytes = metadata_bytes;
      overhead_ratio = overhead_ratio payload_bytes metadata_bytes;
      runtime = sizes.runtime;
    }
