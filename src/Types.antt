-- ===== src/Types.antt =====
-- types/entry.go and types/request.go: the records that the components share.
pub mod Parameters
pub mod Workload
use adaptive_caching.Base.{
  ℕ, ◌+◌, ◌-◌, ◌%◌, ◌^◌, List, Key, Int64, two63, two64, leb, ltb, if◌then◌else◌,
}

-- A payload is its bytes.
abbrev pub Value : Type 0
Value = List ℕ

-- A reading of the clock, in nanoseconds.
abbrev pub Time : Type 0
Time = ℕ

-- `t.Sub(u)`, a signed number of nanoseconds that saturates at the ends of int64.
unfoldable pub sub_time : Time → Time → Int64
sub_time t u =
    if leb u t
    then (if ltb (t - u) two63 then t - u else two63 - 1)
    else (if leb (u - t) two63 then two64 - (u - t) else two63)

-- `addr` is the address of the object: a `*Entry` that a policy keeps is this number. No code
-- sets `PolicyMeta`, and it is left out.
pub record Entry : Type 0 where
  pub addr : ℕ
  pub key : Key
  pub value : Value
  pub size : Int64
  pub insertion_time : Time
  pub last_access_time : Time
  pub access_count : ℕ

-- `e.AccessCount++`, on a uint32.
unfoldable pub count_access : ℕ → ℕ
count_access n = (n + 1) % 2 ^ 32

pub data OpType : Type 0 where
  op_get op_put op_delete : OpType

pub record Request : Type 0 where
  pub key : Key
  pub size : Int64
  pub timestamp : Time
  pub request_id : ℕ
  pub op : OpType
