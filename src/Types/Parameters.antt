-- ===== src/Types/Parameters.antt =====
-- types/policy.go: the tunable parameters of a policy. A `*Parameter` is an address in a memory; an
-- address without a cell is the nil pointer.
pub mod Sharing
pub mod Ranges
use adaptive_caching.Base.{
  ℕ, suc, Bool, true, false, ◌||◌, List, [], ◌∷◌, Option, none, some, Key, ℕ_discrete, lookup,
  upsert, Run, done, panic, or_panic, ◌>>=◌, if◌then◌else◌,
}
use adaptive_caching.Floats.{Float64, lt_float}

pub record Parameter : Type 0 where
  pub name : Key
  pub min : Float64
  pub max : Float64
  pub default : Float64
  pub current : Float64
  pub step : Float64
  pub metric : Key

-- The errors of Set, and of SetParam of the policies.
pub data ParamError : Type 0 where
  no_such_parameter : Key → ParamError
  out_of_range : Key → Float64 → Float64 → Float64 → ParamError

-- `next` is the address of the next new parameter.
pub record Memory : Type 0 where
  pub cells : List (ℕ × Parameter)
  pub next : ℕ

abbrev pub cell : Memory → ℕ → Option Parameter
cell mem a = lookup ℕ_discrete a mem.cells

abbrev pub allocate : Parameter → Memory → ℕ × Memory
allocate p mem =
    (mem.next, record { cells = upsert ℕ_discrete mem.next p mem.cells; next = suc mem.next })

abbrev pub ParamSet : Type 0
ParamSet = List (Key × ℕ)

unfoldable pub clamp : Parameter → Float64 → Float64
clamp p v = if lt_float v p.min then p.min else if lt_float p.max v then p.max else v

-- `p.Set(v)`, at the address of the parameter.
unfoldable pub set : ℕ → Float64 → Memory → Run (Memory × Option ParamError)
set a v mem = do
  p ← or_panic (cell mem a)
  (if lt_float v p.min || lt_float p.max v
      then done (mem, some (out_of_range p.name v p.min p.max))
      else done
          (record mem { cells = upsert ℕ_discrete a (record p { current = v }) mem.cells }, none))

unfoldable pub clone : ParamSet → Memory → ParamSet × Memory
clone [] mem = ([], mem)
clone ((k, a) ∷ ps) mem = elim (cell mem a) [
  | none ↦ clone ps mem
  | some p ↦ let (b, mem₁) = allocate p mem in let (qs, mem₂) = clone ps mem₁ in ((k, b) ∷ qs, mem₂)
]

unfoldable pub values : ParamSet → Memory → List (Key × Float64)
values [] mem = []
values ((k, a) ∷ ps) mem = elim (cell mem a) [
  | none ↦ values ps mem
  | some p ↦ (k, p.current) ∷ values ps mem
]
