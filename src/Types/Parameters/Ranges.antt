-- ===== src/Types/Parameters/Ranges.antt =====
-- types/policy.go: Clamp and Set.
use adaptive_caching.Base.{
  ℕ, ◌≡◌, refl, ◌∙◌, inl, inr, false, ◌||◌, none, some, if_pos, arith, ℕ_discrete, upsert,
  lookup-upsert, Bool-cases, Returns,
}
use adaptive_caching.Floats.{Float64, lt_float}
use adaptive_caching.Floats.Order.{lt_float_irrefl}
use adaptive_caching.Types.Parameters.{Parameter, Memory, cell, clamp, set}

clamp_within :
    (p : Parameter) (v : Float64)
    → lt_float p.max p.min ≡ false
    → lt_float (clamp p v) p.min || lt_float p.max (clamp p v) ≡ false
unfolding clamp
clamp_within p v order = elim (Bool-cases (lt_float v p.min)) [
  | inl low ↦ rw low (ground (arith, lt_float_irrefl p.min, order))
  | inr above ↦ elim (Bool-cases (lt_float p.max v)) [
    | inl high ↦ rw (above, high) (ground (arith, lt_float_irrefl p.max, order))
    | inr below ↦ rw (above, below) (ground (arith, above, below))
  ]
]

-- Clamp gives a value that Set accepts, for every value, a NaN included, as long as the maximum is not
-- below the minimum: the parameter at the address then has the clamped value, and no error comes.
pub set-clamp :
    (a : ℕ) (p : Parameter) (v : Float64) (mem : Memory)
    → cell mem a ≡ some p
    → lt_float p.max p.min ≡ false
    → Returns
        (set a (clamp p v) mem)
        (λ r. (r.1 ≡ none) × (cell r.0 a ≡ some (record p { current = clamp p v })))
unfolding set
set-clamp a p v mem hit order =
    let within : lt_float (clamp p v) p.min || lt_float p.max (clamp p v) ≡ false =
      clamp_within p v order in
    (
      (
        record mem { cells = upsert ℕ_discrete a (record p { current = clamp p v }) mem.cells },
        none,
      ),
      rw (hit, set, within) refl,
      (
        refl,
        lookup-upsert ℕ_discrete a a (record p { current = clamp p v }) mem.cells
            ∙ if_pos (ℕ_discrete a a) refl _ _,
      ),
    )
