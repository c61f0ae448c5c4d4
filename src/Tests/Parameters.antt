-- ===== src/Tests/Parameters.antt =====
-- A set of parameters, its clone, and what is shared.
use adaptive_caching.Base.{
  ◌≡◌, refl, [], ◌∷◌, none, some, false, key_dec, ℕ_discrete, lookup, upsert, Returns, arith,
}
use adaptive_caching.Floats.{nan, literal, lt_float, round_ratio, exponent}
use adaptive_caching.Types.Parameters.{Parameter, Memory, ParamSet, cell, clamp, set, clone, values}
use adaptive_caching.Types.Parameters.Sharing.{set-values-clone}

program : Unit {0}
unfolding literal lt_float round_ratio exponent clamp set clone values lookup upsert key_dec
    ℕ_discrete
program = tt

abbrev knob : Parameter
knob = record {
  name = "decay_lambda";
  min = literal 0 1;
  max = literal 1 1;
  default = literal 5 100;
  current = literal 5 100;
  step = literal 1 100;
  metric = "hit_rate";
}

abbrev live : ParamSet
live = ("decay_lambda", 0) ∷ ("absent", 7) ∷ []

abbrev mem : Memory
mem = record { cells = (0, knob) ∷ []; next = 8 }

-- The clone has the parameter that is there, at a new address.
cloned : (clone live mem).0 ≡ ("decay_lambda", 8) ∷ []
unfolding program
cloned = refl

-- A NaN passes Set.
unordered : Returns (set 0 nan mem) (λ r. r.1 ≡ none)
unfolding program
unordered = ((record mem { cells = (0, record knob { current = nan }) ∷ [] }, none), refl, refl)

found : lookup key_dec "decay_lambda" (clone live mem).0 ≡ some 8
unfolding program
found = refl

set-values-clone_example :
    Returns (set 8 (literal 5 10) (clone live mem).1) (λ r. values live r.0 ≡ values live mem)
set-values-clone_example =
    set-values-clone live mem "decay_lambda" 8 (literal 5 10) (omega arith, (omega arith, tt)) found

there : cell mem 0 ≡ some knob
unfolding program
there = refl

ordered : lt_float (literal 1 1) (literal 0 1) ≡ false
unfolding program
ordered = refl
