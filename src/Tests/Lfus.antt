-- ===== src/Tests/Lfus.antt =====
-- LFU after a few calls, with the map of buckets iterated in the order of its representation.
use adaptive_caching.Base.{
  ℕ, ◌*◌, ◌/◌, ◌++◌, ◌^◌, ◌≡◌, ◌≢◌, ◌<◌, ◌≤◌, refl, true, false, List, [], ◌∷◌, Option, none, some,
  ite, arith, Key, key_dec, ℕ_discrete, lookup, upsert, delete, length, Run, done, panic,
  out_of_fuel, Returns, str_eq-false, two63, MapOrder,
}
use adaptive_caching.Floats.{
  Platform, nan, zero_float, lt_float, le_float, literal, div_float, to_uint64, round_ratio,
  exponent,
}
use adaptive_caching.Types.{Entry}
use adaptive_caching.Policy.{IsLawful, AreDistinct}
use adaptive_caching.Policy.LinkedList.{push_front, remove_element, set_entry, back}
use adaptive_caching.Policy.Lfu.{
  Lfu, settle, scan, attach, relocate, increment, shift, drain, age_bucket, age_all, age, tick,
  on_access, add, on_insert, on_remove, lowest_freq, victim, fill, candidates, adopt, reset,
  rebuild,
}
use adaptive_caching.Policy.Lfu.Tuning.{lfu_policy, new_lfu, set_param, recompute_age_max}
use adaptive_caching.Policy.Lfu.Invariant.{IsValid}
use adaptive_caching.Policy.Lfu.Moves.{freq_of}
use adaptive_caching.Policy.Lfu.Rebuild.{rebuild-IsValid}
use adaptive_caching.Policy.Lfu.Passes.{pass_order}
use adaptive_caching.Policy.Lfu.Orders.{IsHalved, age-half, age_twice}
use adaptive_caching.Policy.Lfu.Victim.{IsLeastOrNone, victim-IsLeast}
use adaptive_caching.Policy.Lfu.Batch.{IsBatch, candidates-AllKeys}
use adaptive_caching.Policy.Lfu.Decay.{IsSetParam, set_param-IsSetParam, new_lfu-IsValid}
use adaptive_caching.Policy.Lfu.Contract.{lfu_view, lfu-IsLawful}

program : Unit {0}
unfolding push_front remove_element set_entry back settle scan attach relocate increment shift drain
    age_bucket age_all age tick on_access add on_insert on_remove lowest_freq victim fill candidates
    adopt reset rebuild lookup upsert delete key_dec ℕ_discrete new_lfu set_param recompute_age_max
    lt_float le_float literal div_float to_uint64 round_ratio exponent
program = tt

abbrev entry : Key → ℕ → Entry
entry k count = record {
  addr = 0;
  key = k;
  value = [];
  size = 1;
  insertion_time = 0;
  last_access_time = 0;
  access_count = count;
}

abbrev plain : Platform
plain = record { to_uint64 = λ x. 2 ^ 63; to_int64 = λ x. two63 }

abbrev as_kept : MapOrder
as_kept = record { order = λ time l. l; different = λ time l d. d; same = λ time l k. refl }

abbrev bare : Lfu
bare = record {
  buckets = [];
  items = [];
  n = 0;
  age_cnt = 0;
  age_max = 20;
  decay = zero_float;
  metadata = 0;
  next = 0;
}

-- The frequencies 4 and 2, in descending and in ascending order.
abbrev descending : List Entry
descending = entry "a" 4 ∷ entry "b" 2 ∷ []

abbrev ascending : List Entry
ascending = entry "b" 2 ∷ entry "a" 4 ∷ []

high_first : Lfu
high_first = rebuild descending bare

low_first : Lfu
low_first = rebuild ascending bare

abbrev freq_after : Run (Lfu) → Key → Option ℕ
freq_after (done p) k = freq_of p k
freq_after panic k = none
freq_after out_of_fuel k = none

-- One pass leaves "a" with frequency 1 or 2, as the map happens to be iterated.
order_matters :
    (freq_after (age as_kept high_first) "a" ≡ some 1)
    × (freq_after (age as_kept low_first) "a" ≡ some 2)
    × (freq_after (age as_kept low_first) "b" ≡ some 1)
unfolding program high_first low_first
order_matters = (refl, refl, refl)

abbrev listed_by : Run (List Key) → List Key
listed_by (done ks) = ks
listed_by panic = []
listed_by out_of_fuel = []

-- Candidates repeats the keys of the lowest bucket, and "a" is never reached.
repeated : listed_by (candidates 3 high_first) ≡ "b" ∷ "b" ∷ "b" ∷ []
unfolding program high_first
repeated = refl

other : (a b : Key) → a ≢ b → ite (key_dec a b) true false ≡ false
other a b n = ground arith

descending-AreDistinct : AreDistinct (λ _. Unit) descending
descending-AreDistinct = (tt, other "b" "a" (str_eq-false "b" "a" refl), (tt, refl, tt))

ascending-AreDistinct : AreDistinct (λ _. Unit) ascending
ascending-AreDistinct = (tt, other "a" "b" (str_eq-false "a" "b" refl), (tt, refl, tt))

high_first-IsValid : IsValid high_first
unfolding high_first
high_first-IsValid = (rebuild-IsValid (λ _. Unit) descending bare descending-AreDistinct).0

low_first-IsValid : IsValid low_first
unfolding low_first
low_first-IsValid = (rebuild-IsValid (λ _. Unit) ascending bare ascending-AreDistinct).0

pass_high : pass_order as_kept high_first ≡ [] ++ (4 ∷ [] ++ 4 / 2 ∷ [])
unfolding program high_first
pass_high = refl

pass_low : pass_order as_kept low_first ≡ 2 ∷ 4 ∷ []
unfolding program low_first
pass_low = refl

two_items : length high_first.items ≡ 2
unfolding program high_first
two_items = refl

lfu-IsLawful_example : IsLawful (lfu_policy plain as_kept) (lfu_view plain as_kept)
lfu-IsLawful_example = lfu-IsLawful plain as_kept

victim-IsLeast_example : Returns (victim high_first) (IsLeastOrNone high_first)
victim-IsLeast_example = victim-IsLeast high_first high_first-IsValid

candidates-AllKeys_example : IsBatch 3 high_first
candidates-AllKeys_example =
    candidates-AllKeys high_first 3 high_first-IsValid (λ e. omega (arith, two_items, e))
      (omega (arith, two_items)) (omega arith) (omega arith)

age-half_example :
    Returns
      (age as_kept high_first)
      (λ p'. IsValid p' × ((k : Key) → IsHalved (freq_of high_first k) (freq_of p' k)))
age-half_example = age-half as_kept high_first high_first-IsValid

a_at_4 : freq_of high_first "a" ≡ some 4
unfolding program high_first
a_at_4 = refl

age_twice_example :
    Returns
      (age as_kept high_first)
      (λ p'. (h : ℕ) × (freq_of p' "a" ≡ some h) × (4 * h ≤ 4) × (h < 4 / 2))
age_twice_example =
    age_twice as_kept high_first [] [] [] 4 "a" high_first-IsValid pass_high refl refl (omega arith)
      a_at_4

-- By default a pass comes after 20 accesses.
period : (new_lfu plain).age_max ≡ 20
unfolding program
period = refl

-- SetParam accepts a NaN, and the period is then what the platform makes of it.
not_a_number : (set_param plain "decay_lambda" nan (new_lfu plain)).1 ≡ none
unfolding program
not_a_number = refl

set_param-IsSetParam_example :
    IsValid (set_param plain "decay_lambda" nan (new_lfu plain)).0
    × IsSetParam "decay_lambda" nan
        (new_lfu plain)
        (set_param plain "decay_lambda" nan (new_lfu plain))
set_param-IsSetParam_example =
    set_param-IsSetParam plain "decay_lambda" nan (new_lfu plain) (new_lfu-IsValid plain)
