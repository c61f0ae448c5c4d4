-- ===== src/Config/Decimals.antt =====
-- strconv.ParseFloat, as far as config/config.go uses it: on texts in upper case.
use adaptive_caching.Base.{
  ℕ, suc, ◌+◌, ◌-◌, ◌*◌, ◌^◌, Bool, true, false, ◌||◌, [], ◌∷◌, Option, none, some, ltb, ◌==◌,
  if◌then◌else◌,
}
use adaptive_caching.Floats.{Float64, nan, inf, fin, round_ratio, one_units}
use adaptive_caching.Config.Texts.{Text, Locale, codes, is_digit, cut_sign}

abbrev pub is_text : Text → Text → Bool
is_text [] [] = true
is_text [] (d ∷ s) = false
is_text (c ∷ t) [] = false
is_text (c ∷ t) (d ∷ s) = if c == d then is_text t s else false

-- The digits in front: their number, how many stand behind the point, whether there are any, and
-- the rest of the text.
pub record Mantissa : Type 0 where
  pub digits : ℕ
  pub places : ℕ
  pub saw_digits : Bool
  pub rest : Text

unfoldable pub read_mantissa : (n places : ℕ) → (saw_dot saw_digits : Bool) → Text → Mantissa
read_mantissa n k dot saw [] = record { digits = n; places = k; saw_digits = saw; rest = [] }
read_mantissa n k dot saw (c ∷ s) =
    let stop : Mantissa = record { digits = n; places = k; saw_digits = saw; rest = c ∷ s } in
    let point = read_mantissa n k true saw s in
    let digit = read_mantissa (10 * n + (c - 48)) (if dot then suc k else k) dot true s in
    if c == 46 then (if dot then stop else point) else if is_digit c then digit else stop

-- The digits of an exponent, of which no more are read once it is above 10000.
unfoldable pub read_exponent : ℕ → Text → Option ℕ
read_exponent e [] = some e
read_exponent e (c ∷ s) =
    if is_digit c then read_exponent (if ltb e 10000 then 10 * e + (c - 48) else e) s else none

unfoldable pub exponent_digits : Text → Option ℕ
unfolding read_exponent
exponent_digits [] = none
exponent_digits (c ∷ s) = read_exponent 0 (c ∷ s)

-- The exponent behind the digits, with its sign; without an `E` it is 0.
unfoldable pub exponent_of : Text → Option (Bool × ℕ)
unfolding exponent_digits cut_sign
exponent_of [] = some (false, 0)
exponent_of (c ∷ s) =
    let (minus, digits) = cut_sign s in
    if c == 69
    then elim (exponent_digits digits) [ none ↦ none | some e ↦ some (minus, e) ]
    else none

-- A value beyond the range of floats is an error.
abbrev in_floats : Float64 → Option Float64
in_floats nan = none
in_floats (inf s) = none
in_floats (fin s m e) = some (fin s m e)

unfoldable pub scaled : Bool → ℕ → ℕ → Bool × ℕ → Option Float64
unfolding round_ratio
scaled sign digits places (false, e) =
    in_floats (round_ratio sign (digits * 10 ^ e * one_units) (10 ^ places))
scaled sign digits places (true, e) =
    in_floats (round_ratio sign (digits * one_units) (10 ^ (places + e)))

unfoldable pub read_decimal : Bool → Text → Option Float64
unfolding read_mantissa exponent_of scaled
read_decimal sign s =
    let m = read_mantissa 0 0 false false s in
    if m.saw_digits
    then elim (exponent_of m.rest) [ none ↦ none | some e ↦ scaled sign m.digits m.places e ]
    else none

abbrev is_unusual : Text → Bool
is_unusual [] = false
is_unusual (c ∷ s) = (c == 88) || (c == 95) || is_unusual s

unfoldable pub parse_float : Locale → Text → Option Float64
unfolding read_decimal cut_sign
parse_float loc s =
    let (minus, rest) = cut_sign s in
    if is_unusual s
    then loc.unusual_float s
    else if is_text s (codes "NAN")
    then some nan
    else if is_text rest (codes "INF") || is_text rest (codes "INFINITY")
    then some (inf minus)
    else read_decimal minus rest
