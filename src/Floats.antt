-- ===== src/Floats.antt =====
-- What the code uses of Go's float64: IEEE 754 binary64 with rounding to the nearest, ties to even.
pub mod Order
use adaptive_caching.Base.{
  ℕ, zero, suc, ◌+◌, ◌-◌, ◌*◌, ◌/◌, ◌%◌, ◌^◌, Bool, true, false, not, ◌&&◌, ◌||◌, List, [], ◌∷◌,
  Int64, two63, two64, ltb, leb, ◌==◌, if◌then◌else◌,
}

-- `fin s m e` is m * 2 ^ e * 2 ^ -1074, negative if `s` is true: m below 2 ^ 53, e at most 2045.
pub data Float64 : Type 0 where
  nan : Float64
  inf : Bool → Float64
  fin : Bool → ℕ → ℕ → Float64

abbrev pub zero_float : Float64
zero_float = fin false 0 0

-- A finite magnitude, counted in units of 2 ^ -1074, and the unit that 1 is.
abbrev pub units : ℕ → ℕ → ℕ
units m e = m * 2 ^ e

abbrev pub one_units : ℕ
one_units = 2 ^ 1074

abbrev differ : Bool → Bool → Bool
differ true t = not t
differ false t = t

-- `<` on finite numbers, by sign and magnitude; the two zeros are equal.
abbrev pub less_signed : Bool → ℕ → Bool → ℕ → Bool
less_signed false a false b = ltb a b
less_signed true a true b = ltb b a
less_signed false a true b = false
less_signed true a false b = ltb 0 a || ltb 0 b

-- `a < b`, which a NaN makes false.
unfoldable pub lt_float : Float64 → Float64 → Bool
lt_float nan b = false
lt_float (inf s) nan = false
lt_float (inf s) (inf t) = s && not t
lt_float (inf s) (fin t n f) = s
lt_float (fin s m e) nan = false
lt_float (fin s m e) (inf t) = not t
lt_float (fin s m e) (fin t n f) = less_signed s (units m e) t (units n f)

abbrev pub is_nan : Float64 → Bool
is_nan nan = true
is_nan (inf s) = false
is_nan (fin s m e) = false

-- `a <= b`
unfoldable pub le_float : Float64 → Float64 → Bool
unfolding lt_float
le_float a b = if is_nan a || is_nan b then false else not (lt_float b a)

-- The exponent of n / d: the greatest one (or 0) that leaves 53 bits, by bisection over its bits.
unfoldable pub exponent : List ℕ → ℕ → ℕ → ℕ → ℕ
exponent [] e n d = e
exponent (b ∷ bs) e n d =
    exponent bs (if leb (2 ^ 52) (n / (d * 2 ^ (e + b))) then e + b else e) n d

abbrev pub bits11 : List ℕ
bits11 = 1024 ∷ 512 ∷ 256 ∷ 128 ∷ 64 ∷ 32 ∷ 16 ∷ 8 ∷ 4 ∷ 2 ∷ 1 ∷ []

-- n / d rounded to the nearest whole number, ties to the even one.
abbrev pub round_even : ℕ → ℕ → ℕ
round_even n d =
    let q = n / d in
    let r = n % d in if ltb (2 * r) d then q else if ltb d (2 * r) then q + 1 else q + q % 2

abbrev pub pack : Bool → ℕ → ℕ → Float64
pack s m e =
    if m == 2 ^ 53
    then (if leb 2045 e then inf s else fin s (2 ^ 52) (e + 1))
    else if ltb 2045 e
    then inf s
    else fin s m e

-- The float nearest to n / d units.
unfoldable pub round_ratio : Bool → ℕ → ℕ → Float64
unfolding exponent
round_ratio s n d = let e = exponent bits11 0 n d in pack s (round_even n (d * 2 ^ e)) e

-- `float64(n)`
unfoldable pub of_uint64 : ℕ → Float64
unfolding round_ratio
of_uint64 n = round_ratio false (n * one_units) 1

unfoldable pub of_int64 : Int64 → Float64
unfolding round_ratio
of_int64 n =
    if ltb n two63
    then round_ratio false (n * one_units) 1
    else round_ratio true ((two64 - n) * one_units) 1

-- The constant n / d.
unfoldable pub literal : ℕ → ℕ → Float64
unfolding round_ratio
literal n d = round_ratio false (n * one_units) d

-- The exact sum of two signed magnitudes, rounded; an exact zero is positive unless both are negative.
abbrev sum_signed : (Bool → ℕ → Float64) → Bool → ℕ → Bool → ℕ → Float64
sum_signed round s a t b =
    if differ s t
    then (if a == b then round false 0 else if ltb a b then round t (b - a) else round s (a - b))
    else round s (a + b)

unfoldable pub add_float : Float64 → Float64 → Float64
unfolding round_ratio
add_float nan b = nan
add_float (inf s) nan = nan
add_float (inf s) (inf t) = if differ s t then nan else inf s
add_float (inf s) (fin t n f) = inf s
add_float (fin s m e) nan = nan
add_float (fin s m e) (inf t) = inf t
add_float (fin s m e) (fin t n f) =
    sum_signed (λ sign u. round_ratio sign u 1) s (units m e) t (units n f)

unfoldable pub mul_float : Float64 → Float64 → Float64
unfolding round_ratio
mul_float nan b = nan
mul_float (inf s) nan = nan
mul_float (inf s) (inf t) = inf (differ s t)
mul_float (inf s) (fin t n f) = if n == 0 then nan else inf (differ s t)
mul_float (fin s m e) nan = nan
mul_float (fin s m e) (inf t) = if m == 0 then nan else inf (differ s t)
mul_float (fin s m e) (fin t n f) = round_ratio (differ s t) (units m e * units n f) one_units

unfoldable pub div_float : Float64 → Float64 → Float64
unfolding round_ratio
div_float nan b = nan
div_float (inf s) nan = nan
div_float (inf s) (inf t) = nan
div_float (inf s) (fin t n f) = inf (differ s t)
div_float (fin s m e) nan = nan
div_float (fin s m e) (inf t) = fin (differ s t) 0 0
div_float (fin s m e) (fin t n f) =
    if n == 0
    then (if m == 0 then nan else inf (differ s t))
    else round_ratio (differ s t) (units m e * one_units) (units n f)

-- What the platform makes of a conversion to an integer that cannot represent the value.
pub record Platform : Type 0 where
  pub to_uint64 : Float64 → ℕ
  pub to_int64 : Float64 → Int64

-- `uint64(x)`: the whole part, if it fits.
unfoldable pub to_uint64 : Platform → Float64 → ℕ
to_uint64 pf nan = pf.to_uint64 nan % two64
to_uint64 pf (inf s) = pf.to_uint64 (inf s) % two64
to_uint64 pf (fin s m e) =
    let whole = units m e / one_units in
    if (s && ltb 0 whole) || leb two64 whole then pf.to_uint64 (fin s m e) % two64 else whole

-- `int64(x)`
unfoldable pub to_int64 : Platform → Float64 → Int64
to_int64 pf nan = pf.to_int64 nan % two64
to_int64 pf (inf s) = pf.to_int64 (inf s) % two64
to_int64 pf (fin s m e) =
    let whole = units m e / one_units in
    if ltb whole two63
    then (if s then (two64 - whole) % two64 else whole)
    else if s && (whole == two63)
    then two63
    else pf.to_int64 (fin s m e) % two64
