-- ===== src/Config/Texts.antt =====
-- What config/config.go uses of Go's packages strings, strconv and fmt, on texts as lists of code
-- points.
pub mod Printing
use Prim.Native.String
use Prim.Native.Char.{code}
use adaptive_caching.Base.{
  ℕ, zero, suc, ◌+◌, ◌-◌, ◌*◌, ◌/◌, ◌%◌, ◌^◌, Bool, true, false, not, ◌&&◌, ◌||◌, List, [], ◌∷◌,
  ◌++◌, reverse, map, Option, none, some, String, Int64, two63, two64, ltb, leb, ◌==◌,
  if◌then◌else◌, length,
}
use adaptive_caching.Floats.{Float64, nan, inf, fin, round_ratio, round_even, units, one_units}

abbrev pub Text : Type 0
Text = List ℕ

abbrev pub codes : String → Text
codes String.[] = []
codes (String.◌∷◌ c s) = code c ∷ codes s

-- What is left to the platform: the upper case of a character beyond ASCII, and the texts of floats
-- in the formats that config/config.go has no use for, those with a base prefix or underscores.
pub record Locale : Type 0 where
  pub upper : ℕ → ℕ
  pub unusual_float : Text → Option Float64

-- unicode.IsSpace
abbrev pub is_space : ℕ → Bool
is_space c =
    (leb 9 c && leb c 13)
    || (c == 32)
    || (c == 0x85)
    || (c == 0xa0)
    || (c == 0x1680)
    || (leb 0x2000 c && leb c 0x200a)
    || (c == 0x2028)
    || (c == 0x2029)
    || (c == 0x202f)
    || (c == 0x205f)
    || (c == 0x3000)

unfoldable pub trim_left : Text → Text
trim_left [] = []
trim_left (c ∷ s) = if is_space c then trim_left s else c ∷ s

-- strings.TrimSpace
unfoldable pub trim_space : Text → Text
unfolding trim_left
trim_space s = reverse (trim_left (reverse (trim_left s)))

abbrev pub upper_code : Locale → ℕ → ℕ
upper_code loc c = if ltb c 128 then (if leb 97 c && leb c 122 then c - 32 else c) else loc.upper c

-- strings.ToUpper
unfoldable pub to_upper : Locale → Text → Text
to_upper loc s = map (upper_code loc) s

unfoldable pub cut_prefix : Text → Text → Option Text
cut_prefix [] s = some s
cut_prefix (c ∷ t) [] = none
cut_prefix (c ∷ t) (d ∷ s) = if c == d then cut_prefix t s else none

-- strings.HasSuffix, with what stands before the suffix.
unfoldable pub cut_suffix : Text → Text → Option Text
unfolding cut_prefix
cut_suffix suffix s = elim (cut_prefix (reverse suffix) (reverse s)) [
  | none ↦ none
  | some rest ↦ some (reverse rest)
]

abbrev pub is_digit : ℕ → Bool
is_digit c = leb 48 c && leb c 57

-- The number that the digits spell behind `n`.
unfoldable pub scan : ℕ → Text → Option ℕ
scan n [] = some n
scan n (c ∷ s) = if is_digit c then scan (10 * n + (c - 48)) s else none

unfoldable pub scan_all : Text → Option ℕ
unfolding scan
scan_all [] = none
scan_all (c ∷ s) = scan 0 (c ∷ s)

-- A sign in front, and the rest.
unfoldable pub cut_sign : Text → Bool × Text
cut_sign [] = (false, [])
cut_sign (c ∷ s) = if c == 43 then (false, s) else if c == 45 then (true, s) else (false, c ∷ s)

abbrev pub in_range : Bool → ℕ → Option Int64
in_range false n = if ltb n two63 then some n else none
in_range true n = if leb n two63 then some ((two64 - n) % two64) else none

-- strconv.ParseInt(s, 10, 64)
unfoldable pub parse_int : Text → Option Int64
unfolding scan_all cut_sign
parse_int s =
    let (minus, rest) = cut_sign s in
    elim (scan_all rest) [ none ↦ none | some n ↦ in_range minus n ]

-- The decimal digits of `n` in front of `out`; the fuel bounds their number.
unfoldable pub emit : ℕ → ℕ → Text → Text
emit zero n out = out
emit (suc fuel) n out =
    let out' = (48 + n % 10) ∷ out in if n / 10 == 0 then out' else emit fuel (n / 10) out'

-- `%d` of an int64
unfoldable pub print_int : Int64 → Text
unfolding emit
print_int n = if ltb n two63 then emit 20 n [] else 45 ∷ emit 20 (two64 - n) []

-- `%.2f` of a float: rounded to hundredths, ties to even.
unfoldable pub print_hundredths : Float64 → Text
unfolding emit
print_hundredths nan = codes "NaN"
print_hundredths (inf false) = codes "+Inf"
print_hundredths (inf true) = codes "-Inf"
print_hundredths (fin s m e) =
    let h = round_even (100 * units m e) one_units in
    let whole = emit 20 (h / 100) (46 ∷ (48 + h / 10 % 10) ∷ (48 + h % 10) ∷ []) in
    if s then 45 ∷ whole else whole
