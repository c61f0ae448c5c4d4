-- ===== src/Config/ByteSize.antt =====
-- The sizes of config/config.go: ByteSize, its parser and its printers.
pub mod RoundTrip
use adaptive_caching.Base.{
  ℕ, ◌*◌, ◌^◌, Bool, true, false, not, List, [], ◌∷◌, ◌++◌, Option, none, some, Int64, lt64,
  if◌then◌else◌,
}
use adaptive_caching.Floats.{Float64, Platform, of_int64, mul_float, div_float, to_int64, literal}
use adaptive_caching.Config.Texts.{
  Text, Locale, codes, trim_space, to_upper, cut_suffix, parse_int, print_int, print_hundredths,
}
use adaptive_caching.Config.Decimals.{parse_float}

abbrev pub ByteSize : Type 0
ByteSize = Int64

abbrev pub byte_units : List (Text × Int64)
byte_units =
    (codes "KIB", 2 ^ 10)
    ∷ (codes "MIB", 2 ^ 20)
    ∷ (codes "GIB", 2 ^ 30)
    ∷ (codes "TIB", 2 ^ 40)
    ∷ (codes "KB", 1000)
    ∷ (codes "MB", 1000 * 1000)
    ∷ (codes "GB", 1000 * 1000 * 1000)
    ∷ (codes "TB", 1000 * 1000 * 1000 * 1000)
    ∷ (codes "B", 1)
    ∷ []

-- The errors of ParseByteSize, without their texts.
pub data SizeError : Type 0 where
  empty invalid_number invalid : SizeError

pub data Parsed : Type 0 where
  size : ByteSize → Parsed
  failed : SizeError → Parsed

-- What stands before a suffix.
unfoldable pub parse_number : Locale → Platform → Int64 → Text → Parsed
unfolding trim_space parse_float mul_float of_int64 to_int64
parse_number loc pf mult num = elim (parse_float loc (trim_space num)) [
  | none ↦ failed invalid_number
  | some v ↦ size (to_int64 pf (mul_float v (of_int64 mult)))
]

unfoldable pub parse_units : Locale → Platform → List (Text × Int64) → Text → Parsed
unfolding cut_suffix parse_number parse_int
parse_units loc pf [] upper = elim (parse_int upper) [ none ↦ failed invalid | some v ↦ size v ]
parse_units loc pf ((suffix, mult) ∷ us) upper = elim (cut_suffix suffix upper) [
  | none ↦ parse_units loc pf us upper
  | some num ↦ parse_number loc pf mult num
]

unfoldable pub parse_trimmed : Locale → Platform → Text → Parsed
unfolding parse_units to_upper
parse_trimmed loc pf [] = failed empty
parse_trimmed loc pf (c ∷ s) = parse_units loc pf byte_units (to_upper loc (c ∷ s))

unfoldable pub parse_byte_size : Locale → Platform → Text → Parsed
unfolding trim_space parse_trimmed
parse_byte_size loc pf s = parse_trimmed loc pf (trim_space s)

-- The errors of UnmarshalYAML: the node is no text, or the text no size.
pub data YamlError : Type 0 where
  not_text : YamlError
  bad_size : SizeError → YamlError

-- `raw` is the text that the YAML decoder makes of the node. An error leaves the size as it is.
unfoldable pub unmarshal_yaml :
    Locale → Platform → Option Text → ByteSize → ByteSize × Option YamlError
unfolding parse_byte_size
unmarshal_yaml loc pf none b = (b, some not_text)
unmarshal_yaml loc pf (some raw) b = elim (parse_byte_size loc pf raw) [
  | size v ↦ (v, none)
  | failed e ↦ (b, some (bad_size e))
]

abbrev pub marshal_yaml : ByteSize → Int64
marshal_yaml b = b

abbrev pub bytes : ByteSize → Int64
bytes b = b

-- String: `%.2f` of the quotient in the first unit that is not above the size.
unfoldable pub to_string : ByteSize → Text
unfolding print_hundredths print_int div_float of_int64 literal
to_string n =
    if not (lt64 n (2 ^ 40))
    then print_hundredths (div_float (of_int64 n) (literal (2 ^ 40) 1)) ++ codes "TiB"
    else if not (lt64 n (2 ^ 30))
    then print_hundredths (div_float (of_int64 n) (literal (2 ^ 30) 1)) ++ codes "GiB"
    else if not (lt64 n (2 ^ 20))
    then print_hundredths (div_float (of_int64 n) (literal (2 ^ 20) 1)) ++ codes "MiB"
    else if not (lt64 n (2 ^ 10))
    then print_hundredths (div_float (of_int64 n) (literal (2 ^ 10) 1)) ++ codes "KiB"
    else print_int n ++ codes "B"
