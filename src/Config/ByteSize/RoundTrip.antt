-- ===== src/Config/ByteSize/RoundTrip.antt =====
-- MarshalYAML and UnmarshalYAML of the sizes of config/config.go.
use adaptive_caching.Base.{
  ◌<◌, ◌≡◌, ◌≢◌, refl, ap, ◌∙◌, List, [], ◌∷◌, reverse, none, some, Int64, two64,
}
use adaptive_caching.Floats.{Platform}
use adaptive_caching.Config.Texts.{Text, Locale, to_upper, parse_int, print_int}
use adaptive_caching.Config.Texts.Printing.{
  AllPlain, trim_space-plain, to_upper-plain, cut_suffix-plain, print_int-AllPlain,
  parse_int-print_int, print_int-ne-nil,
}
use adaptive_caching.Config.ByteSize.{
  ByteSize, byte_units, size, parse_units, parse_trimmed, parse_byte_size, unmarshal_yaml,
  marshal_yaml,
}

-- The suffixes end in a `B`.
abbrev EndInB : List (Text × Int64) → Type 0
EndInB [] = Unit
EndInB ((suffix, mult) ∷ us) = (rest : Text) × (reverse suffix ≡ 66 ∷ rest) × EndInB us

module _ (loc : Locale) (pf : Platform) where
  no_suffix :
      (us : List (Text × Int64)) (s : Text) (n : Int64)
      → EndInB us
      → AllPlain s
      → parse_int s ≡ some n
      → parse_units loc pf us s ≡ size n
  unfolding parse_units
  no_suffix [] s n h plain e = rw (e, parse_units) refl
  no_suffix ((suffix, mult) ∷ us) s n (rest, ends, h) plain e =
      rw (cut_suffix-plain suffix rest s ends plain, parse_units) (no_suffix us s n h plain e)

  units_EndInB : EndInB byte_units
  units_EndInB = (
    _,
    refl,
    (_, refl, (_, refl, (_, refl, (_, refl, (_, refl, (_, refl, (_, refl, (_, refl, tt)))))))),
  )

  trimmed :
      (s : Text) → s ≢ [] → parse_trimmed loc pf s ≡ parse_units loc pf byte_units (to_upper loc s)
  unfolding parse_trimmed
  trimmed [] h = absurd (h refl)
  trimmed (c ∷ s) h = refl

  -- The print of a number is read as that number of bytes.
  parse_byte_size-print_int :
      (n : Int64) → n < two64 → parse_byte_size loc pf (print_int n) ≡ size n
  unfolding parse_byte_size
  parse_byte_size-print_int n h =
      ap (parse_trimmed loc pf) (trim_space-plain (print_int n) (print_int-AllPlain n))
      ∙ trimmed (print_int n) (print_int-ne-nil n)
      ∙ ap (parse_units loc pf byte_units) (to_upper-plain loc (print_int n) (print_int-AllPlain n))
      ∙ no_suffix byte_units (print_int n) n units_EndInB (print_int-AllPlain n)
          (parse_int-print_int n h)

  -- What MarshalYAML makes of a size, in decimal digits (with a minus sign if it is negative),
  -- UnmarshalYAML reads back as the same size, without an error, for every int64.
  pub unmarshal_yaml-marshal_yaml :
      (b old : ByteSize)
      → b < two64
      → unmarshal_yaml loc pf (some (print_int (marshal_yaml b))) old ≡ (b, none)
  unfolding unmarshal_yaml
  unmarshal_yaml-marshal_yaml b old h = rw (parse_byte_size-print_int b h, unmarshal_yaml) refl
