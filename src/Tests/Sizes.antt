-- ===== src/Tests/Sizes.antt =====
-- Sizes in the configuration: the texts of config_test.go, and what String prints.
use adaptive_caching.Base.{◌-◌, ◌^◌, ◌≡◌, refl, none, some, arith}
use adaptive_caching.Floats.{Platform}
use adaptive_caching.Config.Texts.{Locale, codes, print_int}
use adaptive_caching.Config.ByteSize.{
  parse_byte_size, size, failed, empty, invalid, invalid_number, to_string, unmarshal_yaml,
  marshal_yaml,
}
use adaptive_caching.Config.ByteSize.RoundTrip.{unmarshal_yaml-marshal_yaml}

abbrev plain : Locale
plain = record { upper = λ c. c; unusual_float = λ _. none }

abbrev platform : Platform
platform = record { to_uint64 = λ _. 0; to_int64 = λ _. 0 }

sizes :
    (parse_byte_size plain platform (codes "100MB") ≡ size 100000000)
    × (parse_byte_size plain platform (codes "512KiB") ≡ size 524288)
    × (parse_byte_size plain platform (codes " 1.5 gb ") ≡ size 1500000000)
    × (parse_byte_size plain platform (codes "1e3B") ≡ size 1000)
    × (parse_byte_size plain platform (codes "4096") ≡ size 4096)
unfolding parse_byte_size
sizes = (refl, refl, refl, refl, refl)

refused :
    (parse_byte_size plain platform (codes "   ") ≡ failed empty)
    × (parse_byte_size plain platform (codes "12 XB") ≡ failed invalid_number)
    × (parse_byte_size plain platform (codes "1.5") ≡ failed invalid)
    × (parse_byte_size plain platform (codes "9223372036854775808") ≡ failed invalid)
unfolding parse_byte_size
refused = (refl, refl, refl, refl)

-- A size with a suffix goes through a float64: the odd number above 2 ^ 53 is rounded.
through_float :
    (parse_byte_size plain platform (codes "9007199254740993B") ≡ size 9007199254740992)
    × (parse_byte_size plain platform (codes "9007199254740993") ≡ size 9007199254740993)
unfolding parse_byte_size
through_float = (refl, refl)

-- A size beyond int64 that has a suffix is no error: it is what the platform makes of it.
beyond_int64 :
    (parse_byte_size plain platform (codes "99999999TB") ≡ size 0)
    × (parse_byte_size plain platform (codes "infB") ≡ size 0)
    × (parse_byte_size plain platform (codes "nanKB") ≡ size 0)
unfolding parse_byte_size
beyond_int64 = (refl, refl, refl)

-- One byte less than a mebibyte is shown as 1024 kibibytes, which is not exact.
shown :
    (to_string 1536 ≡ codes "1.50KiB")
    × (to_string (2 ^ 20 - 1) ≡ codes "1024.00KiB")
    × (to_string 100000000 ≡ codes "95.37MiB")
    × (to_string (2 ^ 64 - 5) ≡ codes "-5B")
unfolding to_string
shown = (refl, refl, refl, refl)

unmarshal_yaml-marshal_yaml_example :
    unmarshal_yaml plain platform (some (print_int (marshal_yaml 4096))) 7 ≡ (4096, none)
unmarshal_yaml-marshal_yaml_example =
    unmarshal_yaml-marshal_yaml plain platform 4096 7 (omega arith)
