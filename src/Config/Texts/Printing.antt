-- ===== src/Config/Texts/Printing.antt =====
-- Whole numbers printed and read again, with the functions of strconv that config/config.go uses.
use mathlib.Core.List.{cons-ne-nil, reverse-cons, reverse-reverse}
use adaptive_caching.Base.{
  ℕ, zero, suc, ◌+◌, ◌-◌, ◌*◌, ◌/◌, ◌%◌, ◌≤◌, ◌<◌, ◌≡◌, ◌≢◌, refl, ap, sym, subst, ◌∙◌, false, [],
  ◌∷◌, ◌++◌, reverse, none, some, Int64, two63, two64, arith, dec_lt,
}
use adaptive_caching.Config.Texts.{
  Text, Locale, trim_left, trim_space, upper_code, to_upper, cut_prefix, cut_suffix, scan, scan_all,
  cut_sign, parse_int, emit, print_int,
}

-- A digit or a minus sign.
abbrev pub IsPlain : ℕ → Type 0
IsPlain c = (45 ≤ c) × (c ≤ 57)

abbrev pub AllPlain : Text → Type 0
AllPlain [] = Unit
AllPlain (c ∷ s) = IsPlain c × AllPlain s

abbrev IsDigit : ℕ → Type 0
IsDigit c = (48 ≤ c) × (c ≤ 57)

-- A digit in front.
abbrev StartsWell : Text → Type 0
StartsWell [] = ⊥
StartsWell (c ∷ s) = IsDigit c

AllPlain-append : (s t : Text) → AllPlain s → AllPlain t → AllPlain (s ++ t)
AllPlain-append [] t hs ht = ht
AllPlain-append (c ∷ s) t hs ht = (hs.0, AllPlain-append s t hs.1 ht)

AllPlain-reverse : (s : Text) → AllPlain s → AllPlain (reverse s)
AllPlain-reverse [] h = tt
AllPlain-reverse (c ∷ s) h =
    subst AllPlain (sym (reverse-cons c s))
      (AllPlain-append (reverse s) (c ∷ []) (AllPlain-reverse s h.1) (h.0, tt))

trim_left-plain : (s : Text) → AllPlain s → trim_left s ≡ s
unfolding trim_left
trim_left-plain [] h = refl
trim_left-plain (c ∷ s) h = ground arith

pub trim_space-plain : (s : Text) → AllPlain s → trim_space s ≡ s
unfolding trim_space
trim_space-plain s h =
    ap (λ t. reverse (trim_left (reverse t))) (trim_left-plain s h)
    ∙ ap reverse (trim_left-plain (reverse s) (AllPlain-reverse s h))
    ∙ reverse-reverse s

pub to_upper-plain : (loc : Locale) (s : Text) → AllPlain s → to_upper loc s ≡ s
unfolding to_upper
to_upper-plain loc [] h = refl
to_upper-plain loc (c ∷ s) h =
    let same : upper_code loc c ≡ c = ground arith in
    ap (λ d. d ∷ to_upper loc s) same ∙ ap (λ t. c ∷ t) (to_upper-plain loc s h.1)

-- No number ends in a `B`.
pub cut_suffix-plain :
    (suffix rest s : Text) → reverse suffix ≡ 66 ∷ rest → AllPlain s → cut_suffix suffix s ≡ none
unfolding cut_suffix cut_prefix
cut_suffix-plain suffix rest s e h =
    let miss : cut_prefix (reverse suffix) (reverse s) ≡ none =
      ap (λ t. cut_prefix t (reverse s)) e ∙ go (reverse s) (AllPlain-reverse s h) in
    rw (miss, cut_suffix) refl
  where
    go : (t : Text) → AllPlain t → cut_prefix (66 ∷ rest) t ≡ none
    go [] h = refl
    go (c ∷ t) h = ground arith

-- One more than the numbers of so many digits.
abbrev bound : ℕ → ℕ
bound zero = 1
bound (suc k) = 10 * bound k

scan_last : (n : ℕ) (out : Text) → scan (n / 10) ((48 + n % 10) ∷ out) ≡ scan n out
unfolding scan
scan_last n out = ground arith

-- Reading the digits of a number in front of a text.
scan-emit : (fuel n : ℕ) (out : Text) → n < bound fuel → scan 0 (emit fuel n out) ≡ scan n out
unfolding emit
scan-emit zero n out h = ap (λ k. scan k out) (omega (arith, h))
scan-emit (suc fuel) n out h =
    ground
      (arith, scan_last n out, scan-emit fuel (n / 10) ((48 + n % 10) ∷ out) (omega (arith, h)))

StartsWell-emit : (fuel n : ℕ) (out : Text) → StartsWell out → StartsWell (emit fuel n out)
unfolding emit
StartsWell-emit zero n out h = h
StartsWell-emit (suc fuel) n out h =
    ground (arith, StartsWell-emit fuel (n / 10) ((48 + n % 10) ∷ out))

emit-StartsWell : (fuel n : ℕ) (out : Text) → StartsWell (emit (suc fuel) n out)
unfolding emit
emit-StartsWell fuel n out = ground (arith, StartsWell-emit fuel (n / 10) ((48 + n % 10) ∷ out))

emit-AllPlain : (fuel n : ℕ) (out : Text) → AllPlain out → AllPlain (emit fuel n out)
unfolding emit
emit-AllPlain zero n out h = h
emit-AllPlain (suc fuel) n out h = ground (arith, emit-AllPlain fuel (n / 10) ((48 + n % 10) ∷ out))

pub print_int-AllPlain : (n : Int64) → AllPlain (print_int n)
unfolding print_int
print_int-AllPlain n = ground (arith, emit-AllPlain 20 n [] tt, emit-AllPlain 20 (two64 - n) [] tt)

print_positive : (n : Int64) → n < two63 → print_int n ≡ emit 20 n []
unfolding print_int
print_positive n h = ground arith

print_negative : (n : Int64) → ¬ (n < two63) → print_int n ≡ 45 ∷ emit 20 (two64 - n) []
unfolding print_int
print_negative n h = ground arith

-- The number behind a sign or at the beginning.
unsigned : (s : Text) → StartsWell s → (scan_all s ≡ scan 0 s) × (cut_sign s ≡ (false, s))
unfolding scan_all cut_sign
unsigned [] h = absurd h
unsigned (c ∷ s) h = (refl, ground arith)

read_positive :
    (s : Text) (n : ℕ) → StartsWell s → scan 0 s ≡ some n → n < two63 → parse_int s ≡ some n
unfolding parse_int
read_positive s n h e small =
    let (whole, sign) = unsigned s h in rw (sign, parse_int, whole ∙ e) (ground arith)

read_negative :
    (s : Text) (n : ℕ)
    → StartsWell s
    → scan 0 s ≡ some n
    → n ≤ two63
    → parse_int (45 ∷ s) ≡ some ((two64 - n) % two64)
unfolding parse_int cut_sign
read_negative s n h e small = rw ((unsigned s h).0 ∙ e, parse_int) (ground arith)

-- Every int64 is read back from its print.
pub parse_int-print_int : (n : Int64) → n < two64 → parse_int (print_int n) ≡ some n
unfolding scan
parse_int-print_int n h = elim (dec_lt n two63) [
  | yes small ↦
      ap parse_int (print_positive n small)
      ∙ read_positive (emit 20 n []) n (emit-StartsWell 19 n []) (scan-emit 20 n [] (omega arith))
          small
  | no large ↦
      ap parse_int (print_negative n large)
      ∙ read_negative (emit 20 (two64 - n) []) (two64 - n) (emit-StartsWell 19 (two64 - n) [])
          (scan-emit 20 (two64 - n) [] (omega arith)) (omega arith)
      ∙ ap some (omega arith)
]

pub print_int-ne-nil : (n : Int64) → print_int n ≢ []
unfolding print_int
print_int-ne-nil n e = elim (dec_lt n two63) [
  | yes small ↦
      absurd (subst StartsWell (sym (print_positive n small) ∙ e) (emit-StartsWell 19 n []))
  | no large ↦ absurd (cons-ne-nil 45 _ (sym (print_negative n large) ∙ e))
]
