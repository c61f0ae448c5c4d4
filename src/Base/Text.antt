-- ===== src/Base/Text.antt =====
-- The order of Go strings. Bytes of UTF-8 come in the order of the code points.
use Prim.Native.Nat.{ℕ, zero, suc, Ordering, compare as compare_ℕ}
use Prim.Native.Nat.compare as compare_ℕ
use Prim.Native.String.{String, [], ◌∷◌, compare, then}
use Prim.Native.String.compare
use Prim.Native.Char.{code}
use mathlib.Core.Path.{◌≡◌, refl, sym, ap, ◌∙◌}
use mathlib.Core.Logic.{◌≢◌}
use mathlib.Core.Bool.{Bool, true, false}
use text.Mathlib.TextEquality.{path_by_compare}
use native.Mathlib.Omega.{arith}

abbrev flip : Ordering → Ordering
flip Ordering.lt = Ordering.gt
flip Ordering.eq = Ordering.eq
flip Ordering.gt = Ordering.lt

compare_ℕ-flip : (m n : ℕ) → compare_ℕ n m ≡ flip (compare_ℕ m n)
compare_ℕ-flip zero zero = refl
compare_ℕ-flip zero (suc n) = compare_ℕ.suc-zero n ∙ sym (ap flip (compare_ℕ.zero-suc n))
compare_ℕ-flip (suc m) zero = compare_ℕ.zero-suc m ∙ sym (ap flip (compare_ℕ.suc-zero m))
compare_ℕ-flip (suc m) (suc n) =
    compare_ℕ.suc-suc n m ∙ compare_ℕ-flip m n ∙ sym (ap flip (compare_ℕ.suc-suc m n))

then-flip : (a b : Ordering) → then (flip a) (flip b) ≡ flip (then a b)
then-flip Ordering.lt b = refl
then-flip Ordering.eq b = refl
then-flip Ordering.gt b = refl

compare-flip : (s t : String) → compare t s ≡ flip (compare s t)
compare-flip [] [] = compare.nil-nil ∙ sym (ap flip compare.nil-nil)
compare-flip [] (d ∷ t) = compare.cons-nil d t ∙ sym (ap flip (compare.nil-cons d t))
compare-flip (c ∷ s) [] = compare.nil-cons c s ∙ sym (ap flip (compare.cons-nil c s))
compare-flip (c ∷ s) (d ∷ t) =
    compare.cons-cons d c t s
    ∙ ap (λ o. then o (compare t s)) (compare_ℕ-flip (code c) (code d))
    ∙ ap (then (flip (compare_ℕ (code c) (code d)))) (compare-flip s t)
    ∙ then-flip (compare_ℕ (code c) (code d)) (compare s t)
    ∙ sym (ap flip (compare.cons-cons c d s t))

-- `s < t`
abbrev pub str_lt : String → String → Bool
str_lt s t = elim (compare s t) [ Ordering.lt ↦ true | _ ↦ false ]

-- Of two different texts, one is less.
pub str_lt_total : (s t : String) → str_lt t s ≡ false → s ≢ t → str_lt s t ≡ true
str_lt_total s t h n = go (compare t s) refl (compare-flip t s)
  where
    lower : Ordering → Bool
    lower o = elim o [ Ordering.lt ↦ true | _ ↦ false ]

    true_is_not : true ≡ false → ⊥
    true_is_not e = absurd (ground arith)

    go : (o : Ordering) → compare t s ≡ o → compare s t ≡ flip (compare t s) → str_lt s t ≡ true
    go Ordering.lt e f = absurd (true_is_not (sym (ap lower e) ∙ h))
    go Ordering.eq e f = absurd (n (sym (path_by_compare t s e)))
    go Ordering.gt e f = ap lower (f ∙ ap flip e)
