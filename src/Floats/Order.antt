-- ===== src/Floats/Order.antt =====
-- The order of float64.
use adaptive_caching.Base.{ℕ, ◌≡◌, refl, Bool, true, false, arith}
use adaptive_caching.Floats.{Float64, nan, inf, fin, units, less_signed, lt_float}

less_signed_irrefl : (s : Bool) (a : ℕ) → less_signed s a s a ≡ false
less_signed_irrefl true a = ground arith
less_signed_irrefl false a = ground arith

pub lt_float_irrefl : (a : Float64) → lt_float a a ≡ false
unfolding lt_float
lt_float_irrefl nan = refl
lt_float_irrefl (inf true) = refl
lt_float_irrefl (inf false) = refl
lt_float_irrefl (fin s m e) = less_signed_irrefl s (units m e)

less_signed_asymm :
    (s t : Bool) (a b : ℕ) → less_signed s a t b ≡ true → less_signed t b s a ≡ false
less_signed_asymm true true a b h = ground arith
less_signed_asymm true false a b h = refl
less_signed_asymm false true a b h = absurd (ground arith)
less_signed_asymm false false a b h = ground arith

pub lt_float_asymm : (a b : Float64) → lt_float a b ≡ true → lt_float b a ≡ false
unfolding lt_float
lt_float_asymm nan b h = absurd (ground arith)
lt_float_asymm (inf s) nan h = refl
lt_float_asymm (inf true) (inf true) h = refl
lt_float_asymm (inf true) (inf false) h = refl
lt_float_asymm (inf false) (inf t) h = absurd (ground arith)
lt_float_asymm (inf s) (fin t n f) h = rw h refl
lt_float_asymm (fin s m e) nan h = refl
lt_float_asymm (fin s m e) (inf true) h = absurd (ground arith)
lt_float_asymm (fin s m e) (inf false) h = refl
lt_float_asymm (fin s m e) (fin t n f) h = less_signed_asymm s t (units m e) (units n f) h
