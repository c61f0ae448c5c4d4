-- ===== src/Base/Outcome.antt =====
-- How a call ends: it returns, it panics, or it never returns (the fuel of a loop runs out).
use mathlib.Core.Path.{◌≡◌, refl, sym, subst, ◌∙◌}
use mathlib.Core.Option.{Option, none, some}
use native.Mathlib.Omega.{arith}

pub data Run {ℓ} (A : Type ℓ) : Type ℓ where
  done : A → Run A
  panic out_of_fuel : Run A

infixl 5 ◌>>=◌
abbrev pub ◌>>=◌ {ℓ κ} : {A : Type ℓ} {B : Type κ} → Run A → (A → Run B) → Run B
done a >>= f = f a
panic >>= f = panic
out_of_fuel >>= f = out_of_fuel

-- A nil dereference, or an index out of range.
abbrev pub or_panic {ℓ} : {A : Type ℓ} → Option A → Run A
or_panic none = panic
or_panic (some a) = done a

-- The call returns, with a value that satisfies `P`.
abbrev pub Returns {ℓ κ} : {A : Type ℓ} → Run A → (A → Type κ) → Type (ℓ ⊔ κ)
Returns {A} r P = (a : A) × (r ≡ done a) × P a

-- If the call returns, then with a value that satisfies `P`.
abbrev pub Yields {ℓ κ} : {A : Type ℓ} → Run A → (A → Type κ) → Type (ℓ ⊔ κ)
Yields r P = (a : _) → r ≡ done a → P a

pub done_eq {ℓ} : {A : Type ℓ} {a b : A} → done a ≡ done b → a ≡ b
done_eq e = cc

pub Yields-done {ℓ κ} : {A : Type ℓ} (P : A → Type κ) (a : A) → P a → Yields (done a) P
Yields-done P a h b e = subst P (done_eq e) h

pub Yields-bind {ℓ κ μ ν} :
    {A : Type ℓ} {B : Type κ} (P : A → Type μ) (Q : B → Type ν) (r : Run A) (f : A → Run B)
    → Yields r P
    → ((a : A) → P a → Yields (f a) Q)
    → Yields (r >>= f) Q
Yields-bind P Q (done a) f h k b e = k a (h a refl) b e
Yields-bind P Q panic f h k b e = absurd (ground arith)
Yields-bind P Q out_of_fuel f h k b e = absurd (ground arith)

pub Returns-Yields {ℓ κ} : {A : Type ℓ} (P : A → Type κ) (r : Run A) → Returns r P → Yields r P
Returns-Yields P r (a, ran, h) b e = subst P (done_eq (sym ran ∙ e)) h

pub Yields-after {ℓ κ ν} :
    {A : Type ℓ} {B : Type κ} (Q : B → Type ν) (r : Run A) (f : A → Run B)
    → ((a : A) → r ≡ done a → Yields (f a) Q)
    → Yields (r >>= f) Q
Yields-after Q (done a) f k b e = k a refl b e
Yields-after Q panic f k b e = absurd (ground arith)
Yields-after Q out_of_fuel f k b e = absurd (ground arith)
