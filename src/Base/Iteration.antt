-- ===== src/Base/Iteration.antt =====
-- Sequences of distinct things, and the order in which a Go map is iterated.
use Prim.Native.Nat.{ℕ}
use mathlib.Core.Path.{◌≡◌, refl}
use mathlib.Core.Logic.{ite}
use mathlib.Core.Bool.{Bool, true, false}
use mathlib.Core.List.{List, [], ◌∷◌}
use native.Mathlib.Decide.{ℕ_discrete}
use native.Mathlib.Omega.{arith}
use adaptive_caching.Base.Tests.{is_some}
use adaptive_caching.Base.Assoc.{lookup, Distinct}

abbrev pub occurs : ℕ → List ℕ → Bool
occurs a [] = false
occurs a (x ∷ xs) = ite (ℕ_discrete x a) true (occurs a xs)

abbrev pub AllDifferent : List ℕ → Type 0
AllDifferent [] = Unit
AllDifferent (x ∷ xs) = (occurs x xs ≡ false) × AllDifferent xs

-- The keys of a map, in the order of its representation.
abbrev pub keys_of {ℓ} : {V : Type ℓ} → List (ℕ × V) → List ℕ
keys_of [] = []
keys_of ((k, v) ∷ m) = k ∷ keys_of m

pub occurs-keys_of :
    {V : Type 0} (k : ℕ) (m : List (ℕ × V)) → occurs k (keys_of m) ≡ is_some (lookup ℕ_discrete k m)
unfolding lookup
occurs-keys_of k [] = refl
occurs-keys_of k ((j, v) ∷ m) = ground (arith, occurs-keys_of k m)

pub keys_of-AllDifferent :
    {V : Type 0} (m : List (ℕ × V)) → Distinct ℕ_discrete m → AllDifferent (keys_of m)
keys_of-AllDifferent [] d = tt
keys_of-AllDifferent ((k, v) ∷ m) d =
    (ground (arith, occurs-keys_of k m), keys_of-AllDifferent m d.1)

-- The order in which the runtime iterates over a map with numbers for keys: it may differ at each
-- time, but each key comes once.
pub record MapOrder : Type 0 where
  pub order : ℕ → List ℕ → List ℕ
  pub different : (time : ℕ) (l : List ℕ) → AllDifferent l → AllDifferent (order time l)
  pub same : (time : ℕ) (l : List ℕ) (k : ℕ) → occurs k (order time l) ≡ occurs k l
