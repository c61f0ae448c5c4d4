-- ===== src/Base/Assoc.antt =====
-- Go maps as association lists. The order of the list stands for no order of the map.
use Prim.Native.Nat.{ℕ, suc, ◌+◌, ◌≤◌}
use mathlib.Core.Path.{◌≡◌, refl, ap, subst₂}
use mathlib.Core.Logic.{ite, if_pos, if_neg}
use mathlib.Core.List.{List, [], ◌∷◌}
use mathlib.Core.Option.{Option, none, some}
use native.Mathlib.Omega.{arith}
use adaptive_caching.Base.Lists.{length}

module _ {ℓ} {K V : Type ℓ} (dec : Discrete K) where
  -- `v, ok := m[k]`
  unfoldable pub lookup : K → List (K × V) → Option V
  lookup k [] = none
  lookup k ((j, v) ∷ m) = ite (dec j k) (some v) (lookup k m)

  -- `m[k] = v`
  unfoldable pub upsert : K → V → List (K × V) → List (K × V)
  upsert k v [] = (k, v) ∷ []
  upsert k v ((j, w) ∷ m) = ite (dec j k) ((k, v) ∷ m) ((j, w) ∷ upsert k v m)

  -- `delete(m, k)`
  unfoldable pub delete : K → List (K × V) → List (K × V)
  delete k [] = []
  delete k ((j, w) ∷ m) = ite (dec j k) (delete k m) ((j, w) ∷ delete k m)

  -- No key occurs twice.
  abbrev pub Distinct : List (K × V) → Type ℓ
  Distinct [] = Unit
  Distinct ((k, v) ∷ m) = (lookup k m ≡ none) × Distinct m

  pub lookup-upsert :
      (k j : K) (v : V) (m : List (K × V))
      → lookup j (upsert k v m) ≡ ite (dec k j) (some v) (lookup j m)
  unfolding lookup upsert
  lookup-upsert k j v [] = refl
  lookup-upsert k j v ((i, w) ∷ m) = ground (arith, lookup-upsert k j v m)

  pub lookup-delete :
      (k j : K) (m : List (K × V)) → lookup j (delete k m) ≡ ite (dec k j) none (lookup j m)
  unfolding lookup delete
  lookup-delete k j [] = ground arith
  lookup-delete k j ((i, w) ∷ m) = ground (arith, lookup-delete k j m)

  pub delete_absent : (k : K) (m : List (K × V)) → lookup k m ≡ none → delete k m ≡ m
  unfolding lookup delete
  delete_absent k [] h = refl
  delete_absent k ((i, w) ∷ m) h = ground (arith, delete_absent k m)

  pub upsert-Distinct : (k : K) (v : V) (m : List (K × V)) → Distinct m → Distinct (upsert k v m)
  unfolding lookup upsert
  upsert-Distinct k v [] d = (refl, tt)
  upsert-Distinct k v ((i, w) ∷ m) d =
      ground (arith, upsert-Distinct k v m d.1, lookup-upsert k i v m)

  pub delete-Distinct : (k : K) (m : List (K × V)) → Distinct m → Distinct (delete k m)
  unfolding lookup delete
  delete-Distinct k [] d = tt
  delete-Distinct k ((i, w) ∷ m) d = ground (arith, delete-Distinct k m d.1, lookup-delete k i m)

  -- The sum of a weight over the map.
  abbrev pub sum_by : (K → V → ℕ) → List (K × V) → ℕ
  sum_by f [] = 0
  sum_by f ((k, v) ∷ m) = f k v + sum_by f m

  pub sum_by-upsert_new :
      (f : K → V → ℕ) (k : K) (v : V) (m : List (K × V))
      → lookup k m ≡ none
      → sum_by f (upsert k v m) ≡ f k v + sum_by f m
  unfolding lookup upsert
  sum_by-upsert_new f k v [] h = refl
  sum_by-upsert_new f k v ((i, w) ∷ m) h = ground (arith, sum_by-upsert_new f k v m)

  pub sum_by-upsert_old :
      (f : K → V → ℕ) (k : K) (v o : V) (m : List (K × V))
      → lookup k m ≡ some o
      → sum_by f (upsert k v m) + f k o ≡ f k v + sum_by f m
  unfolding lookup upsert
  sum_by-upsert_old f k v o [] h = ground arith
  sum_by-upsert_old f k v o ((i, w) ∷ m) h = elim (dec i k) [
    | yes p ↦ ground (arith, ap (λ x. f x w) p)
    | no p ↦ ground (arith, sum_by-upsert_old f k v o m)
  ]

  pub sum_by-delete :
      (f : K → V → ℕ) (k : K) (o : V) (m : List (K × V))
      → Distinct m
      → lookup k m ≡ some o
      → f k o + sum_by f (delete k m) ≡ sum_by f m
  unfolding lookup delete
  sum_by-delete f k o [] d h = ground arith
  sum_by-delete f k o ((i, w) ∷ m) d h = elim (dec i k) [
    | yes p ↦ ground (arith, ap (λ x. f x w) p, delete_absent k m)
    | no p ↦ ground (arith, sum_by-delete f k o m d.1)
  ]

  pub length-delete :
      (k : K) (o : V) (m : List (K × V))
      → Distinct m
      → lookup k m ≡ some o
      → suc (length (delete k m)) ≡ length m
  unfolding lookup delete
  length-delete k o [] d h = ground arith
  length-delete k o ((i, w) ∷ m) d h = ground (arith, length-delete k o m d.1, delete_absent k m)

  pub length-upsert_old :
      (k : K) (v o : V) (m : List (K × V)) → lookup k m ≡ some o → length (upsert k v m) ≡ length m
  unfolding lookup upsert
  length-upsert_old k v o [] h = ground arith
  length-upsert_old k v o ((i, w) ∷ m) h = ground (arith, length-upsert_old k v o m)

  pub length-upsert_new :
      (k : K) (v : V) (m : List (K × V))
      → lookup k m ≡ none
      → length (upsert k v m) ≡ suc (length m)
  unfolding lookup upsert
  length-upsert_new k v [] h = refl
  length-upsert_new k v ((i, w) ∷ m) h = ground (arith, length-upsert_new k v m)

  pub length-upsert_le : (k : K) (v : V) (m : List (K × V)) → length (upsert k v m) ≤ suc (length m)
  unfolding upsert
  length-upsert_le k v [] = omega arith
  length-upsert_le k v ((i, w) ∷ m) = ground (arith, length-upsert_le k v m)

  pub length-delete_le : (k : K) (m : List (K × V)) → length (delete k m) ≤ length m
  unfolding delete
  length-delete_le k [] = omega arith
  length-delete_le k ((i, w) ∷ m) = ground (arith, length-delete_le k m)

  -- Every binding of the map satisfies `P`.
  abbrev pub AllOf : (K → V → Type 0) → List (K × V) → Type 0
  AllOf P [] = Unit
  AllOf P ((k, v) ∷ m) = P k v × AllOf P m

  pub lookup-AllOf :
      (P : K → V → Type 0) (k : K) (v : V) (m : List (K × V))
      → AllOf P m
      → lookup k m ≡ some v
      → P k v
  unfolding lookup
  lookup-AllOf P k v [] a h = absurd (ground arith)
  lookup-AllOf P k v ((i, w) ∷ m) a h = elim (dec i k) [
    | yes p ↦ subst₂ P p (ground arith) a.0
    | no p ↦ lookup-AllOf P k v m a.1 (ground arith)
  ]

  pub upsert-AllOf :
      (P : K → V → Type 0) (k : K) (v : V) (m : List (K × V))
      → AllOf P m
      → P k v
      → AllOf P (upsert k v m)
  unfolding upsert
  upsert-AllOf P k v [] a h = (h, tt)
  upsert-AllOf P k v ((i, w) ∷ m) a h = elim (dec i k) [
    | yes p ↦ rw (if_pos _ p) (h, a.1)
    | no p ↦ rw (if_neg _ p) (a.0, upsert-AllOf P k v m a.1 h)
  ]

  pub delete-AllOf :
      (P : K → V → Type 0) (k : K) (m : List (K × V)) → AllOf P m → AllOf P (delete k m)
  unfolding delete
  delete-AllOf P k [] a = tt
  delete-AllOf P k ((i, w) ∷ m) a = elim (dec i k) [
    | yes p ↦ rw (if_pos _ p) (delete-AllOf P k m a.1)
    | no p ↦ rw (if_neg _ p) (a.0, delete-AllOf P k m a.1)
  ]

  -- What holds of every binding that can be found holds of all.
  pub AllOf-of_lookup :
      (P : K → V → Type 0) (m : List (K × V))
      → Distinct m
      → ((k : K) (v : V) → lookup k m ≡ some v → P k v)
      → AllOf P m
  unfolding lookup
  AllOf-of_lookup P [] d h = tt
  AllOf-of_lookup P ((i, w) ∷ m) d h =
      (h i w (if_pos (dec i i) refl _ _), AllOf-of_lookup P m d.1 (λ k v e. h k v (found k v e)))
    where
      found : (k : K) (v : V) → lookup k m ≡ some v → lookup k ((i, w) ∷ m) ≡ some v
      found k v e = ground (arith, d.0)
