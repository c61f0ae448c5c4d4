-- ===== src/Policy/Registry/Listing.antt =====
-- Names of cache/policy/registry.go.
use adaptive_caching.Base.{
  ◌≡◌, refl, sym, ◌∙◌, ap, inl, inr, Bool, true, false, List, [], ◌∷◌, some, ite, arith, Key,
  key_dec, lookup, upsert, Distinct, lookup-upsert, upsert-Distinct, Returns, is_some, str_lt,
  str_lt_total, Bool-cases,
}
use adaptive_caching.Policy.Registry.{
  Constructor, Registry, insert_name, register, new_policy, names, is_known,
}

-- A name is in a list.
abbrev pub named : Key → List Key → Bool
named k [] = false
named k (j ∷ l) = ite (key_dec j k) true (named k l)

-- Each name comes before the next one.
abbrev pub IsSorted : List Key → Type 0
IsSorted [] = Unit
IsSorted (k ∷ []) = Unit
IsSorted (k ∷ j ∷ l) = (str_lt k j ≡ true) × IsSorted (j ∷ l)

named-insert_name :
    (k j : Key) (l : List Key) → named k (insert_name j l) ≡ ite (key_dec j k) true (named k l)
unfolding insert_name
named-insert_name k j [] = refl
named-insert_name k j (i ∷ l) = ground (arith, named-insert_name k j l)

insert_name-IsSorted :
    (k : Key) (l : List Key) → named k l ≡ false → IsSorted l → IsSorted (insert_name k l)
unfolding insert_name
insert_name-IsSorted k [] out s = tt
insert_name-IsSorted k (j ∷ []) out s = elim (Bool-cases (str_lt j k)) [
  | inl below ↦ rw below (below, tt)
  | inr above ↦ rw above (str_lt_total k j above (λ e. ground (arith, sym e)), tt)
]
insert_name-IsSorted k (j ∷ i ∷ l) out s = elim (Bool-cases (str_lt j k)) [
  | inr above ↦ rw above (str_lt_total k j above (λ e. ground (arith, sym e)), s)
  | inl below ↦ rw below (elim (Bool-cases (str_lt i k)) [
    | inl under ↦
        let rest = insert_name-IsSorted k (i ∷ l) (ground arith) s.1 in
        rw under (s.0, rw under at rest)
    | inr over ↦ rw over (below, (str_lt_total k i over (λ e. ground (arith, sym e)), s.1))
  ])
]

module _ {P : Type 0} where
  named-names : (k : Key) (r : Registry P) → named k (names r) ≡ is_known k r
  unfolding names is_known lookup
  named-names k [] = refl
  named-names k ((j, ctor) ∷ r) = ground (arith, named-insert_name k j (names r), named-names k r)

  -- Names of a registry gives exactly the names that IsKnown accepts, each once, in ascending order.
  pub names-IsSorted :
      (r : Registry P)
      → Distinct key_dec r
      → IsSorted (names r) × ((k : Key) → named k (names r) ≡ is_known k r)
  unfolding names is_known lookup
  names-IsSorted [] d = (tt, λ k. refl)
  names-IsSorted ((j, ctor) ∷ r) d =
      let (s, _) = names-IsSorted r d.1 in
      (
        insert_name-IsSorted j (names r) (named-names j r ∙ ap is_some d.0) s,
        λ k. named-names k ((j, ctor) ∷ r),
      )

  -- Register of a constructor returns, and keeps the names of the map different. New then builds that
  -- policy under the name, and under every other name what it built before; IsKnown accepts the name
  -- and what it accepted before.
  pub register-IsKnown :
      (name : Key) (ctor : Constructor P) (r : Registry P)
      → Distinct key_dec r
      → Returns (register name (some ctor) r) (λ r'.
        Distinct key_dec r'
        × ((k : Key) → new_policy k r' ≡ ite (key_dec name k) (some (ctor tt)) (new_policy k r))
        × ((k : Key) → is_known k r' ≡ ite (key_dec name k) true (is_known k r)))
  unfolding register new_policy is_known
  register-IsKnown name ctor r d = (
    upsert key_dec name ctor r,
    refl,
    (
      upsert-Distinct key_dec name ctor r d,
      λ k. ground (arith, lookup-upsert key_dec name k ctor r),
      λ k. ground (arith, lookup-upsert key_dec name k ctor r),
    ),
  )
