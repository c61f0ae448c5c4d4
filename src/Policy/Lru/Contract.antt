-- ===== src/Policy/Lru/Contract.antt =====
-- cache/policy/lru.go and the contract of an eviction policy.
use adaptive_caching.Base.{
  ◌≡◌, refl, inl, inr, Bool, true, false, List, [], ◌∷◌, none, ite, arith, Key, key_dec, lookup,
  lookup-upsert, lookup-delete, ap, Int64, lt64, ◌||◌, AllOf-of_lookup, ℕ_discrete, is_some,
  Option-cases, Bool-cases, ◌==◌, if◌then◌else◌,
}
use adaptive_caching.Types.{Entry}
use adaptive_caching.Policy.Batch.{AllKeys-take, keys_back, keys_back-AllKeys}
use adaptive_caching.Policy.{AllKeys, View, IsLawful, IsChosen, AreDistinct, listed}
use adaptive_caching.Policy.LinkedList.{back, lookup-back, back-none}
use adaptive_caching.Policy.Lru.{
  Lru, key_of, on_access, on_insert, on_remove, add_front, adopt, victim, reset, rebuild,
  lru_policy, metadata_bytes, candidates,
}
use adaptive_caching.Policy.Lru.Invariant.{
  IsValid, reset-IsValid, on_access-IsValid, on_insert-IsValid, on_remove-IsValid,
  add_front-IsValid,
}

abbrev pub tracks : Lru → Key → Bool
tracks p k = is_some (lookup key_dec k p.items)

module _ (key j : Key) (p : Lru) where
  tracks-on_access : tracks (on_access key p) j ≡ tracks p j
  unfolding on_access
  tracks-on_access = elim (Option-cases (lookup key_dec key p.items)) [
    | inl miss ↦ rw (miss, on_access) refl
    | inr (el, hit) ↦ rw (hit, on_access) refl
  ]

  tracks-add_front :
      (e : Entry) → tracks (add_front key e p) j ≡ ite (key_dec key j) true (tracks p j)
  unfolding add_front
  tracks-add_front e = ground (arith, lookup-upsert key_dec key j p.next p.items)

  tracks-on_insert :
      (e : Entry) → tracks (on_insert key e p) j ≡ ite (key_dec key j) true (tracks p j)
  unfolding on_insert
  tracks-on_insert e = elim (Option-cases (lookup key_dec key p.items)) [
    | inl miss ↦ rw (miss, on_insert) (tracks-add_front e)
    | inr (el, hit) ↦ rw (hit, on_insert) (ground arith)
  ]

  tracks-on_remove : tracks (on_remove key p) j ≡ ite (key_dec key j) false (tracks p j)
  unfolding on_remove
  tracks-on_remove = elim (Option-cases (lookup key_dec key p.items)) [
    | inl miss ↦ rw (miss, on_remove) (ground arith)
    | inr (el, hit) ↦ rw (hit, on_remove) (ground (arith, lookup-delete key_dec key j p.items))
  ]

victim-IsChosen : (p : Lru) → IsValid p → IsChosen (tracks p) (victim p)
unfolding victim lookup
victim-IsChosen p v = elim (Option-cases (back p.ll)) [
  | inl e ↦
      rw (e, victim)
        λ j. elim (Option-cases (lookup key_dec j p.items)) [
          | inl miss ↦ rw miss refl
          | inr (i, hit) ↦ absurd (ground (arith, back-none p.ll e, v.forth j i hit))
        ]
  | inr (x, e) ↦
      rw (e, victim)
        (let found = lookup-back x.0 x.1 p.ll v.distinct e in
          ground (arith, v.back (key_of x) x.0 (ground arith)))
]

tracks-reset : (p : Lru) (j : Key) → tracks (reset p) j ≡ false
unfolding reset lookup
tracks-reset p j = refl

-- No entry of the list is tracked yet.
abbrev AreNew : List Entry → Lru → Type 0
AreNew es p = (j : Key) → listed j es ≡ true → tracks p j ≡ false

adopt-IsValid :
    (P : Key → Type 0) (es : List Entry) (p : Lru)
    → IsValid p
    → AreDistinct P es
    → AreNew es p
    → IsValid (adopt es p)
      × ((j : Key) → tracks (adopt es p) j ≡ (if listed j es then true else tracks p j))
unfolding adopt
adopt-IsValid P [] p v d new = (v, λ j. refl)
adopt-IsValid P (e ∷ es) p v d new =
    let miss : lookup key_dec e.key p.items ≡ none = ground (arith, new e.key) in
    let (valid, tracked) =
      adopt-IsValid P es (add_front e.key e p) (add_front-IsValid e.key p v e miss) d.2
        (λ j h. ground (arith, tracks-add_front e.key j p e, new j, d.1)) in
    (valid, λ j. ground (arith, tracked j, tracks-add_front e.key j p e))

rebuild-IsValid :
    (P : Key → Type 0) (es : List Entry) (p : Lru)
    → AreDistinct P es
    → IsValid (rebuild es p) × ((j : Key) → tracks (rebuild es p) j ≡ listed j es)
unfolding rebuild
rebuild-IsValid P es p d =
    let (valid, tracked) =
      adopt-IsValid P es (reset p) (reset-IsValid p) d (λ j h. tracks-reset p j) in
    (valid, λ j. ground (arith, tracked j, tracks-reset p j))

-- Candidates walks from the back, over keys that are tracked.
candidates-tracked :
    (n : Int64) (p : Lru) → IsValid p → AllKeys (λ k. tracks p k ≡ true) (candidates n p)
unfolding candidates
candidates-tracked n p v =
    let all =
      AllOf-of_lookup ℕ_discrete (λ i node. tracks p node.key ≡ true) p.ll v.distinct
        (λ i node at. ap is_some (v.back node.key i (ground arith))) in
    elim (Bool-cases (lt64 n 1 || (p.n == 0))) [
      | inl idle ↦ rw idle tt
      | inr busy ↦ rw busy (
          AllKeys-take (λ k. tracks p k ≡ true) (if lt64 p.n n then p.n else n) (keys_back p.ll)
            (keys_back-AllKeys (λ k. tracks p k ≡ true) p.ll all))
    ]

-- MetadataBytes only fills in a field that is zero.
metadata_bytes-IsValid : (p : Lru) → IsValid p → IsValid (metadata_bytes p).0
unfolding metadata_bytes
metadata_bytes-IsValid p v = elim (Bool-cases (p.metadata == 0)) [
  | inl unset ↦ rw unset (record {
    distinct = v.distinct;
    fresh = v.fresh;
    forth = v.forth;
    back = v.back;
    counted = v.counted;
    accounted = omega (arith, v.counted);
  })
  | inr known ↦ rw known v
]

tracks-metadata_bytes : (p : Lru) (j : Key) → tracks (metadata_bytes p).0 j ≡ tracks p j
unfolding metadata_bytes
tracks-metadata_bytes p j = elim (Bool-cases (p.metadata == 0)) [
  | inl unset ↦ rw unset refl
  | inr known ↦ rw known refl
]

-- LRU can hold every key.
abbrev pub lru_view : View lru_policy
lru_view = record { Inv = IsValid; Admissible = λ _. Unit; tracks = tracks }

-- LRU is a lawful policy: no method panics or loops, it tracks exactly the keys that it was told of,
-- and Victim and Candidates name tracked keys only.
pub lru-IsLawful : IsLawful lru_policy lru_view
lru-IsLawful = record {
  access_law =
      λ k e s v. (on_access k s, refl, (on_access-IsValid k s v, λ j. tracks-on_access k j s));
  insert_law = λ k e s v _.
      (on_insert k e s, refl, (on_insert-IsValid k s v e, λ j. tracks-on_insert k j s e));
  remove_law =
      λ k o s v. (on_remove k s, refl, (on_remove-IsValid k s v, λ j. tracks-on_remove k j s));
  victim_law = λ s v. ((s, victim s), refl, (v, λ j. refl, victim-IsChosen s v));
  candidates_law = λ n s v _. ((s, candidates n s), refl, (v, λ j. refl, candidates-tracked n s v));
  param_law = λ k x s v. (v, λ j. refl);
  rebuild_law = λ es s d. (rebuild es s, refl, rebuild-IsValid (λ _. Unit) es s d);
  metadata_law = λ s v. (metadata_bytes-IsValid s v, λ j. tracks-metadata_bytes s j);
  reset_law = λ s. (reset-IsValid s, λ j. tracks-reset s j);
}
