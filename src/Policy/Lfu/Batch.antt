-- ===== src/Policy/Lfu/Batch.antt =====
-- Candidates and MetadataBytes of cache/policy/lfu.go.
use adaptive_caching.Base.{
  ℕ, zero, suc, ◌-◌, ◌*◌, ◌%◌, ◌<◌, ◌≤◌, ◌≡◌, ◌≢◌, refl, sym, ◌∙◌, ap, subst, inl, inr, List, [],
  ◌∷◌, ◌++◌, some, arith, Key, key_dec, ℕ_discrete, Int64, lt64, two63, two64, lookup,
  AllOf-of_lookup, take, length, length-append, done, panic, Returns, ◌>>=◌, ◌==◌, ◌||◌, true,
  false, ◌⊎◌, Bool-cases, ltb, is_some,
}
use adaptive_caching.Policy.{AllKeys, IsMakeable, make_keys, max_keys}
use adaptive_caching.Policy.Batch.{
  AllKeys-append, AllKeys-take, AllKeys-mono, make_keys_run, keys_back, keys_back-cons,
  keys_back-AllKeys,
}
use adaptive_caching.Policy.LinkedList.{Elements}
use adaptive_caching.Policy.Lfu.{Lfu, lowest_freq, fill, candidates, metadata_bytes}
use adaptive_caching.Policy.Lfu.Invariant.{IsValid}
use adaptive_caching.Policy.Lfu.Moves.{find_node, freq_of}
use adaptive_caching.Policy.Lfu.Victim.{IsLeast, lowest_freq-cases, element-IsLeast}

-- A map with a binding binds its first key.
first_binding :
    {V : Type 0} (m : List (Key × V))
    → length m ≢ 0
    → (k : Key) × (v : V) × (lookup key_dec k m ≡ some v)
unfolding lookup
first_binding [] n = absurd (n refl)
first_binding ((k, v) ∷ m) n = (k, v, ground arith)

length-take_bounds :
    (n : ℕ) (k : Key) (ks : List Key)
    → (1 ≤ length (take (suc n) (k ∷ ks))) × (length (take (suc n) (k ∷ ks)) ≤ suc n)
length-take_bounds zero k ks = (omega arith, omega arith)
length-take_bounds (suc n) k [] = (omega arith, omega arith)
length-take_bounds (suc n) k (j ∷ ks) =
    let (a, b) = length-take_bounds n j ks in (omega arith, omega (arith, b))

keys_back-cases : (l : Elements) → l ≢ [] → (k : Key) × (ks : List Key) × (keys_back l ≡ k ∷ ks)
keys_back-cases [] n = absurd (n refl)
keys_back-cases (x ∷ l) n = go (keys_back l) (keys_back-cons x l)
  where
    go :
        (ks : List Key)
        → keys_back (x ∷ l) ≡ ks ++ x.1.key ∷ []
        → (k : Key) × (ks : List Key) × (keys_back (x ∷ l) ≡ k ∷ ks)
    go [] e = (x.1.key, [], e)
    go (k ∷ ks) e = (k, ks ++ x.1.key ∷ [], e)

module _ (p : Lfu) (P : Key → Type 0) (m : ℕ) (l : Elements) (low : lowest_freq p ≡ m) (pos : 1 ≤ m)
    (here : lookup ℕ_discrete m p.buckets ≡ some l) (full : l ≢ [])
    (least : AllKeys P (keys_back l)) where
  fill_step :
      (fuel n : ℕ)
      → fill (suc fuel) (suc n) p ≡ (
          fill fuel (suc n - length (take (suc n) (keys_back l))) p
          >>= (λ rest. done (take (suc n) (keys_back l) ++ rest)))
  unfolding fill
  fill_step fuel n =
      let positive : lowest_freq p == 0 ≡ false = ground (arith, pos, low) in
      let found : lookup ℕ_discrete (lowest_freq p) p.buckets ≡ some l =
        ap (λ f. lookup ℕ_discrete f p.buckets) low ∙ here in
      rw (fill, positive, found) refl

  fill-AllKeys :
      (fuel n : ℕ) → n ≤ fuel → Returns (fill fuel n p) (λ ks. (length ks ≡ n) × AllKeys P ks)
  unfolding fill
  fill-AllKeys fuel zero h = ([], refl, (refl, tt))
  fill-AllKeys zero (suc n) h = absurd (omega arith)
  fill-AllKeys (suc fuel) (suc n) h =
      let (k, ks, e) = keys_back-cases l full in
      let (some_there, bound) = length-take_bounds n k ks in
      let more : 1 ≤ length (take (suc n) (keys_back l)) =
        subst (λ ks. 1 ≤ length (take (suc n) ks)) (sym e) some_there in
      let less : length (take (suc n) (keys_back l)) ≤ suc n =
        subst (λ ks. length (take (suc n) ks) ≤ suc n) (sym e) bound in
      let (rest, ran, (size, all)) =
        fill-AllKeys fuel (suc n - length (take (suc n) (keys_back l))) (omega (arith, more)) in
      (
        take (suc n) (keys_back l) ++ rest,
        fill_step fuel n ∙ ap (λ x. x >>= (λ rest. done (take (suc n) (keys_back l) ++ rest))) ran,
        (
          omega (arith, length-append (take (suc n) (keys_back l)) rest, size, less),
          AllKeys-append P (take (suc n) (keys_back l)) rest
              (AllKeys-take P (suc n) (keys_back l) least) all,
        ),
      )

-- The batch that a valid LFU that counts a key gives.
pub candidates_filled :
    (p : Lfu) (n : Int64)
    → IsValid p
    → length p.items ≢ 0
    → lt64 n 1 || (p.n == 0) ≡ false
    → make_keys n ≡ done tt
    → Returns (candidates n p) (λ ks. (length ks ≡ n) × AllKeys (IsLeast p) ks)
unfolding candidates
candidates_filled p n v some_key guard made =
    let (k, it, hit) = first_binding p.items some_key in
    elim (lowest_freq-cases p v) [
      | inl (lowest, empty) ↦
          let (l, node, here, there, same) = find_node p v.indexed k it hit in
          absurd (ground (arith, empty it.freq))
      | inr (m, l, lowest, pos, here, least) ↦
          let all =
            AllOf-of_lookup ℕ_discrete (λ i node. IsLeast p node.key) l
              (v.indexed.sound.elements m l here) (element-IsLeast p v m l here least) in
          let (ks, ran, a) =
            fill-AllKeys p (IsLeast p) m l lowest pos here (v.full m l here)
              (keys_back-AllKeys (IsLeast p) l all) n n (omega arith) in
          (ks, rw (guard, made) ran, a)
    ]

-- What Candidates does on a valid LFU, with `n` keys asked for: exactly `n` keys of least frequency,
-- or a panic where the runtime cannot make room for them.
abbrev pub IsBatch : Int64 → Lfu → Type 0
IsBatch n p =
    ((max_keys < n) × (candidates n p ≡ panic))
    ⊎ ((n ≤ max_keys) × Returns (candidates n p) (λ ks. (length ks ≡ n) × AllKeys (IsLeast p) ks))

-- Candidates of a positive number, on a valid LFU that tracks at least one key and fewer than
-- 2 ^ 63: up to 2 ^ 44 it returns exactly that many keys, each of them one that no tracked key has a
-- lower frequency than, and above it panics. When fewer keys are tracked, or share the lowest
-- frequency, keys are repeated.
pub candidates-AllKeys :
    (p : Lfu) (n : Int64)
    → IsValid p
    → length p.items ≢ 0
    → length p.items < two63
    → 1 ≤ n
    → n < two63
    → IsBatch n p
unfolding candidates
candidates-AllKeys p n v some_key small low high =
    let guard : lt64 n 1 || (p.n == 0) ≡ false =
      ground (arith, v.exact.counted, some_key, small, low, high) in
    elim (Bool-cases (ltb max_keys n)) [
      | inl above ↦ inl (ground arith, rw (guard, above) refl)
      | inr below ↦ inr (ground arith, candidates_filled p n v some_key guard (rw below refl))
    ]

-- Candidates, whatever is asked for and whether a key is tracked or not.
pub candidates-tracked :
    (p : Lfu) (n : Int64)
    → IsValid p
    → IsMakeable n
    → Returns (candidates n p) (AllKeys (λ k. is_some (freq_of p k) ≡ true))
unfolding candidates
candidates-tracked p n v makeable = elim (Bool-cases (lt64 n 1 || (p.n == 0))) [
  | inl idle ↦ ([], rw idle refl, tt)
  | inr busy ↦
      let (ks, ran, (size, least)) =
        candidates_filled p n v (λ e. ground (arith, v.exact.counted, e, busy)) busy
          (make_keys_run n makeable (ground (arith, busy))) in
      (
        ks,
        ran,
        AllKeys-mono (IsLeast p) (λ k. is_some (freq_of p k) ≡ true) ks (λ k h. ap is_some h.1)
            least,
      )
]

-- MetadataBytes of a valid LFU reports 64 bytes for each tracked key (modulo 2 ^ 64).
pub metadata_bytes-length :
    (p : Lfu) → IsValid p → (metadata_bytes p).1 ≡ 64 * length p.items % two64
unfolding metadata_bytes
metadata_bytes-length p v = ground (arith, v.exact.counted, v.exact.accounted)
