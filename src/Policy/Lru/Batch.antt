-- ===== src/Policy/Lru/Batch.antt =====
-- Candidates and MetadataBytes of cache/policy/lru.go.
use adaptive_caching.Base.{
  ℕ, zero, suc, ◌++◌, length-append, ◌*◌, ◌%◌, ◌≤◌, ◌<◌, ◌≡◌, refl, sym, ap, ◌∙◌, List, [], ◌∷◌,
  reverse, arith, Key, Int64, two63, two64, leb, length, take, if◌then◌else◌,
}
use mathlib.Core.List.{map-append, reverse-cons}
use adaptive_caching.Policy.LinkedList.{Elements}
use adaptive_caching.Policy.Lru.{Lru, candidates, keys, key_of, metadata_bytes}
use adaptive_caching.Policy.Lru.Invariant.{IsValid}

take_of_length-le : (n : ℕ) (l : List Key) → length l ≤ n → take n l ≡ l
take_of_length-le zero [] h = refl
take_of_length-le (suc n) [] h = refl
take_of_length-le zero (x ∷ l) h = absurd (omega arith)
take_of_length-le (suc n) (x ∷ l) h = ap (◌∷◌ x) (take_of_length-le n l (omega arith))

keys-reverse : (l : Elements) → keys (reverse l) ≡ reverse (keys l)
keys-reverse [] = refl
keys-reverse (x ∷ l) =
    ap keys (reverse-cons x l)
    ∙ map-append key_of (reverse l) (x ∷ [])
    ∙ ap (λ m. m ++ key_of x ∷ []) (keys-reverse l)
    ∙ sym (reverse-cons (key_of x) (keys l))

length-keys : (l : Elements) → length (keys l) ≡ length l
length-keys [] = refl
length-keys (x ∷ l) = ap suc (length-keys l)

length-reverse : (l : List Key) → length (reverse l) ≡ length l
length-reverse [] = refl
length-reverse (x ∷ l) =
    omega
      (arith, ap length (reverse-cons x l), length-append (reverse l) (x ∷ []), length-reverse l)

-- On a valid LRU that holds fewer than 2 ^ 63 keys, Candidates of a positive number gives that many
-- keys from the least recently used on (all of them, if there are fewer), and of any other number
-- none.
pub candidates-take :
    (n : Int64) (p : Lru)
    → IsValid p
    → length p.ll < two63
    → n < two64
    → candidates n p ≡ (if leb two63 n then [] else take n (reverse (keys p.ll)))
unfolding candidates
candidates-take n p v small h =
    let size : length (reverse (keys p.ll)) ≡ length p.ll =
      length-reverse (keys p.ll) ∙ length-keys p.ll in
    rw keys-reverse (
      ground (
        arith,
        v.counted,
        size,
        take_of_length-le n (reverse (keys p.ll)),
        take_of_length-le (length p.ll) (reverse (keys p.ll)),
        take_of_length-le 0 (reverse (keys p.ll)),
      ))

-- MetadataBytes reports 64 bytes for each tracked key (modulo 2 ^ 64), whatever was cached in the
-- field before.
pub metadata_bytes-length : (p : Lru) → IsValid p → (metadata_bytes p).1 ≡ 64 * length p.ll % two64
unfolding metadata_bytes
metadata_bytes-length p v = ground (arith, v.counted, v.accounted)
