-- ===== src/Policy/Lfu/Rebuild.antt =====
-- Rebuild and Reset of cache/policy/lfu.go.
use adaptive_caching.Base.{
  ℕ, ◌≤◌, ◌≡◌, refl, List, [], ◌∷◌, Option, none, some, ite, arith, Key, key_dec, lookup, true,
  false,
}
use adaptive_caching.Types.{Entry}
use adaptive_caching.Policy.{listed, AreDistinct}
use adaptive_caching.Policy.Lfu.{Lfu, max_lfu_freq, add, adopt, first_freq, reset, rebuild}
use adaptive_caching.Policy.Lfu.Invariant.{IsValid}
use adaptive_caching.Policy.Lfu.Moves.{freq_of}
use adaptive_caching.Policy.Lfu.Membership.{add-IsValid, freq_of-add}

-- The frequency at which Rebuild starts a key.
abbrev pub started : List Entry → Key → Option ℕ
started [] k = none
started (e ∷ es) k = ite (key_dec e.key k) (some (first_freq e.access_count)) (started es k)

abbrev pub or_else : Option ℕ → Option ℕ → Option ℕ
or_else none o = o
or_else (some f) o = some f

started-listed : (es : List Entry) (k : Key) → listed k es ≡ false → started es k ≡ none
started-listed [] k h = refl
started-listed (e ∷ es) k h = ground (arith, started-listed es k)

adopt-IsValid :
    (P : Key → Type 0) (es : List Entry) (p : Lfu)
    → IsValid p
    → AreDistinct P es
    → ((k : Key) → listed k es ≡ true → freq_of p k ≡ none)
    → IsValid (adopt es p)
      × ((k : Key) → freq_of (adopt es p) k ≡ or_else (started es k) (freq_of p k))
unfolding adopt
adopt-IsValid P [] p v d new = (v, λ k. refl)
adopt-IsValid P (e ∷ es) p v d new =
    let f = first_freq e.access_count in
    let low : 1 ≤ f = ground arith in
    let high : f ≤ max_lfu_freq = ground arith in
    let miss : lookup key_dec e.key p.items ≡ none = ground (arith, new e.key) in
    let added = freq_of-add p v e.key e f miss low high in
    let (valid, freqs) =
      adopt-IsValid P es (add e.key e f p) (add-IsValid p v e.key e f miss low high) d.2
        (λ k h. ground (arith, added k, new k, d.1)) in
    (valid, λ k. ground (arith, freqs k, added k, started-listed es k, d.1))

pub reset-IsValid : (p : Lfu) → IsValid (reset p)
unfolding reset lookup
reset-IsValid p = record {
  indexed = record {
    sound = record {
      different = tt;
      elements = λ f l h. absurd (ground arith);
      range = λ f l h. absurd (ground arith);
    };
    keyed = tt;
    forth = λ k it h. absurd (ground arith);
    back = λ k f e h. absurd (ground arith);
    fresh = λ f e k h. absurd (ground arith);
  };
  full = λ f l h. absurd (ground arith);
  exact = record { counted = refl; accounted = refl };
}

pub freq_of-reset : (p : Lfu) (k : Key) → freq_of (reset p) k ≡ none
unfolding reset lookup
freq_of-reset p k = refl

-- Rebuild from entries with different keys leaves a valid LFU that holds exactly their keys, each
-- at its access count, cut to the range from 1 to 2 ^ 16.
pub rebuild-IsValid :
    (P : Key → Type 0) (es : List Entry) (p : Lfu)
    → AreDistinct P es
    → IsValid (rebuild es p) × ((k : Key) → freq_of (rebuild es p) k ≡ started es k)
unfolding rebuild
rebuild-IsValid P es p d =
    let (valid, freqs) =
      adopt-IsValid P es (reset p) (reset-IsValid p) d (λ k h. freq_of-reset p k) in
    (valid, λ k. ground (arith, freqs k, freq_of-reset p k))
