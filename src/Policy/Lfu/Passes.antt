-- ===== src/Policy/Lfu/Passes.antt =====
-- A whole pass of ageLocked in cache/policy/lfu.go, and OnAccess.
use adaptive_caching.Base.{
  ℕ, ◌<◌, ◌≤◌, ◌≡◌, refl, sym, ◌∙◌, ap, subst, inl, inr, List, [], ◌∷◌, Option, none, some, arith,
  Key, key_dec, ℕ_discrete, lookup, Option-cases, Returns, ◌>>=◌, ◌==◌, Bool-cases, true, false,
  is_some, occurs, AllDifferent, MapOrder, keys_of, occurs-keys_of, keys_of-AllDifferent,
}
use adaptive_caching.Policy.Lfu.{Lfu, half_freq, age_all, age}
use adaptive_caching.Policy.Lfu.Invariant.{IsValid}
use adaptive_caching.Policy.Lfu.Moves.{freq_of, find_node}
use adaptive_caching.Policy.Lfu.Drain.{demoted}
use adaptive_caching.Policy.Lfu.Ageing.{age_bucket-IsAged}

-- What a pass makes of a frequency: each bucket in turn, in the order of the pass.
abbrev pub passed : List ℕ → Option ℕ → Option ℕ
passed [] o = o
passed (f ∷ fs) o = passed fs (demoted f (half_freq f) o)

pub passed-is_some : (fs : List ℕ) (o : Option ℕ) → is_some (passed fs o) ≡ is_some o
passed-is_some [] o = refl
passed-is_some (f ∷ fs) none = passed-is_some fs none
passed-is_some (f ∷ fs) (some g) = passed-is_some fs _

pub passed-hit :
    (f g : ℕ) (fs : List ℕ)
    → g == f ≡ true
    → passed (f ∷ fs) (some g) ≡ passed fs (some (half_freq f))
passed-hit f g fs h = rw h refl

pub passed-miss :
    (f g : ℕ) (fs : List ℕ) → g == f ≡ false → passed (f ∷ fs) (some g) ≡ passed fs (some g)
passed-miss f g fs h = rw h refl

-- A pass does not raise a frequency.
pub passed-le :
    (fs : List ℕ) (g : ℕ) → 1 ≤ g → (h : ℕ) × (passed fs (some g) ≡ some h) × (1 ≤ h) × (h ≤ g)
passed-le [] g low = (g, refl, low, omega arith)
passed-le (f ∷ fs) g low = elim (Bool-cases (g == f)) [
  | inl hit ↦
      let (h, e, a, b) = passed-le fs (half_freq f) (ground arith) in
      (h, passed-hit f g fs hit ∙ e, a, ground arith)
  | inr miss ↦ let (h, e, a, b) = passed-le fs g low in (h, passed-miss f g fs miss ∙ e, a, b)
]

-- Whatever the order, a pass brings the frequencies of its buckets to at most their half (or 1).
pub passed-half :
    (fs : List ℕ) (g : ℕ)
    → 1 ≤ g
    → occurs g fs ≡ true
    → (h : ℕ) × (passed fs (some g) ≡ some h) × (1 ≤ h) × (h ≤ half_freq g)
passed-half [] g low there = absurd (ground arith)
passed-half (f ∷ fs) g low there = elim (Bool-cases (g == f)) [
  | inl hit ↦
      let (h, e, a, b) = passed-le fs (half_freq f) (ground arith) in
      (h, passed-hit f g fs hit ∙ e, a, ground arith)
  | inr miss ↦
      let (h, e, a, b) = passed-half fs g low (ground arith) in
      (h, passed-miss f g fs miss ∙ e, a, b)
]

-- The frequencies come in ascending order, the first above a bound.
abbrev pub IsAscending : ℕ → List ℕ → Type 0
IsAscending b [] = Unit
IsAscending b (f ∷ fs) = (b < f) × IsAscending f fs

passed-below :
    (b : ℕ) (fs : List ℕ) (g : ℕ) → g ≤ b → IsAscending b fs → passed fs (some g) ≡ some g
passed-below b [] g h s = refl
passed-below b (f ∷ fs) g h s =
    let differ : g == f ≡ false = ground (arith, s.0) in
    rw differ (passed-below f fs g (omega (arith, s.0, h)) s.1)

-- In ascending order a pass halves every frequency once.
pub passed-ascending :
    (b : ℕ) (fs : List ℕ) (g : ℕ)
    → 1 ≤ g
    → occurs g fs ≡ true
    → IsAscending b fs
    → passed fs (some g) ≡ some (half_freq g)
passed-ascending b [] g low there s = absurd (ground arith)
passed-ascending b (f ∷ fs) g low there s = elim (Bool-cases (g == f)) [
  | inl hit ↦ rw hit (ground (arith, passed-below f fs (half_freq f)))
  | inr miss ↦ rw miss (passed-ascending f fs g low (ground arith) s.1)
]

-- A pass over frequencies that are different and that all have a bucket.
pub age_all-passed :
    (fs : List ℕ) (p : Lfu)
    → IsValid p
    → AllDifferent fs
    → ((g : ℕ) → occurs g fs ≡ true → is_some (lookup ℕ_discrete g p.buckets) ≡ true)
    → Returns
        (age_all fs p)
        (λ p'. IsValid p' × ((k : Key) → freq_of p' k ≡ passed fs (freq_of p k)))
unfolding age_all
age_all-passed [] p v d there = (p, refl, (v, λ k. refl))
age_all-passed (f ∷ fs) p v d there =
    let (q, ran, a) = age_bucket-IsAged f p v (there f (ground arith)) in
    let (r, ran', (v', freqs)) =
      age_all-passed fs q a.valid d.1
        (λ g h. a.kept g (λ e. ground arith) (there g (ground arith))) in
    (r, ap (λ x. x >>= age_all fs) ran ∙ ran', (v', λ k. freqs k ∙ ap (passed fs) (a.freqs k)))

-- The order of a pass.
abbrev pub pass_order : MapOrder → Lfu → List ℕ
pass_order m p = m.order p.next (keys_of p.buckets)

-- An ageing pass over a valid LFU returns and keeps it valid. Every key ends with the frequency
-- that its old one becomes when the buckets are halved one after the other, in the order in which
-- the map happened to be iterated.
pub age-passed :
    (m : MapOrder) (p : Lfu)
    → IsValid p
    → Returns
        (age m p)
        (λ p'. IsValid p' × ((k : Key) → freq_of p' k ≡ passed (pass_order m p) (freq_of p k)))
unfolding age
age-passed m p v =
    age_all-passed (pass_order m p) p v
      (m.different p.next (keys_of p.buckets)
        (keys_of-AllDifferent p.buckets v.indexed.sound.different))
      (λ g h. sym (occurs-keys_of g p.buckets) ∙ sym (m.same p.next (keys_of p.buckets) g) ∙ h)

-- The frequency of a key has a bucket.
pub freq-occurs :
    (m : MapOrder) (p : Lfu)
    → IsValid p
    → (k : Key) (f : ℕ) → freq_of p k ≡ some f
    → (occurs f (pass_order m p) ≡ true) × (1 ≤ f)
freq-occurs m p v k f h = elim (Option-cases (lookup key_dec k p.items)) [
  | inl miss ↦ absurd (ground arith)
  | inr (it, hit) ↦
      let (l, node, here, there, same) = find_node p v.indexed k it hit in
      let e : it.freq ≡ f = ground arith in
      let (low, high) = v.indexed.sound.range it.freq l here in
      subst (λ g. (occurs g (pass_order m p) ≡ true) × (1 ≤ g)) e
        (
          m.same p.next (keys_of p.buckets) it.freq
              ∙ occurs-keys_of it.freq p.buckets
              ∙ ap is_some here,
          low,
        )
]
