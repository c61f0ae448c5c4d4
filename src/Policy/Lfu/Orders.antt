-- ===== src/Policy/Lfu/Orders.antt =====
-- What the order in which the map is iterated means for ageLocked in cache/policy/lfu.go.
use adaptive_caching.Base.{
  ℕ, ◌*◌, ◌/◌, ◌⊎◌, ◌++◌, false, occurs, Bool-cases, ltb, subst, inl, inr, Option-cases, ◌<◌, ◌≤◌,
  ◌≡◌, refl, sym, ◌∙◌, ap, List, [], ◌∷◌, Option, none, some, arith, Key, Returns, MapOrder,
}
use mathlib.Core.Option
use adaptive_caching.Policy.Lfu.{Lfu, half_freq, age}
use adaptive_caching.Policy.Lfu.Invariant.{IsValid}
use adaptive_caching.Policy.Lfu.Moves.{freq_of}
use adaptive_caching.Policy.Lfu.Passes.{
  passed, passed-le, passed-half, passed-hit, passed-miss, IsAscending, passed-ascending,
  pass_order, age-passed, freq-occurs,
}

-- The frequency of a key before and after a pass: at least 1, and at most half of what it was, or 1.
abbrev pub IsHalved : Option ℕ → Option ℕ → Type 0
IsHalved none o = o ≡ none
IsHalved (some f) o = (h : ℕ) × (o ≡ some h) × (1 ≤ h) × ((2 * h ≤ f) ⊎ (h ≡ 1))

half-cases : (f h : ℕ) → 1 ≤ h → h ≤ half_freq f → (2 * h ≤ f) ⊎ (h ≡ 1)
half-cases f h low le = elim (Bool-cases (ltb (f / 2) 1)) [
  | inl small ↦ inr (ground (arith, small, low, le))
  | inr large ↦ inl (ground (arith, large, le))
]

passed-none : (fs : List ℕ) → passed fs none ≡ none
passed-none [] = refl
passed-none (f ∷ fs) = passed-none fs

-- An ageing pass over a valid LFU returns and keeps it valid, whatever the order of the map; every
-- key of a frequency ends with one that is at least 1 and at most half of it (or 1), and no key
-- appears or goes.
pub age-half :
    (m : MapOrder) (p : Lfu)
    → IsValid p
    → Returns (age m p) (λ p'. IsValid p' × ((k : Key) → IsHalved (freq_of p k) (freq_of p' k)))
age-half m p v =
    let (r, ran, (v', freqs)) = age-passed m p v in
    (
      r,
      ran,
      (
        v',
        λ k. elim (Option-cases (freq_of p k)) [
          | inl e ↦
              subst (λ o. IsHalved o (freq_of r k)) (sym e)
                (freqs k ∙ ap (passed (pass_order m p)) e ∙ passed-none (pass_order m p))
          | inr (f, e) ↦
              let (there, low) = freq-occurs m p v k f e in
              let (h, a, b, c) = passed-half (pass_order m p) f low there in
              subst (λ o. IsHalved o (freq_of r k)) (sym e)
                (h, freqs k ∙ ap (passed (pass_order m p)) e ∙ a, b, half-cases f h b c)
        ],
      ),
    )

-- When the map is iterated in ascending order of the frequencies, a pass halves every frequency
-- once (down to 1).
pub age-ascending :
    (m : MapOrder) (p : Lfu)
    → IsValid p
    → IsAscending 0 (pass_order m p)
    → Returns (age m p) (λ p'. (k : Key) → freq_of p' k ≡ Option.map half_freq (freq_of p k))
age-ascending m p v s =
    let (r, ran, (v', freqs)) = age-passed m p v in
    (
      r,
      ran,
      λ k. elim (Option-cases (freq_of p k)) [
        | inl e ↦
            freqs k
            ∙ ap (passed (pass_order m p)) e
            ∙ passed-none (pass_order m p)
            ∙ sym (ap (Option.map half_freq) e)
        | inr (f, e) ↦
            let (there, low) = freq-occurs m p v k f e in
            freqs k
            ∙ ap (passed (pass_order m p)) e
            ∙ passed-ascending 0 (pass_order m p) f low there s
            ∙ sym (ap (Option.map half_freq) e)
      ],
    )

passed-absent :
    (g : ℕ) (before after : List ℕ)
    → occurs g before ≡ false
    → passed (before ++ after) (some g) ≡ passed after (some g)
passed-absent g [] after none_there = refl
passed-absent g (f ∷ before) after none_there =
    passed-miss f g (before ++ after) (ground arith) ∙ passed-absent g before after (ground arith)

passed_twice :
    (before between after : List ℕ) (f : ℕ)
    → occurs f before ≡ false
    → occurs (f / 2) between ≡ false
    → 4 ≤ f
    → (h : ℕ) × (passed (before ++ (f ∷ between ++ f / 2 ∷ after)) (some f) ≡ some h)
      × (4 * h ≤ f)
      × (h < f / 2)
passed_twice before between after f first second big =
    let half : half_freq f ≡ f / 2 = ground (arith, big) in
    let quarter : half_freq (f / 2) ≡ f / 2 / 2 = ground (arith, big) in
    let (h, a, b, c) = passed-le after (half_freq (f / 2)) (ground arith) in
    (
      h,
      passed-absent f before (f ∷ between ++ f / 2 ∷ after) first
          ∙ passed-hit f f (between ++ f / 2 ∷ after) (ground arith)
          ∙ ap (λ g. passed (between ++ f / 2 ∷ after) (some g)) half
          ∙ passed-absent (f / 2) between (f / 2 ∷ after) second
          ∙ passed-hit (f / 2) (f / 2) after (ground arith)
          ∙ a,
      omega (arith, c, quarter),
      omega (arith, c, quarter, big),
    )

-- When a pass over a valid LFU comes to a frequency of at least 4 and later to its half (neither of
-- them came before, as in an iteration of a map), it brings a key of that frequency to at most a
-- quarter of it, which is less than the half.
pub age_twice :
    (m : MapOrder) (p : Lfu) (before between after : List ℕ) (f : ℕ) (k : Key)
    → IsValid p
    → pass_order m p ≡ before ++ (f ∷ between ++ f / 2 ∷ after)
    → occurs f before ≡ false
    → occurs (f / 2) between ≡ false
    → 4 ≤ f
    → freq_of p k ≡ some f
    → Returns (age m p) (λ p'. (h : ℕ) × (freq_of p' k ≡ some h) × (4 * h ≤ f) × (h < f / 2))
age_twice m p before between after f k v order first second big e =
    let (r, ran, (v', freqs)) = age-passed m p v in
    let (h, a, b, c) = passed_twice before between after f first second big in
    (
      r,
      ran,
      (
        h,
        freqs k
            ∙ ap (λ fs. passed fs (freq_of p k)) order
            ∙ ap (passed (before ++ (f ∷ between ++ f / 2 ∷ after))) e
            ∙ a,
        b,
        c,
      ),
    )
