-- ===== src/Policy/Lfu/Drain.antt =====
-- The inner loop of ageLocked in cache/policy/lfu.go: a bucket is emptied into another.
use adaptive_caching.Base.{
  ℕ, zero, suc, ◌<◌, ◌≤◌, ◌≡◌, ◌≢◌, ◌⊎◌, refl, sym, ◌∙◌, ap, subst, inl, inr, [], ◌∷◌, Option, none,
  some, ite, arith, Key, key_dec, ℕ_discrete, lookup, upsert, Distinct, length, lookup-upsert,
  Option-cases, done, Returns, ◌==◌, true, if◌then◌else◌, is_some,
}
use adaptive_caching.Policy.LinkedList.{
  Node, Elements, push_front, remove_element, remove_element-front, Distinct-remove_element,
}
use adaptive_caching.Policy.Lfu.{Lfu, Item, Buckets, bucket_of, max_lfu_freq, attach, shift, drain}
use adaptive_caching.Policy.Lfu.Buckets.{at-upsert, upsert-IsSound, bucket_of-some}
use adaptive_caching.Policy.Lfu.Invariant.{IsIndexed, IsCounted, IsWithout, taken-IsWithout}
use adaptive_caching.Policy.Lfu.Moves.{freq_of, IsMoved, attach-IsMoved}

-- A frequency, after those that are `old` have become `f`.
abbrev pub demoted : ℕ → ℕ → Option ℕ → Option ℕ
demoted old f none = none
demoted old f (some g) = some (if g == old then f else g)

-- The buckets but two are not empty.
abbrev pub IsFullBut : ℕ → ℕ → Buckets → Type 0
IsFullBut old f bs =
    (g : ℕ) (m : Elements) → lookup ℕ_discrete g bs ≡ some m → g ≢ old → g ≢ f → m ≢ []

-- Every bucket but one is still there.
abbrev pub AreKept : ℕ → Buckets → Buckets → Type 0
AreKept old bs bs' =
    (g : ℕ)
    → g ≢ old
    → is_some (lookup ℕ_discrete g bs) ≡ true
    → is_some (lookup ℕ_discrete g bs') ≡ true

-- The bucket `old` was emptied into the bucket `f`.
pub record IsDrained (old f : ℕ) (p p' : Lfu) : Type 0 where
  pub indexed : IsIndexed p'
  pub exact : IsCounted p → IsCounted p'
  pub emptied : lookup ℕ_discrete old p'.buckets ≡ some []
  pub filled : bucket_of f p'.buckets ≢ []
  pub full : IsFullBut old f p'.buckets
  pub kept : AreKept old p.buckets p'.buckets
  pub freqs : (k : Key) → freq_of p' k ≡ demoted old f (freq_of p k)

-- One element goes over.
module _ (old f : ℕ) (p : Lfu) (v : IsIndexed p) (x : ℕ × Node) (l : Elements)
    (here : lookup ℕ_discrete old p.buckets ≡ some (x ∷ l)) (other : old ≢ f) (low : 1 ≤ f)
    (high : f ≤ max_lfu_freq) where
  abbrev front_item : Item
  front_item = record { el = x.0; freq = old }

  hit : lookup key_dec x.1.key p.items ≡ some front_item
  unfolding lookup
  hit = v.back x.1.key old x.0 (ground arith)

  abbrev left : Buckets
  left = upsert ℕ_discrete old (remove_element x.0 (bucket_of old p.buckets)) p.buckets

  abbrev shifted : Lfu
  shifted = attach x.1.key f x.1 left p

  shift_run : shift old f x p ≡ done shifted
  unfolding shift
  shift_run = ground (arith, hit)

  left-IsWithout : IsWithout x.1.key left p.buckets
  left-IsWithout =
      let range = v.sound.range old (x ∷ l) here in
      let d : Distinct ℕ_discrete (remove_element x.0 (bucket_of old p.buckets)) =
        Distinct-remove_element x.0 (bucket_of old p.buckets) (
          subst (Distinct ℕ_discrete) (sym (bucket_of-some old (x ∷ l) p.buckets here))
            (v.sound.elements old (x ∷ l) here)) in
      taken-IsWithout p v x.1.key front_item hit left
        (upsert-IsSound old (remove_element x.0 (bucket_of old p.buckets)) p.buckets v.sound d
          range.0 range.1)
        (λ g e. at-upsert old g e (remove_element x.0 (bucket_of old p.buckets)) p.buckets)

  shifted-IsMoved : IsMoved x.1.key f p shifted
  shifted-IsMoved = attach-IsMoved p v front_item x.1 hit f low high left left-IsWithout

  -- The rest of the bucket is what is left of it.
  removed_front : remove_element x.0 (bucket_of old p.buckets) ≡ l
  removed_front =
      ap (remove_element x.0) (bucket_of-some old (x ∷ l) p.buckets here)
      ∙ remove_element-front x.0 x.1 l (v.sound.elements old (x ∷ l) here)

  lookup-shifted :
      (g : ℕ)
      → lookup ℕ_discrete g shifted.buckets
        ≡ ite
            (ℕ_discrete f g)
            (some ((p.next, x.1) ∷ bucket_of f left))
            (ite (ℕ_discrete old g) (some l) (lookup ℕ_discrete g p.buckets))
  unfolding attach push_front
  lookup-shifted g = ground (
    arith,
    lookup-upsert ℕ_discrete f g ((p.next, x.1) ∷ bucket_of f left) left,
    lookup-upsert ℕ_discrete old g (remove_element x.0 (bucket_of old p.buckets)) p.buckets,
    removed_front,
  )

  shifted_freqs : (k : Key) → demoted old f (freq_of shifted k) ≡ demoted old f (freq_of p k)
  shifted_freqs k = ground (arith, shifted-IsMoved.freqs k, hit)

  bucket_of-shifted : bucket_of f shifted.buckets ≢ []
  bucket_of-shifted e = ground (arith, lookup-shifted f)

  shifted-IsFullBut : IsFullBut old f p.buckets → IsFullBut old f shifted.buckets
  shifted-IsFullBut full g m h a b = full g m (ground (arith, lookup-shifted g)) a b

  shifted-AreKept : AreKept old p.buckets shifted.buckets
  shifted-AreKept g n h = ground (arith, lookup-shifted g)

  still_there : lookup ℕ_discrete old shifted.buckets ≡ some l
  still_there = ground (arith, lookup-shifted old)

  -- What the rest of the loop does to the buckets after one round, it does with that round.
  IsDrained-start : (p' : Lfu) → IsDrained old f shifted p' → IsDrained old f p p'
  IsDrained-start p' d = record {
    indexed = d.indexed;
    exact = λ c. d.exact (shifted-IsMoved.exact c);
    emptied = d.emptied;
    filled = d.filled;
    full = d.full;
    kept = λ g n h. d.kept g n (shifted-AreKept g n h);
    freqs = λ k. d.freqs k ∙ shifted_freqs k;
  }

-- An empty bucket: no key has its frequency.
nothing_left :
    (old f : ℕ) (p : Lfu) (v : IsIndexed p)
    → lookup ℕ_discrete old p.buckets ≡ some []
    → (k : Key) → freq_of p k ≡ demoted old f (freq_of p k)
unfolding lookup
nothing_left old f p v here k = elim (Option-cases (lookup key_dec k p.items)) [
  | inl miss ↦ ground arith
  | inr (it, hit) ↦ ground (arith, v.forth k it hit)
]

drain_end :
    (fuel old f : ℕ) (p : Lfu)
    → lookup ℕ_discrete old p.buckets ≡ some []
    → drain (suc fuel) old f p ≡ done p
unfolding drain
drain_end fuel old f p here = ground arith

drain_round :
    (fuel old f : ℕ) (p p' : Lfu) (x : ℕ × Node) (l : Elements)
    → lookup ℕ_discrete old p.buckets ≡ some (x ∷ l)
    → shift old f x p ≡ done p'
    → drain (suc fuel) old f p ≡ drain fuel old f p'
unfolding drain
drain_round fuel old f p p' x l here ran = ground (arith, here, ran)

-- The loop ends within one round more than the bucket has elements.
pub drain-IsDrained :
    (fuel old f : ℕ) (p : Lfu) (v : IsIndexed p) (l : Elements)
    → lookup ℕ_discrete old p.buckets ≡ some l
    → old ≢ f
    → 1 ≤ f
    → f ≤ max_lfu_freq
    → length l < fuel
    → IsFullBut old f p.buckets
    → (l ≢ []) ⊎ (bucket_of f p.buckets ≢ [])
    → Returns (drain fuel old f p) (IsDrained old f p)
drain-IsDrained zero old f p v l here other low high enough full some_there =
    absurd (omega (arith, enough))
drain-IsDrained (suc fuel) old f p v [] here other low high enough full some_there = (
  p,
  drain_end fuel old f p here,
  record {
    indexed = v;
    exact = λ c. c;
    emptied = here;
    filled = elim some_there [ inl n ↦ absurd (n refl) | inr n ↦ n ];
    full = full;
    kept = λ g n h. h;
    freqs = nothing_left old f p v here;
  },
)
drain-IsDrained (suc fuel) old f p v (x ∷ l) here other low high enough full some_there =
    let q = shifted old f p v x l here other low high in
    let (r, ran, d) =
      drain-IsDrained fuel old f q (shifted-IsMoved old f p v x l here other low high).indexed l
        (still_there old f p v x l here other low high) other low high (omega (arith, enough))
        (shifted-IsFullBut old f p v x l here other low high full)
        (inr (bucket_of-shifted old f p v x l here other low high)) in
    (
      r,
      drain_round fuel old f p q x l here (shift_run old f p v x l here other low high) ∙ ran,
      IsDrained-start old f p v x l here other low high r d,
    )
