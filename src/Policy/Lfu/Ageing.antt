-- ===== src/Policy/Lfu/Ageing.antt =====
-- ageLocked of cache/policy/lfu.go, for every order in which the map of buckets may be iterated.
use adaptive_caching.Base.{
  ℕ, suc, ◌≤◌, ◌≡◌, refl, sym, ◌∙◌, ap, inl, inr, [], Option, none, some, ite, arith, Key,
  ℕ_discrete, lookup, upsert, delete, length, lookup-upsert, lookup-delete, delete-Distinct,
  Option-cases, done, Returns, ◌==◌, Bool-cases, true, false, is_some,
}
use adaptive_caching.Policy.LinkedList.{Elements}
use adaptive_caching.Policy.Lfu.{Lfu, bucket_of, max_lfu_freq, half_freq, drain, age_bucket}
use adaptive_caching.Policy.Lfu.Buckets.{at, at-upsert, upsert-IsSound, bucket_of-Distinct}
use adaptive_caching.Policy.Lfu.Invariant.{IsIndexed, IsValid}
use adaptive_caching.Policy.Lfu.Moves.{freq_of}
use adaptive_caching.Policy.Lfu.Drain.{demoted, AreKept, IsDrained, drain-IsDrained}

-- What the body of the loop does to one bucket.
pub record IsAged (old : ℕ) (p p' : Lfu) : Type 0 where
  pub valid : IsValid p'
  pub kept : AreKept old p.buckets p'.buckets
  pub freqs : (k : Key) → freq_of p' k ≡ demoted old (half_freq old) (freq_of p k)

demoted_same : (f : ℕ) (o : Option ℕ) → demoted f f o ≡ o
demoted_same f none = refl
demoted_same f (some g) = ground arith

-- The bucket that is to be filled is there.
module _ (p : Lfu) (v : IsIndexed p) (f : ℕ) (low : 1 ≤ f) (high : f ≤ max_lfu_freq) where
  abbrev opened : Lfu
  opened = record p { buckets = upsert ℕ_discrete f (bucket_of f p.buckets) p.buckets }

  at-opened : (g e : ℕ) → at g e opened.buckets ≡ at g e p.buckets
  at-opened g e = ground (arith, at-upsert f g e (bucket_of f p.buckets) p.buckets)

  opened-IsIndexed : IsIndexed opened
  opened-IsIndexed = record {
    sound =
        upsert-IsSound f (bucket_of f p.buckets) p.buckets v.sound
          (bucket_of-Distinct f p.buckets v.sound) low high;
    keyed = v.keyed;
    forth = λ k it h. at-opened it.freq it.el ∙ v.forth k it h;
    back = λ k g e h. v.back k g e (sym (at-opened g e) ∙ h);
    fresh = λ g e k h. v.fresh g e k (sym (at-opened g e) ∙ h);
  }

  lookup-opened :
      (g : ℕ)
      → lookup ℕ_discrete g opened.buckets
        ≡ ite (ℕ_discrete f g) (some (bucket_of f p.buckets)) (lookup ℕ_discrete g p.buckets)
  lookup-opened g = lookup-upsert ℕ_discrete f g (bucket_of f p.buckets) p.buckets

-- An empty bucket goes away.
module _ (p : Lfu) (v : IsIndexed p) (old : ℕ)
    (here : lookup ℕ_discrete old p.buckets ≡ some []) where
  abbrev closed : Lfu
  closed = record p { buckets = delete ℕ_discrete old p.buckets }

  lookup-closed :
      (g : ℕ)
      → lookup ℕ_discrete g closed.buckets
        ≡ ite (ℕ_discrete old g) none (lookup ℕ_discrete g p.buckets)
  lookup-closed g = lookup-delete ℕ_discrete old g p.buckets

  at-closed : (g e : ℕ) → at g e closed.buckets ≡ at g e p.buckets
  unfolding lookup
  at-closed g e = ground (arith, lookup-closed g)

  closed-IsIndexed : IsIndexed closed
  closed-IsIndexed = record {
    sound = record {
      different = delete-Distinct ℕ_discrete old p.buckets v.sound.different;
      elements = λ g m h. v.sound.elements g m (ground (arith, lookup-closed g));
      range = λ g m h. v.sound.range g m (ground (arith, lookup-closed g));
    };
    keyed = v.keyed;
    forth = λ k it h. at-closed it.freq it.el ∙ v.forth k it h;
    back = λ k g e h. v.back k g e (sym (at-closed g e) ∙ h);
    fresh = λ g e k h. v.fresh g e k (sym (at-closed g e) ∙ h);
  }

age_bucket_moves :
    (old : ℕ) (p q : Lfu) (l : Elements)
    → half_freq old == old ≡ false
    → lookup ℕ_discrete old p.buckets ≡ some l
    → drain (suc (length l)) old (half_freq old) (record p {
      buckets = upsert ℕ_discrete (half_freq old) (bucket_of (half_freq old) p.buckets) p.buckets;
    })
      ≡ done q
    → age_bucket old p ≡ done (record q { buckets = delete ℕ_discrete old q.buckets })
unfolding age_bucket
age_bucket_moves old p q l differ here ran = rw (differ, age_bucket, here, ran) refl

age_bucket_stays : (old : ℕ) (p : Lfu) → half_freq old == old ≡ true → age_bucket old p ≡ done p
unfolding age_bucket
age_bucket_stays old p same = rw (same, age_bucket) refl

-- Where the half is another frequency.
module _ (old : ℕ) (p : Lfu) (v : IsValid p) (l : Elements)
    (here : lookup ℕ_discrete old p.buckets ≡ some l) (differ : half_freq old == old ≡ false) where
  half_range : (1 ≤ half_freq old) × (half_freq old ≤ max_lfu_freq)
  half_range = let (low, high) = v.indexed.sound.range old l here in (ground arith, ground arith)

  start : Lfu
  start = opened p v.indexed (half_freq old) half_range.0 half_range.1

  drained :
      Returns
        (drain (suc (length l)) old (half_freq old) start)
        (IsDrained old (half_freq old) start)
  unfolding start
  drained =
      let f = half_freq old in
      let o = lookup-opened p v.indexed f half_range.0 half_range.1 in
      drain-IsDrained (suc (length l)) old f start
        (opened-IsIndexed p v.indexed f half_range.0 half_range.1) l (ground (arith, o old))
        (λ e. ground arith) half_range.0 half_range.1 (omega arith)
        (λ g m h a b. v.full g m (ground (arith, o g))) (inl (v.full old l here))

  finish-IsAged :
      (q : Lfu) (d : IsDrained old (half_freq old) start q)
      → IsAged old p (closed q d.indexed old d.emptied)
  unfolding start
  finish-IsAged q d =
      let f = half_freq old in
      let c = lookup-closed q d.indexed old d.emptied in
      let o = lookup-opened p v.indexed f half_range.0 half_range.1 in
      record {
        valid = record {
          indexed = closed-IsIndexed q d.indexed old d.emptied;
          full = λ g m h e. elim (ℕ_discrete g f) [
            | yes a ↦ d.filled (ground (arith, c g))
            | no b ↦ d.full g m (ground (arith, c g)) (λ s. ground (arith, c g)) b e
          ];
          exact =
              let e =
                d.exact (record { counted = v.exact.counted; accounted = v.exact.accounted }) in
              record { counted = e.counted; accounted = e.accounted };
        };
        kept = λ g n h. ground (arith, c g, d.kept g n (ground (arith, o g)));
        freqs = λ k. d.freqs k;
      }

  moved-IsAged : Returns (age_bucket old p) (IsAged old p)
  unfolding start
  moved-IsAged =
      let (q, ran, d) = drained in
      (
        closed q d.indexed old d.emptied,
        age_bucket_moves old p q l differ here ran,
        finish-IsAged q d,
      )

-- The bucket of a frequency becomes part of that of its half.
pub age_bucket-IsAged :
    (old : ℕ) (p : Lfu)
    → IsValid p
    → is_some (lookup ℕ_discrete old p.buckets) ≡ true
    → Returns (age_bucket old p) (IsAged old p)
age_bucket-IsAged old p v there = elim (Option-cases (lookup ℕ_discrete old p.buckets)) [
  | inl miss ↦ absurd (ground arith)
  | inr (l, here) ↦ elim (Bool-cases (half_freq old == old)) [
    | inl same ↦ (
      p,
      age_bucket_stays old p same,
      record {
        valid = v;
        kept = λ g n h. h;
        freqs = λ k.
            sym (demoted_same old (freq_of p k))
            ∙ ap (λ f. demoted old f (freq_of p k)) (ground (arith, same));
      },
    )
    | inr differ ↦ moved-IsAged old p v l here differ
  ]
]
