-- ===== src/Policy/Lfu/Buckets.antt =====
-- The buckets of cache/policy/lfu.go: the keys by frequency and element.
use adaptive_caching.Base.{
  ℕ, ◌≤◌, ◌≡◌, ◌≢◌, sym, ◌∙◌, subst, if_pos, inl, inr, [], ◌∷◌, Option, none, some, ite, arith, Key,
  ℕ_discrete, lookup, upsert, Distinct, lookup-upsert, lookup-delete, upsert-Distinct,
  delete-Distinct, Option-cases,
}
use adaptive_caching.Policy.LinkedList.{Elements, key_at}
use adaptive_caching.Policy.Lfu.{Buckets, bucket_of, settle, max_lfu_freq}

-- The key of an element of a bucket.
abbrev pub at : ℕ → ℕ → Buckets → Option Key
at f e bs = key_at e (bucket_of f bs)

abbrev pub some_list : Elements → Option Elements
some_list [] = none
some_list (x ∷ l) = some (x ∷ l)

pub lookup-settle :
    (f g : ℕ) (l : Elements) (bs : Buckets)
    → lookup ℕ_discrete g (settle f l bs)
      ≡ ite (ℕ_discrete f g) (some_list l) (lookup ℕ_discrete g bs)
unfolding settle
lookup-settle f g [] bs = lookup-delete ℕ_discrete f g bs
lookup-settle f g (x ∷ l) bs = lookup-upsert ℕ_discrete f g (x ∷ l) bs

pub settle-Distinct :
    (f : ℕ) (l : Elements) (bs : Buckets)
    → Distinct ℕ_discrete bs
    → Distinct ℕ_discrete (settle f l bs)
unfolding settle
settle-Distinct f [] bs d = delete-Distinct ℕ_discrete f bs d
settle-Distinct f (x ∷ l) bs d = upsert-Distinct ℕ_discrete f (x ∷ l) bs d

pub at-upsert :
    (f g e : ℕ) (l : Elements) (bs : Buckets)
    → at g e (upsert ℕ_discrete f l bs) ≡ ite (ℕ_discrete f g) (key_at e l) (at g e bs)
at-upsert f g e l bs = ground (arith, lookup-upsert ℕ_discrete f g l bs)

pub at-settle :
    (f g e : ℕ) (l : Elements) (bs : Buckets)
    → at g e (settle f l bs) ≡ ite (ℕ_discrete f g) (key_at e l) (at g e bs)
unfolding lookup
at-settle f g e [] bs = ground (arith, lookup-settle f g [] bs)
at-settle f g e (x ∷ l) bs = ground (arith, lookup-settle f g (x ∷ l) bs)

-- Every bucket is for a possible frequency, and its elements are different.
pub record IsSound (bs : Buckets) : Type 0 where
  pub different : Distinct ℕ_discrete bs
  pub elements : (f : ℕ) (l : Elements) → lookup ℕ_discrete f bs ≡ some l → Distinct ℕ_discrete l
  pub range :
      (f : ℕ) (l : Elements) → lookup ℕ_discrete f bs ≡ some l → (1 ≤ f) × (f ≤ max_lfu_freq)

pub bucket_of-none : (f : ℕ) (bs : Buckets) → lookup ℕ_discrete f bs ≡ none → bucket_of f bs ≡ []
bucket_of-none f bs h = ground arith

pub bucket_of-some :
    (f : ℕ) (l : Elements) (bs : Buckets) → lookup ℕ_discrete f bs ≡ some l → bucket_of f bs ≡ l
bucket_of-some f l bs h = ground arith

pub bucket_of-Distinct : (f : ℕ) (bs : Buckets) → IsSound bs → Distinct ℕ_discrete (bucket_of f bs)
bucket_of-Distinct f bs v = elim (Option-cases (lookup ℕ_discrete f bs)) [
  | inl miss ↦ subst (Distinct ℕ_discrete) (sym (bucket_of-none f bs miss)) tt
  | inr (l, hit) ↦
      subst (Distinct ℕ_discrete) (sym (bucket_of-some f l bs hit)) (v.elements f l hit)
]

pub some_eq {ℓ} : {A : Type ℓ} {a b : A} → some a ≡ some b → a ≡ b
some_eq e = cc

pub upsert-IsSound :
    (f : ℕ) (l : Elements) (bs : Buckets)
    → IsSound bs
    → Distinct ℕ_discrete l
    → 1 ≤ f
    → f ≤ max_lfu_freq
    → IsSound (upsert ℕ_discrete f l bs)
upsert-IsSound f l bs v d low high = record {
  different = upsert-Distinct ℕ_discrete f l bs v.different;
  elements = λ g m h. elim (ℕ_discrete f g) [
    | yes e ↦
        subst (Distinct ℕ_discrete)
          (some_eq (sym (lookup-upsert ℕ_discrete f g l bs ∙ if_pos (ℕ_discrete f g) e _ _) ∙ h)) d
    | no e ↦ ground (arith, lookup-upsert ℕ_discrete f g l bs, v.elements g m)
  ];
  range = λ g m h. elim (ℕ_discrete f g) [
    | yes e ↦ (omega (arith, e, low), omega (arith, e, high))
    | no e ↦ v.range g m (ground (arith, lookup-upsert ℕ_discrete f g l bs))
  ];
}

pub settle-IsSound :
    (f : ℕ) (l : Elements) (bs : Buckets)
    → IsSound bs
    → Distinct ℕ_discrete l
    → 1 ≤ f
    → f ≤ max_lfu_freq
    → IsSound (settle f l bs)
unfolding settle
settle-IsSound f (x ∷ l) bs v d low high = upsert-IsSound f (x ∷ l) bs v d low high
settle-IsSound f [] bs v d low high = record {
  different = delete-Distinct ℕ_discrete f bs v.different;
  elements = λ g m h. v.elements g m (ground (arith, lookup-delete ℕ_discrete f g bs));
  range = λ g m h. v.range g m (ground (arith, lookup-delete ℕ_discrete f g bs));
}

-- No bucket is empty.
abbrev pub IsFull : Buckets → Type 0
IsFull bs = (f : ℕ) (l : Elements) → lookup ℕ_discrete f bs ≡ some l → l ≢ []

pub settle-IsFull : (f : ℕ) (l : Elements) (bs : Buckets) → IsFull bs → IsFull (settle f l bs)
settle-IsFull f [] bs full g m h e = full g m (ground (arith, lookup-settle f g [] bs)) e
settle-IsFull f (x ∷ l) bs full g m h e = ground (arith, lookup-settle f g (x ∷ l) bs, full g m)
