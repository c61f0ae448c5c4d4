-- ===== src/Policy/Lfu/Victim.antt =====
-- Victim and Candidates of cache/policy/lfu.go.
use adaptive_caching.Base.{
  ℕ, ◌≤◌, ◌≡◌, ◌⊎◌, refl, ◌∙◌, inl, inr, List, [], ◌∷◌, Option, none, some, arith, Key, key_dec,
  ℕ_discrete, lookup, Option-cases, is_some, done, Returns, ◌==◌, Bool-cases, true, false, occurs,
  keys_of, occurs-keys_of, ltb,
}
use adaptive_caching.Policy.LinkedList.{Node, Elements, back, lookup-back, back-none}
use adaptive_caching.Policy.Lfu.{Lfu, scan, lowest_freq, victim}
use adaptive_caching.Policy.Lfu.Invariant.{IsValid}
use adaptive_caching.Policy.Lfu.Moves.{freq_of, find_node}

-- The loop of lowestFreqLocked finds the least, in any order.
scan-some :
    (fs : List ℕ) (b : ℕ)
    → (m : ℕ) × (scan fs (some b) ≡ some m)
      × (m ≤ b)
      × ((m ≡ b) ⊎ (occurs m fs ≡ true))
      × ((g : ℕ) → occurs g fs ≡ true → m ≤ g)
unfolding scan
scan-some [] b = (b, refl, omega arith, inl refl, λ g h. absurd (ground arith))
scan-some (f ∷ fs) b = elim (Bool-cases (ltb f b)) [
  | inl less ↦
      let (m, e, low, there, least) = scan-some fs f in
      (
        m,
        rw less e,
        ground (arith, low, less),
        inr (ground (arith, there)),
        λ g h. ground (arith, low, least g),
      )
  | inr more ↦
      let (m, e, low, there, least) = scan-some fs b in
      (m, rw more e, low, ground (arith, there), λ g h. ground (arith, low, least g))
]

-- The least of a list of frequencies, if there is one.
scan_cases :
    (fs : List ℕ)
    → (fs ≡ [])
      ⊎ ((m : ℕ) × (scan fs none ≡ some m)
          × (occurs m fs ≡ true)
          × ((g : ℕ) → occurs g fs ≡ true → m ≤ g))
unfolding scan
scan_cases [] = inl refl
scan_cases (f ∷ fs) =
    let (m, e, low, there, least) = scan-some fs f in
    inr (m, e, ground (arith, there), λ g h. ground (arith, low, least g))

-- Either there is no bucket, and the lowest frequency is 0, or it is that of a bucket.
pub lowest_freq-cases :
    (p : Lfu)
    → IsValid p
    → ((lowest_freq p ≡ 0) × ((g : ℕ) → lookup ℕ_discrete g p.buckets ≡ none))
      ⊎ ((m : ℕ) × (l : Elements) × (lowest_freq p ≡ m)
          × (1 ≤ m)
          × (lookup ℕ_discrete m p.buckets ≡ some l)
          × ((g : ℕ) → is_some (lookup ℕ_discrete g p.buckets) ≡ true → m ≤ g))
unfolding lowest_freq scan
lowest_freq-cases p v = elim (scan_cases (keys_of p.buckets)) [
  | inl empty ↦
      inl (rw (empty, lowest_freq) refl, λ g. ground (arith, occurs-keys_of g p.buckets, empty))
  | inr (m, e, there, least) ↦ elim (Option-cases (lookup ℕ_discrete m p.buckets)) [
    | inl miss ↦ absurd (ground (arith, occurs-keys_of m p.buckets))
    | inr (l, here) ↦ inr (
      m,
      l,
      rw (e, lowest_freq) refl,
      (v.indexed.sound.range m l here).0,
      here,
      λ g h. least g (occurs-keys_of g p.buckets ∙ h),
    )
  ]
]

-- The key is tracked, and no tracked key has a lower frequency.
abbrev pub IsLeast : Lfu → Key → Type 0
IsLeast p k = (f : ℕ) × (freq_of p k ≡ some f) × ((j : Key) (g : ℕ) → freq_of p j ≡ some g → f ≤ g)

abbrev pub IsLeastOrNone : Lfu → Option Key → Type 0
IsLeastOrNone p none = (j : Key) → freq_of p j ≡ none
IsLeastOrNone p (some k) = IsLeast p k

-- A key of a frequency is in a bucket.
bucket_of_freq :
    (p : Lfu)
    → IsValid p
    → (k : Key) (f : ℕ) → freq_of p k ≡ some f
    → is_some (lookup ℕ_discrete f p.buckets) ≡ true
bucket_of_freq p v k f h = elim (Option-cases (lookup key_dec k p.items)) [
  | inl miss ↦ absurd (ground arith)
  | inr (it, hit) ↦
      let (l, node, here, there, same) = find_node p v.indexed k it hit in ground (arith, here)
]

module _ (p : Lfu) (v : IsValid p) (m : ℕ) (l : Elements)
    (here : lookup ℕ_discrete m p.buckets ≡ some l) where
  -- An element of a bucket has the bucket's frequency.
  element-freq :
      (i : ℕ) (node : Node) → lookup ℕ_discrete i l ≡ some node → freq_of p node.key ≡ some m
  element-freq i node h = let e = v.indexed.back node.key m i (ground arith) in ground arith

  pub element-IsLeast :
      ((g : ℕ) → is_some (lookup ℕ_discrete g p.buckets) ≡ true → m ≤ g)
      → (i : ℕ) (node : Node) → lookup ℕ_discrete i l ≡ some node
      → IsLeast p node.key
  element-IsLeast least i node h =
      (m, element-freq i node h, λ j g e. least g (bucket_of_freq p v j g e))

victim_found :
    (p : Lfu) (m : ℕ) (l : Elements)
    → lowest_freq p ≡ m
    → 1 ≤ m
    → lookup ℕ_discrete m p.buckets ≡ some l
    → (x : ℕ × Node) → back l ≡ some x
    → victim p ≡ done (some x.1.key)
unfolding victim
victim_found p m l low pos here x e =
    let positive : m == 0 ≡ false = ground (arith, pos) in rw (low, victim, positive, here, e) refl

-- Victim of a valid LFU returns: a tracked key such that no tracked key has a lower frequency, or
-- nothing, and then no key is tracked.
pub victim-IsLeast : (p : Lfu) → IsValid p → Returns (victim p) (IsLeastOrNone p)
unfolding victim
victim-IsLeast p v = elim (lowest_freq-cases p v) [
  | inl (low, empty) ↦ (
    none,
    rw low refl,
    λ j. elim (Option-cases (freq_of p j)) [
      | inl e ↦ e
      | inr (f, e) ↦ absurd (ground (arith, bucket_of_freq p v j f e, empty f))
    ],
  )
  | inr (m, l, low, pos, here, least) ↦ elim (Option-cases (back l)) [
    | inl e ↦ absurd (v.full m l here (back-none l e))
    | inr ((i, node), e) ↦ (
      some node.key,
      victim_found p m l low pos here (i, node) e,
      element-IsLeast p v m l here least i node
          (lookup-back i node l (v.indexed.sound.elements m l here) e),
    )
  ]
]
