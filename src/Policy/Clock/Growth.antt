-- ===== src/Policy/Clock/Growth.antt =====
-- growLocked of cache/policy/clock.go.
use native.Mathlib.Nat.{mod-lt}
use adaptive_caching.Base.{
  ℕ, zero, suc, ◌+◌, ◌-◌, ◌%◌, ◌<◌, ◌≡◌, ◌≢◌, ◌∙◌, sym, refl, ap, inl, inr, false, List, [], ◌∷◌,
  ◌++◌, some, arith, Key, key_dec, get_elem?, set, length, replicate, length-append,
  length-replicate, Bool-cases, lookup, upsert, lookup-upsert, done, Returns, pos, is_below,
}
use adaptive_caching.Policy.Clock.{
  Slot, Clock, empty_slot, is_free, compact, new_cap, grow, update_slot,
}
use adaptive_caching.Policy.Clock.Ring.{key_at, occupied, occupied_bounded}
use adaptive_caching.Policy.Clock.Invariant.{IsValid}

append_one : (pre ss : List Slot) (x : Slot) → pre ++ (x ∷ ss) ≡ (pre ++ (x ∷ [])) ++ ss
append_one [] ss x = refl
append_one (p ∷ pre) ss x = ap (λ l. p ∷ l) (append_one pre ss x)

set-append :
    (pre ss : List Slot) (s x : Slot) → set (pre ++ (s ∷ ss)) (length pre) x ≡ pre ++ (x ∷ ss)
set-append [] ss s x = refl
set-append (p ∷ pre) ss s x = ap (λ l. p ∷ l) (set-append pre ss s x)

get_elem?-append :
    (pre ss : List Slot) (s : Slot) → get_elem? (pre ++ (s ∷ ss)) (length pre) ≡ some s
get_elem?-append [] ss s = refl
get_elem?-append (p ∷ pre) ss s = get_elem?-append pre ss s

key_at-append :
    (i : ℕ) (k : Key) (ss ts : List Slot) → key_at i ss ≡ some k → key_at i (ss ++ ts) ≡ some k
key_at-append i k [] ts h = absurd (ground arith)
key_at-append zero k (s ∷ ss) ts h = h
key_at-append (suc i) k (s ∷ ss) ts h = key_at-append i k ss ts h

pub key_at-replicate : (i m : ℕ) (k : Key) → key_at i (replicate m empty_slot) ≡ some k → k ≡ ""
key_at-replicate i zero k h = absurd (ground arith)
key_at-replicate zero (suc m) k h = ground arith
key_at-replicate (suc i) (suc m) k h = key_at-replicate i m k h

key_at-append_empty :
    (i m : ℕ) (k : Key) (ss : List Slot)
    → key_at i (ss ++ replicate m empty_slot) ≡ some k
    → k ≢ ""
    → key_at i ss ≡ some k
key_at-append_empty i m k [] h real = absurd (real (key_at-replicate i m k h))
key_at-append_empty zero m k (s ∷ ss) h real = h
key_at-append_empty (suc i) m k (s ∷ ss) h real = key_at-append_empty i m k ss h real

replicate-sum :
    (a b : ℕ) → replicate (a + b) empty_slot ≡ replicate a empty_slot ++ replicate b empty_slot
replicate-sum zero b = ap (λ n. replicate n empty_slot) (omega arith)
replicate-sum (suc a) b =
    let step : suc a + b ≡ suc (a + b) = omega arith in
    ap (λ n. replicate n empty_slot) step ∙ ap (λ l. empty_slot ∷ l) (replicate-sum a b)

pub occupied-replicate : (m : ℕ) → occupied (replicate m empty_slot) ≡ 0
occupied-replicate zero = refl
occupied-replicate (suc m) = ground (arith, occupied-replicate m)

occupied-append_empty :
    (m : ℕ) (ss : List Slot) → occupied (ss ++ replicate m empty_slot) ≡ occupied ss
occupied-append_empty m [] = occupied-replicate m
occupied-append_empty m (s ∷ ss) = ground (arith, occupied-append_empty m ss)

full_real :
    (ss : List Slot) (i : ℕ) (k : Key) → occupied ss ≡ length ss → key_at i ss ≡ some k → k ≢ ""
full_real [] i k full h = absurd (ground arith)
full_real (s ∷ ss) zero k full h = λ e. ground (arith, occupied_bounded ss)
full_real (s ∷ ss) (suc i) k full h = full_real ss i k (ground (arith, occupied_bounded ss)) h

-- The index says where the slots are, the first of which is at `n`.
abbrev Placed : ℕ → List Slot → List (Key × ℕ) → Type 0
Placed n ss index = (i : ℕ) (k : Key) → key_at i ss ≡ some k → lookup key_dec k index ≡ some (n + i)

-- What compact makes of full slots: they come first, in their order, and the index stays as it is.
abbrev Compacted : List Slot → List Slot → ℕ → List (Key × ℕ) → Type 0
Compacted pre old m index =
    (index' : List (Key × ℕ)) × (compact (length pre) old
        (pre ++ (replicate (length old) empty_slot ++ replicate m empty_slot)) index
      ≡ done (pre ++ (old ++ replicate m empty_slot), index', length pre + length old))
    × ((k : Key) → lookup key_dec k index' ≡ lookup key_dec k index)

compact_none : (pre : List Slot) (m : ℕ) (index : List (Key × ℕ)) → Compacted pre [] m index
unfolding compact
compact_none pre m index = (index, ground arith, λ k. refl)

-- One round of compact, on an occupied slot.
module _ (pre old : List Slot) (x : Slot) (m : ℕ) (index : List (Key × ℕ)) where
  abbrev noted : List (Key × ℕ)
  noted = upsert key_dec x.key (length pre) index

  length-one : length (pre ++ (x ∷ [])) ≡ suc (length pre)
  length-one = omega (arith, length-append pre (x ∷ []))

  updated :
      (ss : List Slot)
      → update_slot (length pre) (λ _. x) (pre ++ (empty_slot ∷ ss)) ≡ done (pre ++ (x ∷ ss))
  updated ss = ground (arith, get_elem?-append pre ss empty_slot, set-append pre ss empty_slot x)

  compact_step :
      (ss : List Slot)
      → is_free x ≡ false
      → compact (length pre) (x ∷ old) (pre ++ (empty_slot ∷ ss)) index
        ≡ compact (length (pre ++ (x ∷ []))) old ((pre ++ (x ∷ [])) ++ ss) noted
  unfolding compact
  compact_step ss busy = rw (length-one, ← append_one pre ss x) (ground (arith, updated ss))

  noted_same :
      Placed (length pre) (x ∷ old) index
      → (k : Key) → lookup key_dec k noted ≡ lookup key_dec k index
  noted_same at k =
      ground (arith, lookup-upsert key_dec x.key k (length pre) index, at 0 x.key refl)

  compact_next :
      is_free x ≡ false
      → Placed (length pre) (x ∷ old) index
      → Compacted (pre ++ (x ∷ [])) old m noted
      → Compacted pre (x ∷ old) m index
  compact_next busy at (index', ran, kept) =
      let total : length (pre ++ (x ∷ [])) + length old ≡ length pre + suc (length old) =
        omega (arith, length-one) in
      (
        index',
        compact_step (replicate (length old) empty_slot ++ replicate m empty_slot) busy
            ∙ ran
            ∙ ap (λ l. done (l, index', length (pre ++ (x ∷ [])) + length old))
                (sym (append_one pre (old ++ replicate m empty_slot) x))
            ∙ ap (λ n. done (pre ++ (x ∷ (old ++ replicate m empty_slot)), index', n)) total,
        λ k. kept k ∙ noted_same at k,
      )

compact_full :
    (pre old : List Slot) (m : ℕ) (index : List (Key × ℕ))
    → occupied old ≡ length old
    → Placed (length pre) old index
    → Compacted pre old m index
compact_full pre [] m index full at = compact_none pre m index
compact_full pre (x ∷ old) m index full at =
    compact_next pre old x m index (ground (arith, occupied_bounded old)) at (
      compact_full (pre ++ (x ∷ [])) old m (noted pre old x m index)
        (ground (arith, occupied_bounded old))
        (λ i k h.
          ground (
            arith,
            noted_same pre old x m index at k,
            at (suc i) k h,
            length-one pre old x m index,
          )))

-- A full ring grows into one with the same slots and empty ones after them.
abbrev grown : List (Key × ℕ) → ℕ → Clock → Clock
grown index m p = record {
  index = index;
  slots = p.slots ++ replicate m empty_slot;
  hand = p.cap % (p.cap + m);
  cap = p.cap + m;
  live = pos p.cap;
}

module _ (p : Clock) (v : IsValid p) where
  grown-IsValid :
      (index : List (Key × ℕ)) (m : ℕ)
      → 0 < m
      → occupied p.slots ≡ p.cap
      → ((k : Key) → lookup key_dec k index ≡ lookup key_dec k p.index)
      → IsValid (grown index m p)
  grown-IsValid index m more full kept = record {
    sized = omega (
      arith,
      length-append p.slots (replicate m empty_slot),
      length-replicate m empty_slot,
      v.sized,
    );
    hand_in = λ h. mod-lt p.cap h;
    forth = λ k i h.
        let old = v.forth k i (sym (kept k) ∙ h) in
        (key_at-append i k p.slots (replicate m empty_slot) old.0, old.1);
    back = λ k i h real. kept k ∙ v.back k i (key_at-append_empty i m k p.slots h real) real;
    counted = ap pos (sym (occupied-append_empty m p.slots ∙ full));
  }

  grow_full :
      (m : ℕ)
      → is_below p.live p.cap ≡ false
      → occupied p.slots ≡ p.cap
      → new_cap p.cap ≡ p.cap + m
      → (c : Compacted [] p.slots m p.index) → grow p ≡ done (grown c.0 m p)
  unfolding grow
  grow_full m full all size (index, ran, kept) =
      let blank : replicate (new_cap p.cap) empty_slot
          ≡ replicate (length p.slots) empty_slot ++ replicate m empty_slot =
        ap (λ n. replicate n empty_slot) (size ∙ ap (λ n. n + m) (sym v.sized))
        ∙ replicate-sum (length p.slots) m in
      rw (full, blank, ran, size) (ground (arith, v.sized))

  -- After growLocked there is a free slot, and the same keys are tracked.
  pub grow-IsValid : Returns (grow p) (λ p'.
      IsValid p'
      × (occupied p'.slots < p'.cap)
      × ((k : Key) → lookup key_dec k p'.index ≡ lookup key_dec k p.index))
  unfolding grow
  grow-IsValid = elim (Bool-cases (is_below p.live p.cap)) [
    | inl room ↦ (p, ground arith, (v, ground (arith, v.counted), λ k. refl))
    | inr no_room ↦
        let full : occupied p.slots ≡ p.cap =
          ground (arith, v.counted, occupied_bounded p.slots, v.sized) in
        let m : ℕ = new_cap p.cap - p.cap in
        let size : new_cap p.cap ≡ p.cap + m = ground arith in
        let more : 0 < m = ground arith in
        let all = full ∙ sym v.sized in
        let c : Compacted [] p.slots m p.index =
          compact_full [] p.slots m p.index all
            (λ i k h. v.back k i h (full_real p.slots i k all h) ∙ ap some (omega arith)) in
        (
          grown c.0 m p,
          grow_full m no_room full size c,
          (
            grown-IsValid c.0 m more full c.2,
            omega (arith, occupied-append_empty m p.slots, full, more),
            c.2,
          ),
        )
  ]
