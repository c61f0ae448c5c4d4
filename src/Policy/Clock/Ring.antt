-- ===== src/Policy/Clock/Ring.antt =====
-- The ring of cache/policy/clock.go: keys by position, the number of occupied slots, the way round.
use native.Mathlib.Nat.{mod_self, mod-eq_of_lt}
use adaptive_caching.Base.{
  ℕ, zero, suc, ◌+◌, ◌-◌, ◌%◌, ◌<◌, ◌≤◌, ◌≡◌, ◌≢◌, ◌⊎◌, ◌∙◌, ◌&&◌, Bool, inl, inr, refl, ap, true,
  false, List, [], ◌∷◌, Option, none, some, arith, Key, get_elem?, set, length, ltb, leb,
  if◌then◌else◌, Bool-cases,
}
use adaptive_caching.Policy.Clock.{Slot, is_free, spare}

-- The key in a slot; "" where it is empty.
abbrev pub key_at : ℕ → List Slot → Option Key
key_at i [] = none
key_at zero (s ∷ ss) = some s.key
key_at (suc i) (s ∷ ss) = key_at i ss

abbrev pub occupied : List Slot → ℕ
occupied [] = 0
occupied (s ∷ ss) = if is_free s then occupied ss else suc (occupied ss)

pub key_at-get_elem? :
    (i : ℕ) (s : Slot) (ss : List Slot) → get_elem? ss i ≡ some s → key_at i ss ≡ some s.key
key_at-get_elem? i s [] h = absurd (ground arith)
key_at-get_elem? zero s (t ∷ ss) h = ground arith
key_at-get_elem? (suc i) s (t ∷ ss) h = key_at-get_elem? i s ss h

pub get_elem?-key_at :
    (i : ℕ) (k : Key) (ss : List Slot)
    → key_at i ss ≡ some k
    → (s : Slot) × (get_elem? ss i ≡ some s) × (s.key ≡ k)
get_elem?-key_at i k [] h = absurd (ground arith)
get_elem?-key_at zero k (t ∷ ss) h = (t, refl, ground arith)
get_elem?-key_at (suc i) k (t ∷ ss) h = get_elem?-key_at i k ss h

-- A position of the ring has a slot.
pub get_elem?-lt : (i : ℕ) (ss : List Slot) → i < length ss → (s : Slot) × (get_elem? ss i ≡ some s)
get_elem?-lt i [] h = absurd (omega (arith, h))
get_elem?-lt zero (s ∷ ss) h = (s, refl)
get_elem?-lt (suc i) (s ∷ ss) h = get_elem?-lt i ss (omega (arith, h))

pub lt-get_elem? : (i : ℕ) (s : Slot) (ss : List Slot) → get_elem? ss i ≡ some s → i < length ss
lt-get_elem? i s [] h = absurd (ground arith)
lt-get_elem? zero s (t ∷ ss) h = omega arith
lt-get_elem? (suc i) s (t ∷ ss) h = omega (arith, lt-get_elem? i s ss h)

-- A write that keeps the key of its slot keeps all keys.
pub key_at-set :
    (i : ℕ) (s t : Slot) (ss : List Slot) (j : ℕ)
    → get_elem? ss i ≡ some s
    → s.key ≡ t.key
    → key_at j (set ss i t) ≡ key_at j ss
key_at-set i s t [] j h e = refl
key_at-set zero s t (u ∷ ss) zero h e = ground arith
key_at-set zero s t (u ∷ ss) (suc j) h e = refl
key_at-set (suc i) s t (u ∷ ss) zero h e = refl
key_at-set (suc i) s t (u ∷ ss) (suc j) h e = key_at-set i s t ss j h e

-- A slot before and after: the key and the address of the entry stay, and the reference bit can only
-- be cleared.
abbrev pub KeepsSlot : Option Slot → Option Slot → Type 0
KeepsSlot none none = Unit
KeepsSlot none (some t) = ⊥
KeepsSlot (some s) none = ⊥
KeepsSlot (some s) (some t) = (t.key ≡ s.key) × (t.e ≡ s.e) × (t.ref ≡ s.ref && t.ref)

pub KeepsSlot-refl : (o : Option Slot) → KeepsSlot o o
KeepsSlot-refl none = tt
KeepsSlot-refl (some s) = (refl, refl, and_self s.ref)
  where
    and_self : (b : Bool) → b ≡ b && b
    and_self true = refl
    and_self false = refl

pub KeepsSlot-trans : (o o' o'' : Option Slot) → KeepsSlot o o' → KeepsSlot o' o'' → KeepsSlot o o''
KeepsSlot-trans none none none h k = tt
KeepsSlot-trans none none (some u) h k = k
KeepsSlot-trans none (some t) o h k = absurd h
KeepsSlot-trans (some s) none o h k = absurd h
KeepsSlot-trans (some s) (some t) none h k = k
KeepsSlot-trans (some s) (some t) (some u) h k =
    (k.0 ∙ h.0, k.1 ∙ h.1, and_trans s.ref t.ref u.ref h.2 k.2)
  where
    and_trans : (a b c : Bool) → b ≡ a && b → c ≡ b && c → c ≡ a && c
    and_trans true b c h k = refl
    and_trans false true c h k = absurd (ground arith)
    and_trans false false c h k = k

pub KeepsSlot-spare :
    (i : ℕ) (s : Slot) (ss : List Slot) (j : ℕ)
    → get_elem? ss i ≡ some s
    → KeepsSlot (get_elem? ss j) (get_elem? (set ss i (spare s)) j)
KeepsSlot-spare i s [] j h = tt
KeepsSlot-spare zero s (u ∷ ss) zero h = (ground arith, ground arith, ground arith)
KeepsSlot-spare zero s (u ∷ ss) (suc j) h = KeepsSlot-refl (get_elem? ss j)
KeepsSlot-spare (suc i) s (u ∷ ss) zero h = KeepsSlot-refl (some u)
KeepsSlot-spare (suc i) s (u ∷ ss) (suc j) h = KeepsSlot-spare i s ss j h

-- The steps from one position of a ring to another.
abbrev pub distance : ℕ → ℕ → ℕ → ℕ
distance cap h j = if leb h j then j - h else j + cap - h

-- The next position, and the steps that are left from there.
pub next-cases :
    (cap h : ℕ)
    → h < cap
    → (((h + 1) % cap ≡ h + 1) × (h + 1 < cap)) ⊎ (((h + 1) % cap ≡ 0) × (h + 1 ≡ cap))
next-cases cap h lt = elim (Bool-cases (ltb (h + 1) cap)) [
  | inl b ↦ inl (mod-eq_of_lt (ground arith), ground arith)
  | inr b ↦ let e : h + 1 ≡ cap = ground arith in inr (rw e (mod_self cap), e)
]

pub distance-next :
    (cap h j : ℕ)
    → h < cap
    → j < cap
    → h ≢ j
    → suc (distance cap ((h + 1) % cap) j) ≡ distance cap h j
distance-next cap h j lt in_ring other = elim (next-cases cap h lt) [
  | inl (e, b) ↦ rw e (ground (arith, other))
  | inr (e, b) ↦ rw e (ground (arith, other))
]

pub distance_round : (cap h : ℕ) → h < cap → suc (distance cap ((h + 1) % cap) h) ≡ cap
distance_round cap h lt = elim (next-cases cap h lt) [
  | inl (e, b) ↦ rw e (ground arith)
  | inr (e, b) ↦ rw e (ground arith)
]

pub next-lt : (cap h : ℕ) → h < cap → (h + 1) % cap < cap
next-lt cap h lt = elim (next-cases cap h lt) [
  | inl (e, b) ↦ rw e b
  | inr (e, b) ↦ rw e (omega (arith, lt))
]

pub find_occupied :
    (ss : List Slot)
    → 0 < occupied ss
    → (j : ℕ) × (s : Slot) × (get_elem? ss j ≡ some s) × (is_free s ≡ false)
find_occupied [] h = absurd (omega (arith, h))
find_occupied (s ∷ ss) h = elim (Bool-cases (is_free s)) [
  | inl free ↦
      let (j, t, at, busy) = find_occupied ss (ground (arith, h, free)) in (suc j, t, at, busy)
  | inr busy ↦ (0, s, refl, busy)
]

pub find_free :
    (ss : List Slot)
    → occupied ss < length ss
    → (j : ℕ) × (s : Slot) × (get_elem? ss j ≡ some s) × (is_free s ≡ true)
find_free [] h = absurd (omega (arith, h))
find_free (s ∷ ss) h = elim (Bool-cases (is_free s)) [
  | inl free ↦ (0, s, refl, free)
  | inr busy ↦ let (j, t, at, free) = find_free ss (ground (arith, h, busy)) in (suc j, t, at, free)
]

pub occupied_bounded : (ss : List Slot) → occupied ss ≤ length ss
occupied_bounded [] = omega arith
occupied_bounded (s ∷ ss) = ground (arith, occupied_bounded ss)

-- The number of occupied slots depends on the keys alone.
pub occupied_keys :
    (ss ts : List Slot) → ((i : ℕ) → key_at i ss ≡ key_at i ts) → occupied ss ≡ occupied ts
occupied_keys [] [] h = refl
occupied_keys [] (t ∷ ts) h = absurd (ground (arith, h 0))
occupied_keys (s ∷ ss) [] h = absurd (ground (arith, h 0))
occupied_keys (s ∷ ss) (t ∷ ts) h = ground (arith, h 0, occupied_keys ss ts (λ i. h (suc i)))

-- A write moves the count by what it writes.
pub occupied-set :
    (ss : List Slot) (i : ℕ) (s t : Slot)
    → get_elem? ss i ≡ some s
    → occupied (set ss i t) + (if is_free s then 0 else 1)
      ≡ occupied ss + (if is_free t then 0 else 1)
occupied-set [] i s t h = absurd (ground arith)
occupied-set (u ∷ ss) zero s t h = ground arith
occupied-set (u ∷ ss) (suc i) s t h = ground (arith, occupied-set ss i s t h)

pub key_at-lt : (i : ℕ) (k : Key) (ss : List Slot) → key_at i ss ≡ some k → i < length ss
key_at-lt i k [] h = absurd (ground arith)
key_at-lt zero k (t ∷ ss) h = omega arith
key_at-lt (suc i) k (t ∷ ss) h = omega (arith, key_at-lt i k ss h)

-- The keys after a write.
pub key_at-set_self :
    (i : ℕ) (t : Slot) (ss : List Slot) → i < length ss → key_at i (set ss i t) ≡ some t.key
key_at-set_self i t [] h = absurd (omega (arith, h))
key_at-set_self zero t (u ∷ ss) h = refl
key_at-set_self (suc i) t (u ∷ ss) h = key_at-set_self i t ss (omega (arith, h))

pub key_at-set_ne :
    (i j : ℕ) (t : Slot) (ss : List Slot) → i ≢ j → key_at j (set ss i t) ≡ key_at j ss
key_at-set_ne i j t [] h = refl
key_at-set_ne zero zero t (u ∷ ss) h = absurd (h refl)
key_at-set_ne zero (suc j) t (u ∷ ss) h = refl
key_at-set_ne (suc i) zero t (u ∷ ss) h = refl
key_at-set_ne (suc i) (suc j) t (u ∷ ss) h = key_at-set_ne i j t ss (λ e. h (ap suc e))
