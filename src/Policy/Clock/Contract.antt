-- ===== src/Policy/Clock/Contract.antt =====
-- cache/policy/clock.go and the contract of an eviction policy. The key "" is left out, since it
-- marks an empty slot.
use adaptive_caching.Base.{
  ℕ, zero, suc, ◌*◌, ◌<◌, ◌≡◌, ◌≢◌, sym, refl, ap, subst, inl, inr, false, List, [], ◌∷◌, Option,
  none, some, arith, Key, key_dec, length, Bool-cases, Option-cases, lookup, done, Returns, is_some,
  is_zero,
}
use adaptive_caching.Policy.{View, IsLawful, IsChosen}
use adaptive_caching.Policy.Clock.{Slot, Clock, victim, sweep, reset, clock_policy}
use adaptive_caching.Policy.Clock.Ring.{key_at, occupied, find_occupied, lt-get_elem?}
use adaptive_caching.Policy.Clock.Sweep.{IsFound, sweep-IsFound, rounds}
use adaptive_caching.Policy.Clock.Invariant.{
  IsValid, tracks, reset-IsValid, on_access-IsValid, on_remove-IsValid, same_keys-IsValid,
}
use adaptive_caching.Policy.Clock.Insertion.{on_insert-IsValid}
use adaptive_caching.Policy.Clock.Batch.{candidates-tracked}
use adaptive_caching.Policy.Clock.Rebuild.{rebuild-IsValid}

occupied_pos : (i : ℕ) (k : Key) (ss : List Slot) → key_at i ss ≡ some k → k ≢ "" → 0 < occupied ss
occupied_pos i k [] h real = absurd (ground arith)
occupied_pos zero k (s ∷ ss) h real = ground arith
occupied_pos (suc i) k (s ∷ ss) h real = ground (arith, occupied_pos i k ss h real)

untracked : (p : Clock) → IsValid p → occupied p.slots ≡ 0 → (j : Key) → tracks p j ≡ false
untracked p v none_live j = elim (Option-cases (lookup key_dec j p.index)) [
  | inl miss ↦ ground arith
  | inr (i, hit) ↦
      let (at, real) = v.forth j i hit in
      absurd (omega (arith, occupied_pos i j p.slots at real, none_live))
]

-- Victim on a valid clock that tracks a key returns one, after at most two rounds of the hand, and
-- changes only the hand and reference bits, which it clears: the keys, the addresses of the entries,
-- the index and the counters stay.
pub victim-IsFound :
    (p : Clock) → IsValid p → is_zero p.live ≡ false → Returns (victim p) (IsFound p)
unfolding victim
victim-IsFound p v live =
    let busy : 0 < occupied p.slots = ground (arith, v.counted) in
    let (j, s, at, held) = find_occupied p.slots busy in
    let in_ring : j < p.cap = omega (arith, v.sized, lt-get_elem? j s p.slots at) in
    let lt : p.hand < p.cap = v.hand_in (omega (arith, in_ring)) in
    let enough : rounds p j s < 2 * length p.slots = ground (arith, v.sized) in
    let (r, ran, found) = sweep-IsFound (2 * length p.slots) p j s v.sized lt at held enough in
    (r, chain r found.key ran found.named, found)
  where
    chain :
        (r : Clock × Option Key) (k : Key)
        → sweep (2 * length p.slots) p ≡ done r
        → r.1 ≡ some k
        → victim p ≡ done r
    chain (q, o) k ran named = rw (live, ran) (ground arith)

-- What a clock is after a victim was found.
found-IsValid : (p : Clock) (r : Clock × Option Key) → IsValid p → IsFound p r → IsValid r.0
found-IsValid p r v f =
    same_keys-IsValid p r.0 v f.keeps.index f.keeps.cap f.keeps.live f.keeps.keys f.keeps.size
      (λ _. f.keeps.hand_in)

-- Victim, whether a key is tracked or not.
victim-IsChosen :
    (p : Clock)
    → IsValid p
    → Returns
        (victim p)
        (λ r. IsValid r.0 × ((j : Key) → tracks r.0 j ≡ tracks p j) × IsChosen (tracks p) r.1)
unfolding victim
victim-IsChosen p v = elim (Bool-cases (is_zero p.live)) [
  | inl idle ↦ ((p, none), ground arith, (v, λ j. refl, untracked p v (ground (arith, v.counted))))
  | inr busy ↦
      let (r, ran, f) = victim-IsFound p v busy in
      (
        r,
        ran,
        (
          found-IsValid p r v f,
          λ j. ap (λ index. is_some (lookup key_dec j index)) f.keeps.index,
          subst (IsChosen (tracks p)) (sym f.named)
              (ap is_some (v.back f.key f.place f.held f.real)),
        ),
      )
]

-- CLOCK cannot hold the key "", which marks an empty slot.
abbrev pub clock_view : View clock_policy
clock_view = record { Inv = IsValid; Admissible = λ k. k ≢ ""; tracks = tracks }

-- CLOCK is a lawful policy for all keys but "": no method panics (Candidates, as long as the slice
-- that it is asked for can be made), every loop ends within its bound, it tracks exactly the keys
-- that it was told of, and Victim and Candidates name tracked keys only.
pub clock-IsLawful : IsLawful clock_policy clock_view
unfolding lookup reset
clock-IsLawful = record {
  access_law = λ k e s v. on_access-IsValid k s v;
  insert_law = λ k e s v real. on_insert-IsValid k e s v real;
  remove_law = λ k o s v. on_remove-IsValid k s v;
  victim_law = victim-IsChosen;
  candidates_law = λ n s v makeable. candidates-tracked n s v makeable;
  param_law = λ k x s v. (v, λ j. refl);
  rebuild_law = λ es s d. rebuild-IsValid es s d;
  metadata_law = λ s v. (v, λ j. refl);
  reset_law = λ s. (reset-IsValid s, λ j. refl);
}
