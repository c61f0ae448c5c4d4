-- ===== src/Policy/Lfu/Access.antt =====
-- OnAccess of cache/policy/lfu.go, with the ageing that it triggers.
use adaptive_caching.Base.{
  ℕ, ◌+◌, ◌%◌, ◌≡◌, refl, ◌∙◌, ap, inl, inr, some, arith, Key, key_dec, two64, lookup, Option-cases,
  done, Returns, ◌>>=◌, ltb, leb, Bool-cases, is_some, MapOrder,
}
use adaptive_caching.Policy.Lfu.{Lfu, Item, age, increment, tick, on_access}
use adaptive_caching.Policy.Lfu.Invariant.{IsValid, tuned-IsValid}
use adaptive_caching.Policy.Lfu.Moves.{freq_of, increment-IsMoved}
use adaptive_caching.Policy.Lfu.Passes.{passed-is_some, pass_order, age-passed}

abbrev count_of : ℕ → Lfu → Lfu
count_of c p = record p { age_cnt = c }

count_of-IsValid : (c : ℕ) (p : Lfu) → IsValid p → IsValid (count_of c p)
count_of-IsValid c p v = tuned-IsValid p.decay c p.age_max p v

-- The keys stay the same.
abbrev pub IsSameSet : Lfu → Lfu → Type 0
IsSameSet p p' = (k : Key) → is_some (freq_of p' k) ≡ is_some (freq_of p k)

tick_due :
    (m : MapOrder) (p : Lfu) (c : ℕ)
    → IsValid p
    → Returns
        (age m (count_of c p) >>= (λ p'. done (count_of 0 p')))
        (λ p'. IsValid p' × IsSameSet p p')
tick_due m p c v =
    let (r, ran, (v', freqs)) = age-passed m (count_of c p) (count_of-IsValid c p v) in
    (
      count_of 0 r,
      rw ran refl,
      (
        count_of-IsValid 0 r v',
        λ k. ap is_some (freqs k) ∙ passed-is_some (pass_order m p) (freq_of p k),
      ),
    )

tick-IsValid :
    (m : MapOrder) (p : Lfu) → IsValid p → Returns (tick m p) (λ p'. IsValid p' × IsSameSet p p')
unfolding tick
tick-IsValid m p v = elim (Bool-cases (ltb 0 p.age_max)) [
  | inr off ↦ (p, rw off refl, (v, λ k. refl))
  | inl on ↦ elim (Bool-cases (leb p.age_max ((p.age_cnt + 1) % two64))) [
    | inr early ↦ (
      count_of ((p.age_cnt + 1) % two64) p,
      rw (on, early) refl,
      (count_of-IsValid ((p.age_cnt + 1) % two64) p v, λ k. refl),
    )
    | inl due ↦
        let (r, ran, a) = tick_due m p ((p.age_cnt + 1) % two64) v in (r, rw (on, due) ran, a)
  ]
]

on_access_present :
    (m : MapOrder) (key : Key) (p : Lfu) (it : Item)
    → lookup key_dec key p.items ≡ some it
    → on_access m key p ≡ (increment key it p >>= tick m)
unfolding on_access
on_access_present m key p it hit = rw (hit, on_access) refl

-- OnAccess of a valid LFU returns, whatever the order of the map, keeps it valid and tracks the
-- same keys.
pub on_access-IsValid :
    (m : MapOrder) (key : Key) (p : Lfu)
    → IsValid p
    → Returns (on_access m key p) (λ p'. IsValid p' × IsSameSet p p')
unfolding on_access
on_access-IsValid m key p v = elim (Option-cases (lookup key_dec key p.items)) [
  | inl miss ↦ (p, rw (miss, on_access) refl, (v, λ k. refl))
  | inr (it, hit) ↦
      let (q, ran, (moved, full)) = increment-IsMoved p v.indexed key it hit in
      let (r, ran', (v', same)) =
        tick-IsValid m q
          (record { indexed = moved.indexed; full = full v.full; exact = moved.exact v.exact }) in
      (
        r,
        on_access_present m key p it hit ∙ ap (λ x. x >>= tick m) ran ∙ ran',
        (v', λ k. same k ∙ ap is_some (moved.freqs k) ∙ ground arith),
      )
]
