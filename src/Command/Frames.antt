-- ===== src/Command/Frames.antt =====
-- How cmd/adaptive-cache/main.go resolves the policy and builds frames.
use adaptive_caching.Base.{
  ◌≤◌, ◌≡◌, ◌≢◌, ◌⊎◌, refl, sym, ◌∙◌, ap, inl, inr, true, false, none, some, arith, Key, key_dec,
  Int64, lt64, length, Bool-cases, Option-cases, lookup,
}
use adaptive_caching.Floats.{
  Platform, literal, of_int64, div_float, lt_float, round_ratio, exponent,
}
use adaptive_caching.Floats.Order.{lt_float_irrefl}
use adaptive_caching.Types.{Time, sub_time}
use adaptive_caching.Policy.{EvictionPolicy, View, IsLawful}
use adaptive_caching.Policy.Registry.{Registry, is_known, new_policy}
use adaptive_caching.Metrics.Memory.{Sizes}
use adaptive_caching.Metrics.Snapshot.{snapshot}
use adaptive_caching.Store.Invariant.{payload}
use adaptive_caching.Cache.{Cache}
use adaptive_caching.Cache.Invariant.{IsValid}
use adaptive_caching.Cache.Occupancy.{policy_bytes-PolicyFits, memory, stats, stats-IsValid}
use adaptive_caching.Config.{Config}
use adaptive_caching.Config.Checks.{IsSane}
use adaptive_caching.Command.{resolved, resolve, chosen_name, progress_of, build_frame}

nothing_done : lt_float (literal 1 1) (literal 0 1) ≡ false
unfolding lt_float literal round_ratio exponent
nothing_done = refl

-- The progress of a run is not above 1.
progress_of-bounded :
    (elapsed total : Int64) → lt_float (literal 1 1) (progress_of elapsed total) ≡ false
unfolding progress_of
progress_of-bounded elapsed total = elim (Bool-cases (lt64 0 total)) [
  | inr none_set ↦ rw none_set nothing_done
  | inl some_set ↦
      elim (Bool-cases (lt_float (literal 1 1) (div_float (of_int64 elapsed) (of_int64 total)))) [
        | inl over ↦ rw (some_set, over) (lt_float_irrefl (literal 1 1))
        | inr within ↦ rw (some_set, within) within
      ]
]

module _ {p : EvictionPolicy} {view : View p} (law : IsLawful p view) where
  memory-IsValid : (sizes : Sizes) (c : Cache p) → IsValid law c → IsValid law (memory p sizes c).0
  unfolding memory
  memory-IsValid sizes c v = record {
    store_valid = v.store_valid;
    fits = policy_bytes-PolicyFits law c.policy c.store v.fits;
    resident = v.resident;
    bus_valid = v.bus_valid;
  }

  -- To build a frame of a valid cache leaves it valid. The frame reports the sum of the resident
  -- objects' sizes, which is at most the capacity that it reports, their number, and a progress
  -- that is not above 1.
  pub build_frame-IsValid :
      (pf : Platform) (sizes : Sizes) (start now : Time) (total : Int64) (c : Cache p)
      → IsValid law c
      → IsValid law (build_frame p pf sizes start now total c).0
        × ((build_frame p pf sizes start now total c).1.bytes_used ≡ payload c.store.items)
        × ((build_frame p pf sizes start now total c).1.capacity ≡ c.store.capacity)
        × (payload c.store.items ≤ c.store.capacity)
        × ((build_frame p pf sizes start now total c).1.object_count ≡ length c.store.items)
        × (lt_float (literal 1 1) (build_frame p pf sizes start now total c).1.progress ≡ false)
  unfolding build_frame snapshot memory
  build_frame-IsValid pf sizes start now total c v =
      let (v', store, capacity, bytes, count, rest) = stats-IsValid law sizes c v in
      (
        memory-IsValid sizes (stats p sizes c) v',
        bytes,
        ap (λ s. s.capacity) store,
        v.store_valid.within,
        count,
        progress_of-bounded (sub_time now start) total,
      )

unset_flag : (c : Config) → chosen_name "" c ≡ c.cache.policy
unfolding chosen_name key_dec
unset_flag c = refl

module _ {P : Type 0} (r : Registry P) (flag : Key) (c : Config) where
  resolve-none : chosen_name flag c ≡ "none" → resolve r flag c ≡ resolved none
  unfolding resolve
  resolve-none e = ground (arith, e)

  resolve-some :
      (q : P)
      → chosen_name flag c ≢ "none"
      → new_policy (chosen_name flag c) r ≡ some q
      → resolve r flag c ≡ resolved (some q)
  unfolding resolve
  resolve-some q n e = ground (arith, n, e)

  constructed : (name : Key) → is_known name r ≡ true → (q : P) × (new_policy name r ≡ some q)
  unfolding is_known new_policy
  constructed name known = elim (Option-cases (lookup key_dec name r)) [
    | inl miss ↦ absurd (ground arith)
    | inr (ctor, hit) ↦ (ctor tt, rw (hit, new_policy) refl)
  ]

-- A run without the flag --policy, of a configuration that passed Validate, resolves its policy: none
-- for the name "none", and else the one that the registry builds under the configured name; it never
-- ends with the error of an unknown policy.
pub resolve-IsSane :
    {P : Type 0} (r : Registry P) (c : Config)
    → IsSane r c
    → ((c.cache.policy ≡ "none") × (resolve r "" c ≡ resolved none))
      ⊎ ((q : P) × (new_policy c.cache.policy r ≡ some q) × (resolve r "" c ≡ resolved (some q)))
resolve-IsSane r c s = elim (key_dec c.cache.policy "none") [
  | yes e ↦ inl (e, resolve-none r "" c (unset_flag c ∙ e))
  | no n ↦ elim s.policy [
    | inl e ↦ absurd (n e)
    | inr (some_text, known) ↦
        let (q, built) = constructed r "" c c.cache.policy known in
        inr (
          q,
          built,
          resolve-some r "" c q (λ e. n (sym (unset_flag c) ∙ e))
              (ap (λ k. new_policy k r) (unset_flag c) ∙ built),
        )
  ]
]
