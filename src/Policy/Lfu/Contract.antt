-- ===== src/Policy/Lfu/Contract.antt =====
-- cache/policy/lfu.go and the contract of an eviction policy.
use adaptive_caching.Base.{
  ◌≡◌, refl, ◌∙◌, ap, inl, inr, Bool, List, [], ◌∷◌, Option, none, some, arith, Key, is_some,
  Bool-cases, done, ◌>>=◌, ◌==◌, MapOrder,
}
use adaptive_caching.Floats.{Platform}
use adaptive_caching.Types.{Entry}
use adaptive_caching.Policy.{View, IsLawful, IsChosen, listed}
use adaptive_caching.Policy.Lfu.{Lfu, on_remove, rebuild, metadata_bytes}
use adaptive_caching.Policy.Lfu.Tuning.{lfu_policy}
use adaptive_caching.Policy.Lfu.Invariant.{IsValid}
use adaptive_caching.Policy.Lfu.Moves.{freq_of}
use adaptive_caching.Policy.Lfu.Membership.{on_insert-IsValid, on_remove-IsValid}
use adaptive_caching.Policy.Lfu.Decay.{set_param-IsValid}
use adaptive_caching.Policy.Lfu.Rebuild.{started, reset-IsValid, freq_of-reset, rebuild-IsValid}
use adaptive_caching.Policy.Lfu.Access.{on_access-IsValid}
use adaptive_caching.Policy.Lfu.Victim.{IsLeastOrNone, victim-IsLeast}
use adaptive_caching.Policy.Lfu.Batch.{candidates-tracked}

started-listed : (es : List Entry) (k : Key) → is_some (started es k) ≡ listed k es
started-listed [] k = refl
started-listed (e ∷ es) k = ground (arith, started-listed es k)

abbrev pub tracks : Lfu → Key → Bool
tracks p k = is_some (freq_of p k)

chosen : (p : Lfu) (o : Option Key) → IsLeastOrNone p o → IsChosen (tracks p) o
chosen p none h = λ j. ap is_some (h j)
chosen p (some k) (f, e, least) = ap is_some e

metadata_bytes-IsValid :
    (p : Lfu)
    → IsValid p
    → IsValid (metadata_bytes p).0 × ((j : Key) → tracks (metadata_bytes p).0 j ≡ tracks p j)
unfolding metadata_bytes
metadata_bytes-IsValid p v = elim (Bool-cases (p.metadata == 0)) [
  | inl unset ↦ rw unset (
    record {
      indexed = record {
        sound = v.indexed.sound;
        keyed = v.indexed.keyed;
        forth = v.indexed.forth;
        back = v.indexed.back;
        fresh = v.indexed.fresh;
      };
      full = v.full;
      exact = record { counted = v.exact.counted; accounted = omega (arith, v.exact.counted) };
    },
    λ j. refl,
  )
  | inr known ↦ rw known (v, λ j. refl)
]

-- LFU can hold every key.
abbrev pub lfu_view : (pf : Platform) (m : MapOrder) → View (lfu_policy pf m)
lfu_view pf m = record { Inv = IsValid; Admissible = λ _. Unit; tracks = tracks }

-- Whatever the platform makes of conversions that do not fit, and whatever the order in which maps
-- are iterated, LFU is a lawful policy: no method panics or loops (Candidates, as long as the slice
-- that it is asked for can be made), it tracks exactly the keys that it was told of, and Victim and
-- Candidates name tracked keys only.
pub lfu-IsLawful : (pf : Platform) (m : MapOrder) → IsLawful (lfu_policy pf m) (lfu_view pf m)
lfu-IsLawful pf m = record {
  access_law = λ k e s v. on_access-IsValid m k s v;
  insert_law = λ k e s v _.
      let (r, ran, (v', freqs)) = on_insert-IsValid k e s v in
      (r, ran, (v', λ j. ap is_some (freqs j) ∙ ground arith));
  remove_law = λ k o s v.
      let (v', freqs) = on_remove-IsValid k s v in
      (on_remove k s, refl, (v', λ j. ap is_some (freqs j) ∙ ground arith));
  victim_law = λ s v.
      let (r, ran, least) = victim-IsLeast s v in
      ((s, r), ap (λ x. x >>= (λ k. done (s, k))) ran, (v, λ j. refl, chosen s r least));
  candidates_law = λ n s v makeable.
      let (ks, ran, named) = candidates-tracked s n v makeable in
      ((s, ks), ap (λ x. x >>= (λ ks. done (s, ks))) ran, (v, λ j. refl, named));
  param_law = λ k x s v. set_param-IsValid pf k x s v;
  rebuild_law = λ es s d.
      let (v, freqs) = rebuild-IsValid (λ _. Unit) es s d in
      (rebuild es s, refl, (v, λ j. ap is_some (freqs j) ∙ started-listed es j));
  metadata_law = λ s v. metadata_bytes-IsValid s v;
  reset_law = λ s. (reset-IsValid s, λ j. ap is_some (freq_of-reset s j));
}
