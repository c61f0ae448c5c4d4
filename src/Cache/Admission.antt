-- ===== src/Cache/Admission.antt =====
-- The loop of Put in cache/core.go: inserting, and evicting where the store reports a lack of space.
use adaptive_caching.Base.{
  ℕ, zero, suc, ◌+◌, ◌≤◌, ◌<◌, ◌≡◌, ◌≢◌, refl, sym, ap, subst, ◌∙◌, ◌⊎◌, inl, inr, Bool, true, [],
  Option, none, some, if_pos, if_neg, arith, Key, key_dec, Int64, two63, two64, done, Returns,
  delete,
}
use adaptive_caching.Types.{Entry, Value, Time}
use adaptive_caching.Store
use adaptive_caching.Store.{
  Store, Error, invalid_size, object_too_large, capacity_exceeded, contains, write, object_count,
  ok, err,
}
use adaptive_caching.Store.Invariant.{others, payload}
use adaptive_caching.Store.Insert.{
  Holds, IsInserted, negative, too_large, full, fitting, insert-Ends,
}
use adaptive_caching.Store.Contents.{
  Resident-write, get-remove, object_count-remove, capacity-remove,
}
use adaptive_caching.Metrics.{record_fetch}
use adaptive_caching.Policy.{EvictionPolicy, View, IsLawful}
use adaptive_caching.Cache.Eviction.{evict_one-Evicted}
use adaptive_caching.Cache.Hooks.{on_insert-PolicyFits}
use adaptive_caching.Cache.{Cache, put_loop, evict_one, inserted}
use adaptive_caching.Cache.Invariant.{IsValid}

-- Every object under another key is as before, or gone.
abbrev pub OnlyEvicts : Key → Store → Store → Type 0
OnlyEvicts key s s' =
    (j : Key) → j ≢ key → (Store.get j s' ≡ Store.get j s) ⊎ (Store.get j s' ≡ none)

-- What Put leaves where a policy is installed that admits the object. A nil error means that the
-- object is resident; a lack of space is never reported.
abbrev pub Outcome : Key → Value → Int64 → Time → Store → Store → Option Error → Type 0
Outcome key val size now s s' none =
    ((e : Entry) × (Store.get key s' ≡ some e) × Holds key val size now e) × OnlyEvicts key s s'
Outcome key val size now s s' (some invalid_size) = (two63 ≤ size) × (s' ≡ s)
Outcome key val size now s s' (some object_too_large) =
    (size < two63) × (s.capacity < size) × (s' ≡ s)
Outcome key val size now s s' (some capacity_exceeded) = ⊥

-- To have evicted an object first makes no difference.
Outcome-remove :
    (key k : Key) (val : Value) (size : Int64) (now : Time) (s s' : Store) (o : Option Error)
    → size ≤ s.capacity
    → s.capacity < two63
    → Outcome key val size now (Store.remove k s).0 s' o
    → Outcome key val size now s s' o
Outcome-remove key k val size now s s' none fits small out = (
  out.0,
  λ j ne. elim (out.1 j ne) [
    | inl same ↦ elim (key_dec k j) [
      | yes e ↦ inr (same ∙ get-remove k j s ∙ if_pos (key_dec k j) e none (Store.get j s))
      | no e ↦ inl (same ∙ get-remove k j s ∙ if_neg (key_dec k j) e none (Store.get j s))
    ]
    | inr gone ↦ inr gone
  ],
)
Outcome-remove key k val size now s s' (some invalid_size) fits small out =
    absurd (omega (arith, out.0))
Outcome-remove key k val size now s s' (some object_too_large) fits small out =
    absurd (omega (arith, out.1, capacity-remove k s))
Outcome-remove key k val size now s s' (some capacity_exceeded) fits small out = out

nonempty_of_full :
    (key : Key) (size : ℕ) (s : Store)
    → size ≤ s.capacity
    → s.capacity < others key s + size
    → s.items ≢ []
unfolding delete
nonempty_of_full key size s fits over e =
    absurd (omega (arith, ap (λ l. payload (delete key_dec key l)) e))

module _ {p : EvictionPolicy} {view : View p} (law : IsLawful p view) where
  pub inserted-IsValid :
      (key : Key) (val : Value) (size : Int64) (now : Time) (c : Cache p)
      → IsValid law c
      → view.Admissible key
      → let w = write key val size now (Store.get key c.store) c.store in
        IsInserted key val size now c.store w.0 w.1
        → let w = write key val size now (Store.get key c.store) c.store in
          Returns (inserted p key size w c) (λ c'. IsValid law c' × (c'.store ≡ w.0))
  unfolding inserted
  inserted-IsValid key val size now c v admissible ins =
      let w = write key val size now (Store.get key c.store) c.store in
      let (o, ran, fits') =
        on_insert-PolicyFits law key val size now c.policy c.store v.fits admissible in
      (
        record c { store = w.0; policy = o; metrics = record_fetch size c.metrics },
        rw ran refl,
        (
          record {
            store_valid = ins.valid;
            fits = fits';
            resident =
                Resident-write view.Admissible key c.store v.resident val size now
                  (Store.get key c.store) admissible;
            bus_valid = v.bus_valid;
          },
          refl,
        ),
      )

  module _ (seq : ℕ) (key : Key) (val : Value) (size : Int64) (now : Time) (bits : size < two64)
      (admissible : view.Admissible key) where
    -- One round of the loop that evicts.
    loop_full :
        (fuel : ℕ) (q : p.State) (c : Cache p) (r : Cache p × Bool)
        → Store.insert key val size now c.store ≡ err capacity_exceeded
        → c.policy ≡ some q
        → evict_one p seq now q c ≡ done r
        → r.1 ≡ true
        → put_loop p (suc fuel) seq key val size now c ≡ put_loop p fuel seq key val size now r.0
    unfolding put_loop
    loop_full fuel q c r e installed ran yes' = ground arith

    pub loop-Outcome :
        (fuel : ℕ) (q : p.State) (c : Cache p)
        → object_count c.store < fuel
        → IsValid law c
        → c.policy ≡ some q
        → Returns
            (put_loop p fuel seq key val size now c)
            (λ r. IsValid law r.0 × Outcome key val size now c.store r.0.store r.1)
    unfolding put_loop
    loop-Outcome zero q c small v installed = absurd (omega arith)
    loop-Outcome (suc fuel) q c small v installed =
        elim (insert-Ends key val size now c.store v.store_valid bits) [
          | negative e neg ↦ ((c, some invalid_size), rw (e, put_loop) refl, (v, (neg, refl)))
          | too_large e nat big ↦
              ((c, some object_too_large), rw (e, put_loop) refl, (v, (nat, big, refl)))
          | fitting e ins ↦
              let (c', ran, (v', same)) = inserted-IsValid key val size now c v admissible ins in
              (
                (c', none),
                rw (e, put_loop, ran) refl,
                (
                  v',
                  subst (λ s'. Outcome key val size now c.store s' none) (sym same)
                      ((_, ins.stored, ins.holds), λ j ne. inl (ins.kept j ne)),
                ),
              )
          | full e fits over ↦
              let (r, ran, (k, x, hit, ev, yes')) =
                evict_one-Evicted law seq now q c v installed
                  (nonempty_of_full key size c.store fits over) in
              let (q', installed') = ev.installed in
              let fewer : object_count r.0.store < fuel = omega (
                arith,
                ap object_count ev.store_kept,
                object_count-remove k x c.store v.store_valid hit,
              ) in
              let (r', ran', (v', out)) = loop-Outcome fuel q' r.0 fewer ev.valid installed' in
              (
                r',
                loop_full fuel q c r e installed ran yes' ∙ ran',
                (
                  v',
                  Outcome-remove key k val size now c.store r'.0.store r'.1 fits
                      (omega (arith, v.store_valid.small))
                      (subst (λ s. Outcome key val size now s r'.0.store r'.1) ev.store_kept out),
                ),
              )
        ]
