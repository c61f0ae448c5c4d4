-- ===== src/Cache/Put.antt =====
-- Put of cache/core.go, with a policy and without one.
use adaptive_caching.Base.{
  suc, ◌+◌, ◌≤◌, ◌<◌, ◌≡◌, ◌≢◌, refl, sym, ap, subst, ◌∙◌, true, false, Option, none, some, arith,
  Key, Int64, two63, two64, done, Returns,
}
use adaptive_caching.Types.{Entry, Value, Time}
use adaptive_caching.Store
use adaptive_caching.Store.{
  Store, Error, invalid_size, object_too_large, capacity_exceeded, write, object_count, ok, err,
  touch,
}
use adaptive_caching.Store.Invariant.{others}
use adaptive_caching.Store.Insert.{Holds, negative, too_large, full, fitting, insert-Ends}
use adaptive_caching.Policy.{EvictionPolicy, View, IsLawful}
use adaptive_caching.Cache.{Cache, put, put_loop, get, next_seq, value_of, admits}
use adaptive_caching.Cache.Invariant.{IsValid}
use adaptive_caching.Cache.Serving.{get-IsValid}
use adaptive_caching.Cache.Admission.{Outcome, loop-Outcome, inserted-IsValid}

-- What Put leaves where no policy is installed: nothing is evicted, and an object that does not fit
-- beside those under other keys is refused.
abbrev pub BareOutcome : Key → Value → Int64 → Time → Store → Store → Option Error → Type 0
BareOutcome key val size now s s' none =
    ((e : Entry) × (Store.get key s' ≡ some e) × Holds key val size now e)
    × ((j : Key) → j ≢ key → Store.get j s' ≡ Store.get j s)
BareOutcome key val size now s s' (some invalid_size) = (two63 ≤ size) × (s' ≡ s)
BareOutcome key val size now s s' (some object_too_large) =
    (size < two63) × (s.capacity < size) × (s' ≡ s)
BareOutcome key val size now s s' (some capacity_exceeded) =
    (size ≤ s.capacity) × (s.capacity < others key s + size) × (s' ≡ s)

-- An object that fits into the empty cache is stored.
Outcome-none :
    (key : Key) (val : Value) (size : Int64) (now : Time) (s s' : Store) (o : Option Error)
    → size ≤ s.capacity
    → s.capacity < two63
    → Outcome key val size now s s' o
    → (o ≡ none) × (e : Entry) × (Store.get key s' ≡ some e) × (e.value ≡ val)
Outcome-none key val size now s s' none fits small out =
    let (e, found, holds) = out.0 in (refl, e, found, holds.1)
Outcome-none key val size now s s' (some invalid_size) fits small out =
    absurd (omega (arith, out.0))
Outcome-none key val size now s s' (some object_too_large) fits small out =
    absurd (omega (arith, out.1))
Outcome-none key val size now s s' (some capacity_exceeded) fits small out = absurd out

module _ {p : EvictionPolicy} {view : View p} (law : IsLawful p view) where
  module _ (key : Key) (val : Value) (size : Int64) (now : Time) (c : Cache p) (v : IsValid law c)
      (bits : size < two64) (admissible : view.Admissible key) where
    counted : Cache p
    counted = record c { seq = next_seq p c }

    -- Past the admission test Put is its loop, with fuel for one round more than there are objects.
    put_admitted :
        admits p key size c.policy ≡ true
        → put p key val size now c
          ≡ put_loop p (suc (object_count c.store)) (next_seq p c) key val size now counted
    unfolding put counted
    put_admitted h = rw (h, put) refl

    counted-IsValid : IsValid law counted
    unfolding counted
    counted-IsValid = record {
      store_valid = v.store_valid;
      fits = v.fits;
      resident = v.resident;
      bus_valid = v.bus_valid;
    }

    -- On a valid cache with a policy that admits the object (and can hold the key), Put of a size
    -- that is an int64 returns and keeps the cache valid. A nil error means that the object is
    -- stored and that every other object is as before or evicted. The only errors are a negative
    -- size and a size above the capacity, which change nothing in the store; a lack of space is
    -- never reported.
    pub put-Outcome :
        (q : p.State)
        → c.policy ≡ some q
        → p.should_admit key size q ≡ true
        → Returns
            (put p key val size now c)
            (λ r. IsValid law r.0 × Outcome key val size now c.store r.0.store r.1)
    unfolding counted
    put-Outcome q installed admitted =
        let (r, ran, rest) =
          loop-Outcome law (next_seq p c) key val size now bits admissible
            (suc (object_count c.store)) q counted (omega arith) counted-IsValid installed in
        (r, put_admitted (ap (admits p key size) installed ∙ admitted) ∙ ran, rest)

    put_bare_loop :
        c.policy ≡ none
        → Returns
            (put_loop p (suc (object_count c.store)) (next_seq p c) key val size now counted)
            (λ r. IsValid law r.0 × BareOutcome key val size now c.store r.0.store r.1)
    unfolding put_loop counted
    put_bare_loop bare = elim (insert-Ends key val size now c.store v.store_valid bits) [
      | negative e neg ↦
          ((counted, some invalid_size), ground arith, (counted-IsValid, (neg, refl)))
      | too_large e nat big ↦
          ((counted, some object_too_large), ground arith, (counted-IsValid, (nat, big, refl)))
      | fitting e ins ↦
          let (c', ran, (v', same)) =
            inserted-IsValid law key val size now counted counted-IsValid admissible ins in
          (
            (c', none),
            ground arith,
            (
              v',
              subst (λ s'. BareOutcome key val size now c.store s' none) (sym same)
                  ((_, ins.stored, ins.holds), ins.kept),
            ),
          )
      | full e fits over ↦
          ((counted, some capacity_exceeded), ground arith, (counted-IsValid, (fits, over, refl)))
    ]

    -- On a valid cache without a policy Put of a size that is an int64 returns and keeps the cache
    -- valid, and every other object stays. The object is refused exactly if its size is negative,
    -- or above the capacity, or if it does not fit beside the objects under other keys.
    pub put-BareOutcome :
        c.policy ≡ none
        → Returns
            (put p key val size now c)
            (λ r. IsValid law r.0 × BareOutcome key val size now c.store r.0.store r.1)
    put-BareOutcome bare =
        let (r, ran, rest) = put_bare_loop bare in
        (r, put_admitted (ap (admits p key size) bare) ∙ ran, rest)

    -- A policy that does not admit the object makes Put do nothing but count the request, and
    -- report no error.
    pub put_declined :
        (q : p.State)
        → c.policy ≡ some q
        → p.should_admit key size q ≡ false
        → put p key val size now c ≡ done (record c { seq = next_seq p c }, none)
    unfolding put
    put_declined q installed declined =
        let h : admits p key size c.policy ≡ false = ap (admits p key size) installed ∙ declined in
        rw (h, put) refl

  -- On a valid cache with a policy that admits the object (and can hold the key), what was put is
  -- got: an object of a size between 0 and the capacity is stored whatever else is resident, Put
  -- reports no error, and the Get that follows returns its value.
  pub put-get :
      (key : Key) (val : Value) (size : Int64) (now start end' : Time) (c : Cache p) (q : p.State)
      → IsValid law c
      → view.Admissible key
      → size ≤ c.store.capacity
      → c.policy ≡ some q
      → p.should_admit key size q ≡ true
      → Returns
          (put p key val size now c)
          (λ r. (r.1 ≡ none) × Returns (get p key start end' r.0) (λ g. g.1 ≡ some val))
  put-get key val size now start end' c q v admissible fits installed admitted =
      let (r, ran, (v', out)) =
        put-Outcome key val size now c v (omega (arith, v.store_valid.small)) admissible q installed
          admitted in
      let (no_error, e, found, same) =
        Outcome-none key val size now c.store r.0.store r.1 fits
          (omega (arith, v.store_valid.small)) out in
      let (g, ran', (_, _, got)) = get-IsValid law key start end' r.0 v' in
      (r, ran, (no_error, (g, ran', got ∙ ap (value_of p) found ∙ ap some same)))
