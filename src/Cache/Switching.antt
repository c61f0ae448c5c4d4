-- ===== src/Cache/Switching.antt =====
-- SetPolicy of cache/core.go.
use adaptive_caching.Base.{
  ◌≡◌, refl, sym, ◌∙◌, inl, inr, true, List, [], ◌∷◌, Option, none, some, arith, Key, key_dec,
  Returns, Option-cases, lookup-AllOf, lookup, if_pos,
}
use adaptive_caching.Types.{Entry}
use adaptive_caching.Store.{Store, contains}
use adaptive_caching.Store.Contents.{Resident}
use adaptive_caching.Metrics.{set_policy as note_policy}
use adaptive_caching.Policy.{EvictionPolicy, View, IsLawful, listed, AreDistinct}
use adaptive_caching.Cache.{Cache, set_policy, with_policy, policy_name}
use adaptive_caching.Cache.Invariant.{IsValid, PolicyFits}

-- The entries, in the order in which the map is iterated: each resident key once.
pub record IsIteration (es : List Entry) (s : Store) : Type 0 where
  pub distinct : AreDistinct (λ _. Unit) es
  pub complete : (j : Key) → listed j es ≡ contains j s

resident_holds : (P : Key → Type 0) (s : Store) (j : Key) → Resident P s → contains j s ≡ true → P j
unfolding contains
resident_holds P s j all h = elim (Option-cases (lookup key_dec j s.items)) [
  | inl miss ↦ absurd (ground arith)
  | inr (e, hit) ↦ lookup-AllOf key_dec (λ k x. P k) j e s.items all hit
]

AreDistinct-of_listed :
    (P : Key → Type 0) (es : List Entry)
    → AreDistinct (λ _. Unit) es
    → ((j : Key) → listed j es ≡ true → P j)
    → AreDistinct P es
AreDistinct-of_listed P [] d h = tt
AreDistinct-of_listed P (e ∷ es) d h = (
  h e.key (if_pos (key_dec e.key e.key) refl _ _),
  d.1,
  AreDistinct-of_listed P es d.2 λ j l. h j (ground arith),
)

module _ {p : EvictionPolicy} {view : View p} (law : IsLawful p view) where
  rebuilt :
      (es : List Entry) (o : Option p.State) (s : Store)
      → AreDistinct view.Admissible es
      → ((j : Key) → listed j es ≡ contains j s)
      → Returns (with_policy o (λ q. p.rebuild es (p.reset q))) (λ o'. PolicyFits law o' s)
  rebuilt es none s d complete = (none, refl, tt)
  rebuilt es (some q) s d complete =
      let (q', ran, (inv, tracked)) = law.rebuild_law es (p.reset q) d in
      (some q', rw ran refl, (inv, λ j. tracked j ∙ complete j))

  pub rebuilt-PolicyFits :
      (es : List Entry) (o : Option p.State) (c : Cache p)
      → IsValid law c
      → IsIteration es c.store
      → Returns (with_policy o (λ q. p.rebuild es (p.reset q))) (λ o'. PolicyFits law o' c.store)
  rebuilt-PolicyFits es o c v it =
      let d =
        AreDistinct-of_listed view.Admissible es it.distinct
          λ j l. resident_holds view.Admissible c.store j v.resident (sym (it.complete j) ∙ l) in
      rebuilt es o c.store d it.complete

  -- SetPolicy of a valid cache, to any lawful policy (or to none) in whatever state it comes, and
  -- whatever the order in which the store's entries are iterated, returns: the store is not
  -- touched, and the cache is valid with the new policy, which tracks exactly the resident keys.
  pub set_policy-IsValid :
      (es : List Entry) (o : Option p.State) (c : Cache p)
      → IsValid law c
      → IsIteration es c.store
      → Returns (set_policy p es o c) (λ c'. IsValid law c' × (c'.store ≡ c.store))
  unfolding set_policy
  set_policy-IsValid es o c v it =
      let (o', ran, fits') = rebuilt-PolicyFits es o c v it in
      (
        record c { policy = o'; metrics = note_policy (policy_name p o') c.metrics },
        rw ran refl,
        (
          record {
            store_valid = v.store_valid;
            fits = fits';
            resident = v.resident;
            bus_valid = v.bus_valid;
          },
          refl,
        ),
      )
