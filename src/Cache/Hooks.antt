-- ===== src/Cache/Hooks.antt =====
-- What the hooks of a policy do to its agreement with the store of cache/core.go.
use adaptive_caching.Base.{
  ◌≡◌, sym, ap, ◌∙◌, Bool, true, false, Option, none, some, ite, Key, key_dec, Int64, Returns,
}
use adaptive_caching.Types.{Entry, Value, Time}
use adaptive_caching.Store
use adaptive_caching.Store.{Store, contains, write}
use adaptive_caching.Store.Contents.{contains-write, contains-remove}
use adaptive_caching.Policy.{EvictionPolicy, View, IsLawful, IsChosen}
use adaptive_caching.Cache.{with_policy}
use adaptive_caching.Cache.Invariant.{PolicyFits, with_policy-PolicyFits}

IsChosen-same :
    (f g : Key → Bool) (o : Option Key) → ((j : Key) → f j ≡ g j) → IsChosen g o → IsChosen f o
IsChosen-same f g none e h = λ j. e j ∙ h j
IsChosen-same f g (some k) e h = e k ∙ h

module _ {p : EvictionPolicy} {view : View p} (law : IsLawful p view) where
  -- A state of the policy tracks the resident keys.
  abbrev pub Tracks : Store → p.State → Type 0
  Tracks s q = PolicyFits law (some q) s

  pub on_remove-Tracks :
      (k : Key) (e : Option Entry) (q : p.State) (s : Store)
      → Tracks s q
      → Returns (p.on_remove k e q) (Tracks (Store.remove k s).0)
  on_remove-Tracks k e q s (inv, tracked) =
      let (q', ran, (inv', tracked')) = law.remove_law k e q inv in
      (
        q',
        ran,
        (
          inv',
          λ j. tracked' j ∙ ap (ite (key_dec k j) false) (tracked j) ∙ sym (contains-remove k j s),
        ),
      )

  pub on_remove-PolicyFits :
      (k : Key) (e : Option Entry) (o : Option p.State) (s : Store)
      → PolicyFits law o s
      → Returns (with_policy o (p.on_remove k e)) (λ o'. PolicyFits law o' (Store.remove k s).0)
  on_remove-PolicyFits k e o s v =
      with_policy-PolicyFits law o s (Store.remove k s).0 (p.on_remove k e) v
        λ q inv tracked. on_remove-Tracks k e q s (inv, tracked)

  pub on_insert-PolicyFits :
      (key : Key) (val : Value) (size : Int64) (now : Time) (o : Option p.State) (s : Store)
      → PolicyFits law o s
      → view.Admissible key
      → let w = write key val size now (Store.get key s) s in
        Returns (with_policy o (p.on_insert key w.1)) (λ o'. PolicyFits law o' w.0)
  on_insert-PolicyFits key val size now o s v admissible =
      let w = write key val size now (Store.get key s) s in
      with_policy-PolicyFits law o s w.0 (p.on_insert key w.1) v λ q inv tracked.
        let (q', ran, (inv', tracked')) = law.insert_law key w.1 q inv admissible in
        (
          q',
          ran,
          (
            inv',
            λ j.
                tracked' j
                ∙ ap (ite (key_dec key j) true) (tracked j)
                ∙ sym (contains-write key j val size now (Store.get key s) s),
          ),
        )

  -- Asked for a victim, the policy names a resident key, or there is none.
  pub victim-IsChosen :
      (q : p.State) (s : Store)
      → Tracks s q
      → Returns (p.victim q) (λ r. Tracks s r.0 × IsChosen (λ j. contains j s) r.1)
  victim-IsChosen q s (inv, tracked) =
      let (r, ran, (inv', same, chosen)) = law.victim_law q inv in
      (
        r,
        ran,
        ((inv', λ j. same j ∙ tracked j), IsChosen-same _ _ r.1 (λ j. sym (tracked j)) chosen),
      )
