-- ===== src/Policy/Either.antt =====
-- A value of the interface of cache/policy/policy.go holds any of its implementations. With two of
-- them a state is one of the first or one of the second, and a method is that of the one it is.
use adaptive_caching.Base.{
  ◌≡◌, refl, Bool, true, false, ◌⊎◌, inl, inr, List, [], ◌∷◌, Int64, Option, Key, Run, done,
  Returns, ◌>>=◌, ite, key_dec,
}
use adaptive_caching.Floats.{Float64}
use adaptive_caching.Types.{Entry}
use adaptive_caching.Policy.{
  EvictionPolicy, View, IsLawful, AreDistinct, listed, IsChosen, AllKeys, IsMakeable,
}

-- The new state is of the same implementation.
abbrev in_state {ℓ} : {S T : Type ℓ} → (S → T) → Run S → Run T
in_state f r = r >>= λ s. done (f s)

abbrev with_state {ℓ} : {S T A : Type ℓ} → (S → T) → Run (S × A) → Run (T × A)
with_state f r = r >>= λ x. done (f x.0, x.1)

abbrev paired {ℓ} : {S T A : Type ℓ} → (S → T) → S × A → T × A
paired f x = (f x.0, x.1)

module _ (p q : EvictionPolicy) where
  abbrev pub Either : Type 0
  Either = p.State ⊎ q.State

  abbrev pub either : EvictionPolicy
  either = record {
    State = Either;
    name = λ s. elim s [ inl a ↦ p.name a | inr b ↦ q.name b ];
    on_access = λ k e s. elim s [
      | inl a ↦ in_state inl (p.on_access k e a)
      | inr b ↦ in_state inr (q.on_access k e b)
    ];
    on_insert = λ k e s. elim s [
      | inl a ↦ in_state inl (p.on_insert k e a)
      | inr b ↦ in_state inr (q.on_insert k e b)
    ];
    on_remove = λ k o s. elim s [
      | inl a ↦ in_state inl (p.on_remove k o a)
      | inr b ↦ in_state inr (q.on_remove k o b)
    ];
    victim =
        λ s. elim s [ inl a ↦ with_state inl (p.victim a) | inr b ↦ with_state inr (q.victim b) ];
    candidates = λ n s. elim s [
      | inl a ↦ with_state inl (p.candidates n a)
      | inr b ↦ with_state inr (q.candidates n b)
    ];
    should_admit = λ k n s. elim s [ inl a ↦ p.should_admit k n a | inr b ↦ q.should_admit k n b ];
    params = λ s mem. elim s [ inl a ↦ p.params a mem | inr b ↦ q.params b mem ];
    set_param = λ k x s. elim s [
      | inl a ↦ paired inl (p.set_param k x a)
      | inr b ↦ paired inr (q.set_param k x b)
    ];
    rebuild = λ es s. elim s [
      | inl a ↦ in_state inl (p.rebuild es a)
      | inr b ↦ in_state inr (q.rebuild es b)
    ];
    metadata_bytes = λ s. elim s [
      | inl a ↦ paired inl (p.metadata_bytes a)
      | inr b ↦ paired inr (q.metadata_bytes b)
    ];
    reset = λ s. elim s [ inl a ↦ inl (p.reset a) | inr b ↦ inr (q.reset b) ];
  }

module _ {p q : EvictionPolicy} (view : View p) (view' : View q) where
  -- The keys that both policies can hold.
  abbrev pub either_view : View (either p q)
  either_view = record {
    Inv = λ s. elim s [ inl a ↦ view.Inv a | inr b ↦ view'.Inv b ];
    Admissible = λ k. view.Admissible k × view'.Admissible k;
    tracks = λ s. elim s [ inl a ↦ view.tracks a | inr b ↦ view'.tracks b ];
  }

Returns-bind {ℓ κ μ ν} :
    {A : Type ℓ} {B : Type κ} (P : A → Type μ) (Q : B → Type ν) (f : A → B) (r : Run A)
    → ((a : A) → P a → Q (f a))
    → Returns r P
    → Returns (r >>= λ a. done (f a)) Q
Returns-bind P Q f r h (a, ran, pa) = (f a, rw ran refl, h a pa)

module _ (P Q : Key → Type 0) where
  distinct_left : (es : List Entry) → AreDistinct (λ k. P k × Q k) es → AreDistinct P es
  distinct_left [] d = tt
  distinct_left (e ∷ es) d = (d.0.0, d.1, distinct_left es d.2)

  distinct_right : (es : List Entry) → AreDistinct (λ k. P k × Q k) es → AreDistinct Q es
  distinct_right [] d = tt
  distinct_right (e ∷ es) d = (d.0.1, d.1, distinct_right es d.2)

module _ {p q : EvictionPolicy} {view : View p} {view' : View q} (law : IsLawful p view)
    (law' : IsLawful q view') where
  abbrev Inv : Either p q → Type 0
  Inv = (either_view view view').Inv

  abbrev tracks : Either p q → Key → Bool
  tracks = (either_view view view').tracks

  access_either :
      (k : Key) (e : Entry) (s : Either p q)
      → Inv s
      → Returns
          ((either p q).on_access k e s)
          (λ s'. Inv s' × ((j : Key) → tracks s' j ≡ tracks s j))
  access_either k e (inl a) v = Returns-bind _ _ inl _ (λ a' h. h) (law.access_law k e a v)
  access_either k e (inr b) v = Returns-bind _ _ inr _ (λ b' h. h) (law'.access_law k e b v)

  insert_either :
      (k : Key) (e : Entry) (s : Either p q)
      → Inv s
      → view.Admissible k × view'.Admissible k
      → Returns
          ((either p q).on_insert k e s)
          (λ s'. Inv s' × ((j : Key) → tracks s' j ≡ ite (key_dec k j) true (tracks s j)))
  insert_either k e (inl a) v ok' =
      Returns-bind _ _ inl _ (λ a' h. h) (law.insert_law k e a v ok'.0)
  insert_either k e (inr b) v ok' =
      Returns-bind _ _ inr _ (λ b' h. h) (law'.insert_law k e b v ok'.1)

  remove_either :
      (k : Key) (o : Option Entry) (s : Either p q)
      → Inv s
      → Returns
          ((either p q).on_remove k o s)
          (λ s'. Inv s' × ((j : Key) → tracks s' j ≡ ite (key_dec k j) false (tracks s j)))
  remove_either k o (inl a) v = Returns-bind _ _ inl _ (λ a' h. h) (law.remove_law k o a v)
  remove_either k o (inr b) v = Returns-bind _ _ inr _ (λ b' h. h) (law'.remove_law k o b v)

  victim_either :
      (s : Either p q)
      → Inv s
      → Returns
          ((either p q).victim s)
          (λ r. Inv r.0 × ((j : Key) → tracks r.0 j ≡ tracks s j) × IsChosen (tracks s) r.1)
  victim_either (inl a) v = Returns-bind _ _ (paired inl) _ (λ r h. h) (law.victim_law a v)
  victim_either (inr b) v = Returns-bind _ _ (paired inr) _ (λ r h. h) (law'.victim_law b v)

  candidates_either :
      (n : Int64) (s : Either p q)
      → Inv s
      → IsMakeable n
      → Returns ((either p q).candidates n s) (λ r.
        Inv r.0 × ((j : Key) → tracks r.0 j ≡ tracks s j) × AllKeys (λ k. tracks s k ≡ true) r.1)
  candidates_either n (inl a) v ok' =
      Returns-bind _ _ (paired inl) _ (λ r h. h) (law.candidates_law n a v ok')
  candidates_either n (inr b) v ok' =
      Returns-bind _ _ (paired inr) _ (λ r h. h) (law'.candidates_law n b v ok')

  rebuild_either :
      (es : List Entry) (s : Either p q)
      → AreDistinct (either_view view view').Admissible es
      → Returns ((either p q).rebuild es s) (λ s'. Inv s' × ((j : Key) → tracks s' j ≡ listed j es))
  rebuild_either es (inl a) d =
      Returns-bind _ _ inl _ (λ a' h. h)
        (law.rebuild_law es a (distinct_left view.Admissible view'.Admissible es d))
  rebuild_either es (inr b) d =
      Returns-bind _ _ inr _ (λ b' h. h)
        (law'.rebuild_law es b (distinct_right view.Admissible view'.Admissible es d))

  param_either :
      (k : Key) (x : Float64) (s : Either p q)
      → Inv s
      → Inv ((either p q).set_param k x s).0
        × ((j : Key) → tracks ((either p q).set_param k x s).0 j ≡ tracks s j)
  param_either k x (inl a) v = law.param_law k x a v
  param_either k x (inr b) v = law'.param_law k x b v

  metadata_either :
      (s : Either p q)
      → Inv s
      → Inv ((either p q).metadata_bytes s).0
        × ((j : Key) → tracks ((either p q).metadata_bytes s).0 j ≡ tracks s j)
  metadata_either (inl a) v = law.metadata_law a v
  metadata_either (inr b) v = law'.metadata_law b v

  reset_either :
      (s : Either p q)
      → Inv ((either p q).reset s) × ((j : Key) → tracks ((either p q).reset s) j ≡ false)
  reset_either (inl a) = law.reset_law a
  reset_either (inr b) = law'.reset_law b

  -- Where both policies are lawful, so is a policy that is one of them.
  pub either-IsLawful : IsLawful (either p q) (either_view view view')
  either-IsLawful = record {
    access_law = access_either;
    insert_law = insert_either;
    remove_law = remove_either;
    victim_law = victim_either;
    candidates_law = candidates_either;
    param_law = param_either;
    rebuild_law = rebuild_either;
    metadata_law = metadata_either;
    reset_law = reset_either;
  }
