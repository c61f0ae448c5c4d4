-- ===== src/Policy/Batch.antt =====
-- What Candidates of cache/policy/policy.go returns: lists of keys.
use adaptive_caching.Base.{
  ℕ, zero, suc, ◌≡◌, refl, inl, inr, List, [], ◌∷◌, ◌++◌, arith, Key, Int64, lt64, false, sym, ap,
  subst, ◌∙◌, map, reverse, ℕ_discrete, AllOf, take, done,
}
use mathlib.Core.List.{reverse-cons}
use adaptive_caching.Policy.LinkedList.{Node, Elements}
use adaptive_caching.Policy.{AllKeys, IsMakeable, make_keys}

pub AllKeys-append :
    (P : Key → Type 0) (ks js : List Key) → AllKeys P ks → AllKeys P js → AllKeys P (ks ++ js)
AllKeys-append P [] js a b = b
AllKeys-append P (k ∷ ks) js a b = (a.0, AllKeys-append P ks js a.1 b)

pub AllKeys-take : (P : Key → Type 0) (n : ℕ) (ks : List Key) → AllKeys P ks → AllKeys P (take n ks)
AllKeys-take P zero ks a = tt
AllKeys-take P (suc n) [] a = tt
AllKeys-take P (suc n) (k ∷ ks) a = (a.0, AllKeys-take P n ks a.1)

pub AllKeys-mono :
    (P Q : Key → Type 0) (ks : List Key) → ((k : Key) → P k → Q k) → AllKeys P ks → AllKeys Q ks
AllKeys-mono P Q [] h a = tt
AllKeys-mono P Q (k ∷ ks) h a = (h k a.0, AllKeys-mono P Q ks h a.1)

-- A positive number of keys that is makeable is made.
pub make_keys_run : (n : Int64) → IsMakeable n → lt64 n 1 ≡ false → make_keys n ≡ done tt
make_keys_run n (inl none_asked) positive = absurd (ground arith)
make_keys_run n (inr fits) positive = ground arith

-- The keys of a list of elements, from the back on.
abbrev pub keys_back : Elements → List Key
keys_back l = map (λ x. x.1.key) (reverse l)

map-append_keys :
    (l m : Elements) → map (λ x. x.1.key) (l ++ m) ≡ map (λ x. x.1.key) l ++ map (λ x. x.1.key) m
map-append_keys [] m = refl
map-append_keys (x ∷ l) m = ap (◌∷◌ x.1.key) (map-append_keys l m)

pub keys_back-cons : (x : ℕ × Node) (l : Elements) → keys_back (x ∷ l) ≡ keys_back l ++ x.1.key ∷ []
keys_back-cons x l =
    ap (λ (m : Elements). map (λ x. x.1.key) m) (reverse-cons x l)
    ∙ map-append_keys (reverse l) (x ∷ [])

pub keys_back-AllKeys :
    (P : Key → Type 0) (l : Elements)
    → AllOf ℕ_discrete (λ i node. P node.key) l
    → AllKeys P (keys_back l)
keys_back-AllKeys P [] a = tt
keys_back-AllKeys P (x ∷ l) a =
    subst (AllKeys P) (sym (keys_back-cons x l))
      (AllKeys-append P (keys_back l) (x.1.key ∷ []) (keys_back-AllKeys P l a.1) (a.0, tt))
