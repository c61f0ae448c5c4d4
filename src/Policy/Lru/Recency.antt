-- ===== src/Policy/Lru/Recency.antt =====
-- cache/policy/lru.go against a list of keys, most recently used first.
use adaptive_caching.Base.{
  ℕ, ◌≡◌, refl, sym, inl, inr, Bool, true, false, List, [], ◌∷◌, Option, none, some, ite, arith,
  Key, key_dec, ℕ_discrete, lookup, delete, Distinct, AllOf, Option-cases, Bool-cases,
  if◌then◌else◌, is_some, AllOf-of_lookup, upsert,
}
use adaptive_caching.Types.{Entry}
use adaptive_caching.Policy.LinkedList.{Node, Elements, key_at, back, move_to_front, set_entry}
use adaptive_caching.Policy.Lru.{
  Lru, on_access, on_insert, on_remove, add_front, victim, keys, key_of,
}
use adaptive_caching.Policy.Lru.Invariant.{
  IsValid, on_access-IsValid, on_insert-IsValid, on_remove-IsValid,
}

-- What an observer keeps: the keys in order, each once.
unfoldable pub drop_key : Key → List Key → List Key
drop_key k [] = []
drop_key k (j ∷ l) = ite (key_dec j k) (drop_key k l) (j ∷ drop_key k l)

unfoldable pub member : Key → List Key → Bool
member k [] = false
member k (j ∷ l) = ite (key_dec j k) true (member k l)

-- The operations on that list: an access moves a known key to the front; an insert puts a new key
-- there and leaves a known one where it is; a removal drops the key.
pub data Call : Type 0 where
  access removal : Key → Call
  insertion : Key → Entry → Call

unfoldable pub spec_step : Call → List Key → List Key
unfolding drop_key member
spec_step (access k) l = if member k l then k ∷ drop_key k l else l
spec_step (removal k) l = drop_key k l
spec_step (insertion k e) l = if member k l then l else k ∷ l

unfoldable pub step : Call → Lru → Lru
step (access k) p = on_access k p
step (removal k) p = on_remove k p
step (insertion k e) p = on_insert k e p

unfoldable pub spec_run : List Call → List Key → List Key
spec_run [] l = l
spec_run (c ∷ cs) l = spec_run cs (spec_step c l)

unfoldable pub run : List Call → Lru → Lru
run [] p = p
run (c ∷ cs) p = run cs (step c p)

-- The least recently used key.
unfoldable pub last : List Key → Option Key
last [] = none
last (k ∷ []) = some k
last (k ∷ j ∷ l) = last (j ∷ l)

-- An element is at `el` exactly if it is for `k`.
abbrev Marks : ℕ → Key → Elements → Type 0
Marks el k = AllOf ℕ_discrete (λ i node. (i ≡ el → node.key ≡ k) × (node.key ≡ k → i ≡ el))

keys-delete :
    (el : ℕ) (k : Key) (l : Elements)
    → Marks el k l
    → keys (delete ℕ_discrete el l) ≡ drop_key k (keys l)
unfolding delete drop_key
keys-delete el k [] m = refl
keys-delete el k ((i, node) ∷ l) m = ground (arith, keys-delete el k l m.1)

keys-upsert :
    (el : ℕ) (node node' : Node) (l : Elements)
    → lookup ℕ_discrete el l ≡ some node
    → node'.key ≡ node.key
    → keys (upsert ℕ_discrete el node' l) ≡ keys l
unfolding lookup upsert
keys-upsert el node node' [] h e = absurd (ground arith)
keys-upsert el node node' ((i, x) ∷ l) h e = ground (arith, keys-upsert el node node' l)

member_of_key_at : (i : ℕ) (k : Key) (l : Elements) → key_at i l ≡ some k → member k (keys l) ≡ true
unfolding lookup member
member_of_key_at i k [] h = absurd (ground arith)
member_of_key_at i k ((j, x) ∷ l) h = ground (arith, member_of_key_at i k l)

key_at_of_member :
    (k : Key) (l : Elements)
    → Distinct ℕ_discrete l
    → member k (keys l) ≡ true
    → (i : ℕ) × (key_at i l ≡ some k)
unfolding lookup member
key_at_of_member k [] d h = absurd (ground arith)
key_at_of_member k ((j, x) ∷ l) d h = elim (key_dec x.key k) [
  | yes p ↦ (j, ground arith)
  | no p ↦ let (i, found) = key_at_of_member k l d.1 (ground arith) in (i, ground arith)
]

module _ (key : Key) (p : Lru) (v : IsValid p) where
  -- The index knows the keys of the list.
  member-keys : member key (keys p.ll) ≡ is_some (lookup key_dec key p.items)
  member-keys = elim (Option-cases (lookup key_dec key p.items)) [
    | inl miss ↦ rw miss (elim (Bool-cases (member key (keys p.ll))) [
      | inl yes' ↦
          let (i, found) = key_at_of_member key p.ll v.distinct yes' in
          absurd (ground (arith, v.back key i found))
      | inr no' ↦ no'
    ])
    | inr (i, hit) ↦ rw hit (member_of_key_at i key p.ll (v.forth key i hit))
  ]

  Marks-place : (el : ℕ) → lookup key_dec key p.items ≡ some el → Marks el key p.ll
  Marks-place el hit =
      AllOf-of_lookup ℕ_discrete _ p.ll v.distinct
        λ i node e. ((λ q. ground (arith, v.forth key el hit)), (λ q. ground (arith, v.back key i)))

  keys-on_access : keys (on_access key p).ll ≡ spec_step (access key) (keys p.ll)
  unfolding on_access spec_step move_to_front
  keys-on_access = elim (Option-cases (lookup key_dec key p.items)) [
    | inl miss ↦ rw (miss, on_access) (ground (arith, member-keys))
    | inr (el, hit) ↦ elim (Option-cases (lookup ℕ_discrete el p.ll)) [
      | inl gone ↦ absurd (ground (arith, v.forth key el hit))
      | inr (node, found) ↦
          rw (hit, on_access, found, move_to_front)
            (ground (
              arith,
              member-keys,
              v.forth key el hit,
              keys-delete el key p.ll (Marks-place el hit),
            ))
    ]
  ]

  keys-on_insert :
      (e : Entry) → keys (on_insert key e p).ll ≡ spec_step (insertion key e) (keys p.ll)
  unfolding on_insert add_front spec_step set_entry
  keys-on_insert e = elim (Option-cases (lookup key_dec key p.items)) [
    | inl miss ↦ rw (miss, on_insert) (ground (arith, member-keys))
    | inr (el, hit) ↦ elim (Option-cases (lookup ℕ_discrete el p.ll)) [
      | inl gone ↦ absurd (ground (arith, v.forth key el hit))
      | inr (node, found) ↦
          rw (hit, on_insert, found, set_entry)
            (ground (
              arith,
              member-keys,
              keys-upsert el node (record node { e = e.addr }) p.ll found refl,
            ))
    ]
  ]

  drop_key_absent : (l : List Key) → member key l ≡ false → drop_key key l ≡ l
  unfolding drop_key member
  drop_key_absent [] h = refl
  drop_key_absent (j ∷ l) h = ground (arith, drop_key_absent l)

  keys-on_remove : keys (on_remove key p).ll ≡ drop_key key (keys p.ll)
  unfolding on_remove
  keys-on_remove = elim (Option-cases (lookup key_dec key p.items)) [
    | inl miss ↦
        rw (miss, on_remove) (sym (drop_key_absent (keys p.ll) (ground (arith, member-keys))))
    | inr (el, hit) ↦ rw (hit, on_remove) (keys-delete el key p.ll (Marks-place el hit))
  ]

pub step-IsValid : (c : Call) (p : Lru) → IsValid p → IsValid (step c p)
unfolding step
step-IsValid (access k) p v = on_access-IsValid k p v
step-IsValid (removal k) p v = on_remove-IsValid k p v
step-IsValid (insertion k e) p v = on_insert-IsValid k p v e

pub keys-step : (c : Call) (p : Lru) → IsValid p → keys (step c p).ll ≡ spec_step c (keys p.ll)
unfolding step spec_step
keys-step (access k) p v = keys-on_access k p v
keys-step (removal k) p v = keys-on_remove k p v
keys-step (insertion k e) p v = keys-on_insert k p v e

back-last :
    (l : Elements) → elim (back l) [ none ↦ none | some x ↦ some (key_of x) ] ≡ last (keys l)
unfolding back last
back-last [] = refl
back-last (x ∷ []) = refl
back-last (x ∷ y ∷ l) = back-last (y ∷ l)

pub victim-last : (p : Lru) → victim p ≡ last (keys p.ll)
unfolding victim
victim-last p = back-last p.ll

-- After any history of calls on a valid LRU, its list holds the keys in the order of recency that
-- an observer keeps, and the key that LRU would evict is the last of them, the least recently used
-- one.
pub run-refines :
    (cs : List Call) (p : Lru)
    → IsValid p
    → IsValid (run cs p)
      × (keys (run cs p).ll ≡ spec_run cs (keys p.ll))
      × (victim (run cs p) ≡ last (spec_run cs (keys p.ll)))
unfolding run spec_run
run-refines [] p v = (v, refl, victim-last p)
run-refines (c ∷ cs) p v = rw (← keys-step c p v) (run-refines cs (step c p) (step-IsValid c p v))
