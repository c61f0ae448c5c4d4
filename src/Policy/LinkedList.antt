-- ===== src/Policy/LinkedList.antt =====
-- What the policies use of Go's container/list: a list of elements, front first. An element is its
-- address with its value, so a `*list.Element` is the address.
use adaptive_caching.Base.{
  ℕ, suc, ◌≡◌, refl, Option, none, some, List, [], ◌∷◌, ite, arith, Key, ℕ_discrete, lookup, upsert,
  delete, delete_absent, Distinct, lookup-delete, lookup-upsert, delete-Distinct, upsert-Distinct,
  length, length-delete, length-upsert_old, Option-cases, inl, inr,
}

-- `lruNode` and `lfuNode`: the key, and the address of the entry.
pub record Node : Type 0 where
  pub key : Key
  pub e : ℕ

abbrev pub Elements : Type 0
Elements = List (ℕ × Node)

-- `l.PushFront(node)`, for an element allocated at `i`
unfoldable pub push_front : ℕ → Node → Elements → Elements
push_front i node l = (i, node) ∷ l

-- `l.Remove(el)`; nothing, if the element is not of the list
unfoldable pub remove_element : ℕ → Elements → Elements
remove_element i l = delete ℕ_discrete i l

-- `l.MoveToFront(el)`
unfoldable pub move_to_front : ℕ → Elements → Elements
move_to_front i l = elim (lookup ℕ_discrete i l) [
  | none ↦ l
  | some node ↦ (i, node) ∷ delete ℕ_discrete i l
]

-- `el.Value.(*node).e = e`
unfoldable pub set_entry : ℕ → ℕ → Elements → Elements
set_entry i e l = elim (lookup ℕ_discrete i l) [
  | none ↦ l
  | some node ↦ upsert ℕ_discrete i (record node { e = e }) l
]

-- `l.Back()`
unfoldable pub back : Elements → Option (ℕ × Node)
back [] = none
back (x ∷ []) = some x
back (x ∷ y ∷ l) = back (y ∷ l)

-- An element that was moved is found where it was.
pub lookup-move_to_front :
    (i j : ℕ) (l : Elements) → lookup ℕ_discrete j (move_to_front i l) ≡ lookup ℕ_discrete j l
unfolding move_to_front lookup
lookup-move_to_front i j l = elim (Option-cases (lookup ℕ_discrete i l)) [
  | inl miss ↦ rw (miss, move_to_front) refl
  | inr (node, hit) ↦ rw (hit, move_to_front) (ground (arith, lookup-delete ℕ_discrete i j l))
]

-- The last element is an element.
pub lookup-back :
    (i : ℕ) (node : Node) (l : Elements)
    → Distinct ℕ_discrete l
    → back l ≡ some (i, node)
    → lookup ℕ_discrete i l ≡ some node
unfolding back lookup
lookup-back i node [] d h = absurd (ground arith)
lookup-back i node (x ∷ []) d h = ground arith
lookup-back i node (x ∷ y ∷ l) d h = ground (arith, lookup-back i node (y ∷ l) d.1 h)

pub back-none : (l : Elements) → back l ≡ none → l ≡ []
unfolding back
back-none [] h = refl
back-none (x ∷ []) h = absurd (ground arith)
back-none (x ∷ y ∷ l) h = absurd (ground (arith, back-none (y ∷ l) h))

pub length-move_to_front :
    (i : ℕ) (l : Elements) → Distinct ℕ_discrete l → length (move_to_front i l) ≡ length l
unfolding move_to_front
length-move_to_front i l d = elim (Option-cases (lookup ℕ_discrete i l)) [
  | inl miss ↦ rw (miss, move_to_front) refl
  | inr (node, hit) ↦ rw (hit, move_to_front) (length-delete ℕ_discrete i node l d hit)
]

-- The key at an address.
abbrev pub key_at : ℕ → Elements → Option Key
key_at i l = elim (lookup ℕ_discrete i l) [ none ↦ none | some node ↦ some node.key ]

pub key_at-push_front :
    (i j : ℕ) (node : Node) (l : Elements)
    → key_at j (push_front i node l) ≡ ite (ℕ_discrete i j) (some node.key) (key_at j l)
unfolding push_front lookup
key_at-push_front i j node l = ground arith

pub key_at-remove_element :
    (i j : ℕ) (l : Elements)
    → key_at j (remove_element i l) ≡ ite (ℕ_discrete i j) none (key_at j l)
unfolding remove_element
key_at-remove_element i j l = ground (arith, lookup-delete ℕ_discrete i j l)

pub key_at-move_to_front : (i j : ℕ) (l : Elements) → key_at j (move_to_front i l) ≡ key_at j l
key_at-move_to_front i j l = ground (arith, lookup-move_to_front i j l)

pub key_at-set_entry : (i j e : ℕ) (l : Elements) → key_at j (set_entry i e l) ≡ key_at j l
unfolding set_entry
key_at-set_entry i j e l = elim (Option-cases (lookup ℕ_discrete i l)) [
  | inl miss ↦ rw (miss, set_entry) refl
  | inr (node, hit) ↦
      rw (hit, set_entry) (ground (arith, lookup-upsert ℕ_discrete i j (record node { e = e }) l))
]

pub Distinct-push_front :
    (i : ℕ) (node : Node) (l : Elements)
    → Distinct ℕ_discrete l
    → key_at i l ≡ none
    → Distinct ℕ_discrete (push_front i node l)
unfolding push_front
Distinct-push_front i node l d h = (ground arith, d)

pub Distinct-move_to_front :
    (i : ℕ) (l : Elements) → Distinct ℕ_discrete l → Distinct ℕ_discrete (move_to_front i l)
unfolding move_to_front
Distinct-move_to_front i l d = elim (Option-cases (lookup ℕ_discrete i l)) [
  | inl miss ↦ rw (miss, move_to_front) d
  | inr (node, hit) ↦
      rw (hit, move_to_front)
        (ground (arith, lookup-delete ℕ_discrete i i l), delete-Distinct ℕ_discrete i l d)
]

pub Distinct-set_entry :
    (i e : ℕ) (l : Elements) → Distinct ℕ_discrete l → Distinct ℕ_discrete (set_entry i e l)
unfolding set_entry
Distinct-set_entry i e l d = elim (Option-cases (lookup ℕ_discrete i l)) [
  | inl miss ↦ rw (miss, set_entry) d
  | inr (node, hit) ↦ rw (hit, set_entry) (upsert-Distinct ℕ_discrete i (record node { e = e }) l d)
]

pub Distinct-remove_element :
    (i : ℕ) (l : Elements) → Distinct ℕ_discrete l → Distinct ℕ_discrete (remove_element i l)
unfolding remove_element
Distinct-remove_element i l d = delete-Distinct ℕ_discrete i l d

pub length-set_entry : (i e : ℕ) (l : Elements) → length (set_entry i e l) ≡ length l
unfolding set_entry
length-set_entry i e l = elim (Option-cases (lookup ℕ_discrete i l)) [
  | inl miss ↦ rw (miss, set_entry) refl
  | inr (node, hit) ↦
      rw (hit, set_entry) (length-upsert_old ℕ_discrete i (record node { e = e }) node l hit)
]

pub length-remove_element :
    (i : ℕ) (k : Key) (l : Elements)
    → Distinct ℕ_discrete l
    → key_at i l ≡ some k
    → suc (length (remove_element i l)) ≡ length l
unfolding remove_element
length-remove_element i k l d h = elim (Option-cases (lookup ℕ_discrete i l)) [
  | inl miss ↦ absurd (ground arith)
  | inr (node, hit) ↦ length-delete ℕ_discrete i node l d hit
]

pub remove_element-front :
    (i : ℕ) (node : Node) (l : Elements)
    → Distinct ℕ_discrete ((i, node) ∷ l)
    → remove_element i ((i, node) ∷ l) ≡ l
unfolding remove_element delete
remove_element-front i node l d = ground (arith, delete_absent ℕ_discrete i l)
