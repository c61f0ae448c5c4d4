-- ===== src/Policy/Lru.antt =====
-- cache/policy/lru.go: least recently used. The mutex is held for each whole method.
pub mod Recency
pub mod Batch
pub mod Invariant
pub mod Contract
use adaptive_caching.Base.{
  ℕ, suc, ◌*◌, ◌≡◌, Bool, true, false, List, [], ◌∷◌, map, reverse, Option, none, some, Key,
  key_dec, ℕ_discrete, Int64, add64, sub64, lt64, lookup, upsert, delete, Run, done, ◌==◌, ◌||◌,
  if◌then◌else◌, take, is_some, two64, ◌%◌,
}
use adaptive_caching.Types.{Entry}
use adaptive_caching.Types.Parameters.{no_such_parameter}
use adaptive_caching.Policy.{EvictionPolicy, lru}
use adaptive_caching.Policy.LinkedList.{
  Node, Elements, push_front, remove_element, move_to_front, set_entry, back,
}

-- `next` stands for the allocator: the address of the next new list element.
pub record Lru : Type 0 where
  pub ll : Elements
  pub items : List (Key × ℕ)
  pub n : Int64
  pub metadata : Int64
  pub next : ℕ

-- `lruPerEntryBytes`
abbrev pub lru_per_entry_bytes : Int64
lru_per_entry_bytes = 64

unfoldable pub new_lru : Lru
new_lru = record { ll = []; items = []; n = 0; metadata = 0; next = 0 }

unfoldable pub on_access : Key → Lru → Lru
on_access key p = elim (lookup key_dec key p.items) [
  | none ↦ p
  | some el ↦ record p { ll = move_to_front el p.ll }
]

-- A new element at the front, and its place in the index.
unfoldable pub add_front : Key → Entry → Lru → Lru
unfolding push_front
add_front key e p = record {
  ll = push_front p.next (record { key = key; e = e.addr }) p.ll;
  items = upsert key_dec key p.next p.items;
  n = add64 p.n 1;
  metadata = add64 p.metadata lru_per_entry_bytes;
  next = suc p.next;
}

unfoldable pub on_insert : Key → Entry → Lru → Lru
on_insert key e p = elim (lookup key_dec key p.items) [
  | none ↦ add_front key e p
  | some el ↦ record p { ll = set_entry el e.addr p.ll }
]

unfoldable pub on_remove : Key → Lru → Lru
unfolding remove_element
on_remove key p = elim (lookup key_dec key p.items) [
  | none ↦ p
  | some el ↦ record p {
    ll = remove_element el p.ll;
    items = delete key_dec key p.items;
    n = sub64 p.n 1;
    metadata = sub64 p.metadata lru_per_entry_bytes;
  }
]

-- The key of a list element.
abbrev pub key_of : ℕ × Node → Key
key_of x = x.1.key

abbrev pub keys : Elements → List Key
keys = map key_of

unfoldable pub victim : Lru → Option Key
victim p = elim (back p.ll) [ none ↦ none | some x ↦ some (key_of x) ]

-- The loop walks from the back by `Prev`; `nil` and the empty slice are not told apart. `make` is
-- asked for at most as many keys as are tracked.
unfoldable pub candidates : Int64 → Lru → List Key
candidates n p =
    if lt64 n 1 || (p.n == 0)
    then []
    else take (if lt64 p.n n then p.n else n) (keys (reverse p.ll))

-- The loop of Rebuild.
unfoldable pub adopt : List Entry → Lru → Lru
adopt [] p = p
adopt (e ∷ es) p = adopt es (add_front e.key e p)

unfoldable pub reset : Lru → Lru
reset p = record p { ll = []; items = []; n = 0; metadata = 0 }

unfoldable pub rebuild : List Entry → Lru → Lru
unfolding adopt reset
rebuild es p = adopt es (reset p)

unfoldable pub metadata_bytes : Lru → Lru × Int64
metadata_bytes p =
    if p.metadata == 0
    then (let m = (p.n * lru_per_entry_bytes) % two64 in (record p { metadata = m }, m))
    else (p, p.metadata)

-- LRU behind the interface. No method panics or loops.
abbrev pub lru_policy : EvictionPolicy
lru_policy = record {
  State = Lru;
  name = λ _. lru;
  on_access = λ k _ p. done (on_access k p);
  on_insert = λ k e p. done (on_insert k e p);
  on_remove = λ k _ p. done (on_remove k p);
  victim = λ p. done (p, victim p);
  candidates = λ n p. done (p, candidates n p);
  should_admit = λ _ _ _. true;
  params = λ _ mem. ([], mem);
  set_param = λ k _ p. (p, some (no_such_parameter k));
  rebuild = λ es p. done (rebuild es p);
  metadata_bytes = metadata_bytes;
  reset = reset;
}
