-- ===== src/Policy/Lfu.antt =====
-- cache/policy/lfu.go: least frequently used, with ageing. The mutex is held for each whole method.
pub mod Buckets
pub mod Invariant
pub mod Moves
pub mod Membership
pub mod Rebuild
pub mod Drain
pub mod Ageing
pub mod Passes
pub mod Orders
pub mod Victim
pub mod Batch
pub mod Decay
pub mod Tuning
pub mod Access
pub mod Contract
use adaptive_caching.Base.{
  ℕ, zero, suc, ◌+◌, ◌-◌, ◌*◌, ◌/◌, ◌%◌, ◌^◌, Bool, true, false, List, [], ◌∷◌, ◌++◌, map, reverse,
  Option, none, some, Key, key_dec, ℕ_discrete, Int64, add64, sub64, lt64, two64, lookup, upsert,
  delete, length, take, ltb, leb, ◌==◌, ◌||◌, if◌then◌else◌, Run, done, out_of_fuel, ◌>>=◌,
  or_panic, MapOrder, keys_of,
}
use adaptive_caching.Floats.{Float64, Platform, literal, lt_float, le_float, div_float, to_uint64}
use adaptive_caching.Types.{Entry}
use adaptive_caching.Types.Parameters.{
  Memory, ParamSet, allocate, ParamError, no_such_parameter, out_of_range,
}
use adaptive_caching.Policy.{EvictionPolicy, lfu, make_keys}
use adaptive_caching.Policy.LinkedList.{Node, Elements, push_front, remove_element, set_entry, back}

-- `maxLFUFreq`
abbrev pub max_lfu_freq : ℕ
max_lfu_freq = 2 ^ 16

-- `lfuPerEntryBytes`
abbrev pub lfu_per_entry_bytes : Int64
lfu_per_entry_bytes = 64

-- `lfuItem`: where the key's element is.
pub record Item : Type 0 where
  pub el : ℕ
  pub freq : ℕ

abbrev pub Buckets : Type 0
Buckets = List (ℕ × Elements)

-- `next` stands for the allocator: the address of the next new list element.
pub record Lfu : Type 0 where
  pub buckets : Buckets
  pub items : List (Key × Item)
  pub n : Int64
  pub age_cnt : ℕ
  pub age_max : ℕ
  pub decay : Float64
  pub metadata : Int64
  pub next : ℕ

-- `p.buckets[f]`, where an absent bucket is made empty.
abbrev pub bucket_of : ℕ → Buckets → Elements
bucket_of f bs = elim (lookup ℕ_discrete f bs) [ none ↦ [] | some l ↦ l ]

-- What becomes of a bucket that an element was removed from.
unfoldable pub settle : ℕ → Elements → Buckets → Buckets
settle f [] bs = delete ℕ_discrete f bs
settle f (x ∷ l) bs = upsert ℕ_discrete f (x ∷ l) bs

-- `newFreq`, a uint32.
abbrev pub next_freq : ℕ → ℕ
next_freq f = let g = (f + 1) % 2 ^ 32 in if ltb max_lfu_freq g then max_lfu_freq else g

-- The frequency after an ageing pass, and the one at which Rebuild starts.
abbrev pub half_freq : ℕ → ℕ
half_freq f = if ltb (f / 2) 1 then 1 else f / 2

abbrev pub first_freq : ℕ → ℕ
first_freq count =
    let f = count % 2 ^ 32 in
    let g = if ltb f 1 then 1 else f in if ltb max_lfu_freq g then max_lfu_freq else g

-- The loop of lowestFreqLocked, whose order does not matter; `none` stands for `!seen`.
unfoldable pub scan : List ℕ → Option ℕ → Option ℕ
scan [] best = best
scan (f ∷ fs) none = scan fs (some f)
scan (f ∷ fs) (some best) = scan fs (some (if ltb f best then f else best))

-- A new element for the node at the front of a bucket, and the key's item leads to it.
unfoldable pub attach : Key → ℕ → Node → Buckets → Lfu → Lfu
unfolding push_front
attach key f node bs p = record p {
  buckets = upsert ℕ_discrete f (push_front p.next node (bucket_of f bs)) bs;
  items = upsert key_dec key (record { el = p.next; freq = f }) p.items;
  next = suc p.next;
}

-- The value of an element is kept in its list, where it is looked up.
unfoldable pub relocate : Key → Item → ℕ → Lfu → Run (Lfu)
unfolding attach settle remove_element
relocate key it f p = do
  bucket ← or_panic (lookup ℕ_discrete it.freq p.buckets)
  node ← or_panic (lookup ℕ_discrete it.el bucket)
  done (attach key f node (settle it.freq (remove_element it.el bucket) p.buckets) p)

unfoldable pub increment : Key → Item → Lfu → Run (Lfu)
unfolding relocate
increment key it p =
    if it.freq == next_freq it.freq then done p else relocate key it (next_freq it.freq) p

-- One round of the loop of ageLocked over a bucket: its front element goes to the new bucket.
unfoldable pub shift : ℕ → ℕ → ℕ × Node → Lfu → Run (Lfu)
unfolding attach remove_element
shift old f (el, node) p = do
  it ← or_panic (lookup key_dec node.key p.items)
  let left = remove_element el (bucket_of old p.buckets)
  done (attach node.key f node (upsert ℕ_discrete old left p.buckets) p)

unfoldable pub drain : ℕ → ℕ → ℕ → Lfu → Run (Lfu)
unfolding shift
drain zero old f p = out_of_fuel
drain (suc fuel) old f p = do
  bucket ← or_panic (lookup ℕ_discrete old p.buckets)
  elim bucket [ [] ↦ done p | x ∷ l ↦ do p' ← shift old f x p; drain fuel old f p' ]

-- The loop of ageLocked over the frequencies: the body for one of them.
unfoldable pub age_bucket : ℕ → Lfu → Run (Lfu)
unfolding drain
age_bucket old p =
    let f = half_freq old in
    if f == old then done p else (do
      bucket ← or_panic (lookup ℕ_discrete old p.buckets)
      let p₁ : Lfu = record p { buckets = upsert ℕ_discrete f (bucket_of f p.buckets) p.buckets }
      p₂ ← drain (suc (length bucket)) old f p₁
      done (record p₂ { buckets = delete ℕ_discrete old p₂.buckets }))

unfoldable pub age_all : List ℕ → Lfu → Run (Lfu)
unfolding age_bucket
age_all [] p = done p
age_all (f ∷ fs) p = age_bucket f p >>= age_all fs

-- `next` differs at each pass that moves an element, so that each may iterate in another order.
unfoldable pub age : MapOrder → Lfu → Run (Lfu)
unfolding age_all
age m p = age_all (m.order p.next (keys_of p.buckets)) p

unfoldable pub tick : MapOrder → Lfu → Run (Lfu)
unfolding age
tick m p =
    if ltb 0 p.age_max
    then (let count = (p.age_cnt + 1) % two64 in
        if leb p.age_max count
        then (do p' ← age m (record p { age_cnt = count }); done (record p' { age_cnt = 0 }))
        else done (record p { age_cnt = count }))
    else done p

unfoldable pub on_access : MapOrder → Key → Lfu → Run (Lfu)
unfolding increment tick
on_access m key p = elim (lookup key_dec key p.items) [
  | none ↦ done p
  | some it ↦ increment key it p >>= tick m
]

-- A new key, in the bucket of a frequency.
unfoldable pub add : Key → Entry → ℕ → Lfu → Lfu
unfolding attach
add key e f p = record (attach key f (record { key = key; e = e.addr }) p.buckets p) {
  n = add64 p.n 1;
  metadata = add64 p.metadata lfu_per_entry_bytes;
}

unfoldable pub on_insert : Key → Entry → Lfu → Run (Lfu)
unfolding increment add
on_insert key e p = elim (lookup key_dec key p.items) [
  | none ↦ done (add key e 1 p)
  | some it ↦ do
    bucket ← or_panic (lookup ℕ_discrete it.freq p.buckets)
    let l = set_entry it.el e.addr bucket
    increment key it (record p { buckets = upsert ℕ_discrete it.freq l p.buckets })
]

unfoldable pub on_remove : Key → Lfu → Lfu
unfolding settle remove_element
on_remove key p = elim (lookup key_dec key p.items) [
  | none ↦ p
  | some it ↦ record p {
    buckets = elim (lookup ℕ_discrete it.freq p.buckets) [
      | none ↦ p.buckets
      | some l ↦ settle it.freq (remove_element it.el l) p.buckets
    ];
    items = delete key_dec key p.items;
    n = sub64 p.n 1;
    metadata = sub64 p.metadata lfu_per_entry_bytes;
  }
]

unfoldable pub lowest_freq : Lfu → ℕ
unfolding scan
lowest_freq p = elim (scan (keys_of p.buckets) none) [ none ↦ 0 | some f ↦ f ]

unfoldable pub victim : Lfu → Run (Option Key)
unfolding lowest_freq
victim p = if lowest_freq p == 0 then done none else (do
  bucket ← or_panic (lookup ℕ_discrete (lowest_freq p) p.buckets)
  done (elim (back bucket) [ none ↦ none | some x ↦ some x.1.key ]))

-- The outer loop of Candidates, for `n` more keys; it goes on for ever on an empty bucket.
unfoldable pub fill : ℕ → ℕ → Lfu → Run (List Key)
unfolding lowest_freq
fill fuel zero p = done []
fill zero (suc n) p = out_of_fuel
fill (suc fuel) (suc n) p = elim (lowest_freq p == 0) [
  | true ↦ done []
  | false ↦ do
    bucket ← or_panic (lookup ℕ_discrete (lowest_freq p) p.buckets)
    let ks = take (suc n) (map (λ x. x.1.key) (reverse bucket))
    rest ← fill fuel (suc n - length ks) p
    done (ks ++ rest)
]

unfoldable pub candidates : Int64 → Lfu → Run (List Key)
unfolding fill
candidates n p = if lt64 n 1 || (p.n == 0) then done [] else (do _ ← make_keys n; fill n n p)

-- The loop of Rebuild over the entries.
unfoldable pub adopt : List Entry → Lfu → Lfu
unfolding add
adopt [] p = p
adopt (e ∷ es) p = adopt es (add e.key e (first_freq e.access_count) p)

unfoldable pub reset : Lfu → Lfu
reset p = record p { buckets = []; items = []; n = 0; metadata = 0; age_cnt = 0 }

unfoldable pub rebuild : List Entry → Lfu → Lfu
unfolding adopt reset
rebuild es p = adopt es (reset p)

unfoldable pub metadata_bytes : Lfu → Lfu × Int64
metadata_bytes p =
    if p.metadata == 0
    then (let m = (p.n * lfu_per_entry_bytes) % two64 in (record p { metadata = m }, m))
    else (p, p.metadata)
