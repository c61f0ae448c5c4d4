-- ===== src/Policy/Clock.antt =====
-- cache/policy/clock.go: the second-chance policy. `cap`, `hand`, `live` and the positions in the
-- ring count slots that are in memory, so that they stay far below 2 ^ 63 and do not wrap; `live`
-- can go below zero.
pub mod Ring
pub mod Sweep
pub mod Invariant
pub mod Growth
pub mod Insertion
pub mod Rebuild
pub mod Batch
pub mod Contract
use adaptive_caching.Base.{
  ℕ, zero, suc, ◌+◌, ◌*◌, ◌%◌, ◌||◌, Bool, true, false, List, [], ◌∷◌, ◌++◌, Option, none, some,
  ite, Key, key_dec, Int64, two64, two63, lt64, lookup, upsert, delete, get_elem?, set, length,
  replicate, ltb, leb, ◌==◌, if◌then◌else◌, Run, done, panic, out_of_fuel, ◌>>=◌, or_panic, ℤ, pos,
  increment, decrement, is_below, is_zero,
}
use adaptive_caching.Types.{Entry}
use adaptive_caching.Types.Parameters.{no_such_parameter}
use adaptive_caching.Policy.{EvictionPolicy, PolicyName, clock, make_keys}

-- An empty slot has the key "". `e` is the address of the entry.
pub record Slot : Type 0 where
  pub key : Key
  pub ref : Bool
  pub e : ℕ

-- The zero value of a slot.
abbrev pub empty_slot : Slot
empty_slot = record { key = ""; ref = false; e = 0 }

-- `s.key == ""`
abbrev pub is_free : Slot → Bool
is_free s = ite (key_dec s.key "") true false

pub record Clock : Type 0 where
  pub index : List (Key × ℕ)
  pub slots : List Slot
  pub hand : ℕ
  pub cap : ℕ
  pub live : ℤ

abbrev pub clock_per_slot_bytes : Int64
clock_per_slot_bytes = 24

unfoldable pub new_clock : Clock
new_clock = record { index = []; slots = []; hand = 0; cap = 0; live = pos 0 }

-- `slots[i]`, read and written; out of range it panics.
abbrev pub slot_at : ℕ → List Slot → Run Slot
slot_at i slots = or_panic (get_elem? slots i)

abbrev pub update_slot : ℕ → (Slot → Slot) → List Slot → Run (List Slot)
update_slot i f slots = do s ← slot_at i slots; done (set slots i (f s))

-- `p.hand = (p.hand + 1) % p.cap`
abbrev pub advance : Clock → Run Clock
advance p = if p.cap == 0 then panic else done (record p { hand = (p.hand + 1) % p.cap })

unfoldable pub on_access : Key → Clock → Run Clock
on_access key p = elim (lookup key_dec key p.index) [
  | none ↦ done p
  | some i ↦ do
    slots ← update_slot i (λ s. record s { ref = true }) p.slots
    done (record p { slots = slots })
]

-- The loop of growLocked: from the old slots on, into the new ones at `idx`.
unfoldable pub compact :
    ℕ → List Slot → List Slot → List (Key × ℕ) → Run (List Slot × List (Key × ℕ) × ℕ)
compact idx [] new index = done (new, index, idx)
compact idx (s ∷ old) new index = if is_free s then compact idx old new index else (do
  new' ← update_slot idx (λ _. s) new
  compact (suc idx) old new' (upsert key_dec s.key idx index))

abbrev pub new_cap : ℕ → ℕ
new_cap cap = if ltb (cap * 2) 1 then 1 else cap * 2

unfoldable pub grow : Clock → Run Clock
unfolding compact
grow p = if is_below p.live p.cap then done p else (do
  (slots, index, idx) ← compact 0 p.slots (replicate (new_cap p.cap) empty_slot) p.index
  done (record p {
    index = index;
    slots = slots;
    hand = idx % new_cap p.cap;
    cap = new_cap p.cap;
    live = pos idx;
  }))

-- The loop of OnInsert: the hand walks to a free slot.
unfoldable pub seek : ℕ → ℕ → Clock → Run Clock
seek zero steps p = out_of_fuel
seek (suc fuel) steps p = do
  s ← slot_at p.hand p.slots
  elim (is_free s) [
    | true ↦ done p
    | false ↦ do
      p' ← advance p
      elim (ltb p'.cap (suc steps)) [
        | true ↦ do p'' ← grow p'; seek fuel 0 p''
        | false ↦ seek fuel (suc steps) p'
      ]
  ]

-- A slot is filled and the index told of it.
abbrev pub place : ℕ → Slot → Clock → Run Clock
place i s p = do
  slots ← update_slot i (λ _. s) p.slots
  done (record p { slots = slots; index = upsert key_dec s.key i p.index; live = increment p.live })

-- The walk gets fuel for one round more than the ring has slots.
unfoldable pub on_insert : Key → Entry → Clock → Run Clock
unfolding grow seek
on_insert key e p = elim (lookup key_dec key p.index) [
  | some i ↦ do
    slots ← update_slot i (λ s. record s { ref = true; e = e.addr }) p.slots
    done (record p { slots = slots })
  | none ↦ do
    p' ← grow p
    p'' ← seek (suc p'.cap) 0 p'
    placed ← place p''.hand (record { key = key; ref = true; e = e.addr }) p''
    advance placed
]

unfoldable pub on_remove : Key → Clock → Run Clock
on_remove key p = elim (lookup key_dec key p.index) [
  | none ↦ done p
  | some i ↦ do
    slots ← update_slot i (λ _. empty_slot) p.slots
    done (record p { slots = slots; index = delete key_dec key p.index; live = decrement p.live })
]

-- A slot whose bit is set gets its second chance.
abbrev pub spare : Slot → Slot
spare s = record s { ref = false }

-- The loop of Victim, for a number of rounds; `none` where it ends without a victim.
unfoldable pub sweep : ℕ → Clock → Run (Clock × Option Key)
sweep zero p = done (p, none)
sweep (suc k) p = do
  s ← slot_at p.hand p.slots
  elim (is_free s) [
    | true ↦ advance p >>= sweep k
    | false ↦ elim s.ref [
      | true ↦ advance (record p { slots = set p.slots p.hand (spare s) }) >>= sweep k
      | false ↦ done (p, some s.key)
    ]
  ]

-- What Victim does where the loop ended without a victim.
abbrev pub fallback : Clock → Run (Clock × Option Key)
fallback p = do s ← slot_at p.hand p.slots; done (p, if is_free s then none else some s.key)

unfoldable pub victim : Clock → Run (Clock × Option Key)
unfolding sweep
victim p = if is_zero p.live then done (p, none) else (do
  (p', found) ← sweep (2 * length p.slots) p
  elim found [ none ↦ fallback p' | some k ↦ done (p', some k) ])

-- The loop of Candidates, for a number of rounds, with room for `n` more keys.
unfoldable pub collect : ℕ → ℕ → Clock → Run (Clock × List Key)
collect zero n p = done (p, [])
collect (suc k) zero p = done (p, [])
collect (suc k) (suc n) p = do
  s ← slot_at p.hand p.slots
  elim (is_free s) [
    | true ↦ advance p >>= collect k (suc n)
    | false ↦ elim s.ref [
      | true ↦ advance (record p { slots = set p.slots p.hand (spare s) }) >>= collect k (suc n)
      | false ↦ do p' ← advance p; (p'', out) ← collect k n p'; done (p'', s.key ∷ out)
    ]
  ]

unfoldable pub candidates : Int64 → Clock → Run (Clock × List Key)
unfolding collect
candidates n p =
    if lt64 n 1 || (is_zero p.live)
    then done (p, [])
    else (do _ ← make_keys n; collect (2 * length p.slots) n p)

-- The loop of Rebuild that doubles the capacity.
unfoldable pub fit_cap : ℕ → ℕ → ℕ → Run ℕ
fit_cap zero cap n = out_of_fuel
fit_cap (suc fuel) cap n = elim (ltb cap n) [ true ↦ fit_cap fuel (cap * 2) n | false ↦ done cap ]

-- The loop of Rebuild that adopts the entries.
unfoldable pub adopt : ℕ → List Entry → Clock → Run Clock
adopt i [] p = done p
adopt i (e ∷ es) p =
    place i (record { key = e.key; ref = false; e = e.addr }) p >>= adopt (suc i) es

unfoldable pub rebuild : List Entry → Clock → Run Clock
unfolding fit_cap adopt
rebuild es p = do
  cap ← fit_cap (suc (length es)) 1 (length es)
  adopt 0 es
      (record { index = []; slots = replicate cap empty_slot; hand = 0; cap = cap; live = pos 0 })

unfoldable pub metadata_bytes : Clock → Int64
metadata_bytes p = (p.cap * clock_per_slot_bytes) % two64

unfoldable pub reset : Clock → Clock
reset p = record { index = []; slots = []; hand = 0; cap = 0; live = pos 0 }

-- CLOCK behind the interface.
abbrev pub clock_policy : EvictionPolicy
clock_policy = record {
  State = Clock;
  name = λ _. clock;
  on_access = λ k _ p. on_access k p;
  on_insert = on_insert;
  on_remove = λ k _ p. on_remove k p;
  victim = victim;
  candidates = candidates;
  should_admit = λ _ _ _. true;
  params = λ _ mem. ([], mem);
  set_param = λ k _ p. (p, some (no_such_parameter k));
  rebuild = rebuild;
  metadata_bytes = λ p. (p, metadata_bytes p);
  reset = reset;
}
