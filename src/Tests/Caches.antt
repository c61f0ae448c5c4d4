-- ===== src/Tests/Caches.antt =====
-- A cache of 100 bytes with LRU and a bus, before and after an object was put.
mod Threads
mod Exchange
use adaptive_caching.Base.{
  ◌+◌, ◌*◌, ◌%◌, two64, length, ◌≤◌, ◌≡◌, refl, sym, ◌∙◌, ap, subst, [], ◌∷◌, none, some, ite,
  arith, Key, key_dec, Run, done, panic, out_of_fuel, Returns, lookup, upsert, delete, ℕ_discrete,
}
use adaptive_caching.Types.{Entry, Value, count_access, sub_time}
use adaptive_caching.Store
use adaptive_caching.Store.{
  Store, Error, contains, new_store, write, admit, replace, projected, touch,
}
use adaptive_caching.Store.Invariant.{payload, key_lengths}
use adaptive_caching.Policy.LinkedList.{push_front, move_to_front, remove_element, set_entry, back}
use adaptive_caching.Policy.Lru
use adaptive_caching.Policy.Lru.{Lru, lru_policy, new_lru, add_front}
use adaptive_caching.Policy.Lru.Contract.{lru_view, lru-IsLawful}
use adaptive_caching.Events
use adaptive_caching.Events.{MemBus, new_bus}
use adaptive_caching.Events.Invariant as BusInvariant
use adaptive_caching.Metrics.{
  new_collector, record_request, record_fetch, record_eviction, set_policy as note_policy,
}
use adaptive_caching.Metrics.Latency.{new_histogram, record_value}
use adaptive_caching.Cache.{
  Cache, Options, new, get, put, put_loop, remove, clear, set_policy, policy_name, publish, access,
  evict_one, inserted, value_of,
}
use adaptive_caching.Cache.Invariant.{IsValid}
use adaptive_caching.Cache.Occupancy.{stats, policy_bytes, stats-IsValid}
use adaptive_caching.Metrics.Memory.{Sizes, RuntimeMemory}
use adaptive_caching.Cache.Serving.{get-IsValid, remove-IsValid}
use adaptive_caching.Cache.Admission.{Outcome}
use adaptive_caching.Cache.Put.{BareOutcome, put-Outcome, put-BareOutcome, put-get}
use adaptive_caching.Cache.History.{here, next, puts, new-IsValid, Reach-new}

-- What a run of the cache has to open.
program : Unit {0}
unfolding count_access sub_time new_store Store.get touch contains projected write Store.insert
    Store.remove Store.clear push_front move_to_front remove_element set_entry back new_lru
    Lru.on_access Lru.on_insert Lru.on_remove add_front Lru.victim Lru.reset Lru.rebuild new_bus
    Events.publish Events.offer_all new_collector record_request record_fetch record_eviction
    note_policy new_histogram record_value policy_name new get put put_loop remove clear set_policy
    publish access evict_one inserted lookup upsert delete key_dec ℕ_discrete
program = tt

abbrev options : Options Lru
options = record {
  capacity = 100;
  policy = some new_lru;
  bus = some new_bus;
  metrics = none;
  request_sample_rate = 1;
}

abbrev start : Cache lru_policy
start = new lru_policy options

start-IsValid : IsValid lru-IsLawful start
unfolding new_lru Lru.reset
start-IsValid =
    new-IsValid lru-IsLawful options (omega arith) (lru-IsLawful.reset_law new_lru)
      BusInvariant.new_bus-IsValid

-- The cache that a call leaves.
state_or {ℓ} : {A : Type ℓ} {S : Type ℓ} → S → Run (S × A) → S
state_or s (done r) = r.0
state_or s panic = s
state_or s out_of_fuel = s

abbrev small_value : Value
small_value = 1 ∷ 2 ∷ []

-- An object of 60 bytes was put.
warm : Cache lru_policy
warm = state_or start (put lru_policy "a" small_value 60 7 start)

warm_run : put lru_policy "a" small_value 60 7 start ≡ done (warm, none)
unfolding warm program state_or
warm_run = refl

run_eq {ℓ} : {A : Type ℓ} {a b : A} → done a ≡ done b → a ≡ b
run_eq e = cc

warm-IsValid : IsValid lru-IsLawful warm
unfolding new_lru program
warm-IsValid =
    let (r, ran, (v, _)) =
      put-Outcome lru-IsLawful "a" small_value 60 7 start start-IsValid (omega arith) tt new_lru
        refl refl in
    subst (IsValid lru-IsLawful) (ap (λ x. x.0) (run_eq (sym ran ∙ warm_run))) v

warm_policy : (q : Lru) × (warm.policy ≡ some q)
unfolding warm program state_or
warm_policy = (_, refl)

warm_capacity : warm.store.capacity ≡ 100
unfolding warm program state_or
warm_capacity = refl

-- The object "a" has to go.
put-Outcome_example :
    Returns
      (put lru_policy "b" small_value 60 9 warm)
      (λ r. IsValid lru-IsLawful r.0 × Outcome "b" small_value 60 9 warm.store r.0.store r.1)
put-Outcome_example =
    put-Outcome lru-IsLawful "b" small_value 60 9 warm warm-IsValid (omega arith) tt warm_policy.0
      warm_policy.1 refl

put-get_example :
    Returns
      (put lru_policy "b" small_value 60 9 warm)
      (λ r. (r.1 ≡ none) × Returns (get lru_policy "b" 10 12 r.0) (λ g. g.1 ≡ some small_value))
put-get_example =
    put-get lru-IsLawful "b" small_value 60 9 10 12 warm warm_policy.0 warm-IsValid tt
      (omega (arith, warm_capacity)) warm_policy.1 refl

get-IsValid_example : Returns (get lru_policy "a" 10 12 warm) (λ r.
    IsValid lru-IsLawful r.0
    × (r.0.store ≡ (touch "a" 10 warm.store).0)
    × (r.1 ≡ value_of lru_policy (Store.get "a" warm.store)))
get-IsValid_example = get-IsValid lru-IsLawful "a" 10 12 warm warm-IsValid

Reach-new_example :
    (warm.store.bytes ≡ payload warm.store.items)
    × (warm.store.bytes ≤ warm.store.capacity)
    × ((q : Lru) → warm.policy ≡ some q → (j : Key) → lru_view.tracks q j ≡ contains j warm.store)
unfolding new_lru Lru.reset
Reach-new_example =
    Reach-new lru-IsLawful options warm (omega arith) (lru-IsLawful.reset_law new_lru)
      BusInvariant.new_bus-IsValid
      (next here (puts "a" small_value 60 7 none (omega arith) tt warm_run))

-- A cache with no policy, which is full.
bare : Cache lru_policy
bare = record warm { policy = none }

bare-IsValid : IsValid lru-IsLawful bare
unfolding bare
bare-IsValid = record {
  store_valid = warm-IsValid.store_valid;
  fits = tt;
  resident = warm-IsValid.resident;
  bus_valid = warm-IsValid.bus_valid;
}

put-BareOutcome_example :
    Returns
      (put lru_policy "b" small_value 60 9 bare)
      (λ r. IsValid lru-IsLawful r.0 × BareOutcome "b" small_value 60 9 bare.store r.0.store r.1)
unfolding bare
put-BareOutcome_example =
    put-BareOutcome lru-IsLawful "b" small_value 60 9 bare bare-IsValid (omega arith) tt refl

abbrev entry_a : Entry
entry_a = record {
  addr = 0;
  key = "a";
  value = small_value;
  size = 60;
  insertion_time = 7;
  last_access_time = 7;
  access_count = 1;
}

abbrev idle : RuntimeMemory
idle = record {
  heap_alloc_bytes = 0;
  heap_sys_bytes = 0;
  heap_objects = 0;
  total_allocated = 0;
  sys_bytes = 0;
  num_gc = 0;
}

abbrev sizes : Sizes
sizes = record { entry_struct_bytes = 120; map_entry_overhead_bytes = 32; runtime = idle }

stats-IsValid_example :
    IsValid lru-IsLawful (stats lru_policy sizes warm)
    × ((stats lru_policy sizes warm).store ≡ warm.store)
    × ((stats lru_policy sizes warm).metrics.state.capacity ≡ warm.store.capacity)
    × ((stats lru_policy sizes warm).metrics.state.bytes_used ≡ payload warm.store.items)
    × ((stats lru_policy sizes warm).metrics.state.object_count ≡ length warm.store.items)
    × ((stats lru_policy sizes warm).metrics.state.metadata_bytes
        ≡ (key_lengths warm.store.items
            + length warm.store.items * (sizes.entry_struct_bytes + sizes.map_entry_overhead_bytes)
            + (policy_bytes lru_policy warm.policy).1)
          % two64)
stats-IsValid_example = stats-IsValid lru-IsLawful sizes warm warm-IsValid
