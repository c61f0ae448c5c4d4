-- ===== src/Tests/Policies.antt =====
-- LRU after a few calls.
use adaptive_caching.Base.{
  ◌≡◌, refl, List, [], ◌∷◌, some, arith, Key, key_dec, ℕ_discrete, two63, length, lookup, upsert,
  delete, take, reverse, if◌then◌else◌, leb,
}
use adaptive_caching.Types.{Entry}
use adaptive_caching.Policy.LinkedList.{push_front, move_to_front, remove_element, set_entry, back}
use adaptive_caching.Policy.Lru.{
  new_lru, on_access, on_insert, on_remove, add_front, victim, reset, keys, candidates,
}
use adaptive_caching.Policy.Lru.Invariant.{IsValid, reset-IsValid}
use adaptive_caching.Policy.Lru.Recency.{
  Call, access, removal, insertion, drop_key, member, spec_step, spec_run, step, run, last,
  run-refines,
}
use adaptive_caching.Policy.Lru.Batch.{candidates-take}

program : Unit {0}
unfolding push_front move_to_front remove_element set_entry back new_lru on_access on_insert
    on_remove add_front victim reset candidates drop_key member spec_step spec_run step run last
    lookup upsert delete key_dec ℕ_discrete
program = tt

abbrev entry : Key → Entry
entry k = record {
  addr = 0;
  key = k;
  value = [];
  size = 1;
  insertion_time = 0;
  last_access_time = 0;
  access_count = 1;
}

abbrev calls : List Call
calls =
    insertion "a" (entry "a")
    ∷ insertion "b" (entry "b")
    ∷ insertion "c" (entry "c")
    ∷ access "a"
    ∷ insertion "b" (entry "b")
    ∷ removal "c"
    ∷ []

-- "a" was used after "b"; to insert "b" again was no use.
order_after :
    (keys (run calls new_lru).ll ≡ "a" ∷ "b" ∷ []) × (victim (run calls new_lru) ≡ some "b")
unfolding program
order_after = (refl, refl)

new_lru-IsValid : IsValid new_lru
unfolding new_lru reset
new_lru-IsValid = reset-IsValid new_lru

run-refines_example :
    IsValid (run calls new_lru)
    × (keys (run calls new_lru).ll ≡ spec_run calls (keys new_lru.ll))
    × (victim (run calls new_lru) ≡ last (spec_run calls (keys new_lru.ll)))
run-refines_example = run-refines calls new_lru new_lru-IsValid

run-IsValid : IsValid (run calls new_lru)
run-IsValid = (run-refines calls new_lru new_lru-IsValid).0

two_keys : length (run calls new_lru).ll ≡ 2
unfolding program
two_keys = refl

candidates-take_example :
    candidates 5 (run calls new_lru)
    ≡ (if leb two63 5 then [] else take 5 (reverse (keys (run calls new_lru).ll)))
candidates-take_example =
    candidates-take 5 (run calls new_lru) run-IsValid (omega (arith, two_keys)) (omega arith)
