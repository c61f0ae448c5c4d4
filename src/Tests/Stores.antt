-- ===== src/Tests/Stores.antt =====
-- A store of 100 bytes with one object.
use adaptive_caching.Base.{
  ◌+◌, ◌-◌, ◌<◌, ◌≡◌, refl, true, [], ◌∷◌, none, arith, key_dec, lt64, lookup, upsert, delete, ◌^◌,
}
use adaptive_caching.Types.{Entry, count_access}
use adaptive_caching.Store
use adaptive_caching.Store.{
  Store, ok, err, capacity_exceeded, new_store, write, admit, replace, projected,
}
use adaptive_caching.Store.Invariant.{new_store-IsValid}
use adaptive_caching.Store.Insert.{
  insert_spec, IsInserted, insert-eq-insert_spec, insert-IsInserted, insert_wraps,
}

program : Unit {0}
unfolding new_store Store.get write admit replace projected Store.insert Store.remove insert_spec
    count_access lookup upsert delete key_dec
program = tt

abbrev one : Store
one = (admit "a" (1 ∷ []) 60 7 (new_store 100)).0

one_run :
    Store.insert "a" (1 ∷ []) 60 7 (new_store 100)
    ≡ ok (one, (admit "a" (1 ∷ []) 60 7 (new_store 100)).1)
unfolding program
one_run = refl

one-IsInserted :
    IsInserted "a" (1 ∷ []) 60 7 (new_store 100) one (admit "a" (1 ∷ []) 60 7 (new_store 100)).1
one-IsInserted =
    insert-IsInserted "a" (1 ∷ []) 60 7 (new_store 100) one _ (new_store-IsValid 100 (omega arith))
      (omega arith) one_run

-- No room beside "a".
refused : Store.insert "b" (2 ∷ []) 60 8 one ≡ err capacity_exceeded
unfolding program
refused = refl

insert-eq-insert_spec_example :
    Store.insert "b" (2 ∷ []) 60 8 one ≡ insert_spec "b" (2 ∷ []) 60 8 one
insert-eq-insert_spec_example =
    insert-eq-insert_spec "b" (2 ∷ []) 60 8 one one-IsInserted.valid (omega arith)

-- "a" is replaced.
abbrev two : Store
two = (write "a" (2 ∷ []) 90 8 (Store.get "a" one) one).0

replaced_run :
    Store.insert "a" (2 ∷ []) 90 8 one
    ≡ ok (two, (write "a" (2 ∷ []) 90 8 (Store.get "a" one) one).1)
unfolding program
replaced_run = refl

insert-IsInserted_example :
    IsInserted "a" (2 ∷ []) 90 8 one two (write "a" (2 ∷ []) 90 8 (Store.get "a" one) one).1
insert-IsInserted_example =
    insert-IsInserted "a" (2 ∷ []) 90 8 one two (write "a" (2 ∷ []) 90 8 (Store.get "a" one) one).1
      one-IsInserted.valid (omega arith) replaced_run

-- A store of 2 ^ 63 - 1 bytes, of which 2 ^ 62 are in use.
abbrev vast : Store
vast = (admit "a" [] (2 ^ 62) 7 (new_store (2 ^ 63 - 1))).0

vast_facts : (Store.get "b" vast ≡ none) × (vast.capacity ≡ 2 ^ 63 - 1) × (vast.bytes ≡ 2 ^ 62)
unfolding program
vast_facts = (refl, refl, refl)

insert_wraps_example :
    (s' : Store) × (e : Entry) × (Store.insert "b" [] (2 ^ 62) 8 vast ≡ ok (s', e))
    × (vast.capacity < vast.bytes + 2 ^ 62)
    × (lt64 s'.bytes 0 ≡ true)
insert_wraps_example =
    insert_wraps "b" [] (2 ^ 62) 8 vast vast_facts.0 (omega (arith, vast_facts.1))
      (omega (arith, vast_facts.1)) (omega (arith, vast_facts.1, vast_facts.2))
      (omega (arith, vast_facts.2))
