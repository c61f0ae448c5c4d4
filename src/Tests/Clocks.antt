-- ===== src/Tests/Clocks.antt =====
-- CLOCK after a few calls.
use adaptive_caching.Base.{
  ◌≡◌, ◌∙◌, sym, subst, refl, true, false, List, [], ◌∷◌, none, some, arith, Key, key_dec,
  ℕ_discrete, lookup, upsert, delete, Run, done, panic, out_of_fuel, ◌>>=◌, Returns, ite, is_zero,
  ◌≢◌, str_eq-false,
}
use adaptive_caching.Types.{Entry}
use adaptive_caching.Policy.{AreDistinct}
use adaptive_caching.Policy.Clock.{
  Clock, new_clock, on_access, on_insert, on_remove, grow, compact, seek, sweep, victim, candidates,
  collect, rebuild, adopt, fit_cap, reset,
}
use adaptive_caching.Policy.Clock.Sweep.{IsFound}
use adaptive_caching.Policy.Clock.Invariant.{IsValid}
use adaptive_caching.Policy.Clock.Rebuild.{rebuild-IsValid}
use adaptive_caching.Policy.Clock.Contract.{victim-IsFound}

program : Unit {0}
unfolding new_clock on_access on_insert on_remove grow compact seek sweep victim candidates collect
    rebuild adopt fit_cap reset lookup upsert delete key_dec ℕ_discrete
program = tt

abbrev entry : Key → Entry
entry k = record {
  addr = 0;
  key = k;
  value = [];
  size = 1;
  insertion_time = 0;
  last_access_time = 0;
  access_count = 1;
}

abbrev named {ℓ} : {S : Type ℓ} → {A : Type ℓ} → A → Run (S × A) → A
named a (done r) = r.1
named a panic = a
named a out_of_fuel = a

-- "a", "b" and "c" were inserted, then "a" was used.
abbrev history : Run Clock
history =
    on_insert "a" (entry "a") new_clock
    >>= on_insert "b" (entry "b")
    >>= on_insert "c" (entry "c")
    >>= on_access "a"

state_or : Run Clock → Clock
state_or (done p) = p
state_or panic = new_clock
state_or out_of_fuel = new_clock

warm : Clock
warm = state_or history

-- Every key gets its second chance, and the hand comes back to "a".
warm_victim : named none (victim warm) ≡ some "a"
unfolding warm state_or program
warm_victim = refl

-- The slots of a rebuilt ring have no reference bits set: Candidates lists a key in both rounds.
twice :
    named [] (rebuild (entry "a" ∷ entry "b" ∷ []) new_clock >>= candidates 5)
    ≡ "a" ∷ "b" ∷ "a" ∷ "b" ∷ []
unfolding program
twice = refl

-- The key "" marks an empty slot, so that its owner is counted and never found.
lost : named (some "x") (on_insert "" (entry "") new_clock >>= victim) ≡ none
unfolding program
lost = refl

abbrev pair : List Entry
pair = entry "a" ∷ entry "b" ∷ []

-- The ring after Rebuild.
ring : Clock
ring = state_or (rebuild pair new_clock)

ring_run : rebuild pair new_clock ≡ done ring
unfolding ring state_or program
ring_run = refl

ring_live : is_zero ring.live ≡ false
unfolding ring state_or program
ring_live = refl

run_eq : {a b : Clock} → done a ≡ done b → a ≡ b
run_eq e = cc

pair-AreDistinct : AreDistinct (λ k. k ≢ "") pair
pair-AreDistinct = (str_eq-false "a" "" refl, other, (str_eq-false "b" "" refl, refl, tt))
  where
    other : ite (key_dec "b" "a") true false ≡ false
    other = ground (arith, str_eq-false "b" "a" refl)

ring-IsValid : IsValid ring
ring-IsValid =
    let (p, ran, (v, _)) = rebuild-IsValid pair new_clock pair-AreDistinct in
    subst IsValid (run_eq (sym ran ∙ ring_run)) v

victim-IsFound_example : Returns (victim ring) (IsFound ring)
victim-IsFound_example = victim-IsFound ring ring-IsValid ring_live
