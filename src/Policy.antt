-- ===== src/Policy.antt =====
-- cache/policy/policy.go: the interface of an eviction policy, and the contract that the cache core
-- relies on.
pub mod LinkedList
pub mod Lru
pub mod Clock
pub mod Lfu
pub mod Registry
pub mod Batch
pub mod Either
use adaptive_caching.Base.{
  ℕ, ◌^◌, ◌≤◌, ◌≡◌, ◌⊎◌, Bool, true, false, List, [], ◌∷◌, Option, none, some, ite, Key, key_dec,
  Int64, lt64, ltb, if◌then◌else◌, Run, done, panic, Returns,
}
use adaptive_caching.Floats.{Float64}
use adaptive_caching.Types.{Entry}
use adaptive_caching.Types.Parameters.{Memory, ParamSet, ParamError}

-- types/policy.go: PolicyName.
pub data PolicyName : Type 0 where
  no_policy lru lfu arc wtinylfu clock adaptive : PolicyName

-- A method takes the state and returns the new one. `e.addr` is all that a policy keeps of an entry.
pub record EvictionPolicy : Type 1 where
  pub State : Type 0
  pub name : State → PolicyName
  pub on_access : Key → Entry → State → Run State
  pub on_insert : Key → Entry → State → Run State
  pub on_remove : Key → Option Entry → State → Run State
  pub victim : State → Run (State × Option Key)
  pub candidates : Int64 → State → Run (State × List Key)
  pub should_admit : Key → Int64 → State → Bool
  pub params : State → Memory → ParamSet × Memory
  pub set_param : Key → Float64 → State → State × Option ParamError
  pub rebuild : List Entry → State → Run State
  pub metadata_bytes : State → State × Int64
  pub reset : State → State

-- `make([]string, 0, n)`: on a 64-bit machine the runtime panics above 2 ^ 48 bytes, and a string
-- header takes 16.
abbrev pub max_keys : ℕ
max_keys = 2 ^ 44

abbrev pub make_keys : Int64 → Run (Unit {0})
make_keys n = if ltb max_keys n then panic else done tt

-- The numbers of keys that Candidates may be asked for: 0 and the negative ones, too.
abbrev pub IsMakeable : Int64 → Type 0
IsMakeable n = (lt64 n 1 ≡ true) ⊎ (n ≤ max_keys)

-- Every key of a list satisfies `P`.
abbrev pub AllKeys : (Key → Type 0) → List Key → Type 0
AllKeys P [] = Unit
AllKeys P (k ∷ ks) = P k × AllKeys P ks

-- One of the entries is for the key.
abbrev pub listed : Key → List Entry → Bool
listed k [] = false
listed k (e ∷ es) = ite (key_dec e.key k) true (listed k es)

-- The entries are for different keys, each of which satisfies `P`.
abbrev pub AreDistinct : (Key → Type 0) → List Entry → Type 0
AreDistinct P [] = Unit
AreDistinct P (e ∷ es) = P e.key × (listed e.key es ≡ false) × AreDistinct P es

-- A policy that was asked for a victim names a key that it tracks, or tracks none.
abbrev pub IsChosen : (Key → Bool) → Option Key → Type 0
IsChosen tracked none = (j : Key) → tracked j ≡ false
IsChosen tracked (some k) = tracked k ≡ true

-- How a policy's state is read: its invariant, the keys that it can hold, and the set of the keys
-- that it has metadata for.
pub record View (p : EvictionPolicy) : Type 1 where
  pub Inv : p.State → Type 0
  pub Admissible : Key → Type 0
  pub tracks : p.State → Key → Bool

-- The contract: every method returns (it neither panics nor loops), keeps the invariant, and changes
-- the set of keys as its name says. Victim and Candidates name tracked keys only.
pub record IsLawful (p : EvictionPolicy) (view : View p) : Type 0 where
  pub access_law :
      (k : Key) (e : Entry) (s : p.State)
      → view.Inv s
      → Returns
          (p.on_access k e s)
          (λ s'. view.Inv s' × ((j : Key) → view.tracks s' j ≡ view.tracks s j))
  pub insert_law :
      (k : Key) (e : Entry) (s : p.State)
      → view.Inv s
      → view.Admissible k
      → Returns (p.on_insert k e s) (λ s'.
        view.Inv s' × ((j : Key) → view.tracks s' j ≡ ite (key_dec k j) true (view.tracks s j)))
  pub remove_law :
      (k : Key) (o : Option Entry) (s : p.State)
      → view.Inv s
      → Returns (p.on_remove k o s) (λ s'.
        view.Inv s' × ((j : Key) → view.tracks s' j ≡ ite (key_dec k j) false (view.tracks s j)))
  pub victim_law :
      (s : p.State)
      → view.Inv s
      → Returns (p.victim s) (λ r.
        view.Inv r.0
        × ((j : Key) → view.tracks r.0 j ≡ view.tracks s j)
        × IsChosen (view.tracks s) r.1)
  pub candidates_law :
      (n : Int64) (s : p.State)
      → view.Inv s
      → IsMakeable n
      → Returns (p.candidates n s) (λ r.
        view.Inv r.0
        × ((j : Key) → view.tracks r.0 j ≡ view.tracks s j)
        × AllKeys (λ k. view.tracks s k ≡ true) r.1)
  pub param_law :
      (k : Key) (v : Float64) (s : p.State)
      → view.Inv s
      → view.Inv (p.set_param k v s).0
        × ((j : Key) → view.tracks (p.set_param k v s).0 j ≡ view.tracks s j)
  pub rebuild_law :
      (es : List Entry) (s : p.State)
      → AreDistinct view.Admissible es
      → Returns (p.rebuild es s) (λ s'. view.Inv s' × ((j : Key) → view.tracks s' j ≡ listed j es))
  pub metadata_law :
      (s : p.State)
      → view.Inv s
      → view.Inv (p.metadata_bytes s).0
        × ((j : Key) → view.tracks (p.metadata_bytes s).0 j ≡ view.tracks s j)
  pub reset_law :
      (s : p.State) → view.Inv (p.reset s) × ((j : Key) → view.tracks (p.reset s) j ≡ false)
