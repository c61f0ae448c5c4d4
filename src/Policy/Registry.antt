-- ===== src/Policy/Registry.antt =====
-- cache/policy/registry.go: constructors of policies by name. The global map is the state. A name is
-- the text of a PolicyName; `P` stands for the policies, and a nil constructor is `none`.
pub mod Listing
use adaptive_caching.Base.{
  Bool, true, false, List, [], ◌∷◌, Option, none, some, Key, key_dec, lookup, upsert, Run, done,
  panic, is_some, str_lt, if◌then◌else◌,
}
use adaptive_caching.Policy.{PolicyName, no_policy, lru, lfu, arc, wtinylfu, clock, adaptive}

-- PolicyName.String
abbrev pub name_text : PolicyName → Key
name_text no_policy = "none"
name_text lru = "lru"
name_text lfu = "lfu"
name_text arc = "arc"
name_text wtinylfu = "wtinylfu"
name_text clock = "clock"
name_text adaptive = "adaptive"

abbrev pub Constructor : Type 0 → Type 0
Constructor P = Unit {0} → P

abbrev pub Registry : Type 0 → Type 0
Registry P = List (Key × Constructor P)

-- An insertion sort stands for `sort.Slice`.
unfoldable pub insert_name : Key → List Key → List Key
insert_name k [] = k ∷ []
insert_name k (j ∷ l) = let rest = insert_name k l in if str_lt j k then j ∷ rest else k ∷ j ∷ l

unfoldable pub register :
    {P : Type 0} → Key → Option (Constructor P) → Registry P → Run (Registry P)
register name none r = panic
register name (some ctor) r = done (upsert key_dec name ctor r)

unfoldable pub new_policy : {P : Type 0} → Key → Registry P → Option P
new_policy name r = elim (lookup key_dec name r) [ none ↦ none | some ctor ↦ some (ctor tt) ]

unfoldable pub names : {P : Type 0} → Registry P → List Key
unfolding insert_name
names [] = []
names ((k, ctor) ∷ r) = insert_name k (names r)

unfoldable pub is_known : {P : Type 0} → Key → Registry P → Bool
is_known name r = is_some (lookup key_dec name r)

unfoldable pub unregister_all : {P : Type 0} → Registry P → Registry P
unregister_all r = []
