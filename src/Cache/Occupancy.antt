-- ===== src/Cache/Occupancy.antt =====
-- Memory and Stats of cache/core.go: what they report, and what they leave behind.
use native.Mathlib.Nat.{mul-add}
use adaptive_caching.Base.{
  ℕ, ◌*◌, ◌+◌, ◌%◌, ◌≡◌, refl, ◌∙◌, Option, none, some, arith, Int64, add64, two64, length,
}
use adaptive_caching.Store.{Store, object_count}
use adaptive_caching.Store.Invariant.{payload, key_lengths}
use adaptive_caching.Policy.{EvictionPolicy, View, IsLawful}
use adaptive_caching.Metrics.{observe_cache}
use adaptive_caching.Metrics.Memory.{MemoryBreakdown, Sizes, account_memory}
use adaptive_caching.Cache.{Cache}
use adaptive_caching.Cache.Invariant.{IsValid, PolicyFits}

module _ (p : EvictionPolicy) where
  -- The policy may note what it reports.
  abbrev pub policy_bytes : Option p.State → Option p.State × Int64
  policy_bytes none = (none, 0)
  policy_bytes (some q) = (some (p.metadata_bytes q).0, (p.metadata_bytes q).1)

  unfoldable pub memory : Sizes → Cache p → Cache p × MemoryBreakdown
  memory sizes c =
      let (q, bytes) = policy_bytes c.policy in
      (
        record c { policy = q },
        account_memory sizes (object_count c.store) c.store.bytes c.store.key_bytes bytes,
      )

  -- Stats, up to the snapshot that it returns.
  unfoldable pub stats : Sizes → Cache p → Cache p
  unfolding memory
  stats sizes c =
      let (c', mem) = memory sizes c in
      record c' {
        metrics =
            observe_cache
              (record {
                capacity = c'.store.capacity;
                bytes_used = c'.store.bytes;
                metadata_bytes = mem.metadata_bytes;
                object_count = mem.object_count;
              })
              c'.metrics;
      }

-- Wrap-around may wait to the end of a sum.
sum_wraps :
    (k x y q : ℕ)
    → add64 (add64 (add64 (k % two64) (x % two64)) (y % two64)) q ≡ (k + (x + y) + q) % two64
sum_wraps k x y q = omega arith

module _ {p : EvictionPolicy} {view : View p} (law : IsLawful p view) where
  pub policy_bytes-PolicyFits :
      (o : Option p.State) (s : Store) → PolicyFits law o s → PolicyFits law (policy_bytes p o).0 s
  policy_bytes-PolicyFits none s f = tt
  policy_bytes-PolicyFits (some q) s f =
      let (inv, same) = law.metadata_law q f.0 in (inv, λ j. same j ∙ f.1 j)

  -- Stats of a valid cache leaves it valid and its store as it is. The state that it shows is the
  -- capacity, the sum of the resident objects' sizes and their number; the bytes of metadata are
  -- those of the keys, those of the entries and of the index (in proportion to the number of
  -- objects), and those that the policy reports, added modulo 2 ^ 64.
  pub stats-IsValid :
      (sizes : Sizes) (c : Cache p)
      → IsValid law c
      → IsValid law (stats p sizes c)
        × ((stats p sizes c).store ≡ c.store)
        × ((stats p sizes c).metrics.state.capacity ≡ c.store.capacity)
        × ((stats p sizes c).metrics.state.bytes_used ≡ payload c.store.items)
        × ((stats p sizes c).metrics.state.object_count ≡ length c.store.items)
        × ((stats p sizes c).metrics.state.metadata_bytes
            ≡ (key_lengths c.store.items
                + length c.store.items * (sizes.entry_struct_bytes + sizes.map_entry_overhead_bytes)
                + (policy_bytes p c.policy).1)
              % two64)
  unfolding stats account_memory observe_cache
  stats-IsValid sizes c v = (
    record {
      store_valid = v.store_valid;
      fits = policy_bytes-PolicyFits c.policy c.store v.fits;
      resident = v.resident;
      bus_valid = v.bus_valid;
    },
    refl,
    refl,
    v.store_valid.exact,
    refl,
    rw (v.store_valid.keys_exact, mul-add n sizes.entry_struct_bytes sizes.map_entry_overhead_bytes)
        (sum_wraps (key_lengths c.store.items) (n * sizes.entry_struct_bytes)
          (n * sizes.map_entry_overhead_bytes) (policy_bytes p c.policy).1),
  )
    where
      n : ℕ
      n = length c.store.items
