-- ===== src/Lib.antt =====
-- The adaptive cache, cache/, events/, metrics/ and types/, in Go: a byte-accounted store behind a
-- core that serves requests, asks a replaceable eviction policy for victims, counts, and publishes
-- events on a bus.
--
-- How the parts interact. The core (cache/core.go) holds the store (cache/store.go), a policy
-- (cache/policy/policy.go) or none, a bus (events/bus.go) or none, and a collector
-- (metrics/collector.go). Get touches the entry, tells the policy, counts the request and publishes
-- a hit or a miss. Put inserts into the store; as long as the store reports a lack of space, it
-- asks the policy for a victim, removes that from the store and the policy, counts and publishes
-- the eviction, and tries again. SetPolicy resets a policy and rebuilds it from the resident
-- entries.
--
-- Which file models which part.
--   Base and its children: Boolean tests, lists, Go maps as association lists, 64-bit words with
--     wrap-around (add64, sub64, lt64 for +, -, < on int64), and `Run`, the outcome of a call: it
--     returns (`done`), panics, or never returns (`out_of_fuel`).
--   Types: types/entry.go and types/request.go. An entry's `addr` stands for the pointer.
--   Store: cache/store.go, one function per method. Store/Invariant has its invariant;
--     Store/Insert and Store/Contents are about the operations.
--   Policy: the interface of cache/policy/policy.go as a record of operations, and the contract
--     `IsLawful`, a record of laws, that the core's theorems take as a parameter. Policy/Either is
--     one of two implementations, as a value of the interface; Policy/Batch is about lists of
--     candidates.
--   Policy/LinkedList and Policy/Lru: cache/policy/lru.go. The list is a list of elements by
--     identity, most recent first; Policy/Lru/Contract is about the contract, Policy/Lru/Recency
--     about histories of calls.
--   Policy/Clock: cache/policy/clock.go, the ring with its hand. Policy/Clock/Contract is about
--     the contract, which leaves the key "" out: it marks an empty slot.
--   Policy/Lfu: cache/policy/lfu.go. A map of buckets by frequency; the order in which it is
--     iterated is an argument (MapOrder), which may differ at every pass. Policy/Lfu/Invariant has
--     the invariant, Policy/Lfu/Contract is about the contract, Policy/Lfu/Passes and
--     Policy/Lfu/Orders about ageing, Policy/Lfu/Victim and Policy/Lfu/Batch about Victim and
--     Candidates. Policy/Lfu/Tuning has the parameter, Policy/Lfu/Decay is about it.
--   Types/Parameters: types/policy.go. A `*Parameter` is an address in a memory;
--     Types/Parameters/Sharing is about Clone, Types/Parameters/Ranges about Clamp and Set.
--   Floats: float64, with its rounding. A conversion to an integer that does not fit is a
--     parameter (Platform).
--   Events: events/bus.go and events/types.go. Subscribers live in a heap by address; a channel
--     is a bounded queue with the number of receivers that wait on it.
--   Metrics, Metrics/Snapshot, Metrics/Latency and Metrics/Memory: metrics/collector.go,
--     metrics/latency.go and metrics/memory.go (the breakdown; the sizes of structs and the
--     runtime's numbers are parameters). Metrics/Totals and Metrics/Tallies are about histories of
--     calls, Metrics/Latency/Ranks and Metrics/Latency/Quantiles about QuantileMillis.
--   Cache: cache/core.go, over any policy. Cache/Invariant is the invariant of the whole;
--     Cache/Serving, Cache/Switching, Cache/Eviction, Cache/Admission, Cache/Put and Cache/History
--     are about the operations and their histories, Cache/Exchange about SetPolicy from one
--     implementation to another, Cache/Wiring about the bus; Cache/Occupancy has Stats and Memory.
--   Cache/Threads: cache/core.go with calls in flight side by side, each cut into steps where
--     another goroutine can come between. Cache/Threads/Invariant, Cache/Threads/Progress,
--     Cache/Threads/Work, Cache/Threads/Counting and Cache/Threads/Naming are about interleavings,
--     Cache/Threads/Whole about the steps of one call and its method.
--   Policy/Registry: cache/policy/registry.go, the global map as a state.
--   Types/Workload and Events/Payloads: types/workload.go and the payloads of events/types.go.
--   Config: config/config.go, config/validate.go and config/flags.go; Config/Checks is about
--     Validate, Config/Parsing about Parse. Config/Texts and Config/Decimals have what is used of
--     strings, strconv and fmt, Config/ByteSize the sizes.
--   Command: cmd/adaptive-cache/main.go; Command/Loops is about its loops, Command/Frames about
--     the choice of the policy and the frames; Command/Session has the beginning and the end of a
--     run.
--   Tests: concrete runs, and the theorems at concrete inputs.
--
-- Conventions. In Cache a method is one step on the state; Cache/Threads has the steps inside a
-- method. The clock is an argument. Times are nanoseconds. An allocation never fails; but a slice
-- of more than 2 ^ 44 strings, which Candidates of CLOCK and LFU can be asked for, panics as on a
-- 64-bit machine (make_keys; LRU makes at most as many as it tracks). The order in which a map is
-- iterated is an argument where it matters (SetPolicy, the ageing of LFU).
--
-- Bounds and fuel. The store's invariant takes a capacity below 2 ^ 62: above it the sum in Insert
-- can wrap. The loop of Put gets fuel for one round more than the store has objects: each round but
-- the last evicts one. The walk of CLOCK's OnInsert gets one round more than the ring has slots,
-- the doubling in Rebuild one more than there are entries. A pass of LFU's ageing gets one round
-- more than a bucket has elements, Candidates one for each key asked for. Slot counts of CLOCK stay
-- far below 2 ^ 63. A printed number has at most 20 digits, which is enough for an int64. The steps
-- in Cache/Threads have no fuel; the runner of one call there makes as many steps as it is told.
--
-- Not modelled. Output to files, and the texts of numbers in it. YAML, which is third-party code
-- and an argument of `parse`. Flags, signals and tickers of the command; its goroutines are calls
-- in any order. In Cache/Threads, the calls of Stats and Memory, and reads of the store without the
-- core's mutex.
pub mod Base
pub mod Types
pub mod Store
pub mod Policy
pub mod Events
pub mod Floats
pub mod Metrics
pub mod Cache
pub mod Config
pub mod Command
pub mod Tests
