-- ===== src/Command/Session.antt =====
-- The beginning and the end of `run` in cmd/adaptive-cache/main.go. What lies between, the rounds of
-- `generate` and the frames, are calls on the cache.
use adaptive_caching.Base.{
  ◌^◌, ◌<◌, ◌≡◌, refl, List, [], ◌∷◌, Option, none, some, Run, done, Returns, ◌>>=◌, true, false,
}
use adaptive_caching.Types.{Time}
use adaptive_caching.Policy.{EvictionPolicy, View, IsLawful}
use adaptive_caching.Events.{
  MemBus, EventType, new_bus, subscribe, close, type_detection, type_switch, type_tuning,
  type_scenario_mark, type_run_start, type_run_end,
}
use adaptive_caching.Events.Invariant as BusInvariant
use adaptive_caching.Events.Subscription.{subscribe-IsValid}
use adaptive_caching.Config.{Config}
use adaptive_caching.Cache.{Cache, Options, new, publish}
use adaptive_caching.Cache.Invariant.{IsValid, publish-IsValid}
use adaptive_caching.Cache.Wiring.{HasBus, publish-bus}
use adaptive_caching.Cache.History.{IsFresh, new-IsValid}

abbrev pub shown_types : List EventType
shown_types = type_switch ∷ type_detection ∷ type_tuning ∷ type_scenario_mark ∷ []

-- `defer bus.Close()`
abbrev pub close_bus : Option MemBus → Run (Option MemBus)
close_bus none = done none
close_bus (some b) = do b' ← close b; done (some b')

module _ (p : EvictionPolicy) where
  abbrev pub run_options : Config → Option p.State → MemBus → Options p.State
  run_options cfg policy bus = record {
    capacity = cfg.cache.capacity;
    policy = policy;
    bus = some bus;
    metrics = none;
    request_sample_rate = cfg.events.request_sample_rate;
  }

  -- The bus, its first subscriber, the core, and the event that marks the start.
  unfoldable pub open_session : Config → Option p.State → Time → Run (Cache p)
  unfolding subscribe new publish
  open_session cfg policy start = do
    (bus, ch) ← subscribe "stdout-events" cfg.events.bus_buffer shown_types new_bus
    publish p (record { seq = 0; timestamp = start; kind = type_run_start })
        (new p (run_options cfg policy bus))

  -- What happens when the context is done.
  unfoldable pub close_session : Time → Cache p → Run (Cache p)
  unfolding publish close
  close_session now c = do
    c' ← publish p (record { seq = c.seq; timestamp = now; kind = type_run_end }) c
    bus ← close_bus c'.bus
    done (record c' { bus = bus })

-- There is a bus, it is shut, and nobody is subscribed.
abbrev pub IsShut : Option MemBus → Type 0
IsShut none = ⊥
IsShut (some b) = (b.closed ≡ true) × (b.order ≡ [])

new_open : new_bus.closed ≡ false
unfolding new_bus
new_open = refl

module _ {p : EvictionPolicy} {view : View p} (law : IsLawful p view) where
  pub open_session-IsValid :
      (cfg : Config) (policy : Option p.State) (start : Time)
      → cfg.cache.capacity < 2 ^ 62
      → IsFresh law policy
      → Returns (open_session p cfg policy start) (λ c. IsValid law c × HasBus c)
  unfolding open_session new
  open_session-IsValid cfg policy start small fresh =
      let (r, ran, rest) =
        subscribe-IsValid "stdout-events" cfg.events.bus_buffer shown_types new_bus
          BusInvariant.new_bus-IsValid new_open in
      let options = run_options p cfg policy r.0 in
      let (c, ran', v) =
        publish-IsValid law (record { seq = 0; timestamp = start; kind = type_run_start })
          (new p options) (new-IsValid law options small fresh rest.0) in
      (
        c,
        rw ran ran',
        (
          v.0,
          publish-bus p (record { seq = 0; timestamp = start; kind = type_run_start })
              (new p options) refl c ran',
        ),
      )
