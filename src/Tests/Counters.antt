-- ===== src/Tests/Counters.antt =====
-- A hit, a miss and an eviction are counted.
use adaptive_caching.Base.{◌≡◌, refl, true, false, List, [], ◌∷◌}
use adaptive_caching.Types.{Request, op_get}
use adaptive_caching.Metrics.{new_collector, record_request, record_eviction}
use adaptive_caching.Metrics.Totals.{
  Call, request, eviction, call, calls, IsBalanced, new_collector-IsBalanced, calls-IsBalanced,
}

program : Unit {0}
unfolding new_collector record_request record_eviction call calls
program = tt

abbrev wanted : Request
wanted = record { key = "a"; size = 10; timestamp = 5; request_id = 1; op = op_get }

abbrev traffic : List Call
traffic = request wanted true 100 ∷ request wanted false 250 ∷ eviction 10 ∷ []

counted :
    ((calls traffic new_collector).total ≡ 2) × ((calls traffic new_collector).backend_reqs ≡ 1)
unfolding program
counted = (refl, refl)

calls-IsBalanced_example : IsBalanced (calls traffic new_collector)
calls-IsBalanced_example = calls-IsBalanced traffic new_collector new_collector-IsBalanced
