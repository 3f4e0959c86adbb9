-- ===== src/Examples/Balancing.antt =====
-- A round of requests to the sample rule and of connections to its first backend, and a limiter.
use krouter.Prelude.{
  ℕ, ◌+◌, ◌-◌, ◌*◌, ◌≤◌, pos, ◌≡◌, refl, some, List, [], ◌∷◌, arith, length, ap, Any, Str, codes,
  str_eq, str_lt, ◌+ℤ◌, ◌-ℤ◌,
}
use krouter.Http.{lookup_str}
use krouter.Compiled.{RateLimit}
use krouter.Routing.Types.{RouteTable, BackendTable, route_key}
use krouter.Routing.Balance.{Counters, pick_bucket, pick_backend, pick_slot, fetch_add}
use krouter.Routing.Balance.Round.{shares}
use krouter.Routing.Balance.Rotation.{picks, picks-shares}
use krouter.Routing.Endpoints.{
  Endpoint, picked, endpoints_of, service_port_name, sort_endpoints, collect, slice_endpoints,
  target_port, endpoints_at, is_eligible, insert_sorted, pick,
}
use krouter.Routing.L4.{
  Selection, selection_of, l4_route, l4_selection, backend_text, decimal, endpoint_text,
  l4_listener_loop, l4_route_loop, pick_rule, pick_valid,
}
use krouter.Routing.L4.Sound.{IsTarget, l4_selection-IsTarget}
use krouter.RateLimit.{new_limiter}
use krouter.RateLimit.Bound.{grants, grants-bounded}
use krouter.Examples.Data.{sample_rule, sample_index, sample_port, sample_route, backend_with}

abbrev zeros : Counters
zeros a = pos 0

picks-shares_example : picks 3 zeros sample_rule ≡ shares sample_rule.backends
picks-shares_example = picks-shares zeros sample_rule 0 (refl, (refl, tt)) refl refl (omega arith)

abbrev two_endpoints : List Endpoint
two_endpoints =
    record { address = codes "10.1.0.1"; port = pos 8000 }
    ∷ record { address = codes "10.1.0.2"; port = pos 8000 }
    ∷ []

two_listed : endpoints_of sample_index (codes "ns") (codes "a") (pos 80) ≡ two_endpoints
unfolding endpoints_of lookup_str str_eq service_port_name sort_endpoints collect slice_endpoints
    target_port endpoints_at is_eligible insert_sorted str_lt
two_listed = refl

abbrev sample_backend : BackendTable
sample_backend = backend_with (codes "a") (pos 1)

two_of : length (endpoints_of sample_index (codes "ns") (codes "a") (pos 80)) ≡ 2
two_of = ap length two_listed

abbrev limit : RateLimit
limit = record {
  requests = pos 10;
  window_millis = pos 1000;
  burst = pos 20;
  key = codes "client_ip";
  status = pos 429;
}

abbrev three_calls : List (Str × ℕ)
three_calls = (codes "a", 5) ∷ (codes "b", 6) ∷ (codes "a", 9) ∷ []

grants-bounded_example :
    grants (codes "a") three_calls (new_limiter limit) * 1000000000 ≤ 20 * 1000000000 + (9 - 0) * 10
grants-bounded_example =
    grants-bounded limit (codes "a") three_calls 0 9 (omega arith)
      (omega arith, (omega arith, (omega arith, refl)))

abbrev sample_selection : Selection
sample_selection =
    selection_of (codes "ns/gw") sample_route sample_backend
      (record { address = codes "10.1.0.1"; port = pos 8000 })

selected : (l4_selection sample_port zeros sample_index).0 ≡ picked sample_selection
unfolding l4_selection str_lt route_key pick_backend pick_bucket pick_slot ◌-ℤ◌ pick endpoints_of
    lookup_str str_eq service_port_name sort_endpoints collect slice_endpoints target_port
    endpoints_at is_eligible ◌+ℤ◌ fetch_add insert_sorted backend_text decimal endpoint_text
    l4_listener_loop l4_route l4_route_loop pick_rule pick_valid
selected = refl

l4_selection-IsTarget_example :
    (rt : RouteTable) × (l4_route sample_port ≡ some rt)
    × (t : BackendTable × Endpoint) × Any (λ rule. IsTarget sample_index rule t) rt.rules
    × (sample_selection ≡ selection_of sample_port.gateway_name rt t.0 t.1)
l4_selection-IsTarget_example =
    l4_selection-IsTarget sample_port zeros sample_index sample_selection selected
