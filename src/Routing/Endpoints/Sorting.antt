-- ===== src/Routing/Endpoints/Sorting.antt =====
-- The order and the members of the endpoint list (match.go: Endpoints).
use krouter.Prelude.{◌≡◌, ℤ, false, some, List, [], ◌∷◌, All, Any, Str, str_lt}
use krouter.Http.{lookup_str}
use krouter.Routing.Endpoints.{
  ServicePort, EndpointsIndex, EndpointSlice, Endpoint, service_port_name, service_key, or_empty,
}
use krouter.Routing.Endpoints.Laws.{IsOffered}

-- No address stands behind a larger one.
abbrev pub IsSorted : List Endpoint → Type 0
IsSorted [] = Unit
IsSorted (e ∷ l) = All (λ f. str_lt f.address e.address ≡ false) l × IsSorted l

abbrev NoneBelow : Endpoint → List Endpoint → Type 0
NoneBelow e l = All (λ f. str_lt f.address e.address ≡ false) l

-- The endpoint is offered by a slice of the service, under the name of the service's wanted port.
abbrev pub IsEndpoint : EndpointsIndex → Str → Str → ℤ → Endpoint → Type 0
IsEndpoint idx namespace name port e =
    (service_ports : List ServicePort) × (lookup_str (service_key namespace name) idx.services
      ≡ some service_ports)
    × (port_name : Str) × (service_port_name port service_ports ≡ some port_name)
    × Any (IsOffered port_name e) (or_empty (lookup_str (service_key namespace name) idx.slices))

module _ (idx : EndpointsIndex) (namespace name : Str) (port : ℤ) where
  slices_of : List EndpointSlice
  slices_of = or_empty (lookup_str (service_key namespace name) idx.slices)
