-- ===== src/Routing/Endpoints.antt =====
-- Backend discovery (match.go: EndpointsIndex.Endpoints, BackendTable.Pick).
pub mod Laws
pub mod Sorting
pub mod Rotation
use krouter.Prelude.{
  ℕ, ℤ, pos, ltb_ℤ, eq_ℤ, rem_ℤ, pos_part, Bool, true, false, not, ◌&&◌, ◌||◌, Option, none, some,
  List, [], ◌∷◌, ◌++◌, map, ◌==◌, if◌then◌else◌, get_elem?, length, is_empty, Str, codes, str_eq,
  str_lt,
}
use krouter.Http.{lookup_str}
use krouter.Routing.Types.{BackendTable}
use krouter.Routing.Balance.{Counters, fetch_add}

pub record ServicePort : Type 0 where
  pub name : Str
  pub port : ℤ

-- The fields of the Kubernetes objects that are read.
pub record SlicePort : Type 0 where
  pub name : Option Str
  pub port : Option ℤ

pub record SliceEndpoint : Type 0 where
  pub addresses : List Str
  pub ready : Option Bool
  pub terminating : Option Bool

pub record EndpointSlice : Type 0 where
  pub address_type : Str
  pub ports : List SlicePort
  pub endpoints : List SliceEndpoint

-- `Services` and `Slices`, by "namespace/name".
pub record EndpointsIndex : Type 0 where
  pub services : List (Str × List ServicePort)
  pub slices : List (Str × List EndpointSlice)

pub record Endpoint : Type 0 where
  pub address : Str
  pub port : ℤ

-- The name of the first service port with the wanted number.
unfoldable pub service_port_name : ℤ → List ServicePort → Option Str
service_port_name port [] = none
service_port_name port (p ∷ ps) =
    if eq_ℤ p.port port then some p.name else service_port_name port ps

abbrev pub is_named : Str → Option Str → Bool
is_named port_name none = is_empty port_name
is_named port_name (some name) = str_eq name port_name

abbrev pub named_port : Bool → Option ℤ → Option ℤ
named_port true port = port
named_port false port = none

abbrev pub first_some {ℓ} : {A : Type ℓ} → Option A → Option A → Option A
first_some (some a) other = some a
first_some none other = other

-- The first port of the slice that has the name and a number.
unfoldable pub target_port : Str → List SlicePort → Option ℤ
target_port port_name [] = none
target_port port_name (p ∷ ps) =
    first_some (named_port (is_named port_name p.name) p.port) (target_port port_name ps)

abbrev pub is_not : Bool → Option Bool → Bool
is_not b none = true
is_not true (some c) = not c
is_not false (some c) = c

-- Neither known to be unready nor known to be terminating.
unfoldable pub is_eligible : SliceEndpoint → Bool
is_eligible ep = is_not false ep.ready && is_not true ep.terminating

abbrev pub at_port : ℤ → Str → Endpoint
at_port port address = record { address = address; port = port }

unfoldable pub endpoints_at : ℤ → List SliceEndpoint → List Endpoint
endpoints_at port [] = []
endpoints_at port (ep ∷ eps) =
    (if is_eligible ep then map (at_port port) ep.addresses else []) ++ endpoints_at port eps

unfoldable pub slice_endpoints : Str → EndpointSlice → List Endpoint
slice_endpoints port_name slice =
    if not (str_eq slice.address_type (codes "IPv4"))
    then []
    else elim (target_port port_name slice.ports) [
      | none ↦ []
      | some port ↦ endpoints_at port slice.endpoints
    ]

unfoldable pub collect : Str → List EndpointSlice → List Endpoint
collect port_name [] = []
collect port_name (slice ∷ slices) = slice_endpoints port_name slice ++ collect port_name slices

-- The sort by address. sort.Slice leaves open how entries of one address are ordered; here they keep
-- their order.
unfoldable pub insert_sorted : Endpoint → List Endpoint → List Endpoint
insert_sorted e [] = e ∷ []
insert_sorted e (f ∷ l) =
    let rest = insert_sorted e l in if str_lt f.address e.address then f ∷ rest else e ∷ f ∷ l

unfoldable pub sort_endpoints : List Endpoint → List Endpoint
sort_endpoints [] = []
sort_endpoints (e ∷ l) = insert_sorted e (sort_endpoints l)

abbrev pub or_empty {ℓ} : {A : Type ℓ} → Option (List A) → List A
or_empty none = []
or_empty (some l) = l

abbrev pub service_key : Str → Str → Str
service_key namespace name = namespace ++ (b'/' ∷ name)

-- `EndpointsIndex.Endpoints`
unfoldable pub endpoints_of : EndpointsIndex → Str → Str → ℤ → List Endpoint
endpoints_of idx namespace name port = elim (lookup_str (service_key namespace name) idx.services) [
  | none ↦ []
  | some service_ports ↦ elim (service_port_name port service_ports) [
    | none ↦ []
    | some port_name ↦
        sort_endpoints
          (collect port_name (or_empty (lookup_str (service_key namespace name) idx.slices)))
  ]
]

-- The outcome of a selection; `panics` is an index out of range.
pub data Picked {ℓ} (A : Type ℓ) : Type ℓ where
  panics : Picked A
  refused : Picked A
  picked : A → Picked A

-- `endpoints[i]`
abbrev pub index_endpoints : List Endpoint → ℤ → Picked Endpoint
index_endpoints l (ℤ.negsuc n) = panics
index_endpoints l (ℤ.pos n) = elim (get_elem? l n) [ none ↦ panics | some e ↦ picked e ]

-- `BackendTable.Pick`; the counter moves only if there is an endpoint.
unfoldable pub pick : Counters → BackendTable → EndpointsIndex → Picked Endpoint × Counters
unfolding fetch_add
pick counters b idx =
    let endpoints = endpoints_of idx b.namespace b.name b.port in
    let (slot, counters') = fetch_add counters b.counter in
    if is_empty endpoints
    then (refused, counters)
    else (index_endpoints endpoints (rem_ℤ slot (pos (length endpoints))), counters')
