-- ===== src/Routing/Build.antt =====
-- How the payloads of a generation become the tables of a gateway (build.go: BuildGatewayTable,
-- MergeTables). A pointer is an address: a listener is found again by the address
-- that it got, and is changed in the table of its port.
pub mod Steps
pub mod Invariant
pub mod Addresses
pub mod Ports
pub mod Balanced
pub mod Adopted
pub mod Merge
use krouter.Prelude.{
  ℕ, suc, ◌+◌, ℤ, pos, ◌+ℤ◌, leb_ℤ, eq_ℤ, wrap_int64, mul_int64, Bool, true, false, not, ◌&&◌, ◌||◌,
  Option, none, some, List, [], ◌∷◌, ◌++◌, ◌==◌, ltb, if◌then◌else◌, is_empty, Str, codes, str_eq,
  Result, ok, err, ◌>>=◌, map_err,
}
use krouter.Compiled.{
  Auth, Cors, Percent, Filter, filter_of, Filters, no_filters, more_filters, Mirror, no_mirror,
  mirror_to, Backend, backend_of, Rule, RouteConfig, Listener, GatewayConfig,
}
use krouter.Http.{lookup_str}
use krouter.Kube.{Object, text_at, auth_secret_key}
use krouter.Netip.{Prefix, Notation}
use krouter.ClientIp.{Trust, Built, built, invalid_proxy, new_trust}
use krouter.Routing.Types.{
  Certificate, ClientAuthType, no_client_cert, request_client_cert, require_and_verify_client_cert,
  BackendTable, MirrorTable, RuleTable, RouteTable, ListenerTable, PortTable, GatewayTable, Tables,
  empty_tables,
}
use krouter.Routing.Hostname.{hostname_specificity}
use krouter.Routing.Backends.{Toolkit, Store, previous_transports}
use krouter.Routing.Rules.{Effects, build_rule}
use krouter.Routing.Listeners.{
  invalid_trusted_proxies, BuildError, invalid_trusted_proxies, Builder, client_certificate,
  add_listeners,
}

-- `lst.routes = append(lst.routes, rt)` for the listener at an address.
abbrev pub attach_to : ℕ → RouteTable → ListenerTable → ListenerTable
attach_to a rt l = if l.address == a then record l { routes = l.routes ++ rt ∷ [] } else l

unfoldable pub attach_listeners : ℕ → RouteTable → List ListenerTable → List ListenerTable
attach_listeners a rt [] = []
attach_listeners a rt (l ∷ ls) = attach_to a rt l ∷ attach_listeners a rt ls

unfoldable pub attach : ℕ → RouteTable → List (ℤ × PortTable) → List (ℤ × PortTable)
unfolding attach_listeners
attach a rt [] = []
attach a rt ((k, t) ∷ m) =
    (k, record t { listeners = attach_listeners a rt t.listeners }) ∷ attach a rt m

-- The loop over the names of a route's listeners; unknown names are skipped.
unfoldable pub attach_names :
    List (Str × ℕ) → RouteTable → List Str → List (ℤ × PortTable) → List (ℤ × PortTable)
unfolding attach
attach_names names rt [] m = m
attach_names names rt (name ∷ rest) m =
    attach_names names rt rest (elim (lookup_str name names) [ none ↦ m | some a ↦ attach a rt m ])

-- sort.SliceStable by specificity, the highest first: an entry stands before those behind it unless
-- they are more specific.
unfoldable pub insert_listener : ListenerTable → List ListenerTable → List ListenerTable
insert_listener e [] = e ∷ []
insert_listener e (l ∷ ls) =
    let rest = insert_listener e ls in
    if ltb (hostname_specificity e.hostname) (hostname_specificity l.hostname)
    then l ∷ rest
    else e ∷ l ∷ ls

unfoldable pub sort_listeners : List ListenerTable → List ListenerTable
unfolding insert_listener
sort_listeners [] = []
sort_listeners (l ∷ ls) = insert_listener l (sort_listeners ls)

unfoldable pub sort_ports : List (ℤ × PortTable) → List (ℤ × PortTable)
unfolding sort_listeners
sort_ports [] = []
sort_ports ((k, t) ∷ m) = (k, record t { listeners = sort_listeners t.listeners }) ∷ sort_ports m

-- The rules of one route, in order.
unfoldable pub build_rules :
    Toolkit
    → Option Object
    → Option Certificate
    → Str
    → Bool
    → List Rule
    → Effects
    → List RuleTable × Effects
build_rules tk secret cert sum grpc [] e = ([], e)
build_rules tk secret cert sum grpc (rule ∷ rules) e =
    let first = build_rule tk cert sum secret grpc rule e in
    let others = build_rules tk secret cert sum grpc rules first.1 in (first.0 ∷ others.0, others.1)

abbrev pub route_table : RouteConfig → List RuleTable → RouteTable
route_table route rules = record {
  namespace = route.namespace;
  name = route.name;
  hostnames = route.hostnames;
  created = route.created;
  rules = rules;
}

-- What the loop over the routes leaves of a builder.
abbrev pub with_route : RouteConfig → List RuleTable × Effects → Builder → Builder
with_route route built_rules b = record b {
  by_port = attach_names b.names (route_table route built_rules.0) route.listeners b.by_port;
  namespaces = built_rules.1.namespaces;
  store = built_rules.1.store;
}

unfoldable pub add_routes :
    Toolkit → Option Object → Option Certificate → Str → List RouteConfig → Builder → Builder
unfolding build_rules attach_names
add_routes tk secret cert sum [] b = b
add_routes tk secret cert sum (route ∷ routes) b = add_routes tk secret cert sum routes (
    with_route route
      (build_rules tk secret cert sum route.grpc route.rules
        (record { namespaces = b.namespaces; store = b.store }))
      b)

abbrev pub trust_result : Built Trust → Result BuildError Trust
trust_result (built t) = ok t
trust_result (invalid_proxy bad) = err (invalid_trusted_proxies bad)

abbrev pub empty_builder : ℕ → Builder
empty_builder next = record {
  by_port = [];
  names = [];
  namespaces = [];
  store = record { next = next; transports = [] };
}

abbrev pub gateway_table : Str → Builder → GatewayTable
gateway_table generation b = record {
  generation = generation;
  by_port = sort_ports b.by_port;
  namespaces = b.namespaces;
}

-- The loop over the routes starts with the transports of the previous table.
abbrev pub adopting : Option GatewayTable → Builder → Builder
adopting previous b = record b {
  store = record b.store { transports = previous_transports previous };
}

-- The tables, and the next free address.
abbrev pub finish_table : Str → Builder → GatewayTable × ℕ
finish_table generation b = (gateway_table generation b, b.store.next)

-- `BuildGatewayTable`; the addresses from `next` on are free.
unfoldable pub build_gateway_table :
    Toolkit
    → Notation
    → ℕ
    → Str
    → GatewayConfig
    → List RouteConfig
    → Option Object
    → Option GatewayTable
    → Result BuildError (GatewayTable × ℕ)
unfolding add_listeners client_certificate add_routes sort_ports
build_gateway_table tk notation next generation g routes secret previous = do
  trust ← trust_result (new_trust notation g.trusted_proxies)
  b ← add_listeners tk secret g trust g.listeners (empty_builder next)
  client ← client_certificate tk g secret
  ok (finish_table generation (add_routes tk secret client.0 client.1 routes (adopting previous b)))

-- The inner loop of `MergeTables`: a port that is there already is overwritten.
unfoldable pub put_port : ℤ → PortTable → List (ℤ × PortTable) → List (ℤ × PortTable)
put_port k t [] = (k, t) ∷ []
put_port k t ((j, u) ∷ m) =
    let rest = put_port k t m in if eq_ℤ j k then (k, t) ∷ m else (j, u) ∷ rest

unfoldable pub put_ports : List (ℤ × PortTable) → List (ℤ × PortTable) → List (ℤ × PortTable)
unfolding put_port
put_ports [] m = m
put_ports ((k, t) ∷ ports) m = put_ports ports (put_port k t m)

unfoldable pub merge_from : List (Str × GatewayTable) → Tables → Tables
unfolding put_ports
merge_from [] t = t
merge_from ((_, g) ∷ gs) t =
    merge_from gs
      (record { by_port = put_ports g.by_port t.by_port; backends = g.namespaces ++ t.backends })

-- `MergeTables`
unfoldable pub merge_tables : List (Str × GatewayTable) → Tables
unfolding merge_from empty_tables
merge_tables gateways = merge_from gateways empty_tables
