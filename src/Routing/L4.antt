-- ===== src/Routing/L4.antt =====
-- Connections that are forwarded as streams (match.go: l4Route, l4Selection, PickTCP, PickUDP,
-- PickTLS).
pub mod Route
pub mod Sound
use krouter.Prelude.{
  ℕ, zero, suc, ◌+◌, ◌/◌, ◌%◌, ℤ, pos, negsuc, ltb_ℤ, eq_ℤ, Bool, true, false, not, ◌&&◌, ◌||◌,
  Option, none, some, List, [], ◌∷◌, ◌++◌, ltb, if◌then◌else◌, ◌≡◌, refl, is_empty, Str, codes,
  str_lt,
}
use krouter.Select.{keep_best}
use krouter.Routing.Types.{
  Certificate, BackendTable, RuleTable, RouteTable, ListenerTable, PortTable, Tables, port_of,
  route_key,
}
use krouter.Routing.Hostname.{hostname_matches}
use krouter.Routing.Score.{RuleSpecificity}
use krouter.Routing.Matching.{no_specificity}
use krouter.Routing.Select.{Candidate, listener_loop}
use krouter.Routing.Balance.{Counters, pick_backend}
use krouter.Routing.Endpoints.{EndpointsIndex, Endpoint, Picked, panics, refused, picked, pick}

-- The digits of a number, as `%d` writes them; the fuel bounds their number.
digits_from : ℕ → ℕ → Str → Str
digits_from zero n acc = acc
digits_from (suc f) n acc =
    let more = digits_from f (n / 10) ((b'0' + n % 10) ∷ acc) in
    if ltb n 10 then (b'0' + n % 10) ∷ acc else more

unfoldable pub decimal : ℤ → Str
unfolding digits_from
decimal (pos n) = digits_from (suc n) n []
decimal (negsuc n) = b'-' ∷ digits_from (suc (suc n)) (suc n) []

-- tcp.Selection and udp.Selection.
pub record Selection : Type 0 where
  pub endpoint : Str
  pub gateway : Str
  pub route : Str
  pub backend : Str

-- The order of `l4Route`: the oldest, then the least name.
abbrev pub route_beats : RouteTable → RouteTable → Bool
route_beats r best =
    ltb_ℤ r.created best.created
    || (eq_ℤ r.created best.created && str_lt (route_key r) (route_key best))

unfoldable pub l4_route_loop : Option RouteTable → List RouteTable → Option RouteTable
l4_route_loop best [] = best
l4_route_loop best (r ∷ rs) =
    l4_route_loop (if is_empty r.rules then best else some (keep_best route_beats best r)) rs

unfoldable pub l4_listener_loop : Option RouteTable → List ListenerTable → Option RouteTable
unfolding l4_route_loop
l4_listener_loop best [] = best
l4_listener_loop best (l ∷ ls) = l4_listener_loop (l4_route_loop best l.routes) ls

-- `l4Route`
unfoldable pub l4_route : PortTable → Option RouteTable
unfolding l4_listener_loop
l4_route table = l4_listener_loop none table.listeners

unfoldable pub endpoint_text : Endpoint → Str
unfolding decimal
endpoint_text e = e.address ++ (b':' ∷ decimal e.port)

unfoldable pub backend_text : BackendTable → Str
unfolding decimal
backend_text b = b.namespace ++ (b'/' ∷ (b.name ++ (b':' ∷ decimal b.port)))

abbrev pub selection_of : Str → RouteTable → BackendTable → Endpoint → Selection
selection_of gateway rt b e = record {
  endpoint = endpoint_text e;
  gateway = gateway;
  route = route_key rt;
  backend = backend_text b;
}

abbrev pub map_picked {ℓ κ} : {A : Type ℓ} {B : Type κ} → (A → B) → Picked A → Picked B
map_picked f panics = panics
map_picked f refused = refused
map_picked f (picked a) = picked (f a)

-- The endpoint of a picked backend; an absent or invalid one refuses its share.
unfoldable pub pick_valid :
    Option BackendTable → Counters → EndpointsIndex → Picked (BackendTable × Endpoint) × Counters
pick_valid none counters idx = (refused, counters)
pick_valid (some b) counters idx =
    let (target, counters') = pick counters b idx in
    if b.is_valid then (map_picked (λ e. (b, e)) target, counters') else (refused, counters)

unfoldable pub pick_rule :
    RuleTable → Counters → EndpointsIndex → Picked (BackendTable × Endpoint) × Counters
unfolding pick_valid
pick_rule rule counters idx =
    let (b, counters') = pick_backend counters rule in pick_valid b counters' idx

-- `rt.rules[0]`
abbrev pub pick_first :
    List RuleTable → Counters → EndpointsIndex → Picked (BackendTable × Endpoint) × Counters
pick_first [] counters idx = (panics, counters)
pick_first (rule ∷ rules) counters idx = pick_rule rule counters idx

-- `l4Selection`, with the gateway of the port.
unfoldable pub l4_selection : PortTable → Counters → EndpointsIndex → Picked Selection × Counters
unfolding l4_route pick_rule
l4_selection table counters idx = elim (l4_route table) [
  | none ↦ (refused, counters)
  | some rt ↦
      let (target, counters') = pick_first rt.rules counters idx in
      (map_picked (λ t. selection_of table.gateway_name rt t.0 t.1) target, counters')
]

-- `PickTCP` and `PickUDP` differ in the flag of the port that they ask for.
unfoldable pub pick_l4 :
    (PortTable → Bool) → Tables → ℤ → Counters → EndpointsIndex → Picked Selection × Counters
unfolding l4_selection
pick_l4 serves t port counters idx = elim (port_of t port) [
  | none ↦ (refused, counters)
  | some table ↦ if serves table then l4_selection table counters idx else (refused, counters)
]

abbrev pub pick_tcp : Tables → ℤ → Counters → EndpointsIndex → Picked Selection × Counters
pick_tcp = pick_l4 (λ table. table.tcp)

abbrev pub pick_udp : Tables → ℤ → Counters → EndpointsIndex → Picked Selection × Counters
pick_udp = pick_l4 (λ table. table.udp)

-- tls.Selection
pub record TlsSelection : Type 0 where
  pub selection : Selection
  pub terminate : Bool
  pub certificate : Option Certificate

-- The loops of `PickTLS`: every listener and route that matches the SNI, every rule.
unfoldable pub tls_candidate : PortTable → Str → Option Candidate
unfolding listener_loop
tls_candidate table sni =
    listener_loop sni (λ l. hostname_matches l.hostname sni) (λ _. some no_specificity) none
      table.listeners

unfoldable pub tls_selection :
    PortTable → Str → Counters → EndpointsIndex → Picked TlsSelection × Counters
unfolding tls_candidate pick_rule
tls_selection table sni counters idx = elim (tls_candidate table sni) [
  | none ↦ (refused, counters)
  | some c ↦
      let (target, counters') = pick_rule c.rule counters idx in
      (
        map_picked
            (λ t. record {
              selection = selection_of table.gateway_name c.route t.0 t.1;
              terminate = c.listener.terminate;
              certificate = c.listener.cert;
            })
            target,
        counters',
      )
]

-- `PickTLS`
unfoldable pub pick_tls :
    Tables → ℤ → Str → Counters → EndpointsIndex → Picked TlsSelection × Counters
unfolding tls_selection
pick_tls t port sni counters idx = elim (port_of t port) [
  | none ↦ (refused, counters)
  | some table ↦
      if table.tls_passthrough then tls_selection table sni counters idx else (refused, counters)
]

decimal_test : decimal (pos 8080) ≡ codes "8080"
unfolding decimal
decimal_test = refl
