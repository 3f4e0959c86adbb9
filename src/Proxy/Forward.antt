-- ===== src/Proxy/Forward.antt =====
-- The choice of a backend and the request for it
-- (internal/lib/transports/http/proxy/handler.go, forward). The reverse proxy of
-- net/http/httputil, which copies the request and the response, is an interface.
use krouter.Prelude.{
  ℕ, ℤ, pos, Bool, not, ◌&&◌, ◌||◌, Option, none, some, List, ◌∷◌, ◌++◌, if◌then◌else◌, is_empty,
  ltb_ℤ, Str, codes, has_prefix,
}
use krouter.Http.{Header}
use krouter.Netip.{Notation}
use krouter.Enforcer.{Providers}
use krouter.Routing.Types.{Transport, BackendTable, MirrorTable, RuleTable, timeout}
use krouter.Routing.Balance.{Counters, pick_backend}
use krouter.Routing.Endpoints.{Endpoint, EndpointsIndex, panics, refused, picked, pick}
use krouter.Routing.L4.{decimal}
use krouter.Proxy.Message.{Writer, Incoming, http_error, grpc_unavailable, grpc_internal}
use krouter.Proxy.Extensions.{Inspector}
use krouter.Proxy.Rewrite.{Location}
use krouter.Proxy.Forwarding.{Outbound, rewrite_forwarding_headers, apply_filters}
use krouter.Proxy.Mirrors.{sample_mirrors}

-- How a backend is dialed: HTTP/1.1, HTTP/2 in the clear, or a TLS transport.
pub data Carrier : Type 0 where
  plain cleartext_h2 : Carrier
  over_tls : Transport → Carrier

-- What the reverse proxy is given: the request for the backend, that for the mirrors, and what goes
-- with them. A timeout of 0 is none.
pub record Dispatch : Type 0 where
  pub backend : BackendTable
  pub carrier : Carrier
  pub outbound : Outbound
  pub mirrors : List MirrorTable
  pub mirrored : Outbound
  pub captures_body : Bool
  pub timeout_of : ℤ

-- What `forward` comes to; `aborts` is an index out of range.
pub data Forwarded : Type 0 where
  answers : Writer → ℤ → Forwarded
  dispatches : Dispatch → Forwarded
  aborts : Forwarded

-- A refusal to a gRPC client, or to another one.
abbrev pub refuse_with : Bool → (Writer → Writer) → Str → ℤ → Writer → Forwarded
refuse_with grpc_rule grpc_reply message status w =
    if grpc_rule
    then answers (grpc_reply w) (pos 200)
    else answers (http_error message status w) status

abbrev pub carrier_of : RuleTable → BackendTable → Carrier
carrier_of rule backend = elim backend.tls_transport [
  | some t ↦ over_tls t
  | none ↦ if rule.grpc || backend.h2c then cleartext_h2 else plain
]

abbrev scheme_for : Option Transport → Str
scheme_for none = codes "http"
scheme_for (some t) = codes "https"

-- The path of the target, which is empty, joined to that of the request.
abbrev join_slash : Str → Str
join_slash path = if has_prefix path (codes "/") then path else b'/' ∷ path

-- What the code calls outside the program: the notation of addresses, URL.String, the header that
-- the reverse proxy starts the outbound request with, what it leaves of the query (it drops
-- parameters that do not parse), the firewall and the providers of
-- authentication.
pub record Services : Type 0 where
  pub notation : Notation
  pub url_string : Location → Str
  pub outgoing : Header → Header
  pub clean_query : Str → Str
  pub inspect : Inspector
  pub providers : Providers

module _ (services : Services) (idx : EndpointsIndex) where
  open services use {notation, url_string, outgoing, clean_query, inspect, providers}

  -- `Rewrite` without the filters of the rule and the backend.
  unfoldable pub base_outbound : Incoming → Bool → Bool → Option Transport → Endpoint → Outbound
  unfolding rewrite_forwarding_headers decimal
  base_outbound r with_tls trusted_peer tls target = record {
    scheme = scheme_for tls;
    address = target.address ++ (b':' ∷ decimal target.port);
    host = r.host;
    path = join_slash r.request.url_path;
    raw_query = clean_query r.raw_query;
    method = r.request.method;
    header =
        rewrite_forwarding_headers notation r with_tls trusted_peer (outgoing r.request.header);
  }

  -- The rest of `forward`, once there is an endpoint.
  unfoldable pub dispatch_to :
      RuleTable → BackendTable → Endpoint → Incoming → Bool → Bool → (ℕ → ℕ) → Dispatch
  unfolding base_outbound apply_filters sample_mirrors timeout
  dispatch_to rule backend target r with_tls trusted_peer draws =
      let mirrors = sample_mirrors draws rule.mirrors in
      let filtered =
        apply_filters rule.filters
          (base_outbound r with_tls trusted_peer backend.tls_transport target) in
      record {
        backend = backend;
        carrier = carrier_of rule backend;
        outbound = apply_filters backend.filters filtered;
        mirrors = mirrors;
        mirrored = filtered;
        captures_body = not (is_empty mirrors) && r.has_body;
        timeout_of = if ltb_ℤ (pos 0) (timeout rule) then timeout rule else pos 0;
      }

  -- The part of `forward` from the picked backend on.
  unfoldable pub forward_to :
      RuleTable
      → BackendTable
      → Counters
      → Incoming
      → Bool
      → Bool
      → (ℕ → ℕ)
      → Writer
      → Forwarded × Counters
  unfolding dispatch_to pick
  forward_to rule backend counters r with_tls trusted_peer draws w =
      let (target, counters') = pick counters backend idx in
      if not backend.is_valid
      then (
        refuse_with rule.grpc grpc_internal (codes "invalid backend reference") (pos 500) w,
        counters,
      )
      else if backend.tls_invalid
      then (answers (http_error (codes "bad gateway") (pos 502) w) (pos 502), counters)
      else (
        elim target [
          | panics ↦ aborts
          | refused ↦
              refuse_with rule.grpc grpc_unavailable (codes "no ready endpoints") (pos 503) w
          | picked endpoint ↦
              dispatches (dispatch_to rule backend endpoint r with_tls trusted_peer draws)
        ],
        counters',
      )

  -- `forward`
  unfoldable pub forward :
      RuleTable → Counters → Incoming → Bool → Bool → (ℕ → ℕ) → Writer → Forwarded × Counters
  unfolding forward_to pick_backend
  forward rule counters r with_tls trusted_peer draws w =
      let (choice, counters') = pick_backend counters rule in
      elim choice [
        | none ↦ (
          refuse_with rule.grpc grpc_unavailable (codes "no available backend") (pos 500) w,
          counters',
        )
        | some backend ↦ forward_to rule backend counters' r with_tls trusted_peer draws w
      ]
