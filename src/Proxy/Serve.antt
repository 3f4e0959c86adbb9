-- ===== src/Proxy/Serve.antt =====
-- The request path from end to end (internal/lib/transports/http/proxy/handler.go: Serve,
-- ModifyResponse and ErrorHandler of forward, TLSConfigFor).
pub mod Decisions
pub mod Selection
use krouter.Prelude.{
  ℕ, ℤ, pos, Bool, true, false, not, ◌&&◌, ◌||◌, Option, none, some, List, [], ◌∷◌, ◌++◌,
  if◌then◌else◌, is_empty, ltb_ℤ, eq_ℤ, Str, codes, has_prefix,
}
use krouter.Compiled.{Auth, Cors, FilterDetails}
use krouter.Http.{Header, Request, header_get, is_grpc_request}
use krouter.Netip.{Notation}
use krouter.ClientIp.{host_of}
use krouter.Enforcer.{Providers}
use krouter.Routing.Types.{
  Certificate, Transport, ClientAuthType, no_client_cert, request_client_cert,
  require_and_verify_client_cert, BackendTable, MirrorTable, RuleTable, ListenerTable, Tables,
  timeout, client_validation,
}
use krouter.Routing.Balance.{Counters, pick_backend}
use krouter.Routing.Endpoints.{Endpoint, EndpointsIndex, Picked, panics, refused, picked, pick}
use krouter.Routing.Endpoint.{auth_endpoint}
use krouter.Routing.L4.{decimal}
use krouter.Routing.Peers.{client_ip}
use krouter.Routing.Select.{Candidate, match, misdirected, certificate_for}
use krouter.Proxy.Message.{
  Writer, Incoming, http_error, grpc_unimplemented, grpc_unavailable, grpc_internal,
}
use krouter.Proxy.Cors.{is_cors_preflight, serve_cors_preflight, apply_cors_response}
use krouter.Proxy.Extensions.{Inspector, Limiters, Served, serve_extensions}
use krouter.Proxy.Rewrite.{Location, redirect_filter, serve_redirect}
use krouter.Proxy.Forwarding.{
  Outbound, rewrite_forwarding_headers, apply_filters, apply_response_filters,
}
use krouter.Proxy.Mirrors.{sample_mirrors}
use krouter.Proxy.Forward.{
  Carrier, Dispatch, Forwarded, Services, aborts, answers, base_outbound, carrier_of, cleartext_h2,
  dispatch_to, dispatches, forward, forward_to, over_tls, plain, refuse_with,
}

-- The counters and the limiters, which requests share.
pub record World : Type 0 where
  pub counters : Counters
  pub limiters : Limiters

-- What a request comes to: an answer of the proxy, the reserved endpoints of authentication, a
-- request for a backend, or a panic, which ends the connection.
pub data Outcome : Type 0 where
  answered : Writer → ℤ → Outcome
  to_endpoint : List Auth → Outcome
  dispatched : Request → Dispatch → Outcome
  aborted : Outcome

abbrev pub outcome_of : Request → Forwarded → Outcome
outcome_of r (answers w status) = answered w status
outcome_of r (dispatches d) = dispatched r d
outcome_of r aborts = aborted

module _ (services : Services) (idx : EndpointsIndex) where
  open services use {notation, url_string, outgoing, inspect, providers}

  -- The part of `Serve` after the extensions: a preflight, a redirect, or a backend.
  unfoldable pub serve_rule :
      RuleTable → Incoming → Bool → Bool → (ℕ → ℕ) → Writer → Counters → Outcome × Counters
  unfolding forward serve_redirect redirect_filter serve_cors_preflight is_cors_preflight
  serve_rule rule r with_tls trusted_peer draws w counters =
      let (forwarded, counters') =
        forward services idx rule counters r with_tls trusted_peer draws w in
      let elsewhere : Outcome × Counters = elim (redirect_filter rule.filters) [
        | some d ↦
            let (w', status) = serve_redirect notation url_string r d with_tls w in
            (answered w' status, counters)
        | none ↦ (outcome_of r.request forwarded, counters')
      ] in
      elim rule.cors [
        | none ↦ elsewhere
        | some cors ↦
            let (w', status) = serve_cors_preflight r.request cors w in
            if is_cors_preflight r.request then (answered w' status, counters) else elsewhere
      ]

  abbrev pub within : Limiters → Outcome × Counters → Outcome × World
  within limiters (o, counters) = (o, record { counters = counters; limiters = limiters })

  -- `Serve`, once there is a rule.
  unfoldable pub serve_matched :
      RuleTable → Str → Bool → ℕ → (ℕ → ℕ) → Incoming → Bool → Writer → World → Outcome × World
  unfolding serve_extensions serve_rule
  serve_matched rule client with_tls now draws r trusted_peer w world =
      elim (serve_extensions providers inspect rule client now r.uri w r.request world.limiters) [
        | none ↦ (aborted, world)
        | some s ↦
            let served =
              serve_rule rule (record r { request = s.request }) with_tls trusted_peer draws
                s.writer world.counters in
            if eq_ℤ s.verdict.status (pos 0)
            then within s.limiters served
            else (answered s.writer s.verdict.status, record world { limiters = s.limiters })
      ]

  abbrev pub is_misdirected : Tables → ℤ → Bool → Option Str → Str → Bool
  is_misdirected tables port with_tls none host = false
  is_misdirected tables port with_tls (some server_name) host =
      with_tls && misdirected tables port server_name host

  -- `Serve`
  unfoldable pub serve :
      Tables → ℤ → Bool → ℕ → (ℕ → ℕ) → Incoming → Writer → World → Outcome × World
  unfolding serve_matched client_ip auth_endpoint match misdirected host_of is_grpc_request
  serve tables port with_tls now draws r w world =
      let host = host_of notation r.host in
      let (client, trusted_peer) = client_ip notation tables port r.request in
      let candidates = auth_endpoint tables port host r.request.url_path in
      if is_misdirected tables port with_tls r.server_name host
      then (answered (http_error (codes "misdirected request") (pos 421) w) (pos 421), world)
      else if not (is_empty candidates)
      then (to_endpoint candidates, world)
      else elim (match tables port host r.request) [
        | none ↦
            if is_grpc_request r.request
            then (answered (grpc_unimplemented w) (pos 200), world)
            else (answered (http_error (codes "not found") (pos 404) w) (pos 404), world)
        | some c ↦ serve_matched c.rule client with_tls now draws r trusted_peer w world
      ]

-- `ModifyResponse`, on the header of the response of a backend.
unfoldable pub modify_response : RuleTable → BackendTable → Request → Header → Header
unfolding apply_response_filters apply_cors_response header_get
modify_response rule backend r h =
    let filtered = apply_response_filters backend.filters (apply_response_filters rule.filters h) in
    elim rule.cors [
      | none ↦ filtered
      | some cors ↦ apply_cors_response (header_get r.header (codes "Origin")) cors filtered
    ]

-- `ErrorHandler`, of a deadline that has passed or of another error.
abbrev pub gateway_error : Bool → Writer → Writer × ℤ
gateway_error true w = (http_error (codes "gateway timeout") (pos 504) w, pos 504)
gateway_error false w = (http_error (codes "bad gateway") (pos 502) w, pos 502)

-- The part of tls.Config that `TLSConfigFor` sets.
pub record TlsConfig : Type 0 where
  pub certificate : Certificate
  pub next_protos : List Str
  pub client_auth : ClientAuthType
  pub client_cas : Option Str

abbrev pub no_client_check : ClientAuthType → Bool
no_client_check no_client_cert = true
no_client_check request_client_cert = false
no_client_check require_and_verify_client_cert = false

abbrev cert_of : Option ListenerTable → Option Certificate
cert_of none = none
cert_of (some l) = l.cert

-- `TLSConfigFor`; `none` is its error.
unfoldable pub tls_config_for : Tables → ℤ → Str → Option TlsConfig
unfolding certificate_for client_validation
tls_config_for tables port server_name =
    let listener = certificate_for tables port server_name in
    let (pool, auth) = client_validation listener in
    elim (cert_of listener) [
      | none ↦ none
      | some cert ↦ some (record {
        certificate = cert;
        next_protos = codes "h2" ∷ codes "http/1.1" ∷ [];
        client_auth = if no_client_check auth then no_client_cert else auth;
        client_cas = if no_client_check auth then none else pool;
      })
    ]
