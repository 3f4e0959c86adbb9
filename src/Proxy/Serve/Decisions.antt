-- ===== src/Proxy/Serve/Decisions.antt =====
-- What reaches a backend.
use krouter.Prelude.{
  ℕ, ℤ, pos, eq_ℤ, eq_ℤ_iff, ◌≡◌, ◌≢◌, refl, inl, inr, Bool, true, false, ◌&&◌, none, some, is_some,
  [], is_empty, arith, Bool-cases, Option-cases, Str, List, ◌∷◌,
}
use krouter.Http.{Request, is_grpc_request}
use krouter.ClientIp.{host_of}
use krouter.Routing.Types.{RuleTable, Tables}
use krouter.Routing.Balance.{Counters}
use krouter.Routing.Endpoint.{auth_endpoint}
use krouter.Routing.Endpoints.{EndpointsIndex}
use krouter.Routing.Peers.{client_ip}
use krouter.Routing.Select.{Candidate, match}
use krouter.Proxy.Message.{Writer, Incoming}
use krouter.Proxy.Cors.{is_cors_preflight}
use krouter.Proxy.Extensions.{Served, serve_extensions}
use krouter.Proxy.Extensions.Closed.{HasStatuses, IsGranted, IsChecked, serve_extensions-IsClosed}
use krouter.Proxy.Rewrite.{redirect_filter}
use krouter.Proxy.Forward.{Dispatch, Forwarded, answers, dispatches, aborts, Services, forward}
use krouter.Proxy.Serve.{
  World, dispatched, outcome_of, serve_rule, serve_matched, is_misdirected, serve,
}
use krouter.Proxy.Serve.Selection.{IsAimed, forward-IsAimed}

outcome_of-dispatched :
    (f : Forwarded) (r r' : Request) (d : Dispatch)
    → outcome_of r f ≡ dispatched r' d
    → (f ≡ dispatches d) × (r ≡ r')
outcome_of-dispatched (answers w status) r r' d h = cc
outcome_of-dispatched (dispatches d₀) r r' d h = (ground (arith, h), ground (arith, h))
outcome_of-dispatched aborts r r' d h = cc

empty_of : {A : Type 0} (l : List A) → is_empty l ≡ true → l ≡ []
empty_of [] h = refl
empty_of (a ∷ l) h = cc

module _ (services : Services) (idx : EndpointsIndex) where
  open services use {notation, inspect, providers}

  -- A dispatch of `serve_rule`: neither a preflight that the rule answers nor a redirect.
  pub record IsPassedOn (rule : RuleTable) (r r' : Request) (d : Dispatch) : Type 0 where
    pub no_preflight : (is_some rule.cors && is_cors_preflight r) ≡ false
    pub no_redirect : redirect_filter rule.filters ≡ none
    pub same_request : r ≡ r'
    pub aimed : IsAimed idx rule d

  serve_rule-IsPassedOn :
      (rule : RuleTable) (r : Incoming) (with_tls trusted_peer : Bool) (draws : ℕ → ℕ) (w : Writer)
      (counters : Counters) (r' : Request) (d : Dispatch)
      → (serve_rule services idx rule r with_tls trusted_peer draws w counters).0 ≡ dispatched r' d
      → IsPassedOn rule r.request r' d
  unfolding serve_rule
  serve_rule-IsPassedOn rule r with_tls trusted_peer draws w counters r' d e =
      elim (Bool-cases (is_some rule.cors && is_cors_preflight r.request)) [
        | inl preflight ↦ elim (Option-cases rule.cors) [
          | inl off ↦ absurd (ground (arith, preflight, off))
          | inr (cors, on) ↦ absurd (ground (arith, e, preflight, on))
        ]
        | inr no_preflight ↦ elim (Option-cases (redirect_filter rule.filters)) [
          | inr (details, redirect) ↦ elim (Option-cases rule.cors) [
            | inl off ↦ absurd (ground (arith, e, off, redirect))
            | inr (cors, on) ↦ absurd (ground (arith, e, no_preflight, on, redirect))
          ]
          | inl no_redirect ↦
              let sent : outcome_of r.request
                    (forward services idx rule counters r with_tls trusted_peer draws w).0
                  ≡ dispatched r' d =
                elim (Option-cases rule.cors) [
                  | inl off ↦ ground (arith, e, off, no_redirect)
                  | inr (cors, on) ↦ ground (arith, e, no_preflight, on, no_redirect)
                ] in
              let (made, same) =
                outcome_of-dispatched
                  (forward services idx rule counters r with_tls trusted_peer draws w).0 r.request
                  r' d sent in
              record {
                no_preflight = no_preflight;
                no_redirect = no_redirect;
                same_request = same;
                aimed =
                    forward-IsAimed services idx rule r with_tls trusted_peer draws w counters d
                      made;
              }
        ]
      ]

  module _ (statuses : HasStatuses inspect) (with_tls : Bool) (now : ℕ) (draws : ℕ → ℕ)
      (w : Writer) where
    -- The extensions of the rule have let the request go on, and the rule passes it on.
    pub record IsGuarded (rule : RuleTable) (client : Str) (r : Incoming) (world : World)
        (r' : Request) (d : Dispatch) : Type 0 where
      pub valid : rule.extensions_invalid ≡ false
      pub granted :
          IsGranted providers inspect statuses rule client now r.uri r.request world.limiters
      pub served : Served
      pub inspected : IsChecked providers inspect statuses rule client now r.uri w r.request served
      pub passed_on : IsPassedOn rule served.request r' d

    serve_matched-IsGuarded :
        (rule : RuleTable) (client : Str) (r : Incoming) (trusted_peer : Bool) (world : World)
        (r' : Request) (d : Dispatch)
        → (world.limiters rule.counter).status ≢ pos 0
        → (serve_matched services idx rule client with_tls now draws r trusted_peer w world).0
          ≡ dispatched r' d
        → IsGuarded rule client r world r' d
    unfolding serve_matched
    serve_matched-IsGuarded rule client r trusted_peer world r' d nonzero e =
        let extensions =
          serve_extensions providers inspect rule client now r.uri w r.request world.limiters in
        elim (Option-cases extensions) [
          | inl bad ↦ absurd (ground (arith, e, bad))
          | inr (s, made) ↦ elim (Bool-cases (eq_ℤ s.verdict.status (pos 0))) [
            | inr stopped ↦ absurd (ground (arith, e, made, stopped))
            | inl go ↦
                let (good, granted, checked) =
                  serve_extensions-IsClosed providers inspect statuses rule client now r.uri w
                    r.request world.limiters s nonzero made
                    ((eq_ℤ_iff s.verdict.status (pos 0)).0 go) in
                record {
                  valid = good;
                  granted = granted;
                  served = s;
                  inspected = checked;
                  passed_on =
                      serve_rule-IsPassedOn rule (record r { request = s.request }) with_tls
                        trusted_peer draws s.writer world.counters r' d
                        (ground (arith, e, made, go));
                }
          ]
        ]

    -- A request reaches a backend only if it is not misdirected, its path is no reserved endpoint,
    -- and it has a rule; if that rule's extensions have all let it go on: they are valid, the limiter
    -- has granted it, the enforcer has let it through (or it is a preflight on a rule with a CORS
    -- filter), and the firewall has let pass what goes on; and if it is no preflight on such a rule
    -- and the rule redirects nothing. It then goes to a listed endpoint of a valid backend of the
    -- rule, over the backend's TLS transport if it has one. The refusals of limiters and firewalls
    -- have a status other than 0.
    pub serve-IsGuarded :
        (tables : Tables) (port : ℤ) (r : Incoming) (world : World) (r' : Request) (d : Dispatch)
        → ((a : ℕ) → (world.limiters a).status ≢ pos 0)
        → (serve services idx tables port with_tls now draws r w world).0 ≡ dispatched r' d
        → (is_misdirected services idx tables port with_tls r.server_name (host_of notation r.host)
            ≡ false)
          × (auth_endpoint tables port (host_of notation r.host) r.request.url_path ≡ [])
          × ((c : Candidate) × (match tables port (host_of notation r.host) r.request ≡ some c)
              × IsGuarded c.rule (client_ip notation tables port r.request).0 r world r' d)
    unfolding serve
    serve-IsGuarded tables port r world r' d nonzero e =
        let host = host_of notation r.host in
        let candidates = auth_endpoint tables port host r.request.url_path in
        elim (Bool-cases (is_misdirected services idx tables port with_tls r.server_name host)) [
          | inl misdirected ↦ absurd (ground (arith, e, misdirected))
          | inr owned ↦ elim (Bool-cases (is_empty candidates)) [
            | inr reserved ↦ absurd (ground (arith, e, owned, reserved))
            | inl free ↦ elim (Option-cases (match tables port host r.request)) [
              | inl missing ↦ elim (Bool-cases (is_grpc_request r.request)) [
                | inl grpc ↦ absurd (ground (arith, e, owned, free, missing, grpc))
                | inr plain ↦ absurd (ground (arith, e, owned, free, missing, plain))
              ]
              | inr (c, found) ↦ (
                owned,
                empty_of candidates free,
                (
                  c,
                  found,
                  serve_matched-IsGuarded c.rule (client_ip notation tables port r.request).0 r
                      (client_ip notation tables port r.request).1 world r' d
                      (nonzero c.rule.counter) (ground (arith, e, owned, free, found)),
                ),
              )
            ]
          ]
        ]
