-- ===== src/Proxy/Extensions.antt =====
-- The extensions of a rule on the request path (internal/lib/transports/http/proxy/extensions.go).
-- The firewall engine is an interface, and so are the providers of the enforcer.
pub mod Closed
pub mod Identified
use krouter.Prelude.{
  ℕ, ℤ, pos, ◌+◌, ◌-◌, ◌/◌, ◌^◌, ◌==◌, ltb, eq_ℤ, Bool, true, false, not, ◌&&◌, Option, none, some,
  List, [], ◌∷◌, map, if◌then◌else◌, any, is_empty, is_some, Str, codes, to_lower, contains_str,
}
use krouter.Compiled.{Auth}
use krouter.Http.{Header, Request, header_get, header_values, header_add}
use krouter.RateLimit.{Limiter, allow, key_for}
use krouter.Routing.Types.{RuleTable}
use krouter.Routing.L4.{decimal}
use krouter.Enforcer.Evaluate.{Evaluated, panics, decided, evaluate}
use krouter.Enforcer.{Decision, Providers, apply_identity}
use krouter.Proxy.Message.{Writer, Incoming, redirected, set_header, http_error, write_status}
use krouter.Proxy.Cors.{is_cors_preflight}

-- What waf.Engine.Evaluate answers: nothing, a denial with a status and a rule, or an error.
pub data Inspection : Type 0 where
  passed : Inspection
  denied : ℤ → ℤ → Inspection
  failed : Inspection

-- The engine of a program, for a request, the address of its client, and whether only the phase of
-- the request headers is run.
abbrev pub Inspector : Type 0
Inspector = Str → Request → Str → Bool → Inspection

-- The limiters, each under the address of the counter of its rule: a rule is built with one of each.
abbrev pub Limiters : Type 0
Limiters = ℕ → Limiter

abbrev pub put_limiter : ℕ → Limiter → Limiters → Limiters
put_limiter a l limiters b = if a == b then l else limiters b

-- The results of `serveExtensions`; with the status 0 the request goes on.
pub record Verdict : Type 0 where
  pub status : ℤ
  pub extension : Str
  pub waf_rule : ℤ
  pub user : Str

-- What the extensions have done to the response, the request and the limiters.
pub record Served : Type 0 where
  pub verdict : Verdict
  pub writer : Writer
  pub request : Request
  pub limiters : Limiters

-- `deny`
unfoldable pub deny : Bool → ℤ → Str → Str → Writer → Writer × ℤ
unfolding write_status
deny grpc_rule http_status grpc_code message w =
    if grpc_rule
    then (write_status grpc_code message w, pos 200)
    else (http_error message http_status w, http_status)

-- `isUpgrade`
unfoldable pub is_upgrade : Request → Bool
unfolding header_get header_values contains_str to_lower
is_upgrade r =
    if is_empty (header_get r.header (codes "Upgrade"))
    then false
    else any (λ v. contains_str (map to_lower v) (codes "upgrade"))
        (header_values r.header (codes "Connection"))

abbrev pub stop : Str → ℤ → Writer × ℤ → Request → Limiters → Served
stop extension waf_rule (w, status) r limiters = record {
  verdict = record { status = status; extension = extension; waf_rule = waf_rule; user = [] };
  writer = w;
  request = r;
  limiters = limiters;
}

unfoldable pub challenge : List Str → Header → Header
unfolding header_add
challenge [] h = h
challenge (c ∷ cs) h = challenge cs (header_add h (codes "WWW-Authenticate") c)

-- `serveAuth` of a decision: the status and the user, the response and the header of the request;
-- `none` is the dereference of an identity that is missing.
unfoldable pub render : Decision → Bool → Writer → Header → Option (ℤ × Str × Writer × Header)
unfolding deny challenge apply_identity
render d grpc_rule w h =
    let refused =
      deny grpc_rule d.status d.grpc_code d.message
        (record w { header = challenge d.challenges w.header }) in
    if d.allowed
    then elim d.identity [
      | none ↦ none
      | some identity ↦ some (pos 0, identity.user, w, apply_identity identity h)
    ]
    else if not (is_empty d.redirect_to)
    then some (d.status, [], record w { reply = redirected d.redirect_to d.status }, h)
    else some (refused.1, [], refused.0, h)

-- The seconds of a wait in nanoseconds, rounded up, and at least one.
abbrev pub retry_seconds : ℕ → ℕ
retry_seconds wait =
    let seconds = (wait + (10 ^ 9 - 1)) / 10 ^ 9 in if ltb seconds 1 then 1 else seconds

module _ (providers : Providers) (inspect : Inspector) where
  -- The last part of `serveExtensions`: the firewall.
  unfoldable pub serve_waf : RuleTable → Str → Str → Writer → Request → Limiters → Served
  unfolding deny is_upgrade
  serve_waf rule client_ip user w r limiters =
      let proceed : Served = record {
        verdict = record { status = pos 0; extension = []; waf_rule = pos 0; user = user };
        writer = w;
        request = r;
        limiters = limiters;
      } in
      elim rule.waf_engine [
        | none ↦ proceed
        | some program ↦ elim (inspect program r client_ip (is_upgrade r)) [
          | passed ↦ proceed
          | denied status rule_id ↦
              stop (codes "waf") rule_id (deny rule.grpc status (codes "7") (codes "forbidden") w) r
                limiters
          | failed ↦
              stop (codes "waf") (pos 0)
                (deny rule.grpc (pos 500) (codes "13") (codes "web application firewall error") w) r
                limiters
        ]
      ]

  -- `serveAuth`
  unfoldable pub serve_auth :
      Auth → ℕ → Bool → Str → Writer → Request → Option (ℤ × Str × Writer × Request)
  unfolding evaluate render
  serve_auth cfg now grpc_rule uri w r =
      let (outcome, stripped) = evaluate providers cfg now grpc_rule uri r w.header in
      elim outcome [
        | panics ↦ none
        | decided d h ↦ elim (render d grpc_rule (record w { header = h }) stripped.header) [
          | none ↦ none
          | some (status, user, w', h') ↦ some (status, user, w', record stripped { header = h' })
        ]
      ]

  -- The part of `serveExtensions` from the authentication on.
  unfoldable pub serve_checks :
      RuleTable → Str → ℕ → Str → Writer → Request → Limiters → Option Served
  unfolding serve_waf serve_auth is_cors_preflight
  serve_checks rule client_ip now uri w r limiters = elim rule.auth_enforcer [
    | none ↦ some (serve_waf rule client_ip [] w r limiters)
    | some cfg ↦
        if is_some rule.cors && is_cors_preflight r
        then some (serve_waf rule client_ip [] w r limiters)
        else elim (serve_auth cfg now rule.grpc uri w r) [
          | none ↦ none
          | some (status, user, w', r') ↦
              if eq_ℤ status (pos 0)
              then some (serve_waf rule client_ip user w' r' limiters)
              else some (stop (codes "auth") (pos 0) (w', status) r' limiters)
        ]
  ]

  -- `serveExtensions`; `none` is a nil dereference.
  unfoldable pub serve_extensions :
      RuleTable → Str → ℕ → Str → Writer → Request → Limiters → Option Served
  unfolding serve_checks deny allow key_for decimal
  serve_extensions rule client_ip now uri w r limiters =
      if rule.extensions_invalid
      then some (
          stop (codes "extensionref") (pos 0)
            (deny rule.grpc (pos 500) (codes "13") (codes "invalid route extension") w) r limiters)
      else elim rule.limiter [
        | none ↦ serve_checks rule client_ip now uri w r limiters
        | some _ ↦
            let limiter = limiters rule.counter in
            let (limiter', refusal) = allow (key_for limiter r client_ip) now limiter in
            let limiters' = put_limiter rule.counter limiter' limiters in
            elim refusal [
              | none ↦ serve_checks rule client_ip now uri w r limiters'
              | some wait ↦ some (
                  stop (codes "ratelimit") (pos 0)
                    (deny rule.grpc limiter.status (codes "8") (codes "rate limited")
                      (set_header (codes "Retry-After") (decimal (pos (retry_seconds wait))) w))
                    r limiters')
            ]
      ]
