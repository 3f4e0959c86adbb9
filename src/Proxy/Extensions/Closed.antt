-- ===== src/Proxy/Extensions/Closed.antt =====
-- The extensions of a rule fail closed.
use krouter.Prelude.{
  ℕ, ℤ, pos, eq_ℤ, eq_ℤ_iff, ◌≡◌, ◌≢◌, refl, sym, ap, ◌∙◌, subst, ◌⊎◌, inl, inr, Bool, true, false,
  ◌&&◌, none, some, [], is_empty, arith, Bool-cases, Option-cases, is_some, Str, codes,
}
use krouter.Compiled.{Auth}
use krouter.Http.{Header, Request}
use krouter.RateLimit.{allow, key_for}
use krouter.Routing.Types.{RuleTable}
use krouter.Routing.L4.{decimal}
use krouter.Enforcer.Evaluate.{Evaluated-cases, decided, evaluate}
use krouter.Enforcer.{Decision, Providers}
use krouter.Enforcer.Outcome.{IsAnswer, evaluate-IsAnswer}
use krouter.Proxy.Message.{Writer, set_header}
use krouter.Proxy.Cors.{is_cors_preflight}
use krouter.Proxy.Extensions.{
  Inspection, passed, denied, failed, Inspector, Limiters, put_limiter, retry_seconds, Served, deny,
  challenge, is_upgrade, render, serve_waf, serve_auth, serve_checks, serve_extensions,
}

deny-status :
    (grpc_rule : Bool) (status : ℤ) (code message : Str) (w : Writer)
    → status ≢ pos 0
    → (deny grpc_rule status code message w).1 ≢ pos 0
unfolding deny
deny-status true status code message w h = λ e. cc
deny-status false status code message w h = h

-- Every denial of the firewall has a status (engine.go sets 403 where there is none).
abbrev pub HasStatuses : Inspector → Type 0
HasStatuses inspect =
    (program client_ip : Str) (r : Request) (headers_only : Bool) (status rule_id : ℤ)
    → inspect program r client_ip headers_only ≡ denied status rule_id
    → status ≢ pos 0

Inspection-cases :
    (i : Inspection)
    → (i ≡ passed) ⊎ (((status : ℤ) × (rule_id : ℤ) × (i ≡ denied status rule_id)) ⊎ (i ≡ failed))
Inspection-cases passed = inl refl
Inspection-cases (denied status rule_id) = inr (inl (status, rule_id, refl))
Inspection-cases failed = inr (inr refl)

no_zero : (n : ℤ) → eq_ℤ n (pos 0) ≡ false → n ≢ pos 0
no_zero n h e = cc (h, (eq_ℤ_iff n (pos 0)).1 e)

module _ (providers : Providers) (inspect : Inspector) (statuses : HasStatuses inspect)
    (rule : RuleTable) (client_ip : Str) (now : ℕ) (uri : Str) where
  -- The firewall of the rule has let the request pass.
  abbrev pub IsInspected : Request → Type 0
  IsInspected r =
      (rule.waf_engine ≡ none)
      ⊎ ((program : Str) × (rule.waf_engine ≡ some program)
          × (inspect program r client_ip (is_upgrade r) ≡ passed))

  serve_waf-IsInspected :
      (user : Str) (w : Writer) (r : Request) (limiters : Limiters)
      → (serve_waf providers inspect rule client_ip user w r limiters).verdict.status ≡ pos 0
      → IsInspected r
  unfolding serve_waf
  serve_waf-IsInspected user w r limiters h = elim (Option-cases rule.waf_engine) [
    | inl off ↦ inl off
    | inr (program, on) ↦ elim (Inspection-cases (inspect program r client_ip (is_upgrade r))) [
      | inl good ↦ inr (program, on, good)
      | inr (inl (status, rule_id, bad)) ↦ absurd (
          deny-status rule.grpc status (codes "7") (codes "forbidden") w
            (statuses program client_ip r (is_upgrade r) status rule_id bad)
            (ground (arith, h, on, bad)))
      | inr (inr broken) ↦ absurd (
          deny-status rule.grpc (pos 500) (codes "13") (codes "web application firewall error") w
            (λ e. cc) (ground (arith, h, on, broken)))
    ]
  ]

  serve_waf-request :
      (user : Str) (w : Writer) (r : Request) (limiters : Limiters)
      → (serve_waf providers inspect rule client_ip user w r limiters).request ≡ r
  unfolding serve_waf
  serve_waf-request user w r limiters = elim (Option-cases rule.waf_engine) [
    | inl off ↦ rw (off, serve_waf) refl
    | inr (program, on) ↦ elim (Inspection-cases (inspect program r client_ip (is_upgrade r))) [
      | inl good ↦ rw (on, serve_waf, good, serve_waf) refl
      | inr (inl (status, rule_id, bad)) ↦ rw (on, serve_waf, bad, serve_waf) refl
      | inr (inr broken) ↦ rw (on, serve_waf, broken, serve_waf) refl
    ]
  ]

  -- The authentication extension of the rule has let the request pass, or it is a preflight of a
  -- rule that answers those.
  abbrev pub IsAuthenticated : Writer → Request → Type 0
  IsAuthenticated w r =
      (rule.auth_enforcer ≡ none)
      ⊎ (((is_some rule.cors && is_cors_preflight r) ≡ true)
          ⊎ ((cfg : Auth) × (d : Decision) × (h : Header) × (rule.auth_enforcer ≡ some cfg)
              × ((evaluate providers cfg now rule.grpc uri r w.header).0 ≡ decided d h)
              × (d.allowed ≡ true)))

  -- A decision that is not to let the request through has a status, so has what is rendered of it.
  render-allowed :
      (d : Decision) (w : Writer) (h : Header) (status : ℤ) (user : Str) (w' : Writer) (h' : Header)
      → (d.allowed ≡ true) ⊎ (d.status ≢ pos 0)
      → render d rule.grpc w h ≡ some (status, user, w', h')
      → status ≡ pos 0
      → d.allowed ≡ true
  unfolding render
  render-allowed d w h status user w' h' answer e zero_status = elim (Bool-cases d.allowed) [
    | inl allowed ↦ allowed
    | inr refused ↦ elim answer [
      | inl allowed ↦ allowed
      | inr some_status ↦ elim (Bool-cases (is_empty d.redirect_to)) [
        | inr redirect ↦ absurd (some_status (ground (arith, e, refused, redirect, zero_status)))
        | inl plain ↦ absurd (
            deny-status rule.grpc d.status d.grpc_code d.message
              (record w { header = challenge d.challenges w.header }) some_status
              (ground (arith, e, refused, plain, zero_status)))
      ]
    ]
  ]

  answer-status :
      (cfg : Auth) (r : Request) (d : Decision)
      → IsAnswer providers cfg now rule.grpc uri r d
      → (d.allowed ≡ true) ⊎ (d.status ≢ pos 0)
  answer-status cfg r d (inl allowed) = inl allowed
  answer-status cfg r d (inr (inl login)) = inr (λ e. cc (e, login.found))
  answer-status cfg r d (inr (inr (_, inl e))) = inr (λ z. cc (e, z))
  answer-status cfg r d (inr (inr (_, inr (inl e)))) = inr (λ z. cc (e, z))
  answer-status cfg r d (inr (inr (_, inr (inr e)))) = inr (λ z. cc (e, z))

  serve_auth-allowed :
      (cfg : Auth) (w : Writer) (r : Request) (user : Str) (w' : Writer) (r' : Request) (status : ℤ)
      → serve_auth providers inspect cfg now rule.grpc uri w r ≡ some (status, user, w', r')
      → status ≡ pos 0
      → (d : Decision) × (h : Header) × ((evaluate providers cfg now rule.grpc uri r w.header).0
          ≡ decided d h)
        × (d.allowed ≡ true)
  unfolding serve_auth
  serve_auth-allowed cfg w r user w' r' status e zero_status =
      elim (Evaluated-cases (evaluate providers cfg now rule.grpc uri r w.header).0) [
        | inl bad ↦ absurd (ground (arith, e, bad))
        | inr (d, h, made) ↦
            let stripped = (evaluate providers cfg now rule.grpc uri r w.header).1 in
            elim (Option-cases (render d rule.grpc (record w { header = h }) stripped.header)) [
              | inl missing ↦ absurd (ground (arith, e, made, missing))
              | inr ((status', user', w'', h''), rendered) ↦
                  let same : status' ≡ pos 0 = ground (arith, e, made, rendered, zero_status) in
                  (
                    d,
                    h,
                    made,
                    render-allowed d (record w { header = h }) stripped.header status' user' w'' h''
                        (answer-status cfg stripped d
                          (evaluate-IsAnswer providers cfg now rule.grpc uri r w.header d h made))
                        rendered same,
                  )
            ]
      ]

  abbrev pub IsChecked : Writer → Request → Served → Type 0
  IsChecked w r s = IsAuthenticated w r × IsInspected s.request

  serve_waf-IsChecked :
      (w₀ : Writer) (r₀ : Request) (user : Str) (w : Writer) (r : Request) (limiters : Limiters)
      (s : Served)
      → IsAuthenticated w₀ r₀
      → serve_waf providers inspect rule client_ip user w r limiters ≡ s
      → s.verdict.status ≡ pos 0
      → IsChecked w₀ r₀ s
  serve_waf-IsChecked w₀ r₀ user w r limiters s known e zero_status = (
    known,
    subst IsInspected (sym (serve_waf-request user w r limiters) ∙ ap (λ (t : Served). t.request) e)
        (serve_waf-IsInspected user w r limiters
          (ap (λ (t : Served). t.verdict.status) e ∙ zero_status)),
  )

  serve_checks-IsChecked :
      (w : Writer) (r : Request) (limiters : Limiters) (s : Served)
      → serve_checks providers inspect rule client_ip now uri w r limiters ≡ some s
      → s.verdict.status ≡ pos 0
      → IsChecked w r s
  unfolding serve_checks
  serve_checks-IsChecked w r limiters s e zero_status = elim (Option-cases rule.auth_enforcer) [
    | inl off ↦
        serve_waf-IsChecked w r [] w r limiters s (inl off) (ground (arith, e, off)) zero_status
    | inr (cfg, on) ↦ elim (Bool-cases (is_some rule.cors && is_cors_preflight r)) [
      | inl preflight ↦
          serve_waf-IsChecked w r [] w r limiters s (inr (inl preflight))
            (ground (arith, e, on, preflight)) zero_status
      | inr plain ↦ elim (Option-cases (serve_auth providers inspect cfg now rule.grpc uri w r)) [
        | inl missing ↦ absurd (ground (arith, e, on, plain, missing))
        | inr ((status, user, w', r'), rendered) ↦ elim (Bool-cases (eq_ℤ status (pos 0))) [
          | inr stopped ↦ absurd (
              no_zero status stopped (ground (arith, e, on, plain, rendered, stopped, zero_status)))
          | inl go ↦
              let status_zero : status ≡ pos 0 = (eq_ℤ_iff status (pos 0)).0 go in
              let (d, h, made, allowed) =
                serve_auth-allowed cfg w r user w' r' status rendered status_zero in
              serve_waf-IsChecked w r user w' r' limiters s
                (inr (inr (cfg, d, h, on, made, allowed)))
                (ground (arith, e, on, plain, rendered, go)) zero_status
        ]
      ]
    ]
  ]

  -- The limiter of the rule, if it has one, has granted the request.
  abbrev pub IsGranted : Request → Limiters → Type 0
  IsGranted r limiters =
      (rule.limiter ≡ none)
      ⊎ ((allow (key_for (limiters rule.counter) r client_ip) now (limiters rule.counter)).1 ≡ none)

  -- A request goes on only past every extension of its rule: if `serveExtensions` answers the status
  -- 0, then the rule's extensions are valid, its limiter has granted the request, its enforcer has let
  -- it through (or it is a preflight on a rule with a CORS filter), and its firewall has let the
  -- request that goes on pass, each where the rule has one. The refusals of the limiter and of the
  -- firewall have a status other than 0.
  pub serve_extensions-IsClosed :
      (w : Writer) (r : Request) (limiters : Limiters) (s : Served)
      → (limiters rule.counter).status ≢ pos 0
      → serve_extensions providers inspect rule client_ip now uri w r limiters ≡ some s
      → s.verdict.status ≡ pos 0
      → (rule.extensions_invalid ≡ false) × IsGranted r limiters × IsChecked w r s
  unfolding serve_extensions
  serve_extensions-IsClosed w r limiters s nonzero e zero_status =
      let limiter = limiters rule.counter in
      let granted = allow (key_for limiter r client_ip) now limiter in
      elim (Bool-cases rule.extensions_invalid) [
        | inl broken ↦ absurd (
            deny-status rule.grpc (pos 500) (codes "13") (codes "invalid route extension") w
              (λ z. cc) (ground (arith, e, broken, zero_status)))
        | inr good ↦ elim (Option-cases rule.limiter) [
          | inl off ↦ (
            good,
            inl off,
            serve_checks-IsChecked w r limiters s (ground (arith, e, good, off)) zero_status,
          )
          | inr (config, on) ↦ elim (Option-cases granted.1) [
            | inl grant ↦ (
              good,
              inr grant,
              serve_checks-IsChecked w r (put_limiter rule.counter granted.0 limiters) s
                  (ground (arith, e, good, on, grant)) zero_status,
            )
            | inr (wait, refusal) ↦ absurd (
                deny-status rule.grpc limiter.status (codes "8") (codes "rate limited")
                  (set_header (codes "Retry-After") (decimal (pos (retry_seconds wait))) w) nonzero
                  (ground (arith, e, good, on, refusal, zero_status)))
          ]
        ]
      ]
