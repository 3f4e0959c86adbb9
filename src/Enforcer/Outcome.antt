-- ===== src/Enforcer/Outcome.antt =====
-- How a request that is not let through is answered, and that there always is an answer.
use krouter.Prelude.{
  ℕ, pos, ◌≡◌, refl, subst, ◌⊎◌, inl, inr, Bool, true, false, ◌&&◌, not, Option, none, some,
  is_some, [], arith, Str, codes, str_eq, Bool-cases, Option-cases, Result-cases,
}
use krouter.Compiled.{Auth}
use krouter.Http.{Header, Request}
use krouter.Routing.Endpoint.{has_cookie_provider}
use krouter.Enforcer.Evaluate.{
  Evaluated, panics, decided, login_url, unauthenticated, credential_failure, current_session,
  by_token, seal_minted, by_password, by_credentials, evaluate,
}
use krouter.Enforcer.{
  Identity, Session, Decision, Fault, Providers, strip_identity, meets, authorize, failure,
  authorization_header, is_navigation, mint_session, session_from_claims,
}

module _ (providers : Providers) (cfg : Auth) (now : ℕ) (grpc_rule : Bool) (uri : Str)
    (r : Request) where
  open providers use {authenticate, basic_auth, validate}

  -- The request carries no credentials that the extension reads.
  abbrev pub CarriesNone : Type 0
  CarriesNone =
      ((str_eq (authorization_header r.header).0 (codes "bearer") && is_some cfg.jwt) ≡ false)
      × ((str_eq (authorization_header r.header).0 (codes "basic") && is_some cfg.ldap) ≡ false)

  -- To the login page, for a page that a browser opens.
  pub record IsLogin (d : Decision) : Type 0 where
    pub found : d.status ≡ pos 302
    pub target : d.redirect_to ≡ login_url providers cfg uri
    pub plain : grpc_rule ≡ false
    pub opened : is_navigation r ≡ true
    pub cookies : has_cookie_provider cfg ≡ true
    pub carries : CarriesNone

  abbrev pub IsRefusal : Decision → Type 0
  IsRefusal d =
      (d.redirect_to ≡ []) × ((d.status ≡ pos 401) ⊎ ((d.status ≡ pos 403) ⊎ (d.status ≡ pos 503)))

  abbrev pub IsAnswer : Decision → Type 0
  IsAnswer d = (d.allowed ≡ true) ⊎ (IsLogin d ⊎ IsRefusal d)

  abbrev Answers : Evaluated → Type 0
  Answers panics = Unit
  Answers (decided d h) = IsAnswer d

  authorize-IsAnswer : (s : Session) (provider : Str) → IsAnswer (authorize cfg s provider)
  unfolding authorize
  authorize-IsAnswer s provider = elim (Bool-cases (meets s.identity cfg.authorization)) [
    | inl good ↦ inl (ground (arith, good))
    | inr bad ↦ inr (inr (ground (arith, bad), inr (inl (ground (arith, bad)))))
  ]

  unauthenticated-IsRefusal :
      (url : Str) → IsRefusal (unauthenticated providers cfg grpc_rule false url)
  unfolding unauthenticated
  unauthenticated-IsRefusal url = (ground arith, inl (ground arith))

  credential_failure-IsRefusal :
      (provider : Str) (fault : Fault)
      → IsRefusal (credential_failure providers cfg provider fault grpc_rule)
  unfolding credential_failure failure
  credential_failure-IsRefusal provider Fault.unavailable = (refl, inr (inr refl))
  credential_failure-IsRefusal provider Fault.refused =
      let shape = unauthenticated-IsRefusal [] in (shape.0, shape.1)

  by_token-IsAnswer : (token : Str) → IsAnswer (by_token providers cfg grpc_rule token)
  unfolding by_token
  by_token-IsAnswer token = elim (Result-cases (validate cfg token)) [
    | inl (claims, valid) ↦
        rw (valid, by_token)
          (authorize-IsAnswer (session_from_claims (codes "jwt") claims) (codes "jwt"))
    | inr (fault, bad) ↦
        rw (bad, by_token) (inr (inr (credential_failure-IsRefusal (codes "jwt") fault)))
  ]

  seal_minted-Answers :
      (minted : Option Session) (h : Header) → Answers (seal_minted providers cfg r minted h)
  unfolding seal_minted failure
  seal_minted-Answers none h = tt
  seal_minted-Answers (some s) h = elim (Option-cases (providers.seal_session cfg r s h)) [
    | inl unsealed ↦ rw (unsealed, seal_minted) (inr (inr (refl, inr (inr refl))))
    | inr (h', sealed) ↦ rw (sealed, seal_minted) (authorize-IsAnswer s (codes "ldap"))
  ]

  by_password-Answers : (h : Header) → Answers (by_password providers cfg now grpc_rule r h)
  unfolding by_password
  by_password-Answers h = elim (Option-cases (basic_auth r)) [
    | inl missing ↦ rw (missing, by_password) (inr (inr (unauthenticated-IsRefusal [])))
    | inr ((username, password), given) ↦ elim (Result-cases (authenticate cfg username password)) [
      | inr (fault, bad) ↦
          rw (given, by_password, bad, by_password)
            (inr (inr (credential_failure-IsRefusal (codes "ldap") fault)))
      | inl (identity, known) ↦
          rw (given, by_password, known, by_password)
            (seal_minted-Answers (mint_session cfg now (codes "ldap") identity) h)
    ]
  ]

  unauthenticated-IsAnswer :
      CarriesNone → IsAnswer (unauthenticated providers cfg grpc_rule (is_navigation r) uri)
  unfolding unauthenticated
  unauthenticated-IsAnswer carries =
      elim (Bool-cases (is_navigation r && (not grpc_rule && has_cookie_provider cfg))) [
        | inl login ↦ inr (
            inl (record {
              found = ground (arith, login);
              target = ground (arith, login);
              plain = ground (arith, login);
              opened = ground (arith, login);
              cookies = ground (arith, login);
              carries = carries;
            }))
        | inr bare ↦ inr (inr (ground (arith, bare), inl (ground (arith, bare))))
      ]

  by_credentials-Answers :
      (h : Header) → Answers (by_credentials providers cfg now grpc_rule uri r h)
  unfolding by_credentials
  by_credentials-Answers h =
      let scheme = (authorization_header r.header).0 in
      elim (Bool-cases (str_eq scheme (codes "bearer") && is_some cfg.jwt)) [
        | inl bearer ↦
            rw (bearer, by_credentials) (by_token-IsAnswer (authorization_header r.header).1)
        | inr other ↦ elim (Bool-cases (str_eq scheme (codes "basic") && is_some cfg.ldap)) [
          | inl basic ↦ rw (other, by_credentials, basic, by_credentials) (by_password-Answers h)
          | inr bare ↦
              rw (other, by_credentials, bare, by_credentials)
                (unauthenticated-IsAnswer (other, bare))
        ]
      ]

  decided-Answers :
      (h : Header) (o : Option (Session × Header))
      → Answers (elim o [
        | none ↦ by_credentials providers cfg now grpc_rule uri r h
        | some (session, h') ↦ decided (authorize cfg session session.provider) h'
      ])
  decided-Answers h none = by_credentials-Answers h
  decided-Answers h (some (s, h')) = authorize-IsAnswer s s.provider

module _ (providers : Providers) where
  -- What `Evaluate` decides lets the request through, or sends a browser to the login page of the
  -- extension, or refuses with 401, 403 or 503 and no redirect. To the login page goes only a GET or
  -- HEAD request for HTML on a rule that is not gRPC, if the extension has a cookie provider and the
  -- request carries no credentials that the extension reads.
  pub evaluate-IsAnswer :
      (cfg : Auth) (now : ℕ) (grpc_rule : Bool) (uri : Str) (r : Request) (h : Header)
      (d : Decision) (h' : Header)
      → (evaluate providers cfg now grpc_rule uri r h).0 ≡ decided d h'
      → IsAnswer providers cfg now grpc_rule uri (evaluate providers cfg now grpc_rule uri r h).1 d
  unfolding evaluate
  evaluate-IsAnswer cfg now grpc_rule uri r h d h' e =
      let stripped = record r { header = strip_identity r.header } in
      subst (Answers providers cfg now grpc_rule uri stripped) (e) (
        decided-Answers providers cfg now grpc_rule uri stripped h
          (current_session providers cfg now stripped h))

module _ (providers : Providers) (cfg : Auth) (now : ℕ) (grpc_rule : Bool)
    (keeps : is_some cfg.ldap ≡ true → is_some cfg.session ≡ true) where
  open providers use {authenticate, basic_auth}

  abbrev IsDecided : Evaluated → Type 0
  IsDecided e = (d : Decision) × (h : Header) × (e ≡ decided d h)

  mint_session-some :
      (provider : Str) (identity : Identity)
      → is_some cfg.session ≡ true
      → (s : Session) × (mint_session cfg now provider identity ≡ some s)
  unfolding mint_session
  mint_session-some provider identity kept = elim (Option-cases cfg.session) [
    | inl missing ↦ absurd (ground (arith, kept, missing))
    | inr (codec, here) ↦ rw (here, mint_session) (_, refl)
  ]

  seal_minted-IsDecided :
      (r : Request) (s : Session) (h : Header) → IsDecided (seal_minted providers cfg r (some s) h)
  unfolding seal_minted
  seal_minted-IsDecided r s h = elim (Option-cases (providers.seal_session cfg r s h)) [
    | inl unsealed ↦ rw (unsealed, seal_minted) (_, _, refl)
    | inr (h', sealed) ↦ rw (sealed, seal_minted) (_, _, refl)
  ]

  by_password-IsDecided :
      (r : Request) (h : Header)
      → is_some cfg.ldap ≡ true
      → IsDecided (by_password providers cfg now grpc_rule r h)
  unfolding by_password
  by_password-IsDecided r h ldap = elim (Option-cases (basic_auth r)) [
    | inl missing ↦ rw (missing, by_password) (_, _, refl)
    | inr ((username, password), given) ↦ elim (Result-cases (authenticate cfg username password)) [
      | inr (fault, bad) ↦ rw (given, by_password, bad, by_password) (_, _, refl)
      | inl (identity, known) ↦
          let (s, minted) = mint_session-some (codes "ldap") identity (keeps ldap) in
          rw (given, by_password, known, by_password, minted) (seal_minted-IsDecided r s h)
    ]
  ]

  by_credentials-IsDecided :
      (uri : Str) (r : Request) (h : Header)
      → IsDecided (by_credentials providers cfg now grpc_rule uri r h)
  unfolding by_credentials
  by_credentials-IsDecided uri r h =
      let scheme = (authorization_header r.header).0 in
      elim (Bool-cases (str_eq scheme (codes "bearer") && is_some cfg.jwt)) [
        | inl bearer ↦ rw (bearer, by_credentials) (_, _, refl)
        | inr other ↦ elim (Bool-cases (str_eq scheme (codes "basic") && is_some cfg.ldap)) [
          | inl basic ↦
              rw (other, by_credentials, basic, by_credentials)
                (by_password-IsDecided r h (ground (arith, basic)))
          | inr bare ↦ rw (other, by_credentials, bare, by_credentials) (_, _, refl)
        ]
      ]

  decided-IsDecided :
      (uri : Str) (r : Request) (h : Header) (o : Option (Session × Header))
      → IsDecided (elim o [
        | none ↦ by_credentials providers cfg now grpc_rule uri r h
        | some (session, h') ↦ decided (authorize cfg session session.provider) h'
      ])
  decided-IsDecided uri r h none = by_credentials-IsDecided uri r h
  decided-IsDecided uri r h (some (s, h')) = (_, _, refl)

  -- `Evaluate` always comes to a decision, if an extension with an LDAP provider keeps sessions.
  pub evaluate-decides :
      (uri : Str) (r : Request) (h : Header)
      → IsDecided (evaluate providers cfg now grpc_rule uri r h).0
  unfolding evaluate
  evaluate-decides uri r h =
      let stripped = record r { header = strip_identity r.header } in
      decided-IsDecided uri stripped h (current_session providers cfg now stripped h)
