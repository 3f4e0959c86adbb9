-- ===== src/Enforcer/Authorized.antt =====
-- Whom an extension lets through: the sessions and credentials that vouch for an identity, and the
-- claims that it has to hold.
use krouter.Prelude.{
  ℕ, pos, ltb_ℤ, eq_ℤ, ◌≡◌, refl, sym, subst, inl, inr, Bool, true, false, ◌&&◌, ◌||◌, Option, none,
  some, is_some, arith, All, Str, codes, str_eq, str_eq_iff, Bool-cases, Option-cases, ok,
  Result-cases,
}
use krouter.Compiled.{Auth}
use krouter.Http.{Header, Request}
use krouter.Enforcer.Evaluate.{
  Evaluated, panics, decided, credential_failure, refresh_if_needed, current_session, by_token,
  seal_minted, by_password, by_credentials, evaluate,
}
use krouter.Enforcer.{
  Claims, Identity, Session, Decision, Fault, Providers, unix, strip_identity, meets, authorize,
  authorization_header, session_from_claims, mint_session,
}
use krouter.Enforcer.Requirements.{Satisfies, meets_iff}

-- Tokens without an expiry, and those that have not expired.
abbrev pub IsFresh : ℕ → Session → Type 0
IsFresh now s = (eq_ℤ s.token_expires_at (pos 0) || ltb_ℤ (unix now) s.token_expires_at) ≡ true

module _ (providers : Providers) (cfg : Auth) (now : ℕ) (r : Request) where
  open providers use {open_session, refresh, validate, authenticate, basic_auth}

  -- What vouches for a session: the session cookie, a refresh of its expired token, a bearer token,
  -- or a password.
  pub data Vouches (s : Session) : Type 0 where
    by_cookie :
        is_some cfg.session ≡ true → open_session cfg now r ≡ some s → IsFresh now s → Vouches s
    by_refresh :
        (old : Session)
        → is_some cfg.session ≡ true
        → open_session cfg now r ≡ some old
        → old.provider ≡ codes "oidc"
        → refresh cfg old ≡ some s
        → Vouches s
    by_bearer :
        (token : Str) (claims : Claims)
        → is_some cfg.jwt ≡ true
        → authorization_header r.header ≡ (codes "bearer", token)
        → validate cfg token ≡ ok claims
        → s ≡ session_from_claims (codes "jwt") claims
        → Vouches s
    by_bind :
        (username password : Str) (identity : Identity)
        → is_some cfg.ldap ≡ true
        → basic_auth r ≡ some (username, password)
        → authenticate cfg username password ≡ ok identity
        → mint_session cfg now (codes "ldap") identity ≡ some s
        → Vouches s

  -- A decision that lets a request through names the identity of a session that something vouches
  -- for and that meets the requirements.
  abbrev pub IsVouched : Decision → Type 0
  IsVouched d =
      (s : Session) × Vouches s
      × (d.identity ≡ some s.identity)
      × All (Satisfies s.identity) cfg.authorization

  abbrev Sound : Evaluated → Type 0
  Sound panics = Unit
  Sound (decided d h) = d.allowed ≡ true → IsVouched d

  authorize-IsVouched :
      (s : Session) (provider : Str)
      → Vouches s
      → (authorize cfg s provider).allowed ≡ true
      → IsVouched (authorize cfg s provider)
  unfolding authorize
  authorize-IsVouched s provider v h = elim (Bool-cases (meets s.identity cfg.authorization)) [
    | inl good ↦ (s, v, ground (arith, good), (meets_iff s.identity cfg.authorization).0 good)
    | inr bad ↦ absurd (ground (arith, h, bad))
  ]

  refresh_if_needed-Vouches :
      (old : Session) (h : Header) (s : Session) (h' : Header)
      → is_some cfg.session ≡ true
      → open_session cfg now r ≡ some old
      → refresh_if_needed providers cfg now r old h ≡ some (s, h')
      → Vouches s
  unfolding refresh_if_needed
  refresh_if_needed-Vouches old h s h' kept opened e =
      elim (Bool-cases
        (eq_ℤ old.token_expires_at (pos 0) || ltb_ℤ (unix now) old.token_expires_at)) [
          | inl fresh ↦
              let same : old ≡ s = ground (arith, e, fresh) in
              subst Vouches (same) (by_cookie kept opened fresh)
          | inr stale ↦ elim (Option-cases (refresh cfg old)) [
            | inl no_refresh ↦ absurd (ground (arith, e, stale, no_refresh))
            | inr (new, refreshed) ↦ elim (Option-cases (providers.seal_session cfg r new h)) [
              | inl unsealed ↦ absurd (ground (arith, e, stale, refreshed, unsealed))
              | inr (sealed, kept_in) ↦
                  let same : new ≡ s = ground (arith, e, stale, refreshed, kept_in) in
                  let oidc : old.provider ≡ codes "oidc" =
                    (str_eq_iff old.provider (codes "oidc")).0
                      (ground (arith, e, stale, refreshed, kept_in)) in
                  subst Vouches (same) (by_refresh old kept opened oidc refreshed)
            ]
          ]
        ]

  current_session-Vouches :
      (h : Header) (s : Session) (h' : Header)
      → current_session providers cfg now r h ≡ some (s, h')
      → Vouches s
  unfolding current_session
  current_session-Vouches h s h' e = elim (Bool-cases (is_some cfg.session)) [
    | inr missing ↦ absurd (ground (arith, e, missing))
    | inl kept ↦ elim (Option-cases (open_session cfg now r)) [
      | inl closed ↦ absurd (ground (arith, e, kept, closed))
      | inr (old, opened) ↦
          refresh_if_needed-Vouches old h s h' kept opened (ground (arith, e, kept, opened))
    ]
  ]

  -- A refused credential lets nothing through.
  credential_failure-refuses :
      (provider : Str) (fault : Fault) (grpc_rule : Bool)
      → (credential_failure providers cfg provider fault grpc_rule).allowed ≡ false
  unfolding credential_failure
  credential_failure-refuses provider Fault.unavailable grpc_rule = refl
  credential_failure-refuses provider Fault.refused grpc_rule = ground arith

  by_token-Sound :
      (grpc_rule : Bool) (token : Str)
      → is_some cfg.jwt ≡ true
      → authorization_header r.header ≡ (codes "bearer", token)
      → (by_token providers cfg grpc_rule token).allowed ≡ true
      → IsVouched (by_token providers cfg grpc_rule token)
  unfolding by_token
  by_token-Sound grpc_rule token jwt header h = elim (Result-cases (validate cfg token)) [
    | inl (claims, valid) ↦
        let s = session_from_claims (codes "jwt") claims in
        let same : by_token providers cfg grpc_rule token ≡ authorize cfg s (codes "jwt") =
          rw (valid, by_token) refl in
        subst IsVouched (sym same) (
          authorize-IsVouched s (codes "jwt") (by_bearer token claims jwt header valid refl)
            (rw same at h))
    | inr (fault, refused) ↦
        absurd
          (ground (arith, h, refused, credential_failure-refuses (codes "jwt") fault grpc_rule))
  ]

  seal_minted-Sound :
      (minted : Option Session) (h : Header)
      → ((s : Session) → minted ≡ some s → Vouches s)
      → Sound (seal_minted providers cfg r minted h)
  unfolding seal_minted
  seal_minted-Sound none h v = tt
  seal_minted-Sound (some s) h v = elim (Option-cases (providers.seal_session cfg r s h)) [
    | inl unsealed ↦ rw (unsealed, seal_minted) (λ e. cc)
    | inr (h', sealed) ↦ rw (sealed, seal_minted) (authorize-IsVouched s (codes "ldap") (v s refl))
  ]

  by_password-Sound :
      (grpc_rule : Bool) (h : Header)
      → is_some cfg.ldap ≡ true
      → Sound (by_password providers cfg now grpc_rule r h)
  unfolding by_password
  by_password-Sound grpc_rule h ldap = elim (Option-cases (basic_auth r)) [
    | inl missing ↦ rw (missing, by_password) (λ e. ground arith)
    | inr ((username, password), given) ↦ elim (Result-cases (authenticate cfg username password)) [
      | inr (fault, refused) ↦
          rw (given, by_password, refused, by_password)
            (λ e.
              absurd (ground (arith, e, credential_failure-refuses (codes "ldap") fault grpc_rule)))
      | inl (identity, known) ↦
          rw (given, by_password, known, by_password)
            (seal_minted-Sound (mint_session cfg now (codes "ldap") identity) h
              (λ s minted. by_bind username password identity ldap given known minted))
    ]
  ]

  by_credentials-Sound :
      (grpc_rule : Bool) (uri : Str) (h : Header)
      → Sound (by_credentials providers cfg now grpc_rule uri r h)
  unfolding by_credentials
  by_credentials-Sound grpc_rule uri h =
      let scheme = (authorization_header r.header).0 in
      let token = (authorization_header r.header).1 in
      elim (Bool-cases (str_eq scheme (codes "bearer") && is_some cfg.jwt)) [
        | inl bearer ↦
            let named : scheme ≡ codes "bearer" =
              (str_eq_iff scheme (codes "bearer")).0 (ground (arith, bearer)) in
            rw (bearer, by_credentials)
              (by_token-Sound grpc_rule token (ground (arith, bearer)) (ground (arith, named)))
        | inr other ↦ elim (Bool-cases (str_eq scheme (codes "basic") && is_some cfg.ldap)) [
          | inl basic ↦
              rw (other, by_credentials, basic, by_credentials)
                (by_password-Sound grpc_rule h (ground (arith, basic)))
          | inr none_given ↦
              rw (other, by_credentials, none_given, by_credentials) (λ e. ground arith)
        ]
      ]

  decided-Sound :
      (grpc_rule : Bool) (uri : Str) (h : Header) (o : Option (Session × Header))
      → current_session providers cfg now r h ≡ o
      → Sound (elim o [
        | none ↦ by_credentials providers cfg now grpc_rule uri r h
        | some (session, h') ↦ decided (authorize cfg session session.provider) h'
      ])
  decided-Sound grpc_rule uri h none e = by_credentials-Sound grpc_rule uri h
  decided-Sound grpc_rule uri h (some (s, h')) e =
      authorize-IsVouched s s.provider (current_session-Vouches h s h' e)

module _ (providers : Providers) where
  -- Whom `Evaluate` lets through has a session, of which the decision names the identity. Something
  -- that the request carries vouches for it: a session cookie whose tokens have not expired, one
  -- whose token the OIDC provider has refreshed, a bearer token that is valid, or a password that
  -- LDAP accepts. And for every requirement of the extension, the identity has one of the values
  -- that it accepts.
  pub evaluate-IsVouched :
      (cfg : Auth) (now : ℕ) (grpc_rule : Bool) (uri : Str) (r : Request) (h : Header)
      (d : Decision) (h' : Header)
      → (evaluate providers cfg now grpc_rule uri r h).0 ≡ decided d h'
      → d.allowed ≡ true
      → IsVouched providers cfg now (evaluate providers cfg now grpc_rule uri r h).1 d
  unfolding evaluate
  evaluate-IsVouched cfg now grpc_rule uri r h d h' e allowed =
      let stripped = record r { header = strip_identity r.header } in
      subst (Sound providers cfg now stripped) (e)
        (decided-Sound providers cfg now stripped grpc_rule uri h
          (current_session providers cfg now stripped h) refl)
        allowed
