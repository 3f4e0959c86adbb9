-- ===== src/Enforcer/Evaluate.antt =====
-- Enforcer.Evaluate, step by step (internal/extensions/auth/enforcer.go).
use krouter.Prelude.{
  ◌≡◌, refl, ◌⊎◌, inl, inr, ℕ, pos, ltb_ℤ, eq_ℤ, Bool, false, not, ◌&&◌, ◌||◌, Option, none, some,
  is_some, List, [], ◌∷◌, ◌++◌, if◌then◌else◌, is_empty, Str, codes, str_eq, ok, err,
}
use krouter.Compiled.{Auth, AuthLdap}
use krouter.Http.{Header, Request}
use krouter.Routing.Endpoint.{has_cookie_provider}
use krouter.Enforcer.{
  Decision, Fault, Providers, Session, authorization_header, authorize, failure, is_navigation,
  mint_session, no_decision, session_from_claims, strip_identity, unix,
}

-- What `Evaluate` answers, with the header of the response; `panics` is a nil dereference.
pub data Evaluated : Type 0 where
  panics : Evaluated
  decided : Decision → Header → Evaluated

pub Evaluated-cases :
    (e : Evaluated) → (e ≡ panics) ⊎ ((d : Decision) × (h : Header) × (e ≡ decided d h))
Evaluated-cases panics = inl refl
Evaluated-cases (decided d h) = inr (d, h, refl)

module _ (providers : Providers) where
  open providers use {
    open_session, seal_session, refresh, validate, authenticate, basic_auth, query_escape, quote,
  }

  -- `LoginURL`
  unfoldable pub login_url : Auth → Str → Str
  login_url cfg return_url =
      cfg.path_prefix
      ++ (codes "/login?ext="
          ++ (query_escape cfg.identity
              ++ (if is_empty return_url then [] else codes "&rd=" ++ query_escape return_url)))

  abbrev pub realm_of : AuthLdap → Str
  realm_of ldap = if is_empty ldap.realm then codes "krouter" else ldap.realm

  unfoldable pub challenges_of : Auth → List Str
  challenges_of cfg =
      (if is_some cfg.jwt then codes "Bearer realm=\"krouter\"" ∷ [] else []) ++ elim cfg.ldap [
        | none ↦ []
        | some ldap ↦ (codes "Basic realm=" ++ quote (realm_of ldap)) ∷ []
      ]

  unfoldable pub unauthenticated : Auth → Bool → Bool → Str → Decision
  unfolding login_url challenges_of has_cookie_provider
  unauthenticated cfg grpc_rule navigation return_url =
      if navigation && (not grpc_rule && has_cookie_provider cfg)
      then record no_decision {
        outcome = codes "unauthenticated";
        status = pos 302;
        redirect_to = login_url cfg return_url;
      }
      else record no_decision {
        outcome = codes "unauthenticated";
        status = pos 401;
        challenges = challenges_of cfg;
        grpc_code = codes "16";
        message = codes "authentication required";
      }

  unfoldable pub credential_failure : Auth → Str → Fault → Bool → Decision
  unfolding unauthenticated failure
  credential_failure cfg provider Fault.unavailable grpc_rule = failure provider
  credential_failure cfg provider Fault.refused grpc_rule =
      record (unauthenticated cfg grpc_rule false []) { provider = provider }

  -- `refreshIfNeeded`, and the header of the response
  unfoldable pub refresh_if_needed :
      Auth → ℕ → Request → Session → Header → Option (Session × Header)
  refresh_if_needed cfg now r session h =
      if eq_ℤ session.token_expires_at (pos 0) || ltb_ℤ (unix now) session.token_expires_at
      then some (session, h)
      else if not (str_eq session.provider (codes "oidc"))
          || (not (is_some cfg.oidc) || is_empty session.refresh_token)
      then none
      else elim (refresh cfg session) [
        | none ↦ none
        | some refreshed ↦ elim (seal_session cfg r refreshed h) [
          | none ↦ none
          | some h' ↦ some (refreshed, h')
        ]
      ]

  -- Step 1 of `Evaluate`.
  unfoldable pub current_session : Auth → ℕ → Request → Header → Option (Session × Header)
  unfolding refresh_if_needed
  current_session cfg now r h =
      if not (is_some cfg.session) then none else elim (open_session cfg now r) [
        | none ↦ none
        | some session ↦ refresh_if_needed cfg now r session h
      ]

  -- Step 2.
  unfoldable pub by_token : Auth → Bool → Str → Decision
  unfolding authorize session_from_claims credential_failure
  by_token cfg grpc_rule credentials = elim (validate cfg credentials) [
    | err fault ↦ credential_failure cfg (codes "jwt") fault grpc_rule
    | ok claims ↦ authorize cfg (session_from_claims (codes "jwt") claims) (codes "jwt")
  ]

  -- Step 3, from the session on.
  unfoldable pub seal_minted : Auth → Request → Option Session → Header → Evaluated
  unfolding authorize failure
  seal_minted cfg r none h = panics
  seal_minted cfg r (some session) h = elim (seal_session cfg r session h) [
    | none ↦ decided (failure (codes "ldap")) h
    | some h' ↦ decided (authorize cfg session (codes "ldap")) h'
  ]

  unfoldable pub by_password : Auth → ℕ → Bool → Request → Header → Evaluated
  unfolding seal_minted mint_session credential_failure unauthenticated
  by_password cfg now grpc_rule r h = elim (basic_auth r) [
    | none ↦ decided (unauthenticated cfg grpc_rule false []) h
    | some (username, password) ↦ elim (authenticate cfg username password) [
      | err fault ↦ decided (credential_failure cfg (codes "ldap") fault grpc_rule) h
      | ok identity ↦ seal_minted cfg r (mint_session cfg now (codes "ldap") identity) h
    ]
  ]

  -- Steps 2 to 4.
  unfoldable pub by_credentials : Auth → ℕ → Bool → Str → Request → Header → Evaluated
  unfolding by_token by_password unauthenticated is_navigation authorization_header
  by_credentials cfg now grpc_rule uri r h =
      let (scheme, credentials) = authorization_header r.header in
      if str_eq scheme (codes "bearer") && is_some cfg.jwt
      then decided (by_token cfg grpc_rule credentials) h
      else if str_eq scheme (codes "basic") && is_some cfg.ldap
      then by_password cfg now grpc_rule r h
      else decided (unauthenticated cfg grpc_rule (is_navigation r) uri) h

  -- `Evaluate`: the request goes on without the headers that name an identity. `uri` is what
  -- URL.RequestURI answers, `h` the header of the response.
  unfoldable pub evaluate : Auth → ℕ → Bool → Str → Request → Header → Evaluated × Request
  unfolding current_session by_credentials strip_identity authorize
  evaluate cfg now grpc_rule uri r h =
      let stripped = record r { header = strip_identity r.header } in
      (
        elim (current_session cfg now stripped h) [
          | none ↦ by_credentials cfg now grpc_rule uri stripped h
          | some (session, h') ↦ decided (authorize cfg session session.provider) h'
        ],
        stripped,
      )
