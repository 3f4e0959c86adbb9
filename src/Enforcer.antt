-- ===== src/Enforcer.antt =====
-- The enforcement of an authentication extension (internal/extensions/auth/enforcer.go). The codec of
-- its session cookies and its providers are interfaces.
pub mod Evaluate
pub mod Requirements
pub mod Authorized
pub mod Outcome
use krouter.Prelude.{
  ◌≡◌, refl, ◌⊎◌, inl, inr, ℕ, ℤ, pos, ◌+◌, ◌*◌, ◌/◌, ◌^◌, ltb_ℤ, eq_ℤ, pos_part, Bool, true, false,
  not, ◌&&◌, ◌||◌, Option, none, some, is_some, List, [], ◌∷◌, ◌++◌, map, if◌then◌else◌, any,
  is_empty, Str, codes, str_eq, to_lower, cut, contains_str, join, Result, ok, err,
}
use krouter.Compiled.{Auth, AuthRequire, AuthSession, AuthLdap}
use krouter.Http.{Header, Request, lookup_str, header_get, header_set, header_del, first_or_empty}
use krouter.ClientIp.{trim_space}
use krouter.Routing.Endpoint.{has_cookie_provider}

abbrev pub header_user : Str
header_user = codes "X-Auth-Request-User"

abbrev pub header_email : Str
header_email = codes "X-Auth-Request-Email"

abbrev pub header_groups : Str
header_groups = codes "X-Auth-Request-Groups"

abbrev pub Claims : Type 0
Claims = List (Str × List Str)

pub record Identity : Type 0 where
  pub user : Str
  pub email : Str
  pub groups : List Str
  pub claims : Claims

-- `Session` of session.go, with its identity; times in seconds since the epoch.
pub record Session : Type 0 where
  pub provider : Str
  pub identity : Identity
  pub issued_at : ℤ
  pub expires_at : ℤ
  pub token_expires_at : ℤ
  pub refresh_token : Str
  pub name_id : Str
  pub session_index : Str

pub record Decision : Type 0 where
  pub allowed : Bool
  pub identity : Option Identity
  pub provider : Str
  pub outcome : Str
  pub status : ℤ
  pub redirect_to : Str
  pub challenges : List Str
  pub grpc_code : Str
  pub message : Str

-- The zero value of a Decision.
abbrev pub no_decision : Decision
no_decision = record {
  allowed = false;
  identity = none;
  provider = [];
  outcome = [];
  status = pos 0;
  redirect_to = [];
  challenges = [];
  grpc_code = [];
  message = [];
}

-- Why a provider does not vouch for credentials: ErrUnavailable, or any other error.
pub data Fault : Type 0 where
  unavailable refused : Fault

-- What the enforcer calls. A cookie that is written is a change to the header of the response;
-- `none` is an error, after which nothing is written.
pub record Providers : Type 0 where
  -- Codec.OpenSession and Codec.SealSession
  pub open_session : Auth → ℕ → Request → Option Session
  pub seal_session : Auth → Request → Session → Header → Option Header
  -- OIDCProvider.Refresh, JWTValidator.Validate, LDAPProvider.Authenticate
  pub refresh : Auth → Session → Option Session
  pub validate : Auth → Str → Result Fault Claims
  pub authenticate : Auth → Str → Str → Result Fault Identity
  -- Request.BasicAuth, url.QueryEscape, and strconv.Quote
  pub basic_auth : Request → Option (Str × Str)
  pub query_escape : Str → Str
  pub quote : Str → Str

-- time.Now().Unix(), of an instant in nanoseconds.
abbrev pub unix : ℕ → ℤ
unix now = pos (now / 10 ^ 9)

-- The headers that name an identity.
unfoldable pub strip_identity : Header → Header
unfolding header_del
strip_identity h = header_del (header_del (header_del h header_user) header_email) header_groups

-- `Identity.Apply`
unfoldable pub apply_identity : Identity → Header → Header
unfolding header_set join
apply_identity identity h =
    let with_user = if is_empty identity.user then h else header_set h header_user identity.user in
    let with_email =
      if is_empty identity.email
      then with_user
      else header_set with_user header_email identity.email in
    if is_empty identity.groups
    then with_email
    else header_set with_email header_groups (join identity.groups (codes ","))

-- Reading a Go map of lists: a missing key gives the empty list.
unfoldable pub claim_at : Claims → Str → List Str
unfolding lookup_str
claim_at claims name = elim (lookup_str name claims) [ none ↦ [] | some values ↦ values ]

unfoldable pub claim_values : Identity → Str → List Str
unfolding claim_at
claim_values identity claim =
    if str_eq claim (codes "user")
    then identity.user ∷ []
    else if str_eq claim (codes "email")
    then identity.email ∷ []
    else if str_eq claim (codes "groups")
    then identity.groups
    else claim_at identity.claims claim

-- `intersects` of jwt.go
unfoldable pub intersects : List Str → List Str → Bool
intersects values accepted = any (λ v. any (λ c. str_eq v c) accepted) values

-- The loop of `authorize`.
unfoldable pub meets : Identity → List AuthRequire → Bool
unfolding claim_values intersects
meets identity [] = true
meets identity (require ∷ requires) =
    let rest = meets identity requires in
    if not (intersects (claim_values identity require.claim) require.values) then false else rest

unfoldable pub authorize : Auth → Session → Str → Decision
unfolding meets
authorize cfg session provider =
    if meets session.identity cfg.authorization
    then record no_decision {
      allowed = true;
      identity = some session.identity;
      provider = provider;
      outcome = codes "allowed";
    }
    else record no_decision {
      provider = provider;
      outcome = codes "forbidden";
      status = pos 403;
      grpc_code = codes "7";
      message = codes "forbidden";
    }

unfoldable pub failure : Str → Decision
failure provider = record no_decision {
  provider = provider;
  outcome = codes "error";
  status = pos 503;
  grpc_code = codes "14";
  message = codes "authentication provider unavailable";
}

unfoldable pub authorization_header : Header → Str × Str
unfolding header_get cut to_lower trim_space
authorization_header h =
    let value = header_get h (codes "Authorization") in
    if is_empty value then ([], []) else elim (cut value (codes " ")) [
      | none ↦ ([], [])
      | some (scheme, credentials) ↦ (map to_lower scheme, trim_space credentials)
    ]

unfoldable pub is_navigation : Request → Bool
unfolding header_get contains_str
is_navigation r =
    if not (str_eq r.method (codes "GET")) && not (str_eq r.method (codes "HEAD"))
    then false
    else contains_str (header_get r.header (codes "Accept")) (codes "text/html")

-- `sessionFromClaims`
unfoldable pub session_from_claims : Str → Claims → Session
unfolding claim_at
session_from_claims provider claims = record {
  provider = provider;
  identity = record {
    user = first_or_empty (claim_at claims (codes "sub"));
    email = first_or_empty (claim_at claims (codes "email"));
    groups = claim_at claims (codes "groups");
    claims = claims;
  };
  issued_at = pos 0;
  expires_at = pos 0;
  token_expires_at = pos 0;
  refresh_token = [];
  name_id = [];
  session_index = [];
}

-- The loop of `pruneClaims`: a claim that two requirements name is put once, in Go's map.
abbrev pub is_built_in : Str → Bool
is_built_in claim = any (λ c. str_eq claim c) (codes "user" ∷ codes "email" ∷ codes "groups" ∷ [])

unfoldable pub prune_claims : Claims → List AuthRequire → Claims
unfolding lookup_str
prune_claims claims [] = []
prune_claims claims (require ∷ requires) =
    let rest = prune_claims claims requires in
    if is_built_in require.claim then rest else elim (lookup_str require.claim claims) [
      | none ↦ rest
      | some values ↦ (require.claim, values) ∷ rest
    ]

-- `mintSession` without an earlier session, for a lifetime that is not negative and in the range of a
-- Duration; `none` is the nil dereference of an extension that keeps
-- no sessions.
unfoldable pub mint_session : Auth → ℕ → Str → Identity → Option Session
unfolding prune_claims
mint_session cfg now provider identity = elim cfg.session [
  | none ↦ none
  | some codec ↦ some (record {
    provider = provider;
    identity = record identity { claims = prune_claims identity.claims cfg.authorization };
    issued_at = unix now;
    expires_at = unix (now + pos_part codec.lifetime_millis * 10 ^ 6);
    token_expires_at = pos 0;
    refresh_token = [];
    name_id = [];
    session_index = [];
  })
]
