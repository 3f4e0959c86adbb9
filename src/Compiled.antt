-- ===== src/Compiled.antt =====
-- The payloads that the control plane compiles for the data plane
-- (internal/lib/k8s/compiled/compiled.go). A Go map with string keys is an association list.
use krouter.Prelude.{ℕ, ℤ, Bool, Option, List, Str}

pub record HeaderMatch : Type 0 where
  pub name : Str
  pub value : Str

pub record QueryParamMatch : Type 0 where
  pub name : Str
  pub value : Str

pub record Match : Type 0 where
  pub path_type : Str
  pub path_value : Str
  pub method : Str
  pub headers : List HeaderMatch
  pub query_params : List QueryParamMatch

pub record Cors : Type 0 where
  pub allow_origins : List Str
  pub allow_methods : List Str
  pub allow_headers : List Str
  pub expose_headers : List Str
  pub allow_credentials : Bool
  pub max_age_seconds : ℤ

pub record RateLimit : Type 0 where
  pub requests : ℤ
  pub window_millis : ℤ
  pub burst : ℤ
  pub key : Str
  pub status : ℤ

pub record SubjectAltName : Type 0 where
  pub kind : Str
  pub value : Str

pub record BackendTls : Type 0 where
  pub hostname : Str
  pub ca_pem : Str
  pub system_cas : Bool
  pub invalid : Bool
  pub subject_alt_names : List SubjectAltName

-- The fields of a filter that hold no backend: header edits, redirects, rewrites.
pub record FilterDetails : Type 0 where
  pub set_headers : List (Str × Str)
  pub add_headers : List (Str × Str)
  pub remove_headers : List Str
  pub scheme : Str
  pub hostname : Str
  pub port : ℤ
  pub status_code : ℤ
  pub path_rewrite_type : Str
  pub path_rewrite_value : Str
  pub path_prefix : Str

-- The fields of a backend reference that hold no filter.
pub record BackendRef : Type 0 where
  pub namespace : Str
  pub name : Str
  pub port : ℤ
  pub weight : ℤ
  pub is_valid : Bool
  pub invalid_reason : Str
  pub app_protocol : Str
  pub tls : Option BackendTls

-- A mirror percentage, as a fraction of two integers.
pub record Percent : Type 0 where
  pub numerator : ℕ
  pub denominator : ℕ

-- A filter may hold a backend (its mirror), and a backend holds filters.
mutual
  pub data Filter : Type 0 where
    filter_of : (kind : Str) → FilterDetails → Option Cors → Mirror → Option Percent → Filter

  pub data Mirror : Type 0 where
    no_mirror : Mirror
    mirror_to : Backend → Mirror

  pub data Backend : Type 0 where
    backend_of : BackendRef → Filters → Backend

  pub data Filters : Type 0 where
    no_filters : Filters
    more_filters : Filter → Filters → Filters

pub record Rule : Type 0 where
  pub matches : List Match
  pub filters : Filters
  pub backends : List Backend
  pub request_timeout_millis : ℤ
  pub backend_timeout_millis : ℤ
  pub rate_limit : Option RateLimit
  pub waf : Str
  pub extensions_invalid : Bool
  pub auth : Str

pub record RouteConfig : Type 0 where
  pub uid : Str
  pub namespace : Str
  pub name : Str
  pub listeners : List Str
  pub hostnames : List Str
  pub created : ℤ
  pub grpc : Bool
  pub rules : List Rule

pub record Listener : Type 0 where
  pub name : Str
  pub port : ℤ
  pub internal_port : ℤ
  pub protocol : Str
  pub hostname : Str
  pub has_tls : Bool
  pub client_ca_mode : Str
  pub proxy_protocol : Bool

pub record GatewayConfig : Type 0 where
  pub uid : Str
  pub namespace : Str
  pub name : Str
  pub listeners : List Listener
  pub backend_client_cert : Bool
  pub trusted_proxies : List Str

pub record ObjectRef : Type 0 where
  pub kind : Str
  pub name : Str
  pub checksum : Str

pub record Manifest : Type 0 where
  pub gateway_uid : Str
  pub generation : Str
  pub previous : Str
  pub objects : List ObjectRef

-- Claim requirements, the cookie sessions, and the LDAP provider. Of a provider the model keeps its
-- document, and of LDAP the realm besides.
pub record AuthRequire : Type 0 where
  pub claim : Str
  pub values : List Str

pub record AuthSession : Type 0 where
  pub secret : Str
  pub lifetime_millis : ℤ

pub record AuthLdap : Type 0 where
  pub document : Str
  pub realm : Str

pub record Auth : Type 0 where
  pub identity : Str
  pub path_prefix : Str
  pub session : Option AuthSession
  pub oidc : Option Str
  pub saml : Option Str
  pub ldap : Option AuthLdap
  pub jwt : Option Str
  pub authorization : List AuthRequire
