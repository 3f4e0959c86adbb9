-- ===== src/Routing/Types.antt =====
-- The routing tables (internal/lib/transports/http/routing/types.go).
-- A pointer to a struct that holds state is a number, its address: `counter` is the address of an
-- atomic counter, and `address` identifies a listener. Parsed certificates and pools are kept as the
-- text that they were parsed from.
use krouter.Prelude.{
  ℕ, ℤ, pos, ltb_ℤ, eq_ℤ, Bool, ◌||◌, Option, none, some, List, [], ◌∷◌, ◌++◌, Str, if◌then◌else◌,
}
use krouter.Netip.{Prefix}
use krouter.Compiled.{Match, Cors, RateLimit, Filters, Percent, Auth, SubjectAltName}

pub record Certificate : Type 0 where
  pub cert_pem : Str
  pub key_pem : Str

-- The transport of a backend that is reached over TLS: its address, and the client configuration
-- that it dials with. No pool of roots means those of the system.
pub record Transport : Type 0 where
  pub address : ℕ
  pub server_name : Str
  pub client_cert : Option Certificate
  pub root_cas : Option Str
  pub sans : List SubjectAltName

pub data ClientAuthType : Type 0 where
  no_client_cert request_client_cert require_and_verify_client_cert : ClientAuthType

pub record BackendTable : Type 0 where
  pub namespace : Str
  pub name : Str
  pub port : ℤ
  pub weight : ℤ
  pub is_valid : Bool
  pub h2c : Bool
  pub filters : Filters
  pub tls_key : Str
  pub tls_transport : Option Transport
  pub tls_invalid : Bool
  pub counter : ℕ

pub record MirrorTable : Type 0 where
  pub backend : BackendTable
  pub percent : Percent

pub record RuleTable : Type 0 where
  pub matches : List Match
  pub filters : Filters
  pub backends : List BackendTable
  pub mirrors : List MirrorTable
  pub cors : Option Cors
  pub grpc : Bool
  pub request_timeout : ℤ
  pub backend_timeout : ℤ
  pub total : ℤ
  pub counter : ℕ
  pub limiter : Option RateLimit
  pub waf_engine : Option Str
  pub auth_enforcer : Option Auth
  pub extensions_invalid : Bool

pub record RouteTable : Type 0 where
  pub namespace : Str
  pub name : Str
  pub hostnames : List Str
  pub created : ℤ
  pub rules : List RuleTable

pub record ListenerTable : Type 0 where
  pub address : ℕ
  pub name : Str
  pub hostname : Str
  pub cert : Option Certificate
  pub terminate : Bool
  pub client_cas : Option Str
  pub client_auth : ClientAuthType
  pub routes : List RouteTable

-- `trust` holds the trusted networks; the nil trust trusts no peer.
pub record PortTable : Type 0 where
  pub gateway_uid : Str
  pub gateway_name : Str
  pub tls : Bool
  pub tcp : Bool
  pub udp : Bool
  pub tls_passthrough : Bool
  pub proxy_protocol : Bool
  pub listeners : List ListenerTable
  pub trust : Option (List Prefix)

-- A map by internal port, as an association list, and a set of namespaces.
pub record Tables : Type 0 where
  pub by_port : List (ℤ × PortTable)
  pub backends : List Str

pub record GatewayTable : Type 0 where
  pub generation : Str
  pub by_port : List (ℤ × PortTable)
  pub namespaces : List Str

unfoldable pub lookup_port : ℤ → List (ℤ × PortTable) → Option PortTable
lookup_port k [] = none
lookup_port k ((j, t) ∷ m) = if eq_ℤ j k then some t else lookup_port k m

unfoldable pub port_of : Tables → ℤ → Option PortTable
unfolding lookup_port
port_of t port = lookup_port port t.by_port

-- `EmptyTables`
unfoldable pub empty_tables : Tables
empty_tables = record { by_port = []; backends = [] }

-- `RouteTable.Key`
unfoldable pub route_key : RouteTable → Str
route_key r = r.namespace ++ (b'/' ∷ r.name)

-- `RuleTable.Timeout`
unfoldable pub timeout : RuleTable → ℤ
timeout r =
    if eq_ℤ r.request_timeout (pos 0)
    then r.backend_timeout
    else if eq_ℤ r.backend_timeout (pos 0) || ltb_ℤ r.request_timeout r.backend_timeout
    then r.request_timeout
    else r.backend_timeout

-- `ListenerTable.ClientValidation`
unfoldable pub client_validation : Option ListenerTable → Option Str × ClientAuthType
client_validation none = (none, no_client_cert)
client_validation (some l) = (l.client_cas, l.client_auth)

pub record PortSpec : Type 0 where
  pub tls : Bool
  pub tcp : Bool
  pub udp : Bool
  pub tls_passthrough : Bool
  pub proxy_protocol : Bool

abbrev port_spec : PortTable → PortSpec
port_spec t = record {
  tls = t.tls;
  tcp = t.tcp;
  udp = t.udp;
  tls_passthrough = t.tls_passthrough;
  proxy_protocol = t.proxy_protocol;
}

-- `Tables.Ports`
unfoldable pub ports : List (ℤ × PortTable) → List (ℤ × PortSpec)
ports [] = []
ports ((port, t) ∷ m) = (port, port_spec t) ∷ ports m
