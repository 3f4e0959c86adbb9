-- ===== src/Examples/Data.antt =====
-- The tables, payloads and readers of the examples.
use krouter.Prelude.{
  ℕ, ◌+◌, ℤ, pos, true, false, Option, none, some, [], ◌∷◌, Str, codes, is_empty, str_eq, not,
  if◌then◌else◌,
}
use krouter.Compiled.{
  Match, BackendTls, no_filters, Backend, backend_of, Rule, RouteConfig, GatewayConfig, Auth,
}
use krouter.Http.{Request}
use krouter.Kube.{Object}
use krouter.Netip.{Addr, v4, Prefix, Notation}
use krouter.Routing.Types.{
  Certificate, no_client_cert, BackendTable, RuleTable, RouteTable, ListenerTable, PortTable,
  Tables,
}
use krouter.Routing.Endpoints.{EndpointsIndex}
use krouter.Routing.Backends.{Toolkit}

abbrev pub backend_with : Str → ℤ → BackendTable
backend_with name weight = record {
  namespace = codes "ns";
  name = name;
  port = pos 80;
  weight = weight;
  is_valid = true;
  h2c = false;
  filters = no_filters;
  tls_key = [];
  tls_transport = none;
  tls_invalid = false;
  counter = 7;
}

abbrev pub prefix_match : Str → Match
prefix_match prefix = record {
  path_type = codes "PathPrefix";
  path_value = prefix;
  method = [];
  headers = [];
  query_params = [];
}

abbrev pub sample_auth : Auth
sample_auth = record {
  identity = codes "sso";
  path_prefix = codes "/auth";
  session = none;
  oidc = some (codes "issuer");
  saml = none;
  ldap = none;
  jwt = none;
  authorization = [];
}

-- Two backends, weighted 1 and 2, below "/api".
abbrev pub sample_rule : RuleTable
sample_rule = record {
  matches = prefix_match (codes "/api") ∷ [];
  filters = no_filters;
  backends = backend_with (codes "a") (pos 1) ∷ backend_with (codes "b") (pos 2) ∷ [];
  mirrors = [];
  cors = none;
  grpc = false;
  request_timeout = pos 0;
  backend_timeout = pos 0;
  total = pos 3;
  counter = 9;
  limiter = none;
  waf_engine = none;
  auth_enforcer = some sample_auth;
  extensions_invalid = false;
}

abbrev pub sample_route : RouteTable
sample_route = record {
  namespace = codes "ns";
  name = codes "route";
  hostnames = [];
  created = pos 5;
  rules = sample_rule ∷ [];
}

abbrev pub sample_cert : Certificate
sample_cert = record { cert_pem = codes "cert"; key_pem = codes "key" }

abbrev pub listener_at : ℕ → Str → ListenerTable
listener_at address hostname = record {
  address = address;
  name = codes "lst";
  hostname = hostname;
  cert = some sample_cert;
  terminate = false;
  client_cas = none;
  client_auth = no_client_cert;
  routes = sample_route ∷ [];
}

abbrev pub wide_listener : ListenerTable
wide_listener = listener_at 1 (codes "*.b.c")

abbrev pub narrow_listener : ListenerTable
narrow_listener = listener_at 2 (codes "a.b.c")

-- Two listeners that both match a.b.c, the less specific first.
abbrev pub sample_port : PortTable
sample_port = record {
  gateway_uid = codes "uid";
  gateway_name = codes "ns/gw";
  tls = true;
  tcp = false;
  udp = false;
  tls_passthrough = false;
  proxy_protocol = false;
  listeners = wide_listener ∷ narrow_listener ∷ [];
  trust = none;
}

abbrev pub sample_tables : Tables
sample_tables = record { by_port = (pos 8080, sample_port) ∷ []; backends = [] }

abbrev pub sample_request : Request
sample_request = record {
  method = codes "GET";
  url_path = codes "/api/users";
  query = [];
  header = [];
  remote_addr = codes "10.0.0.1:1000";
}

-- The service "ns/a" with two ready endpoints.
abbrev pub sample_index : EndpointsIndex
sample_index = record {
  services = (codes "ns/a", record { name = codes "http"; port = pos 80 } ∷ []) ∷ [];
  slices =
      (
        codes "ns/a",
        record {
          address_type = codes "IPv4";
          ports = record { name = some (codes "http"); port = some (pos 8000) } ∷ [];
          endpoints =
              record { addresses = codes "10.1.0.2" ∷ []; ready = none; terminating = none }
              ∷ record { addresses = codes "10.1.0.1" ∷ []; ready = some true; terminating = none }
              ∷ [];
        }
            ∷ [],
      )
      ∷ [];
}

-- Addresses 10.0.0.n are written "n" here, and prefixes are "10.0.0.0/24" or malformed.
abbrev pub host_address : ℕ → Addr
host_address n = v4 (0x0A000000 + n)

abbrev read_addr : Str → Option Addr
read_addr (c ∷ []) = some (host_address c)
read_addr (c ∷ d ∷ []) = some (v4 c)
read_addr _ = none

abbrev read_prefix : Str → Option Prefix
read_prefix s =
    if str_eq s (codes "10.0.0.0/24")
    then some (record { addr = host_address 0; bits = 24 })
    else none

abbrev pub sample_notation : Notation
sample_notation = record {
  parse_addr = read_addr;
  parse_prefix = read_prefix;
  addr_string = λ a. codes "addr";
  split_host_port = λ s. some (s, []);
}

-- Checksums are the text itself, and "bad" is what no parser takes.
abbrev pub sample_toolkit : Toolkit
sample_toolkit = record {
  checksum_bytes = λ s. s;
  is_key_pair = λ c k. not (str_eq c (codes "bad"));
  has_certificates = λ s. not (is_empty s);
  is_waf_program = λ s. not (str_eq s (codes "bad"));
  decode_auth = λ s. if is_empty s then none else some sample_auth;
  is_auth_usable = λ a. true;
}

abbrev pub sample_tls : BackendTls
sample_tls = record {
  hostname = codes "backend";
  ca_pem = codes "pem";
  system_cas = false;
  invalid = false;
  subject_alt_names = [];
}

abbrev pub compiled_backend : Str → ℤ → Backend
compiled_backend name weight =
    backend_of
      (record {
        namespace = codes "ns";
        name = name;
        port = pos 80;
        weight = weight;
        is_valid = true;
        invalid_reason = [];
        app_protocol = [];
        tls = some sample_tls;
      })
      no_filters

abbrev pub compiled_rule : Rule
compiled_rule = record {
  matches = prefix_match (codes "/api") ∷ [];
  filters = no_filters;
  backends = compiled_backend (codes "a") (pos 1) ∷ compiled_backend (codes "b") (pos 2) ∷ [];
  request_timeout_millis = pos 0;
  backend_timeout_millis = pos 0;
  rate_limit = none;
  waf = codes "waf";
  extensions_invalid = false;
  auth = codes "sso";
}

abbrev pub compiled_route : RouteConfig
compiled_route = record {
  uid = codes "r";
  namespace = codes "ns";
  name = codes "route";
  listeners = codes "lst" ∷ [];
  hostnames = [];
  created = pos 5;
  grpc = false;
  rules = compiled_rule ∷ [];
}

abbrev pub compiled_gateway : GatewayConfig
compiled_gateway = record {
  uid = codes "uid";
  namespace = codes "ns";
  name = codes "gw";
  listeners =
      record {
        name = codes "lst";
        port = pos 80;
        internal_port = pos 8080;
        protocol = codes "HTTP";
        hostname = [];
        has_tls = false;
        client_ca_mode = [];
        proxy_protocol = false;
      }
      ∷ [];
  backend_client_cert = false;
  trusted_proxies = codes "10.0.0.0/24" ∷ [];
}

abbrev pub sample_secret : Object
sample_secret = record { labels = []; data_of = (codes "auth-sso.json", codes "doc") ∷ [] }
