-- ===== src/Routing/Backends.antt =====
-- How a compiled backend becomes a runtime backend (build.go: buildBackendTable,
-- backendTLSFingerprint, previousTransports). New objects get the next free address of a store.
pub mod Dialing
pub mod Adoption
use krouter.Prelude.{
  ℕ, suc, ℤ, Bool, true, false, not, ◌&&◌, ◌||◌, Option, none, some, List, [], ◌∷◌, ◌++◌,
  if◌then◌else◌, is_empty, Str, codes, str_eq,
}
use krouter.Compiled.{Auth, SubjectAltName, BackendTls, BackendRef, Filters, Backend, backend_of}
use krouter.Http.{lookup_str}
use krouter.Routing.Types.{
  Certificate, Transport, BackendTable, MirrorTable, RuleTable, RouteTable, ListenerTable,
  PortTable, GatewayTable,
}

-- The functions outside the program that a build calls: the checksum (SHA-256), the parsers of
-- crypto/tls, crypto/x509, the WAF compiler, the JSON decoder, and whether the providers of an
-- authentication document can be set up.
pub record Toolkit : Type 0 where
  pub checksum_bytes : Str → Str
  -- tls.X509KeyPair returns no error.
  pub is_key_pair : Str → Str → Bool
  -- AppendCertsFromPEM adds a certificate.
  pub has_certificates : Str → Bool
  -- waf.NewEngine returns no error.
  pub is_waf_program : Str → Bool
  pub decode_auth : Str → Option Auth
  -- auth.NewEnforcer returns no error.
  pub is_auth_usable : Auth → Bool

-- The addresses in use are below `next`; `transports` is the map that `buildBackendTable` shares.
pub record Store : Type 0 where
  pub next : ℕ
  pub transports : List (Str × Transport)

abbrev bar : Str
bar = codes "|"

sans_text : List SubjectAltName → Str
sans_text [] = []
sans_text (san ∷ sans) = bar ++ (san.kind ++ (codes ":" ++ (san.value ++ sans_text sans)))

module _ (tk : Toolkit) where
  open tk use {checksum_bytes, has_certificates}

  -- `backendTLSFingerprint`
  unfoldable pub fingerprint : BackendTls → Str → Str
  unfolding sans_text
  fingerprint tls client_cert_sum =
      tls.hostname
      ++ (bar
          ++ (client_cert_sum
              ++ (bar
                  ++ ((if tls.system_cas then codes "system" else checksum_bytes tls.ca_pem)
                      ++ sans_text tls.subject_alt_names))))

  module _ (client_cert : Option Certificate) (client_cert_sum : Str) where
    abbrev pub new_transport : BackendTls → ℕ → Transport
    new_transport tls address = record {
      address = address;
      server_name = tls.hostname;
      client_cert = client_cert;
      root_cas = if tls.system_cas then none else some tls.ca_pem;
      sans = tls.subject_alt_names;
    }

    -- `buildBackendTable` from the lookup of the transport on.
    unfoldable pub dial_with :
        BackendTls → Str → Option Transport → BackendTable → Store → BackendTable × Store
    dial_with tls key (some t) entry st =
        (record entry { tls_key = key; tls_transport = some t }, st)
    dial_with tls key none entry st =
        if not tls.system_cas && not (has_certificates tls.ca_pem)
        then (record entry { tls_key = key; tls_invalid = true }, st)
        else (
          record entry { tls_key = key; tls_transport = some (new_transport tls st.next) },
          record {
            next = suc st.next;
            transports = (key, new_transport tls st.next) ∷ st.transports;
          },
        )

    unfoldable pub secure : Option BackendTls → BackendTable → Store → BackendTable × Store
    unfolding dial_with
    secure none entry st = (entry, st)
    secure (some tls) entry st =
        if tls.invalid
        then (record entry { tls_invalid = true }, st)
        else dial_with tls (fingerprint tls client_cert_sum)
            (lookup_str (fingerprint tls client_cert_sum) st.transports) entry st

    -- `buildBackendTable`
    unfoldable pub build_backend : Backend → Store → BackendTable × Store
    unfolding secure
    build_backend (backend_of ref filters) st =
        secure ref.tls
          (record {
            namespace = ref.namespace;
            name = ref.name;
            port = ref.port;
            weight = ref.weight;
            is_valid = ref.is_valid;
            h2c = str_eq ref.app_protocol (codes "kubernetes.io/h2c");
            filters = filters;
            tls_key = [];
            tls_transport = none;
            tls_invalid = false;
            counter = st.next;
          })
          (record st { next = suc st.next })

-- `adopt`: what is adopted later stands in front, so that a lookup finds it first.
abbrev pub adopt : BackendTable → List (Str × Transport) → List (Str × Transport)
adopt b cache = elim b.tls_transport [
  | none ↦ cache
  | some t ↦ if is_empty b.tls_key then cache else (b.tls_key, t) ∷ cache
]

unfoldable pub adopt_backends : List BackendTable → List (Str × Transport) → List (Str × Transport)
adopt_backends [] cache = cache
adopt_backends (b ∷ bs) cache = adopt_backends bs (adopt b cache)

unfoldable pub adopt_mirrors : List MirrorTable → List (Str × Transport) → List (Str × Transport)
adopt_mirrors [] cache = cache
adopt_mirrors (m ∷ ms) cache = adopt_mirrors ms (adopt m.backend cache)

unfoldable pub adopt_rules : List RuleTable → List (Str × Transport) → List (Str × Transport)
unfolding adopt_backends adopt_mirrors
adopt_rules [] cache = cache
adopt_rules (rule ∷ rules) cache =
    adopt_rules rules (adopt_mirrors rule.mirrors (adopt_backends rule.backends cache))

unfoldable pub adopt_routes : List RouteTable → List (Str × Transport) → List (Str × Transport)
unfolding adopt_rules
adopt_routes [] cache = cache
adopt_routes (rt ∷ rts) cache = adopt_routes rts (adopt_rules rt.rules cache)

unfoldable pub adopt_listeners :
    List ListenerTable → List (Str × Transport) → List (Str × Transport)
unfolding adopt_routes
adopt_listeners [] cache = cache
adopt_listeners (l ∷ ls) cache = adopt_listeners ls (adopt_routes l.routes cache)

unfoldable pub adopt_ports : List (ℤ × PortTable) → List (Str × Transport) → List (Str × Transport)
unfolding adopt_listeners
adopt_ports [] cache = cache
adopt_ports ((_, t) ∷ ports) cache = adopt_ports ports (adopt_listeners t.listeners cache)

-- `previousTransports`
unfoldable pub previous_transports : Option GatewayTable → List (Str × Transport)
unfolding adopt_ports
previous_transports none = []
previous_transports (some g) = adopt_ports g.by_port []
