-- ===== src/Routing/Listeners.antt =====
-- The listeners of a gateway as tables (build.go: the loop over the listeners of BuildGatewayTable,
-- and the client certificate of its backends). A pointer is an address.
use krouter.Prelude.{
  ℕ, suc, ℤ, eq_ℤ, false, not, ◌&&◌, ◌||◌, Option, none, some, List, [], ◌∷◌, ◌++◌, if◌then◌else◌,
  is_empty, Str, codes, str_eq, Result, ok, err, ◌>>=◌,
}
use krouter.Compiled.{Listener, GatewayConfig}
use krouter.Kube.{Object, text_at}
use krouter.ClientIp.{Trust}
use krouter.Routing.Types.{
  Certificate, ClientAuthType, no_client_cert, request_client_cert, require_and_verify_client_cert,
  ListenerTable, PortTable,
}
use krouter.Routing.Backends.{Toolkit, Store}

-- The errors of `BuildGatewayTable`, by what they name.
pub data BuildError : Type 0 where
  invalid_trusted_proxies : Str → BuildError
  missing_tls_secret : Str → BuildError
  invalid_certificate : Str → BuildError
  invalid_client_ca : Str → BuildError
  invalid_backend_client_cert : BuildError

-- The variables of `BuildGatewayTable`: the ports in the order in which they were added, the map
-- `listeners` from names to addresses, the namespaces (a set, as a list), and the store.
pub record Builder : Type 0 where
  pub by_port : List (ℤ × PortTable)
  pub names : List (Str × ℕ)
  pub namespaces : List Str
  pub store : Store

abbrev pub suffixed : Str → Str → Str
suffixed name suffix = name ++ suffix

module _ (tk : Toolkit) where
  open tk use {
    checksum_bytes, is_key_pair, has_certificates, is_waf_program, decode_auth, is_auth_usable,
  }

  -- tls.X509KeyPair
  abbrev pub key_pair : BuildError → Str → Str → Result BuildError Certificate
  key_pair e cert_pem key_pem =
      if is_key_pair cert_pem key_pem
      then ok (record { cert_pem = cert_pem; key_pem = key_pem })
      else err e

  module _ (secret : Option Object) where
    unfoldable pub certificate_of : Listener → Result BuildError (Option Certificate)
    certificate_of lst = if not lst.has_tls then ok none else elim secret [
      | none ↦ err (missing_tls_secret lst.name)
      | some obj ↦
          key_pair (invalid_certificate lst.name)
            (text_at (suffixed lst.name (codes ".tls.crt")) obj.data_of)
            (text_at (suffixed lst.name (codes ".tls.key")) obj.data_of)
          >>= λ cert. ok (some cert)
    ]

    unfoldable pub client_cas_of : Listener → Result BuildError (Option Str × ClientAuthType)
    client_cas_of lst =
        if is_empty lst.client_ca_mode then ok (none, no_client_cert) else elim secret [
          | none ↦ err (missing_tls_secret lst.name)
          | some obj ↦
              let pem = text_at (suffixed lst.name (codes ".client-ca.crt")) obj.data_of in
              if not (has_certificates pem)
              then err (invalid_client_ca lst.name)
              else ok (
                some pem,
                if str_eq lst.client_ca_mode (codes "AllowInsecureFallback")
                    then request_client_cert
                    else require_and_verify_client_cert,
              )
        ]

    -- The `ListenerTable` of a listener, at an address.
    unfoldable pub build_entry : Listener → ℕ → Result BuildError ListenerTable
    unfolding certificate_of client_cas_of
    build_entry lst address = do
      cert ← certificate_of lst
      cas ← client_cas_of lst
      ok (record {
        address = address;
        name = lst.name;
        hostname = lst.hostname;
        cert = cert;
        terminate = str_eq lst.protocol (codes "TLS") && lst.has_tls;
        client_cas = cas.0;
        client_auth = cas.1;
        routes = [];
      })

  -- The certificate that the gateway presents to backends, and its checksum.
  unfoldable pub client_certificate :
      GatewayConfig → Option Object → Result BuildError (Option Certificate × Str)
  client_certificate g none = ok (none, [])
  client_certificate g (some obj) = if not g.backend_client_cert then ok (none, []) else do
    cert ←
        key_pair invalid_backend_client_cert (text_at (codes "_backend-client.tls.crt") obj.data_of)
          (text_at (codes "_backend-client.tls.key") obj.data_of)
    ok (some cert, checksum_bytes (cert.cert_pem ++ cert.key_pem))

-- A new `PortTable`, for the first listener of an internal port.
abbrev pub new_port : GatewayConfig → Trust → Listener → PortTable
new_port g trust lst = record {
  gateway_uid = g.uid;
  gateway_name = g.namespace ++ (b'/' ∷ g.name);
  tls = lst.has_tls && not (str_eq lst.protocol (codes "TLS"));
  tcp = str_eq lst.protocol (codes "TCP");
  udp = str_eq lst.protocol (codes "UDP");
  tls_passthrough = str_eq lst.protocol (codes "TLS");
  proxy_protocol = false;
  listeners = [];
  trust = trust;
}

abbrev pub add_entry : Listener → ListenerTable → PortTable → PortTable
add_entry lst entry t = record t {
  proxy_protocol = t.proxy_protocol || lst.proxy_protocol;
  listeners = t.listeners ++ entry ∷ [];
}

unfoldable pub put_listener :
    GatewayConfig → Trust → Listener → ListenerTable → List (ℤ × PortTable) → List (ℤ × PortTable)
put_listener g trust lst entry [] =
    (lst.internal_port, add_entry lst entry (new_port g trust lst)) ∷ []
put_listener g trust lst entry ((k, t) ∷ m) =
    let rest = put_listener g trust lst entry m in
    if eq_ℤ k lst.internal_port then (k, add_entry lst entry t) ∷ m else (k, t) ∷ rest

-- The listener's entry in `byPort` and in `listeners`.
abbrev pub with_listener : GatewayConfig → Trust → Listener → ListenerTable → Builder → Builder
with_listener g trust lst entry b = record b {
  by_port = put_listener g trust lst entry b.by_port;
  names = (lst.name, entry.address) ∷ b.names;
  store = record b.store { next = suc b.store.next };
}

unfoldable pub add_listeners :
    Toolkit
    → Option Object
    → GatewayConfig
    → Trust
    → List Listener
    → Builder
    → Result BuildError Builder
unfolding build_entry put_listener
add_listeners tk secret g trust [] b = ok b
add_listeners tk secret g trust (lst ∷ lsts) b = build_entry tk secret lst b.store.next >>= λ entry.
    add_listeners tk secret g trust lsts (with_listener g trust lst entry b)
