-- ===== src/Routing/Backends/Dialing.antt =====
-- How a built backend is dialed (build.go: buildBackendTable).
use krouter.Prelude.{
  ℕ, ◌≡◌, refl, sym, ap, ◌∙◌, subst, inl, inr, ◌⊎◌, not, ◌&&◌, true, false, Option, none, some,
  List, [], ◌∷◌, ◌++◌, arith, if◌then◌else◌, All, Bool-cases, Str, str_eq, str_eq_iff,
}
use krouter.Compiled.{BackendTls, Backend, backend_of}
use krouter.Http.{lookup_str}
use krouter.Routing.Types.{Certificate, Transport, BackendTable}
use krouter.Routing.Backends.{
  Toolkit, Store, fingerprint, new_transport, dial_with, secure, build_backend,
}
use krouter.Routing.Rules.{ref_of}

-- The checksum that goes with a client certificate.
abbrev pub sum_of : Toolkit → Option Certificate → Str
sum_of tk none = []
sum_of tk (some cert) = tk.checksum_bytes (cert.cert_pem ++ cert.key_pem)

-- The configuration that a transport dials with, as a policy.
abbrev pub policy_of : Transport → BackendTls
policy_of t = elim t.root_cas [
  | none ↦ record {
    hostname = t.server_name;
    system_cas = true;
    ca_pem = [];
    subject_alt_names = t.sans;
    invalid = false;
  }
  | some pem ↦ record {
    hostname = t.server_name;
    system_cas = false;
    ca_pem = pem;
    subject_alt_names = t.sans;
    invalid = false;
  }
]

-- The fingerprint of the configuration that a transport has.
abbrev pub key_of : Toolkit → Transport → Str
key_of tk t = fingerprint tk (policy_of t) (sum_of tk t.client_cert)

abbrev pub IsKeyed : Toolkit → List (Str × Transport) → Type 0
IsKeyed tk m = All (λ p. p.0 ≡ key_of tk p.1) m

-- The transport of a backend has the configuration that the backend's key is the fingerprint of.
abbrev pub HasOwnKey : Toolkit → BackendTable → Type 0
HasOwnKey tk b = (t : Transport) → b.tls_transport ≡ some t → b.tls_key ≡ key_of tk t

lookup-IsKeyed :
    (tk : Toolkit) (m : List (Str × Transport)) (key : Str) (t : Transport)
    → IsKeyed tk m
    → lookup_str key m ≡ some t
    → key ≡ key_of tk t
unfolding lookup_str
lookup-IsKeyed tk [] key t h e = cc
lookup-IsKeyed tk ((k, u) ∷ m) key t h e = elim (Bool-cases (str_eq k key)) [
  | inl here ↦
      let same : u ≡ t = ground (arith, e, here) in
      sym ((str_eq_iff k key).0 here) ∙ h.0 ∙ ap (key_of tk) same
  | inr there ↦ lookup-IsKeyed tk m key t h.1 (ground (arith, e, there))
]

module _ (tk : Toolkit) (cert : Option Certificate) where
  new_transport-key :
      (tls : BackendTls) (sum : Str) (a : ℕ)
      → sum ≡ sum_of tk cert
      → fingerprint tk tls sum ≡ key_of tk (new_transport tk cert sum tls a)
  unfolding fingerprint
  new_transport-key tls sum a same = elim (Bool-cases tls.system_cas) [
    | inl system ↦ rw (same, system) refl
    | inr own ↦ rw (same, own) refl
  ]

  -- Without a policy a backend is reached in the clear. With one it is either refused, or dialed with
  -- a transport whose own configuration has the fingerprint of the policy.
  abbrev pub IsDialed : Str → Option BackendTls → BackendTable → Type 0
  IsDialed sum none b = (b.tls_transport ≡ none) × (b.tls_invalid ≡ false)
  IsDialed sum (some tls) b =
      ((b.tls_transport ≡ none) × (b.tls_invalid ≡ true))
      ⊎ ((t : Transport) × (b.tls_transport ≡ some t)
          × (b.tls_invalid ≡ false)
          × (tls.invalid ≡ false)
          × (key_of tk t ≡ fingerprint tk tls sum)
          × (b.tls_key ≡ key_of tk t))

  HasOwnKey-of_IsDialed :
      (sum : Str) (o : Option BackendTls) (b : BackendTable) → IsDialed sum o b → HasOwnKey tk b
  HasOwnKey-of_IsDialed sum none b h t e = cc
  HasOwnKey-of_IsDialed sum (some tls) b (inl h) t e = cc
  HasOwnKey-of_IsDialed sum (some tls) b (inr (u, has, _, _, _, own)) t e =
      let same : u ≡ t = ground (arith, e, has) in own ∙ ap (key_of tk) same

  dial_with-IsDialed :
      (tls : BackendTls) (sum : Str) (found : Option Transport) (entry : BackendTable) (st : Store)
      → sum ≡ sum_of tk cert
      → tls.invalid ≡ false
      → IsKeyed tk st.transports
      → ((t : Transport) → found ≡ some t → fingerprint tk tls sum ≡ key_of tk t)
      → entry.tls_transport ≡ none
      → entry.tls_invalid ≡ false
      → let out = dial_with tk cert sum tls (fingerprint tk tls sum) found entry st in
        IsDialed sum (some tls) out.0 × IsKeyed tk out.1.transports
  unfolding dial_with
  dial_with-IsDialed tls sum (some t) entry st same valid h own bare clear =
      (inr (t, refl, clear, valid, sym (own t refl), own t refl), h)
  dial_with-IsDialed tls sum none entry st same valid h own bare clear =
      let key = new_transport-key tls sum st.next same in
      elim (Bool-cases (not tls.system_cas && not (tk.has_certificates tls.ca_pem))) [
        | inl bad ↦ rw bad (inl (bare, refl), h)
        | inr good ↦ rw good (
          inr (new_transport tk cert sum tls st.next, refl, clear, valid, sym key, key),
          (key, h),
        )
      ]

  secure-IsDialed :
      (o : Option BackendTls) (sum : Str) (entry : BackendTable) (st : Store)
      → sum ≡ sum_of tk cert
      → IsKeyed tk st.transports
      → entry.tls_transport ≡ none
      → entry.tls_invalid ≡ false
      → let out = secure tk cert sum o entry st in
        IsDialed sum o out.0 × IsKeyed tk out.1.transports
  unfolding secure
  secure-IsDialed none sum entry st same h bare clear = ((bare, clear), h)
  secure-IsDialed (some tls) sum entry st same h bare clear = elim (Bool-cases tls.invalid) [
    | inl bad ↦ rw bad (inl (bare, refl), h)
    | inr valid ↦
        let key = fingerprint tk tls sum in
        let dialed = dial_with tk cert sum tls key (lookup_str key st.transports) entry st in
        let same_out : secure tk cert sum (some tls) entry st ≡ dialed =
          ap (λ bad. if bad then (record entry { tls_invalid = true }, st) else dialed) valid in
        subst (λ out. IsDialed sum (some tls) out.0 × IsKeyed tk out.1.transports) (sym same_out)
          (dial_with-IsDialed tls sum (lookup_str key st.transports) entry st same valid h
            (λ t e. lookup-IsKeyed tk st.transports key t h e) bare clear)
  ]

  -- If every transport at hand stands under the fingerprint of its own configuration, then building
  -- a backend keeps that so; a backend without a policy is reached in the clear; and one with a
  -- policy is refused, or dialed with a transport whose own configuration has the policy's
  -- fingerprint, which never happens for a rejected policy.
  pub build_backend-IsDialed :
      (b : Backend) (sum : Str) (st : Store)
      → sum ≡ sum_of tk cert
      → IsKeyed tk st.transports
      → let out = build_backend tk cert sum b st in
        IsDialed sum (ref_of b).tls out.0 × IsKeyed tk out.1.transports
  unfolding build_backend
  build_backend-IsDialed (backend_of ref _) sum st same h =
      secure-IsDialed ref.tls sum _ _ same h refl refl

  pub build_backend-HasOwnKey :
      (b : Backend) (sum : Str) (st : Store)
      → sum ≡ sum_of tk cert
      → IsKeyed tk st.transports
      → let out = build_backend tk cert sum b st in HasOwnKey tk out.0 × IsKeyed tk out.1.transports
  build_backend-HasOwnKey b sum st same h =
      let (dialed, keyed) = build_backend-IsDialed b sum st same h in
      (HasOwnKey-of_IsDialed sum (ref_of b).tls _ dialed, keyed)
