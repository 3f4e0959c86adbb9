-- ===== src/Routing/Build/Invariant.antt =====
-- Invariants of rules, from one built rule to all rules of the tables (build.go).
use krouter.Prelude.{
  ℕ, ◌≡◌, refl, sym, subst, inl, inr, Bool, Option, none, some, List, [], ◌∷◌, ◌++◌, arith, All,
  Bool-cases, Str, Result, ok, err, ◌>>=◌, >>=-eq-ok, ok-injective, codes,
}
use krouter.Compiled.{Rule, RouteConfig, Listener, GatewayConfig}
use krouter.Kube.{Object, text_at}
use krouter.Netip.{Notation}
use krouter.ClientIp.{Trust, new_trust}
use krouter.Routing.Types.{Certificate, RuleTable, ListenerTable, GatewayTable}
use krouter.Routing.Backends.{Toolkit, previous_transports}
use krouter.Routing.Rules.{Effects, build_rule}
use krouter.Routing.Listeners.{
  BuildError, Builder, key_pair, build_entry, certificate_of, client_cas_of, client_certificate,
  with_listener, add_listeners,
}
use krouter.Routing.Build.{
  build_rules, route_table, with_route, add_routes, trust_result, empty_builder,
  build_gateway_table, adopting, finish_table,
}
use krouter.Routing.Build.Steps.{
  IsSumOf, AllRules, attach_names-All, sort_ports-All, put_listener-All,
}

-- A new entry of a listener has no routes, and the name, the host name and the address given.
pub build_entry-fields :
    (tk : Toolkit) (secret : Option Object) (lst : Listener) (a : ℕ) (entry : ListenerTable)
    → build_entry tk secret lst a ≡ ok entry
    → (entry.routes ≡ []) × (entry.address ≡ a) × (entry.hostname ≡ lst.hostname)
unfolding build_entry
build_entry-fields tk secret lst a entry h =
    let (cert, _, rest) = >>=-eq-ok (certificate_of tk secret lst) _ h in
    let (cas, _, made) = >>=-eq-ok (client_cas_of tk secret lst) _ rest in
    (ground arith, ground arith, ground arith)

pub client_certificate-IsSumOf :
    (tk : Toolkit) (g : GatewayConfig) (o : Option Object) (out : Option Certificate × Str)
    → client_certificate tk g o ≡ ok out
    → IsSumOf tk out.0 out.1
unfolding client_certificate
client_certificate-IsSumOf tk g none out h = subst (λ p. IsSumOf tk p.0 p.1) (ok-injective h) refl
client_certificate-IsSumOf tk g (some obj) out h = elim (Bool-cases g.backend_client_cert) [
  | inr without ↦ subst (λ p. IsSumOf tk p.0 p.1) (ok-injective (rw without at h)) refl
  | inl wanted ↦
      let (cert, paired, made) =
        >>=-eq-ok
          (key_pair tk BuildError.invalid_backend_client_cert
            (text_at (codes "_backend-client.tls.crt") obj.data_of)
            (text_at (codes "_backend-client.tls.key") obj.data_of))
          (λ cert. ok (some cert, tk.checksum_bytes (cert.cert_pem ++ cert.key_pem)))
          (rw wanted at h) in
      subst (λ p. IsSumOf tk p.0 p.1) (ok-injective made) refl
]

-- The steps of a build that succeeds.
pub record IsBuilt (tk : Toolkit) (notation : Notation) (next : ℕ) (generation : Str)
    (g : GatewayConfig) (routes : List RouteConfig) (secret : Option Object)
    (previous : Option GatewayTable) (out : GatewayTable × ℕ) : Type 0 where
  pub trust : Trust
  pub trusted : trust_result (new_trust notation g.trusted_proxies) ≡ ok trust
  pub listed : Builder
  pub listens : add_listeners tk secret g trust g.listeners (empty_builder next) ≡ ok listed
  pub client : Option Certificate × Str
  pub certified : client_certificate tk g secret ≡ ok client
  pub result :
      finish_table generation
        (add_routes tk secret client.0 client.1 routes (adopting previous listed))
      ≡ out

pub build_gateway_table-IsBuilt :
    (tk : Toolkit) (notation : Notation) (next : ℕ) (generation : Str) (g : GatewayConfig)
    (routes : List RouteConfig) (secret : Option Object) (previous : Option GatewayTable)
    (out : GatewayTable × ℕ)
    → build_gateway_table tk notation next generation g routes secret previous ≡ ok out
    → IsBuilt tk notation next generation g routes secret previous out
unfolding build_gateway_table
build_gateway_table-IsBuilt tk notation next generation g routes secret previous out h =
    with_trust _ refl h
  where
    with_client :
        (trust : Trust) (b : Builder) (m : Result BuildError (Option Certificate × Str))
        → trust_result (new_trust notation g.trusted_proxies) ≡ ok trust
        → add_listeners tk secret g trust g.listeners (empty_builder next) ≡ ok b
        → client_certificate tk g secret ≡ m
        → (m >>= λ client. ok (
            finish_table generation
              (add_routes tk secret client.0 client.1 routes (adopting previous b))))
          ≡ ok out
        → IsBuilt tk notation next generation g routes secret previous out
    with_client trust b (err e) t l c made = cc
    with_client trust b (ok client) t l c made = record {
      trust = trust;
      trusted = t;
      listed = b;
      listens = l;
      client = client;
      certified = c;
      result = ok-injective made;
    }

    with_listed :
        (trust : Trust) (m : Result BuildError Builder)
        → trust_result (new_trust notation g.trusted_proxies) ≡ ok trust
        → add_listeners tk secret g trust g.listeners (empty_builder next) ≡ m
        → (m >>= λ b. client_certificate tk g secret >>= λ client. ok (
            finish_table generation
              (add_routes tk secret client.0 client.1 routes (adopting previous b))))
          ≡ ok out
        → IsBuilt tk notation next generation g routes secret previous out
    with_listed trust (err e) t l made = cc
    with_listed trust (ok b) t l made = with_client trust b _ t l refl made

    with_trust :
        (m : Result BuildError Trust)
        → trust_result (new_trust notation g.trusted_proxies) ≡ m
        → (m >>= λ trust. add_listeners tk secret g trust g.listeners (empty_builder next) >>= λ b.
            client_certificate tk g secret >>= λ client. ok (
              finish_table generation
                (add_routes tk secret client.0 client.1 routes (adopting previous b))))
          ≡ ok out
        → IsBuilt tk notation next generation g routes secret previous out
    with_trust (err e) t made = cc
    with_trust (ok trust) t made = with_listed trust _ t refl made

module _ (tk : Toolkit) (secret : Option Object) (P : RuleTable → Type 0) (R : Rule → Type 0)
    (Q : Effects → Type 0)
    (builds : (cert : Option Certificate) (sum : Str) (grpc : Bool) (rule : Rule) (e : Effects)
      → IsSumOf tk cert sum
      → R rule
      → Q e
      → let out = build_rule tk cert sum secret grpc rule e in P out.0 × Q out.1) where
  build_rules-All :
      (cert : Option Certificate) (sum : Str) (grpc : Bool) (rules : List Rule) (e : Effects)
      → IsSumOf tk cert sum
      → All R rules
      → Q e
      → let out = build_rules tk secret cert sum grpc rules e in All P out.0 × Q out.1
  unfolding build_rules
  build_rules-All cert sum grpc [] e same h q = (tt, q)
  build_rules-All cert sum grpc (rule ∷ rules) e same h q =
      let (here, q') = builds cert sum grpc rule e same h.0 q in
      let (later, q'') =
        build_rules-All cert sum grpc rules (build_rule tk cert sum secret grpc rule e).1 same h.1
          q' in
      ((here, later), q'')

  add_routes-All :
      (cert : Option Certificate) (sum : Str) (routes : List RouteConfig) (b : Builder)
      → IsSumOf tk cert sum
      → All (λ route. All R route.rules) routes
      → Q (record { namespaces = b.namespaces; store = b.store })
      → AllRules P b.by_port
      → AllRules P (add_routes tk secret cert sum routes b).by_port
  unfolding add_routes
  add_routes-All cert sum [] b same h q p = p
  add_routes-All cert sum (route ∷ routes) b same h q p =
      let out =
        build_rules tk secret cert sum route.grpc route.rules
          (record { namespaces = b.namespaces; store = b.store }) in
      let (rules, q') = build_rules-All cert sum route.grpc route.rules _ same h.0 q in
      add_routes-All cert sum routes (with_route route out b) same h.1 q'
        (attach_names-All P b.names (route_table route out.0) route.listeners b.by_port rules p)

  add_listeners-All :
      (g : GatewayConfig) (trust : Trust) (lsts : List Listener) (b b' : Builder)
      → AllRules P b.by_port
      → add_listeners tk secret g trust lsts b ≡ ok b'
      → AllRules P b'.by_port
  unfolding add_listeners
  add_listeners-All g trust [] b b' p h =
      let same : b ≡ b' = cc in subst (λ x. AllRules P x.by_port) same p
  add_listeners-All g trust (lst ∷ lsts) b b' p h =
      let (entry, made, rest) = >>=-eq-ok (build_entry tk secret lst b.store.next) _ h in
      let (bare, _, _) = build_entry-fields tk secret lst b.store.next entry made in
      add_listeners-All g trust lsts (with_listener g trust lst entry b) b'
        (put_listener-All P g trust lst entry b.by_port
          (subst (λ l. All (λ rt. All P rt.rules) l) (sym bare) tt) p)
        rest

  -- The rule invariant `P` holds of every rule of the tables that are built, if `builds` shows that
  -- each rule keeps it, with `Q` of what building changes, and `Q` holds before the first rule.
  pub build_gateway_table-All :
      (notation : Notation) (next : ℕ) (generation : Str) (g : GatewayConfig)
      (routes : List RouteConfig) (previous : Option GatewayTable) (out : GatewayTable × ℕ)
      → All (λ route. All R route.rules) routes
      → ((namespaces : List Str) (n : ℕ)
          → Q (record {
            namespaces = namespaces;
            store = record { next = n; transports = previous_transports previous };
          }))
      → build_gateway_table tk notation next generation g routes secret previous ≡ ok out
      → AllRules P out.0.by_port
  build_gateway_table-All notation next generation g routes previous out h q made =
      let b =
        build_gateway_table-IsBuilt tk notation next generation g routes secret previous out made in
      subst (λ o. AllRules P o.0.by_port) b.result
        (sort_ports-All P _ (
          add_routes-All b.client.0 b.client.1 routes (adopting previous b.listed)
            (client_certificate-IsSumOf tk g secret b.client b.certified) h
            (q b.listed.namespaces b.listed.store.next)
            (add_listeners-All g b.trust g.listeners (empty_builder next) b.listed tt b.listens)))
