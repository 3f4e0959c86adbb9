-- ===== src/Routing/Build/Addresses.antt =====
-- The addresses of the listeners while the tables are built (build.go: BuildGatewayTable).
use krouter.Prelude.{
  ℕ, suc, ◌≤◌, ◌<◌, ℤ, ◌≡◌, ◌≢◌, sym, subst, inl, inr, eq_ℤ, Option, List, [], ◌∷◌, ◌++◌, arith,
  All, All-append, All-imp, Bool-cases, Option-cases, Str, ok, >>=-eq-ok,
}
use krouter.Compiled.{RouteConfig, Listener, GatewayConfig}
use krouter.Http.{lookup_str}
use krouter.Kube.{Object}
use krouter.ClientIp.{Trust}
use krouter.Routing.Types.{Certificate, RouteTable, ListenerTable, PortTable}
use krouter.Routing.Hostname.{hostname_specificity}
use krouter.Routing.Backends.{Toolkit}
use krouter.Routing.Listeners.{Builder, build_entry, put_listener, with_listener, add_listeners}
use krouter.Routing.Build.{
  attach_to, attach_listeners, attach, attach_names, build_rules, route_table, with_route,
  add_routes,
}
use krouter.Routing.Build.Invariant.{build_entry-fields}

-- No address stands twice.
abbrev pub NoRepeat : List ListenerTable → Type 0
NoRepeat [] = Unit
NoRepeat (l ∷ ls) = All (λ k. l.address ≢ k.address) ls × NoRepeat ls

-- Nothing behind a listener is more specific.
abbrev pub IsRanked : List ListenerTable → Type 0
IsRanked [] = Unit
IsRanked (l ∷ ls) =
    All (λ k. hostname_specificity k.hostname ≤ hostname_specificity l.hostname) ls × IsRanked ls

abbrev Below : ℕ → List ListenerTable → Type 0
Below n ls = All (λ l. l.address < n) ls

-- The listeners of every port have addresses below `n` and none twice.
abbrev pub Fresh : ℕ → List (ℤ × PortTable) → Type 0
Fresh n m = All (λ p. Below n p.1.listeners × NoRepeat p.1.listeners) m

NoRepeat-append :
    (ls : List ListenerTable) (entry : ListenerTable)
    → Below entry.address ls
    → NoRepeat ls
    → NoRepeat (ls ++ entry ∷ [])
NoRepeat-append [] entry h r = (tt, tt)
NoRepeat-append (l ∷ ls) entry h r =
    (All-append _ ls (entry ∷ []) r.0 ((λ e. omega arith), tt), NoRepeat-append ls entry h.1 r.1)

Below-suc : (n : ℕ) (ls : List ListenerTable) → Below n ls → Below (suc n) ls
Below-suc n ls h = All-imp (λ l. l.address < n) (λ l. l.address < suc n) ls (λ l lt. omega arith) h

Fresh-suc : (n : ℕ) (m : List (ℤ × PortTable)) → Fresh n m → Fresh (suc n) m
Fresh-suc n [] h = tt
Fresh-suc n ((k, t) ∷ m) h = ((Below-suc n t.listeners h.0.0, h.0.1), Fresh-suc n m h.1)

put_listener-Fresh :
    (g : GatewayConfig) (trust : Trust) (lst : Listener) (entry : ListenerTable)
    (m : List (ℤ × PortTable))
    → Fresh entry.address m
    → Fresh (suc entry.address) (put_listener g trust lst entry m)
unfolding put_listener
put_listener-Fresh g trust lst entry [] h = (((omega arith, tt), (tt, tt)), tt)
put_listener-Fresh g trust lst entry ((k, t) ∷ m) h = elim (Bool-cases (eq_ℤ k lst.internal_port)) [
  | inl same ↦ rw same (
    (
      All-append _ t.listeners (entry ∷ []) (Below-suc entry.address t.listeners h.0.0)
          (omega arith, tt),
      NoRepeat-append t.listeners entry h.0.0 h.0.1,
    ),
    Fresh-suc entry.address m h.1,
  )
  | inr other ↦ rw other (
    (Below-suc entry.address t.listeners h.0.0, h.0.1),
    put_listener-Fresh g trust lst entry m h.1,
  )
]

pub add_listeners-Fresh :
    (tk : Toolkit) (secret : Option Object) (g : GatewayConfig) (trust : Trust)
    (lsts : List Listener) (b b' : Builder)
    → Fresh b.store.next b.by_port
    → add_listeners tk secret g trust lsts b ≡ ok b'
    → Fresh b'.store.next b'.by_port
unfolding add_listeners
add_listeners-Fresh tk secret g trust [] b b' f h =
    let same : b ≡ b' = cc in subst (λ x. Fresh x.store.next x.by_port) same f
add_listeners-Fresh tk secret g trust (lst ∷ lsts) b b' f h =
    let (entry, made, rest) = >>=-eq-ok (build_entry tk secret lst b.store.next) _ h in
    let (_, at, _) = build_entry-fields tk secret lst b.store.next entry made in
    add_listeners-Fresh tk secret g trust lsts (with_listener g trust lst entry b) b'
      (subst (λ a. Fresh (suc a) (put_listener g trust lst entry b.by_port)) at
        (put_listener-Fresh g trust lst entry b.by_port
          (subst (λ a. Fresh a b.by_port) (sym at) f)))
      rest

-- What depends on addresses only survives attaching a route.
attach_to-address :
    (a : ℕ) (rt : RouteTable) (l : ListenerTable) → (attach_to a rt l).address ≡ l.address
attach_to-address a rt l = ground arith

attach_listeners-apart :
    (n a : ℕ) (rt : RouteTable) (ls : List ListenerTable)
    → All (λ k. n ≢ k.address) ls
    → All (λ k. n ≢ k.address) (attach_listeners a rt ls)
unfolding attach_listeners
attach_listeners-apart n a rt [] h = tt
attach_listeners-apart n a rt (l ∷ ls) h =
    (rw (attach_to-address a rt l) h.0, attach_listeners-apart n a rt ls h.1)

attach_listeners-NoRepeat :
    (a : ℕ) (rt : RouteTable) (ls : List ListenerTable)
    → NoRepeat ls
    → NoRepeat (attach_listeners a rt ls)
unfolding attach_listeners
attach_listeners-NoRepeat a rt [] h = tt
attach_listeners-NoRepeat a rt (l ∷ ls) h = (
  subst (λ n. All (λ k. n ≢ k.address) (attach_listeners a rt ls)) (sym (attach_to-address a rt l))
      (attach_listeners-apart l.address a rt ls h.0),
  attach_listeners-NoRepeat a rt ls h.1,
)

abbrev pub AllPorts : (List ListenerTable → Type 0) → List (ℤ × PortTable) → Type 0
AllPorts P m = All (λ p. P p.1.listeners) m

attach-NoRepeat :
    (a : ℕ) (rt : RouteTable) (m : List (ℤ × PortTable))
    → AllPorts NoRepeat m
    → AllPorts NoRepeat (attach a rt m)
unfolding attach
attach-NoRepeat a rt [] h = tt
attach-NoRepeat a rt ((k, t) ∷ m) h =
    (attach_listeners-NoRepeat a rt t.listeners h.0, attach-NoRepeat a rt m h.1)

attach_names-NoRepeat :
    (names : List (Str × ℕ)) (rt : RouteTable) (wanted : List Str) (m : List (ℤ × PortTable))
    → AllPorts NoRepeat m
    → AllPorts NoRepeat (attach_names names rt wanted m)
unfolding attach_names
attach_names-NoRepeat names rt [] m h = h
attach_names-NoRepeat names rt (name ∷ rest) m h = elim (Option-cases (lookup_str name names)) [
  | inl e ↦ rw e (attach_names-NoRepeat names rt rest m h)
  | inr (a, e) ↦
      rw e (attach_names-NoRepeat names rt rest (attach a rt m) (attach-NoRepeat a rt m h))
]

pub add_routes-NoRepeat :
    (tk : Toolkit) (secret : Option Object) (cert : Option Certificate) (sum : Str)
    (routes : List RouteConfig) (b : Builder)
    → AllPorts NoRepeat b.by_port
    → AllPorts NoRepeat (add_routes tk secret cert sum routes b).by_port
unfolding add_routes
add_routes-NoRepeat tk secret cert sum [] b h = h
add_routes-NoRepeat tk secret cert sum (route ∷ routes) b h =
    let out =
      build_rules tk secret cert sum route.grpc route.rules
        (record { namespaces = b.namespaces; store = b.store }) in
    add_routes-NoRepeat tk secret cert sum routes (with_route route out b)
      (attach_names-NoRepeat b.names (route_table route out.0) route.listeners b.by_port h)
