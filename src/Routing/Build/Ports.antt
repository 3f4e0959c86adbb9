-- ===== src/Routing/Build/Ports.antt =====
-- The identity and the order of the listeners of the built ports (build.go).
use krouter.Prelude.{
  ℕ, ◌≤◌, ℤ, ◌≡◌, ◌≢◌, sym, ap, ◌∙◌, subst, inl, inr, Option, List, [], ◌∷◌, ltb, arith, All,
  All-imp, Bool-cases, Str, ok,
}
use krouter.Compiled.{RouteConfig, GatewayConfig}
use krouter.Kube.{Object}
use krouter.Netip.{Notation}
use krouter.Routing.Types.{ListenerTable, PortTable, GatewayTable}
use krouter.Routing.Hostname.{hostname_specificity}
use krouter.Routing.Select.Candidates.{In}
use krouter.Routing.Select.Handshake.{HasDistinctAddresses}
use krouter.Routing.Backends.{Toolkit}
use krouter.Routing.Build.{
  insert_listener, sort_listeners, sort_ports, empty_builder, build_gateway_table, adopting,
}
use krouter.Routing.Build.Steps.{insert_listener-All, sort_listeners-All}
use krouter.Routing.Build.Invariant.{build_gateway_table-IsBuilt}
use krouter.Routing.Build.Addresses.{
  NoRepeat, IsRanked, Fresh, add_listeners-Fresh, AllPorts, add_routes-NoRepeat,
}

insert_listener-NoRepeat :
    (e : ListenerTable) (ls : List ListenerTable)
    → All (λ k. e.address ≢ k.address) ls
    → NoRepeat ls
    → NoRepeat (insert_listener e ls)
unfolding insert_listener
insert_listener-NoRepeat e [] apart h = (tt, tt)
insert_listener-NoRepeat e (l ∷ ls) apart h =
    elim (Bool-cases (ltb (hostname_specificity e.hostname) (hostname_specificity l.hostname))) [
      | inl later ↦ rw later (
        insert_listener-All (λ k. l.address ≢ k.address) e ls (λ same. apart.0 (sym same)) h.0,
        insert_listener-NoRepeat e ls apart.1 h.1,
      )
      | inr first ↦ rw first (apart, h)
    ]

sort_listeners-NoRepeat : (ls : List ListenerTable) → NoRepeat ls → NoRepeat (sort_listeners ls)
unfolding sort_listeners
sort_listeners-NoRepeat [] h = tt
sort_listeners-NoRepeat (l ∷ ls) h =
    insert_listener-NoRepeat l (sort_listeners ls)
      (sort_listeners-All (λ k. l.address ≢ k.address) ls h.0) (sort_listeners-NoRepeat ls h.1)

insert_listener-IsRanked :
    (e : ListenerTable) (ls : List ListenerTable) → IsRanked ls → IsRanked (insert_listener e ls)
unfolding insert_listener
insert_listener-IsRanked e [] h = (tt, tt)
insert_listener-IsRanked e (l ∷ ls) h =
    elim (Bool-cases (ltb (hostname_specificity e.hostname) (hostname_specificity l.hostname))) [
      | inl later ↦ rw later (
        insert_listener-All (λ k. hostname_specificity k.hostname ≤ hostname_specificity l.hostname)
            e ls (ground (arith, later)) h.0,
        insert_listener-IsRanked e ls h.1,
      )
      | inr first ↦
          let le : hostname_specificity l.hostname ≤ hostname_specificity e.hostname =
            ground (arith, first) in
          rw first (
            (
              le,
              All-imp (λ k. hostname_specificity k.hostname ≤ hostname_specificity l.hostname)
                  (λ k. hostname_specificity k.hostname ≤ hostname_specificity e.hostname) ls
                  (λ k below. omega arith) h.0,
            ),
            h,
          )
    ]

sort_listeners-IsRanked : (ls : List ListenerTable) → IsRanked (sort_listeners ls)
unfolding sort_listeners
sort_listeners-IsRanked [] = tt
sort_listeners-IsRanked (l ∷ ls) =
    insert_listener-IsRanked l (sort_listeners ls) (sort_listeners-IsRanked ls)

All-In :
    (P : ListenerTable → Type 0) (k : ListenerTable) (ls : List ListenerTable)
    → All P ls
    → In k ls
    → P k
All-In P k [] all i = elim i [ ]
All-In P k (l ∷ ls) all (inl e) = subst P e all.0
All-In P k (l ∷ ls) all (inr i) = All-In P k ls all.1 i

pub NoRepeat-In :
    (ls : List ListenerTable) (k l : ListenerTable)
    → NoRepeat ls
    → In k ls
    → In l ls
    → k.address ≡ l.address
    → k ≡ l
NoRepeat-In [] k l h i j same = elim i [ ]
NoRepeat-In (m ∷ ls) k l h (inl e) (inl f) same = sym e ∙ f
NoRepeat-In (m ∷ ls) k l h (inl e) (inr j) same =
    elim (All-In (λ x. m.address ≢ x.address) l ls h.0 j (ap (λ x. x.address) e ∙ same)) [ ]
NoRepeat-In (m ∷ ls) k l h (inr i) (inl f) same =
    elim (All-In (λ x. m.address ≢ x.address) k ls h.0 i (ap (λ x. x.address) f ∙ sym same)) [ ]
NoRepeat-In (m ∷ ls) k l h (inr i) (inr j) same = NoRepeat-In ls k l h.1 i j same

-- What the selections of a request and of a handshake rely on.
abbrev pub IsOrdered : PortTable → Type 0
IsOrdered t = HasDistinctAddresses t × IsRanked t.listeners

sort_ports-IsOrdered :
    (m : List (ℤ × PortTable)) → AllPorts NoRepeat m → All (λ p. IsOrdered p.1) (sort_ports m)
unfolding sort_ports
sort_ports-IsOrdered [] h = tt
sort_ports-IsOrdered ((k, t) ∷ m) h = (
  (
    (λ a b. NoRepeat-In (sort_listeners t.listeners) a b (sort_listeners-NoRepeat t.listeners h.0)),
    sort_listeners-IsRanked t.listeners,
  ),
  sort_ports-IsOrdered m h.1,
)

Fresh-NoRepeat : (n : ℕ) (m : List (ℤ × PortTable)) → Fresh n m → AllPorts NoRepeat m
Fresh-NoRepeat n [] h = tt
Fresh-NoRepeat n ((k, t) ∷ m) h = (h.0.1, Fresh-NoRepeat n m h.1)

-- In the tables that are built, every port has each of its listeners once (no two of them are one
-- object), and no listener stands behind one with a less specific hostname.
pub build_gateway_table-IsOrdered :
    (tk : Toolkit) (notation : Notation) (next : ℕ) (generation : Str) (g : GatewayConfig)
    (routes : List RouteConfig) (secret : Option Object) (previous : Option GatewayTable)
    (out : GatewayTable × ℕ)
    → build_gateway_table tk notation next generation g routes secret previous ≡ ok out
    → All (λ p. IsOrdered p.1) out.0.by_port
build_gateway_table-IsOrdered tk notation next generation g routes secret previous out made =
    let b =
      build_gateway_table-IsBuilt tk notation next generation g routes secret previous out made in
    subst (λ o. All (λ p. IsOrdered p.1) o.0.by_port) b.result
      (sort_ports-IsOrdered _ (
        add_routes-NoRepeat tk secret b.client.0 b.client.1 routes (adopting previous b.listed) (
          Fresh-NoRepeat b.listed.store.next b.listed.by_port (
            add_listeners-Fresh tk secret g b.trust g.listeners (empty_builder next) b.listed tt
              b.listens))))
