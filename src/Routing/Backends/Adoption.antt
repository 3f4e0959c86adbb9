-- ===== src/Routing/Backends/Adoption.antt =====
-- The transports that a build takes over (build.go: previousTransports).
use krouter.Prelude.{
  ℤ, inl, inr, Option, none, some, List, [], ◌∷◌, is_empty, All, Bool-cases, Option-cases, Str,
}
use krouter.Routing.Types.{
  Transport, BackendTable, MirrorTable, RuleTable, RouteTable, ListenerTable, PortTable,
  GatewayTable,
}
use krouter.Routing.Backends.{
  Toolkit, adopt, adopt_backends, adopt_mirrors, adopt_rules, adopt_routes, adopt_listeners,
  adopt_ports, previous_transports,
}
use krouter.Routing.Backends.Dialing.{IsKeyed, HasOwnKey}

-- Adoption, level by level.
adopt-IsKeyed :
    (tk : Toolkit) (b : BackendTable) (m : List (Str × Transport))
    → HasOwnKey tk b
    → IsKeyed tk m
    → IsKeyed tk (adopt b m)
adopt-IsKeyed tk b m own h = elim (Option-cases b.tls_transport) [
  | inl e ↦ rw e h
  | inr (t, e) ↦ elim (Bool-cases (is_empty b.tls_key)) [
    | inl unnamed ↦ rw (e, unnamed) h
    | inr named ↦ rw (e, named) (own t e, h)
  ]
]

abbrev pub RuleHasOwnKeys : Toolkit → RuleTable → Type 0
RuleHasOwnKeys tk rule =
    All (HasOwnKey tk) rule.backends × All (λ m. HasOwnKey tk m.backend) rule.mirrors

module _ (tk : Toolkit) where
  adopt_backends-IsKeyed :
      (bs : List BackendTable) (m : List (Str × Transport))
      → All (HasOwnKey tk) bs
      → IsKeyed tk m
      → IsKeyed tk (adopt_backends bs m)
  unfolding adopt_backends
  adopt_backends-IsKeyed [] m own h = h
  adopt_backends-IsKeyed (b ∷ bs) m own h =
      adopt_backends-IsKeyed bs (adopt b m) own.1 (adopt-IsKeyed tk b m own.0 h)

  adopt_mirrors-IsKeyed :
      (ms : List MirrorTable) (m : List (Str × Transport))
      → All (λ x. HasOwnKey tk x.backend) ms
      → IsKeyed tk m
      → IsKeyed tk (adopt_mirrors ms m)
  unfolding adopt_mirrors
  adopt_mirrors-IsKeyed [] m own h = h
  adopt_mirrors-IsKeyed (x ∷ ms) m own h =
      adopt_mirrors-IsKeyed ms (adopt x.backend m) own.1 (adopt-IsKeyed tk x.backend m own.0 h)

  adopt_rules-IsKeyed :
      (rules : List RuleTable) (m : List (Str × Transport))
      → All (RuleHasOwnKeys tk) rules
      → IsKeyed tk m
      → IsKeyed tk (adopt_rules rules m)
  unfolding adopt_rules
  adopt_rules-IsKeyed [] m own h = h
  adopt_rules-IsKeyed (rule ∷ rules) m own h =
      adopt_rules-IsKeyed rules (adopt_mirrors rule.mirrors (adopt_backends rule.backends m)) own.1
        (adopt_mirrors-IsKeyed rule.mirrors (adopt_backends rule.backends m) own.0.1
          (adopt_backends-IsKeyed rule.backends m own.0.0 h))

  adopt_routes-IsKeyed :
      (rts : List RouteTable) (m : List (Str × Transport))
      → All (λ rt. All (RuleHasOwnKeys tk) rt.rules) rts
      → IsKeyed tk m
      → IsKeyed tk (adopt_routes rts m)
  unfolding adopt_routes
  adopt_routes-IsKeyed [] m own h = h
  adopt_routes-IsKeyed (rt ∷ rts) m own h =
      adopt_routes-IsKeyed rts (adopt_rules rt.rules m) own.1
        (adopt_rules-IsKeyed rt.rules m own.0 h)

  adopt_listeners-IsKeyed :
      (ls : List ListenerTable) (m : List (Str × Transport))
      → All (λ l. All (λ rt. All (RuleHasOwnKeys tk) rt.rules) l.routes) ls
      → IsKeyed tk m
      → IsKeyed tk (adopt_listeners ls m)
  unfolding adopt_listeners
  adopt_listeners-IsKeyed [] m own h = h
  adopt_listeners-IsKeyed (l ∷ ls) m own h =
      adopt_listeners-IsKeyed ls (adopt_routes l.routes m) own.1
        (adopt_routes-IsKeyed l.routes m own.0 h)

  adopt_ports-IsKeyed :
      (ports : List (ℤ × PortTable)) (m : List (Str × Transport))
      → All
          (λ p. All (λ l. All (λ rt. All (RuleHasOwnKeys tk) rt.rules) l.routes) p.1.listeners)
          ports
      → IsKeyed tk m
      → IsKeyed tk (adopt_ports ports m)
  unfolding adopt_ports
  adopt_ports-IsKeyed [] m own h = h
  adopt_ports-IsKeyed ((_, t) ∷ ports) m own h =
      adopt_ports-IsKeyed ports (adopt_listeners t.listeners m) own.1
        (adopt_listeners-IsKeyed t.listeners m own.0 h)

  -- Every rule of the previous table, if there is one.
  abbrev pub PreviousHasOwnKeys : Option GatewayTable → Type 0
  PreviousHasOwnKeys none = Unit
  PreviousHasOwnKeys (some g) =
      All (λ p. All (λ l. All (λ rt. All (RuleHasOwnKeys tk) rt.rules) l.routes) p.1.listeners)
        g.by_port

  pub previous_transports-IsKeyed :
      (previous : Option GatewayTable)
      → PreviousHasOwnKeys previous
      → IsKeyed tk (previous_transports previous)
  unfolding previous_transports
  previous_transports-IsKeyed none own = tt
  previous_transports-IsKeyed (some g) own = adopt_ports-IsKeyed g.by_port [] own tt
