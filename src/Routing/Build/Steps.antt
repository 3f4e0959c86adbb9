-- ===== src/Routing/Build/Steps.antt =====
-- Invariants of rules, over the single steps of a build (build.go).
use krouter.Prelude.{
  ℕ, ℤ, ◌≡◌, inl, inr, eq_ℤ, Option, none, some, List, [], ◌∷◌, ◌++◌, ◌==◌, ltb, All, All-append,
  Bool-cases, Option-cases, Str,
}
use krouter.Compiled.{Listener, GatewayConfig}
use krouter.Http.{lookup_str}
use krouter.ClientIp.{Trust}
use krouter.Routing.Types.{Certificate, RuleTable, RouteTable, ListenerTable, PortTable}
use krouter.Routing.Hostname.{hostname_specificity}
use krouter.Routing.Backends.{Toolkit}
use krouter.Routing.Listeners.{put_listener}
use krouter.Routing.Build.{
  attach_listeners, attach, attach_names, insert_listener, sort_listeners, sort_ports,
}

-- The checksum that goes with a client certificate.
abbrev pub IsSumOf : Toolkit → Option Certificate → Str → Type 0
IsSumOf tk none sum = sum ≡ []
IsSumOf tk (some cert) sum = sum ≡ tk.checksum_bytes (cert.cert_pem ++ cert.key_pem)

abbrev pub AllInListener : (RuleTable → Type 0) → ListenerTable → Type 0
AllInListener P l = All (λ rt. All P rt.rules) l.routes

-- `P` of every rule that the ports hold.
abbrev pub AllRules : (RuleTable → Type 0) → List (ℤ × PortTable) → Type 0
AllRules P m = All (λ p. All (AllInListener P) p.1.listeners) m

pub insert_listener-All :
    (Q : ListenerTable → Type 0) (l : ListenerTable) (ls : List ListenerTable)
    → Q l
    → All Q ls
    → All Q (insert_listener l ls)
unfolding insert_listener
insert_listener-All Q l [] q h = (q, tt)
insert_listener-All Q l (k ∷ ls) q h =
    elim (Bool-cases (ltb (hostname_specificity l.hostname) (hostname_specificity k.hostname))) [
      | inl behind ↦ rw behind (h.0, insert_listener-All Q l ls q h.1)
      | inr before ↦ rw before (q, h)
    ]

pub sort_listeners-All :
    (Q : ListenerTable → Type 0) (ls : List ListenerTable) → All Q ls → All Q (sort_listeners ls)
unfolding sort_listeners
sort_listeners-All Q [] h = tt
sort_listeners-All Q (l ∷ ls) h =
    insert_listener-All Q l (sort_listeners ls) h.0 (sort_listeners-All Q ls h.1)

module _ (P : RuleTable → Type 0) where
  attach_listeners-All :
      (a : ℕ) (rt : RouteTable) (ls : List ListenerTable)
      → All P rt.rules
      → All (AllInListener P) ls
      → All (AllInListener P) (attach_listeners a rt ls)
  unfolding attach_listeners
  attach_listeners-All a rt [] good h = tt
  attach_listeners-All a rt (l ∷ ls) good h = elim (Bool-cases (l.address == a)) [
    | inl here ↦
        rw here
          (All-append _ l.routes (rt ∷ []) h.0 (good, tt), attach_listeners-All a rt ls good h.1)
    | inr there ↦ rw there (h.0, attach_listeners-All a rt ls good h.1)
  ]

  attach-All :
      (a : ℕ) (rt : RouteTable) (m : List (ℤ × PortTable))
      → All P rt.rules
      → AllRules P m
      → AllRules P (attach a rt m)
  unfolding attach
  attach-All a rt [] good h = tt
  attach-All a rt ((k, t) ∷ m) good h =
      (attach_listeners-All a rt t.listeners good h.0, attach-All a rt m good h.1)

  pub attach_names-All :
      (names : List (Str × ℕ)) (rt : RouteTable) (wanted : List Str) (m : List (ℤ × PortTable))
      → All P rt.rules
      → AllRules P m
      → AllRules P (attach_names names rt wanted m)
  unfolding attach_names
  attach_names-All names rt [] m good h = h
  attach_names-All names rt (name ∷ wanted) m good h = elim (Option-cases (lookup_str name names)) [
    | inl unknown ↦ rw (unknown, attach_names) (attach_names-All names rt wanted m good h)
    | inr (a, known) ↦
        rw (known, attach_names)
          (attach_names-All names rt wanted (attach a rt m) good (attach-All a rt m good h))
  ]

  pub sort_ports-All : (m : List (ℤ × PortTable)) → AllRules P m → AllRules P (sort_ports m)
  unfolding sort_ports
  sort_ports-All [] h = tt
  sort_ports-All ((k, t) ∷ m) h =
      (sort_listeners-All (AllInListener P) t.listeners h.0, sort_ports-All m h.1)

  pub put_listener-All :
      (g : GatewayConfig) (trust : Trust) (lst : Listener) (entry : ListenerTable)
      (m : List (ℤ × PortTable))
      → AllInListener P entry
      → AllRules P m
      → AllRules P (put_listener g trust lst entry m)
  unfolding put_listener
  put_listener-All g trust lst entry [] new h = ((new, tt), tt)
  put_listener-All g trust lst entry ((k, t) ∷ m) new h =
      elim (Bool-cases (eq_ℤ k lst.internal_port)) [
        | inl same ↦ rw same (All-append _ t.listeners (entry ∷ []) h.0 (new, tt), h.1)
        | inr other ↦ rw other (h.0, put_listener-All g trust lst entry m new h.1)
      ]
