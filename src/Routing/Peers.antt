-- ===== src/Routing/Peers.antt =====
-- The peers of a port (types.go: Tables.ClientIP, Tables.TrustsPeer).
use krouter.Prelude.{
  ℤ, ◌≡◌, refl, sym, ap, ◌∙◌, inl, inr, ◌↔◌, Bool, true, false, Option, none, some, arith,
  Bool-cases, Option-cases, Str,
}
use krouter.Http.{Request}
use krouter.Netip.{Addr, Notation}
use krouter.ClientIp.{Trust, trusts, hop, host_of, resolve, chain}
use krouter.ClientIp.Walk.{resolve-walk, walk-trusted}
use krouter.Routing.Types.{PortTable, Tables, port_of}

-- The trust of a port; an unknown port trusts nothing.
abbrev trust_at : Option PortTable → Trust
trust_at none = none
trust_at (some table) = table.trust

module _ (notation : Notation) (t : Tables) where
  -- `Tables.ClientIP`
  unfoldable pub client_ip : ℤ → Request → Str × Bool
  client_ip port r = resolve notation (trust_at (port_of t port)) r.remote_addr r.header

  -- `Tables.TrustsPeer`
  unfoldable pub trusts_peer : ℤ → Addr → Bool
  trusts_peer port addr = elim (port_of t port) [
    | none ↦ false
    | some table ↦ trusts table.trust addr
  ]

  trusts_peer-trust_at :
      (port : ℤ) (a : Addr) → trusts_peer port a ≡ trusts (trust_at (port_of t port)) a
  unfolding trusts_peer trusts
  trusts_peer-trust_at port a = elim (Option-cases (port_of t port)) [
    | inl e ↦ rw (trusts_peer, e) refl
    | inr (table, e) ↦ rw (trusts_peer, e) refl
  ]

  -- Forwarded headers are honoured exactly for a request whose peer has an address that the port
  -- trusts, so for none on an unknown port: what speaks for a client in a header is what may speak
  -- for it in a preamble.
  pub client_ip-honoured_iff :
      (port : ℤ) (r : Request)
      → ((client_ip port r).1 ≡ true) ↔ (
          (a : Addr) × (hop notation (host_of notation r.remote_addr) ≡ some a)
          × (trusts_peer port a ≡ true))
  unfolding client_ip resolve
  client_ip-honoured_iff port r = (
    (λ h. elim (Option-cases (hop notation (host_of notation r.remote_addr))) [
      | inl unknown ↦ absurd (ground (arith, h, unknown))
      | inr (a, known) ↦ elim (Bool-cases (trusts (trust_at (port_of t port)) a)) [
        | inl trusted ↦ (a, known, trusts_peer-trust_at port a ∙ trusted)
        | inr untrusted ↦ absurd (ground (arith, h, known, untrusted))
      ]
    ]),
    (λ (a, known, trusted).
        ap (λ (o : Str × Bool). o.1)
          (resolve-walk notation (trust_at (port_of t port)) r.remote_addr r.header a known
            (sym (trusts_peer-trust_at port a) ∙ trusted))
        ∙ walk-trusted notation (trust_at (port_of t port)) 0 a (chain r.header)),
  )
