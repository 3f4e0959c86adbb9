-- ===== src/Proxy/Serve/Selection.antt =====
-- Where a request is sent.
use krouter.Prelude.{
  ℕ, ℤ, pos, ◌≡◌, refl, subst, ◌∙◌, ◌⊎◌, inl, inr, Bool, true, false, ◌||◌, none, some, ◌∷◌, ◌++◌,
  arith, if◌then◌else◌, Bool-cases, Option-cases, Str, codes,
}
use krouter.Compiled.{Filter, filter_of, Filters, no_filters, more_filters}
use krouter.Routing.Types.{Transport, BackendTable, RuleTable}
use krouter.Routing.Select.Candidates.{In}
use krouter.Routing.Balance.{Counters, pick_backend}
use krouter.Routing.Endpoints.{
  Endpoint, EndpointsIndex, endpoints_of, Picked, panics, refused, picked, pick,
}
use krouter.Routing.Endpoints.Laws.{Lists}
use krouter.Routing.L4.{decimal}
use krouter.Routing.L4.Sound.{pick_backend-In, pick-Lists}
use krouter.Proxy.Message.{Writer, Incoming, grpc_internal, grpc_unavailable}
use krouter.Proxy.Forwarding.{Outbound, apply_filter, apply_filters, rewrite_url}
use krouter.Proxy.Forward.{
  plain, cleartext_h2, over_tls, Dispatch, dispatches, refuse_with, Services, base_outbound,
  dispatch_to, forward_to, forward,
}

-- No filter changes where a request goes.
apply_filter-keeps :
    (filter : Filter) (o : Outbound)
    → ((apply_filter filter o).address ≡ o.address) × ((apply_filter filter o).scheme ≡ o.scheme)
unfolding apply_filter rewrite_url
apply_filter-keeps (filter_of kind d _ _ _) o = ground arith

apply_filters-keeps :
    (filters : Filters) (o : Outbound)
    → ((apply_filters filters o).address ≡ o.address)
      × ((apply_filters filters o).scheme ≡ o.scheme)
unfolding apply_filters
apply_filters-keeps no_filters o = (refl, refl)
apply_filters-keeps (more_filters filter filters) o =
    let here = apply_filter-keeps filter o in
    let there = apply_filters-keeps filters (apply_filter filter o) in
    (there.0 ∙ here.0, there.1 ∙ here.1)

-- Over TLS if the backend has a transport for it, and otherwise in the clear.
abbrev pub IsCarried : RuleTable → Dispatch → Type 0
IsCarried rule d =
    ((t : Transport) × (d.backend.tls_transport ≡ some t)
      × (d.carrier ≡ over_tls t)
      × (d.outbound.scheme ≡ codes "https"))
    ⊎ ((d.backend.tls_transport ≡ none)
        × (d.outbound.scheme ≡ codes "http")
        × (d.carrier ≡ (if rule.grpc || d.backend.h2c then cleartext_h2 else plain)))

-- The request is for a listed endpoint of a backend of the rule that is valid and whose TLS policy
-- was not rejected.
pub record IsAimed (idx : EndpointsIndex) (rule : RuleTable) (d : Dispatch) : Type 0 where
  pub backend_in : In d.backend rule.backends
  pub valid : d.backend.is_valid ≡ true
  pub accepted : d.backend.tls_invalid ≡ false
  pub target : Endpoint
  pub listed : Lists (endpoints_of idx d.backend.namespace d.backend.name d.backend.port) target
  pub address : d.outbound.address ≡ target.address ++ (b':' ∷ decimal target.port)
  pub carried : IsCarried rule d

pub Picked-cases :
    {A : Type 0} (p : Picked A) → (p ≡ panics) ⊎ ((p ≡ refused) ⊎ ((a : A) × (p ≡ picked a)))
Picked-cases panics = inl refl
Picked-cases refused = inr (inl refl)
Picked-cases (picked a) = inr (inr (a, refl))

-- A refusal dispatches nothing.
refusal_dispatches :
    (grpc_rule : Bool) (reply : Writer → Writer) (message : Str) (status : ℤ) (w : Writer)
    (d : Dispatch)
    → refuse_with grpc_rule reply message status w ≡ dispatches d
    → ⊥
refusal_dispatches true reply message status w d h = cc
refusal_dispatches false reply message status w d h = cc

module _ (services : Services) (idx : EndpointsIndex) (rule : RuleTable) (r : Incoming)
    (with_tls trusted_peer : Bool) (draws : ℕ → ℕ) (w : Writer) where
  dispatch_to-keeps :
      (backend : BackendTable) (target : Endpoint)
      → let d = dispatch_to services idx rule backend target r with_tls trusted_peer draws in
        (d.outbound.address ≡ target.address ++ (b':' ∷ decimal target.port))
        × (d.outbound.scheme
            ≡ (base_outbound services idx r with_tls trusted_peer backend.tls_transport
                target).scheme)
  unfolding dispatch_to base_outbound
  dispatch_to-keeps backend target =
      let base = base_outbound services idx r with_tls trusted_peer backend.tls_transport target in
      let rule_filters = apply_filters-keeps rule.filters base in
      let own = apply_filters-keeps backend.filters (apply_filters rule.filters base) in
      (own.0 ∙ rule_filters.0, own.1 ∙ rule_filters.1)

  dispatch_to-IsCarried :
      (backend : BackendTable) (target : Endpoint)
      → IsCarried rule (dispatch_to services idx rule backend target r with_tls trusted_peer draws)
  unfolding dispatch_to base_outbound
  dispatch_to-IsCarried backend target =
      let scheme = (dispatch_to-keeps backend target).1 in
      elim (Option-cases backend.tls_transport) [
        | inl clear ↦ inr (clear, scheme ∙ rw clear refl, rw clear refl)
        | inr (t, secure) ↦ inl (t, secure, rw secure refl, scheme ∙ rw secure refl)
      ]

  forward_to-IsAimed :
      (backend : BackendTable) (counters : Counters) (d : Dispatch)
      → In backend rule.backends
      → (forward_to services idx rule backend counters r with_tls trusted_peer draws w).0
        ≡ dispatches d
      → IsAimed idx rule d
  unfolding forward_to
  forward_to-IsAimed backend counters d inside e = elim (Bool-cases backend.is_valid) [
    | inr bad ↦ absurd (
        refusal_dispatches rule.grpc grpc_internal (codes "invalid backend reference") (pos 500) w d
          (ground (arith, e, bad)))
    | inl valid ↦ elim (Bool-cases backend.tls_invalid) [
      | inl rejected ↦ absurd (ground (arith, e, valid, rejected))
      | inr accepted ↦ elim (Picked-cases (pick counters backend idx).0) [
        | inl bad ↦ absurd (ground (arith, e, valid, accepted, bad))
        | inr (inl empty) ↦ absurd (
            refusal_dispatches rule.grpc grpc_unavailable (codes "no ready endpoints") (pos 503) w d
              (ground (arith, e, valid, accepted, empty)))
        | inr (inr (target, found)) ↦
            let same : dispatch_to services idx rule backend target r with_tls trusted_peer draws
                ≡ d =
              ground (arith, e, valid, accepted, found) in
            subst (IsAimed idx rule) same (record {
              backend_in = inside;
              valid = valid;
              accepted = accepted;
              target = target;
              listed = pick-Lists counters backend idx target found;
              address = (dispatch_to-keeps backend target).0;
              carried = dispatch_to-IsCarried backend target;
            })
      ]
    ]
  ]

  -- What `forward` sends on goes to a listed endpoint of a backend of the rule that is valid and whose
  -- TLS policy was not rejected; over that backend's TLS transport if it has one, and in the clear
  -- only if it has none, whatever the filters of the rule and of the backend rewrite.
  pub forward-IsAimed :
      (counters : Counters) (d : Dispatch)
      → (forward services idx rule counters r with_tls trusted_peer draws w).0 ≡ dispatches d
      → IsAimed idx rule d
  unfolding forward
  forward-IsAimed counters d e = elim (Option-cases (pick_backend counters rule).0) [
    | inl missing ↦ absurd (
        refusal_dispatches rule.grpc grpc_unavailable (codes "no available backend") (pos 500) w d
          (ground (arith, e, missing)))
    | inr (backend, chosen) ↦
        forward_to-IsAimed backend (pick_backend counters rule).1 d
          (pick_backend-In counters rule backend chosen) (ground (arith, e, chosen))
  ]
