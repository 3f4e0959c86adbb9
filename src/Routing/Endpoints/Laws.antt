-- ===== src/Routing/Endpoints/Laws.antt =====
-- What is among the endpoints of a service port (match.go: Endpoints).
use krouter.Prelude.{
  ◌≡◌, ap, subst, ◌↔◌, ◌⊎◌, inl, inr, ℤ, true, some, List, [], ◌∷◌, ◌++◌, map, arith, Bool-cases,
  Option-cases, Any, Any-append_left, Any-append_right, Any-append_cases, Str, codes, str_eq,
  str_eq_iff,
}
use krouter.Routing.Endpoints.{
  SliceEndpoint, EndpointSlice, Endpoint, target_port, is_eligible, at_port, endpoints_at,
  slice_endpoints, collect,
}

-- An endpoint that a slice offers under a port name: the slice is IPv4, its port of that name is the
-- endpoint's, and an eligible entry has the address.
pub record IsOffered (port_name : Str) (e : Endpoint) (slice : EndpointSlice) : Type 0 where
  pub ipv4 : slice.address_type ≡ codes "IPv4"
  pub port : target_port port_name slice.ports ≡ some e.port
  pub listed :
      Any (λ ep. (is_eligible ep ≡ true) × Any (λ a. a ≡ e.address) ep.addresses) slice.endpoints

abbrev pub Lists : List Endpoint → Endpoint → Type 0
Lists l e = Any (λ x. x ≡ e) l

Lists-append_iff :
    (xs ys : List Endpoint) (e : Endpoint) → Lists (xs ++ ys) e ↔ (Lists xs e ⊎ Lists ys e)
Lists-append_iff xs ys e = (
  Any-append_cases (λ x. x ≡ e) xs ys,
  elim [
    | inl h ↦ Any-append_left (λ x. x ≡ e) xs ys h
    | inr h ↦ Any-append_right (λ x. x ≡ e) xs ys h
  ],
)

Lists-map_sound :
    (port : ℤ) (texts : List Str) (e : Endpoint)
    → Lists (map (at_port port) texts) e
    → (port ≡ e.port) × Any (λ a. a ≡ e.address) texts
Lists-map_sound port [] e h = elim h [ ]
Lists-map_sound port (a ∷ texts) e (inl same) =
    (ap (λ (x : Endpoint). x.port) same, inl (ap (λ (x : Endpoint). x.address) same))
Lists-map_sound port (a ∷ texts) e (inr h) =
    let (p, i) = Lists-map_sound port texts e h in (p, inr i)

Lists-map_complete :
    (texts : List Str) (e : Endpoint)
    → Any (λ a. a ≡ e.address) texts
    → Lists (map (at_port e.port) texts) e
Lists-map_complete [] e h = elim h [ ]
Lists-map_complete (a ∷ texts) e (inl same) = inl (ground arith)
Lists-map_complete (a ∷ texts) e (inr h) = inr (Lists-map_complete texts e h)

abbrev Offers : Endpoint → SliceEndpoint → Type 0
Offers e ep = (is_eligible ep ≡ true) × Any (λ a. a ≡ e.address) ep.addresses

endpoints_at_sound :
    (port : ℤ) (eps : List SliceEndpoint) (e : Endpoint)
    → Lists (endpoints_at port eps) e
    → (port ≡ e.port) × Any (Offers e) eps
unfolding endpoints_at
endpoints_at_sound port [] e h = elim h [ ]
endpoints_at_sound port (ep ∷ eps) e h = elim (Bool-cases (is_eligible ep)) [
  | inl ok ↦
      elim ((Lists-append_iff (map (at_port port) ep.addresses) (endpoints_at port eps) e).0
        (rw ok at h)) [
          | inl here ↦ let (p, i) = Lists-map_sound port ep.addresses e here in (p, inl (ok, i))
          | inr later ↦ let (p, i) = endpoints_at_sound port eps e later in (p, inr i)
        ]
  | inr bad ↦ let (p, i) = endpoints_at_sound port eps e (rw bad at h) in (p, inr i)
]

endpoints_at_complete :
    (eps : List SliceEndpoint) (e : Endpoint)
    → Any (Offers e) eps
    → Lists (endpoints_at e.port eps) e
unfolding endpoints_at
endpoints_at_complete [] e h = elim h [ ]
endpoints_at_complete (ep ∷ eps) e (inl (ok, i)) =
    rw ok (
      Any-append_left (λ x. x ≡ e) _ (endpoints_at e.port eps)
        (Lists-map_complete ep.addresses e i))
endpoints_at_complete (ep ∷ eps) e (inr h) =
    Any-append_right (λ x. x ≡ e) _ (endpoints_at e.port eps) (endpoints_at_complete eps e h)

slice_endpoints_sound :
    (port_name : Str) (slice : EndpointSlice) (e : Endpoint)
    → Lists (slice_endpoints port_name slice) e
    → IsOffered port_name e slice
unfolding slice_endpoints
slice_endpoints_sound port_name slice e h =
    elim (Bool-cases (str_eq slice.address_type (codes "IPv4"))) [
      | inr bad ↦ absurd (rw bad at h)
      | inl ipv4 ↦ elim (Option-cases (target_port port_name slice.ports)) [
        | inl e' ↦ absurd (rw (ipv4, e') at h)
        | inr (port, e') ↦
            let (p, i) = endpoints_at_sound port slice.endpoints e (rw (ipv4, e') at h) in
            record {
              ipv4 = (str_eq_iff slice.address_type (codes "IPv4")).0 ipv4;
              port = subst (λ q. target_port port_name slice.ports ≡ some q) p e';
              listed = i;
            }
      ]
    ]

slice_endpoints_complete :
    (port_name : Str) (slice : EndpointSlice) (e : Endpoint)
    → IsOffered port_name e slice
    → Lists (slice_endpoints port_name slice) e
unfolding slice_endpoints
slice_endpoints_complete port_name slice e o =
    let ipv4 = (str_eq_iff slice.address_type (codes "IPv4")).1 o.ipv4 in
    rw (ipv4, o.port) (endpoints_at_complete slice.endpoints e o.listed)

pub collect_iff :
    (port_name : Str) (slices : List EndpointSlice) (e : Endpoint)
    → Lists (collect port_name slices) e ↔ Any (IsOffered port_name e) slices
unfolding collect
collect_iff port_name [] e = ((λ h. h), (λ h. h))
collect_iff port_name (slice ∷ slices) e =
    let (to, from) =
      Lists-append_iff (slice_endpoints port_name slice) (collect port_name slices) e in
    let (sound, complete) = collect_iff port_name slices e in
    (
      (λ h. elim (to h) [
        | inl i ↦ inl (slice_endpoints_sound port_name slice e i)
        | inr i ↦ inr (sound i)
      ]),
      elim [
        | inl o ↦ from (inl (slice_endpoints_complete port_name slice e o))
        | inr o ↦ from (inr (complete o))
      ],
    )
