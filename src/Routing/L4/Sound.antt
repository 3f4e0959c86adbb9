-- ===== src/Routing/L4/Sound.antt =====
-- Where a forwarded stream goes (match.go: l4Selection).
use krouter.Prelude.{
  ℕ, zero, suc, ◌≡◌, refl, inl, inr, ℤ, pos, negsuc, leb_ℤ, ltb_ℤ, ◌-ℤ◌, true, Option, none, some,
  List, [], ◌∷◌, arith, Bool-cases, Option-cases, Any, get_elem?, is_empty,
}
use krouter.Routing.Types.{BackendTable, RuleTable, RouteTable, PortTable}
use krouter.Routing.Select.Candidates.{In}
use krouter.Routing.Balance.{Counters, pick_slot, pick_bucket, pick_backend}
use krouter.Routing.Endpoints.{
  EndpointsIndex, Endpoint, endpoints_of, Picked, panics, refused, picked, index_endpoints, pick,
}
use krouter.Routing.Endpoints.Laws.{Lists}
use krouter.Routing.L4.{
  Selection, l4_route, selection_of, map_picked, pick_valid, pick_rule, pick_first, l4_selection,
}

pick_slot-In :
    (slot : ℤ) (bs : List BackendTable) (b : BackendTable) → pick_slot slot bs ≡ some b → In b bs
unfolding pick_slot
pick_slot-In slot [] b h = cc
pick_slot-In slot (c ∷ bs) b h = elim (Bool-cases (ltb_ℤ (slot -ℤ c.weight) (pos 0))) [
  | inl here ↦ inl (ground arith)
  | inr later ↦ inr (pick_slot-In (slot -ℤ c.weight) bs b (ground arith))
]

pub pick_backend-In :
    (counters : Counters) (rule : RuleTable) (b : BackendTable)
    → (pick_backend counters rule).0 ≡ some b
    → In b rule.backends
unfolding pick_backend pick_bucket
pick_backend-In counters rule b h = elim (Bool-cases (leb_ℤ rule.total (pos 0))) [
  | inl empty ↦ let impossible : none ≡ some b = rw empty at h in cc
  | inr some_weight ↦ pick_slot-In _ rule.backends b (rw some_weight at h)
]

get_elem?-Lists : (l : List Endpoint) (n : ℕ) (e : Endpoint) → get_elem? l n ≡ some e → Lists l e
get_elem?-Lists [] n e h = cc
get_elem?-Lists (f ∷ l) zero e h = inl (ground arith)
get_elem?-Lists (f ∷ l) (suc n) e h = inr (get_elem?-Lists l n e h)

index_endpoints-Lists :
    (l : List Endpoint) (i : ℤ) (e : Endpoint) → index_endpoints l i ≡ picked e → Lists l e
index_endpoints-Lists l (pos n) e h = get_elem?-Lists l n e (ground arith)
index_endpoints-Lists l (negsuc n) e h = cc

pub pick-Lists :
    (counters : Counters) (b : BackendTable) (idx : EndpointsIndex) (e : Endpoint)
    → (pick counters b idx).0 ≡ picked e
    → Lists (endpoints_of idx b.namespace b.name b.port) e
unfolding pick
pick-Lists counters b idx e h =
    elim (Bool-cases (is_empty (endpoints_of idx b.namespace b.name b.port))) [
      | inl none_left ↦ let impossible : refused ≡ picked e = rw none_left at h in cc
      | inr some_left ↦ index_endpoints-Lists _ _ e (rw some_left at h)
    ]

-- A valid backend of the rule, and one of its endpoints.
abbrev pub IsTarget : EndpointsIndex → RuleTable → BackendTable × Endpoint → Type 0
IsTarget idx rule (b, e) =
    In b rule.backends × (b.is_valid ≡ true) × Lists (endpoints_of idx b.namespace b.name b.port) e

map_picked-eq {ℓ κ} :
    {A : Type ℓ} {B : Type κ} (f : A → B) (r : Picked A) {b : B}
    → map_picked f r ≡ picked b
    → (a : A) × (r ≡ picked a) × (b ≡ f a)
map_picked-eq f panics h = cc
map_picked-eq f refused h = cc
map_picked-eq f (picked a) h = (a, refl, cc)

pick_valid_sound :
    (o : Option BackendTable) (counters : Counters) (idx : EndpointsIndex)
    (t : BackendTable × Endpoint)
    → (pick_valid o counters idx).0 ≡ picked t
    → (o ≡ some t.0)
      × (t.0.is_valid ≡ true)
      × Lists (endpoints_of idx t.0.namespace t.0.name t.0.port) t.1
unfolding pick_valid
pick_valid_sound none counters idx t h = cc
pick_valid_sound (some b) counters idx t h = elim (Bool-cases b.is_valid) [
  | inr bad ↦ let impossible : refused ≡ picked t = rw bad at h in cc
  | inl ok ↦
      let taken : map_picked (λ (e : Endpoint). (b, e)) (pick counters b idx).0 ≡ picked t =
        ground arith in
      let (e, found, same) =
        map_picked-eq (λ (e : Endpoint). (b, e)) (pick counters b idx).0 taken in
      rw same (refl, ok, pick-Lists counters b idx e found)
]

pub pick_rule-IsTarget :
    (rule : RuleTable) (counters : Counters) (idx : EndpointsIndex) (t : BackendTable × Endpoint)
    → (pick_rule rule counters idx).0 ≡ picked t
    → IsTarget idx rule t
unfolding pick_rule
pick_rule-IsTarget rule counters idx t h =
    let (found, ok, listed) =
      pick_valid_sound (pick_backend counters rule).0 (pick_backend counters rule).1 idx t h in
    (pick_backend-In counters rule t.0 found, ok, listed)

pick_first-IsTarget :
    (rules : List RuleTable) (counters : Counters) (idx : EndpointsIndex)
    (t : BackendTable × Endpoint)
    → (pick_first rules counters idx).0 ≡ picked t
    → Any (λ rule. IsTarget idx rule t) rules
pick_first-IsTarget [] counters idx t h = cc
pick_first-IsTarget (rule ∷ rules) counters idx t h = inl (pick_rule-IsTarget rule counters idx t h)

-- A TCP or UDP connection that is forwarded goes to a listed endpoint of a valid backend of a rule
-- of the route that serves the port, and the selection names that route and that backend.
pub l4_selection-IsTarget :
    (table : PortTable) (counters : Counters) (idx : EndpointsIndex) (s : Selection)
    → (l4_selection table counters idx).0 ≡ picked s
    → (rt : RouteTable) × (l4_route table ≡ some rt)
      × (t : BackendTable × Endpoint) × Any (λ rule. IsTarget idx rule t) rt.rules
      × (s ≡ selection_of table.gateway_name rt t.0 t.1)
unfolding l4_selection
l4_selection-IsTarget table counters idx s h = elim (Option-cases (l4_route table)) [
  | inl e ↦ let impossible : refused ≡ picked s = rw (e, l4_selection) at h in cc
  | inr (rt, e) ↦
      let (t, found, same) =
        map_picked-eq (λ t. selection_of table.gateway_name rt t.0 t.1)
          (pick_first rt.rules counters idx).0 (rw (e, l4_selection) at h) in
      (rt, e, t, pick_first-IsTarget rt.rules counters idx t found, same)
]
