-- ===== src/Routing/Build/Merge.antt =====
-- The tables of all gateways together.
use krouter.Prelude.{
  ℤ, ◌≡◌, refl, sym, ap, ◌∙◌, subst, inl, inr, ◌⊎◌, ◌↔◌, eq_ℤ, eq_ℤ_iff, false, Option, none, some,
  List, [], ◌∷◌, arith, if◌then◌else◌, All, Any, Bool-cases, Option-cases, Str,
}
use krouter.Routing.Types.{PortTable, GatewayTable, Tables, lookup_port, port_of, empty_tables}
use krouter.Routing.Build.{put_port, put_ports, merge_from, merge_tables}

abbrev first_of : Option PortTable → Option PortTable → Option PortTable
first_of (some t) other = some t
first_of none other = other

eq_ℤ_comm : (a b : ℤ) → eq_ℤ b a ≡ eq_ℤ a b
eq_ℤ_comm a b = ground arith

put_port-lookup :
    (k : ℤ) (t : PortTable) (m : List (ℤ × PortTable)) (j : ℤ)
    → lookup_port j (put_port k t m) ≡ (if eq_ℤ k j then some t else lookup_port j m)
unfolding put_port lookup_port
put_port-lookup k t [] j = refl
put_port-lookup k t ((i, u) ∷ m) j = elim (Bool-cases (eq_ℤ i k)) [
  | inl same ↦
      let e = (eq_ℤ_iff i k).0 same in
      elim (Bool-cases (eq_ℤ k j)) [
        | inl here ↦ rw (same, here) refl
        | inr there ↦ rw (same, there, e) (rw there refl)
      ]
  | inr other ↦ elim (Bool-cases (eq_ℤ i j)) [
    | inl here ↦
        let apart : eq_ℤ k j ≡ false =
          subst (λ x. eq_ℤ k x ≡ false) ((eq_ℤ_iff i j).0 here) (eq_ℤ_comm i k ∙ other) in
        rw (other, here, apart) refl
    | inr there ↦ rw (other, there) (put_port-lookup k t m j)
  ]
]

-- The keys of a map.
abbrev pub IsMap : List (ℤ × PortTable) → Type 0
IsMap [] = Unit
IsMap ((k, t) ∷ m) = (lookup_port k m ≡ none) × IsMap m

put_ports-lookup :
    (ports m : List (ℤ × PortTable)) (j : ℤ)
    → IsMap ports
    → lookup_port j (put_ports ports m) ≡ first_of (lookup_port j ports) (lookup_port j m)
unfolding put_ports lookup_port
put_ports-lookup [] m j h = refl
put_ports-lookup ((k, t) ∷ ports) m j h = elim (Bool-cases (eq_ℤ k j)) [
  | inl here ↦
      let gone : lookup_port j ports ≡ none =
        subst (λ i. lookup_port i ports ≡ none) ((eq_ℤ_iff k j).0 here) h.0 in
      put_ports-lookup ports (put_port k t m) j h.1 ∙ rw (gone, put_port-lookup k t m j, here) refl
  | inr there ↦
      put_ports-lookup ports (put_port k t m) j h.1 ∙ rw (put_port-lookup k t m j, there) refl
]

-- A gateway's tables have this table for the port.
abbrev pub Serves : ℤ → PortTable → Str × GatewayTable → Type 0
Serves j t p = lookup_port j p.1.by_port ≡ some t

abbrev pub AreMaps : List (Str × GatewayTable) → Type 0
AreMaps gs = All (λ p. IsMap p.1.by_port) gs

merge_from_sound :
    (gs : List (Str × GatewayTable)) (m : Tables) (j : ℤ) (t : PortTable)
    → AreMaps gs
    → port_of (merge_from gs m) j ≡ some t
    → Any (Serves j t) gs ⊎ (port_of m j ≡ some t)
unfolding merge_from port_of
merge_from_sound [] m j t maps h = inr h
merge_from_sound ((_, g) ∷ gs) m j t maps h = elim (merge_from_sound gs _ j t maps.1 h) [
  | inl later ↦ inl (inr later)
  | inr here ↦
      let e = sym (put_ports-lookup g.by_port m.by_port j maps.0) ∙ here in
      elim (Option-cases (lookup_port j g.by_port)) [
        | inl none_here ↦ inr (ground (arith, e, none_here))
        | inr (u, own) ↦ inl (inl (ground (arith, e, own)))
      ]
]

merge_from-total :
    (gs : List (Str × GatewayTable)) (m : Tables) (j : ℤ) (t : PortTable)
    → AreMaps gs
    → Any (Serves j t) gs ⊎ (port_of m j ≡ some t)
    → (u : PortTable) × (port_of (merge_from gs m) j ≡ some u)
unfolding merge_from port_of
merge_from-total [] m j t maps (inl h) = elim h [ ]
merge_from-total [] m j t maps (inr h) = (t, h)
merge_from-total ((_, g) ∷ gs) m j t maps (inl (inr later)) =
    merge_from-total gs _ j t maps.1 (inl later)
merge_from-total ((_, g) ∷ gs) m j t maps (inl (inl here)) =
    merge_from-total gs _ j t maps.1
      (inr (put_ports-lookup g.by_port m.by_port j maps.0 ∙ ground (arith, here)))
merge_from-total ((_, g) ∷ gs) m j t maps (inr old) =
    elim (Option-cases (lookup_port j g.by_port)) [
      | inl none_here ↦
          merge_from-total gs _ j t maps.1
            (inr (put_ports-lookup g.by_port m.by_port j maps.0 ∙ ground (arith, old, none_here)))
      | inr (u, own) ↦
          merge_from-total gs _ j u maps.1
            (inr (put_ports-lookup g.by_port m.by_port j maps.0 ∙ ground (arith, own)))
    ]

-- Two gateways that have the port have one table for it; so it is when a port has one gateway.
abbrev pub IsAgreed : ℤ → List (Str × GatewayTable) → Type 0
IsAgreed j gs = (t u : PortTable) → Any (Serves j t) gs → Any (Serves j u) gs → t ≡ u

-- For a port that no two gateways have different tables for (and if the ports of each gateway are a
-- map), the merged tables have a table exactly if one of the gateways has it, whatever the order of
-- the gateways.
pub merge_tables-Serves_iff :
    (gs : List (Str × GatewayTable)) (j : ℤ) (t : PortTable)
    → AreMaps gs
    → IsAgreed j gs
    → (port_of (merge_tables gs) j ≡ some t) ↔ Any (Serves j t) gs
unfolding merge_tables empty_tables port_of lookup_port
merge_tables-Serves_iff gs j t maps agreed = (
  (λ h. elim (merge_from_sound gs empty_tables j t maps h) [
    | inl found ↦ found
    | inr impossible ↦ absurd (ground arith)
  ]),
  (λ h.
      let (u, e) = merge_from-total gs empty_tables j t maps (inl h) in
      elim (merge_from_sound gs empty_tables j u maps e) [
        | inl found ↦ e ∙ ap some (agreed u t found h)
        | inr impossible ↦ absurd (ground arith)
      ]),
)
