-- ===== src/ClientIp.antt =====
-- The client IP of a request (internal/lib/transports/http/clientip/clientip.go).
pub mod Trust
pub mod Walk
use krouter.Prelude.{
  ℕ, suc, ◌+◌, Bool, true, false, not, ◌||◌, Option, none, some, List, [], ◌∷◌, ◌++◌, ◌==◌,
  if◌then◌else◌, reverse, map, any, Str, codes,
}
use krouter.Http.{Header, header_values}
use krouter.Netip.{Addr, Prefix, Notation, unmap, without_zone, prefix_contains, masked}

abbrev pub max_hops : ℕ
max_hops = 32

-- A `*Trust`: `none` is the nil pointer.
abbrev pub Trust : Type 0
Trust = Option (List Prefix)

-- `Trust.Contains`
unfoldable pub trusts : Trust → Addr → Bool
trusts none addr = false
trusts (some prefixes) addr = any (λ p. prefix_contains p addr) prefixes

-- strings.Split(s, ",")
unfoldable pub split_commas : Str → List Str
split_commas [] = [] ∷ []
split_commas (c ∷ s) =
    let rest = split_commas s in
    if c == b',' then [] ∷ rest else elim rest [ [] ↦ (c ∷ []) ∷ [] | t ∷ ts ↦ (c ∷ t) ∷ ts ]

-- White space, among ASCII bytes: tab to carriage return, and the blank.
unfoldable pub is_space : ℕ → Bool
is_space c = any (λ d. c == d) (9 ∷ 10 ∷ 11 ∷ 12 ∷ 13 ∷ 32 ∷ [])

unfoldable pub skip_spaces : Str → Str
skip_spaces [] = []
skip_spaces (c ∷ s) = if is_space c then skip_spaces s else c ∷ s

-- strings.TrimSpace
unfoldable pub trim_space : Str → Str
unfolding skip_spaces is_space
trim_space s = reverse (skip_spaces (reverse (skip_spaces s)))

unfoldable pub flat_entries : List Str → List Str
flat_entries [] = []
flat_entries (value ∷ values) = map trim_space (split_commas value) ++ flat_entries values

-- `chain`: the entries of all header lines, from right to left.
unfoldable pub chain : Header → List Str
unfolding flat_entries split_commas trim_space header_values
chain header = reverse (flat_entries (header_values header (codes "X-Forwarded-For")))

pub data Built {ℓ} (A : Type ℓ) : Type ℓ where
  built : A → Built A
  invalid_proxy : Str → Built A

abbrev pub add_prefix : Prefix → Built (List Prefix) → Built (List Prefix)
add_prefix p (built ps) = built (p ∷ ps)
add_prefix p (invalid_proxy bad) = invalid_proxy bad

abbrev pub trust_of : Built (List Prefix) → Built Trust
trust_of (built ps) = built (some ps)
trust_of (invalid_proxy bad) = invalid_proxy bad

module _ (notation : Notation) where
  open notation use {parse_addr, parse_prefix, addr_string, split_host_port}

  unfoldable pub parse_prefixes : List Str → Built (List Prefix)
  parse_prefixes [] = built []
  parse_prefixes (cidr ∷ cidrs) = elim (parse_prefix cidr) [
    | none ↦ invalid_proxy cidr
    | some p ↦ add_prefix (masked p) (parse_prefixes cidrs)
  ]

  -- `New`
  unfoldable pub new_trust : List Str → Built Trust
  unfolding parse_prefixes
  new_trust [] = built none
  new_trust (cidr ∷ cidrs) = trust_of (parse_prefixes (cidr ∷ cidrs))

  abbrev pub plain : Addr → Addr
  plain a = without_zone (unmap a)

  -- A chain entry as an address, without mapping and zone; `none` if it is malformed.
  unfoldable pub hop : Str → Option Addr
  hop entry = elim (parse_addr entry) [ none ↦ none | some a ↦ some (plain a) ]

  -- The loop of `Resolve` from round `i`.
  unfoldable pub walk : Trust → ℕ → Addr → List Str → Str × Bool
  walk trust i resolved [] = (addr_string resolved, true)
  walk trust i resolved (entry ∷ entries) =
      if i == max_hops then (addr_string resolved, true) else elim (hop entry) [
        | none ↦ (addr_string resolved, true)
        | some addr ↦
            let next = walk trust (suc i) addr entries in
            if not (trusts trust addr) then (addr_string addr, true) else next
      ]

  -- `hostOf`
  unfoldable pub host_of : Str → Str
  host_of remote_addr = elim (split_host_port remote_addr) [
    | none ↦ remote_addr
    | some (host, _) ↦ host
  ]

  -- `Trust.Resolve`
  unfoldable pub resolve : Trust → Str → Header → Str × Bool
  unfolding host_of
  resolve trust remote_addr header = elim (hop (host_of remote_addr)) [
    | none ↦ (host_of remote_addr, false)
    | some peer ↦
        if not (trusts trust peer)
        then (addr_string peer, false)
        else walk trust 0 peer (chain header)
  ]
