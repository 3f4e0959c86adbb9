-- ===== src/ClientIp/Walk.antt =====
-- What a client can and cannot choose about the reported address.
use krouter.Prelude.{
  ℕ, suc, ◌+◌, ◌≤◌, ◌<◌, ◌≡◌, refl, ap, ◌∙◌, subst, ◌⊎◌, inl, inr, Bool, true, false, none, some,
  List, [], ◌∷◌, ◌++◌, arith, All, Bool-cases, Option-cases, length, Str,
}
use krouter.Http.{Header}
use krouter.Netip.{Addr, Notation}
use krouter.ClientIp.{Trust, trusts, max_hops, chain, hop, walk, host_of, resolve}

module _ (notation : Notation) (trust : Trust) where
  open notation use {addr_string}

  -- The entry is the address of a trusted network.
  abbrev pub IsTrustedHop : Str → Type 0
  IsTrustedHop entry = (a : Addr) × (hop notation entry ≡ some a) × (trusts trust a ≡ true)

  -- The last address of a chain of trusted hops, from an address to start with.
  pub last_hop : Addr → List Str → Addr
  last_hop a [] = a
  last_hop a (entry ∷ entries) = elim (hop notation entry) [
    | none ↦ last_hop a entries
    | some b ↦ last_hop b entries
  ]

  walk-hops :
      (i : ℕ) (resolved : Addr) (hops rest : List Str)
      → All IsTrustedHop hops
      → i + length hops ≤ max_hops
      → walk notation trust i resolved (hops ++ rest)
        ≡ walk notation trust (i + length hops) (last_hop resolved hops) rest
  unfolding walk last_hop
  walk-hops i resolved [] rest all room =
      ap (λ (j : ℕ). walk notation trust j resolved rest) (omega arith)
  walk-hops i resolved (entry ∷ hops) rest ((a, ok, trusted), all) room =
      let later = walk-hops (suc i) a hops rest all (omega arith) in
      let same : suc i + length hops ≡ i + suc (length hops) = omega arith in
      rw (ok, trusted, ← same) (ground arith)

  -- The walk ends: at the left end, at the bound, or at a malformed entry.
  abbrev pub Ends : List Str → List Str → Type 0
  Ends hops rest =
      (rest ≡ [])
      ⊎ (length hops ≡ max_hops)
      ⊎ ((entry : Str) × (more : List Str) × (rest ≡ entry ∷ more) × (hop notation entry ≡ none))

  -- The next entry names an address that is not trusted.
  abbrev pub Names : List Str → Addr → Type 0
  Names rest a =
      (entry : Str) × (more : List Str) × (rest ≡ entry ∷ more)
      × (hop notation entry ≡ some a)
      × (trusts trust a ≡ false)

  pub walk-Names :
      (i : ℕ) (resolved a : Addr) (rest : List Str)
      → i < max_hops
      → Names rest a
      → walk notation trust i resolved rest ≡ (addr_string a, true)
  unfolding walk
  walk-Names i resolved a rest room (entry, more, e, ok, untrusted) =
      rw (e, walk, ok, untrusted) (ground arith)

  walk-Ends :
      (resolved : Addr) (hops rest : List Str)
      → Ends hops rest
      → walk notation trust (length hops) resolved rest ≡ (addr_string resolved, true)
  unfolding walk
  walk-Ends resolved hops rest (inl e) = rw (e, walk)
  walk-Ends resolved hops [] (inr _) = refl
  walk-Ends resolved hops (entry ∷ rest) (inr (inl full)) = rw full
  walk-Ends resolved hops (first ∷ rest) (inr (inr (entry, more, e, bad))) =
      let same : entry ≡ first = cc in
      rw (subst (λ x. hop notation x ≡ none) same bad) (ground arith)

  pub walk-trusted :
      (i : ℕ) (resolved : Addr) (entries : List Str)
      → (walk notation trust i resolved entries).1 ≡ true
  unfolding walk
  walk-trusted i resolved [] = refl
  walk-trusted i resolved (entry ∷ entries) = elim (Option-cases (hop notation entry)) [
    | inl bad ↦ rw bad (ground arith)
    | inr (a, ok) ↦ rw ok (ground (arith, walk-trusted (suc i) a entries))
  ]

  pub resolve-walk :
      (remote_addr : Str) (header : Header) (peer : Addr)
      → hop notation (host_of notation remote_addr) ≡ some peer
      → trusts trust peer ≡ true
      → resolve notation trust remote_addr header ≡ walk notation trust 0 peer (chain header)
  unfolding resolve
  resolve-walk remote_addr header peer known trusted = rw (known, resolve, trusted)

  chain-walk :
      (header : Header) (peer : Addr) (hops rest : List Str)
      → chain header ≡ hops ++ rest
      → All IsTrustedHop hops
      → length hops ≤ max_hops
      → walk notation trust 0 peer (chain header)
        ≡ walk notation trust (length hops) (last_hop peer hops) rest
  chain-walk header peer hops rest e all room =
      ap (walk notation trust 0 peer) e
      ∙ walk-hops 0 peer hops rest all (omega arith)
      ∙ ap (λ (j : ℕ). walk notation trust j (last_hop peer hops) rest) (omega arith)

-- Behind a trusted peer, the address that stands left of at most 31 trusted hops and is not trusted
-- itself is reported, whatever stands further left in the chain: a client cannot choose it by the
-- entries that it puts in front.
pub resolve-Names :
    (notation : Notation) (trust : Trust) (remote_addr : Str) (header : Header) (peer a : Addr)
    (hops rest : List Str)
    → hop notation (host_of notation remote_addr) ≡ some peer
    → trusts trust peer ≡ true
    → chain header ≡ hops ++ rest
    → All (IsTrustedHop notation trust) hops
    → length hops < max_hops
    → Names notation trust rest a
    → resolve notation trust remote_addr header ≡ (notation.addr_string a, true)
resolve-Names notation trust remote_addr header peer a hops rest known trusted e all room named =
    resolve-walk notation trust remote_addr header peer known trusted
    ∙ chain-walk notation trust header peer hops rest e all (omega arith)
    ∙ walk-Names notation trust (length hops) (last_hop notation trust peer hops) a rest room named

-- Behind a trusted peer, where the chain ends after trusted hops, holds a malformed entry next, or
-- has 32 trusted hops, the last of these hops is reported, and the peer if there is none.
pub resolve-Ends :
    (notation : Notation) (trust : Trust) (remote_addr : Str) (header : Header) (peer : Addr)
    (hops rest : List Str)
    → hop notation (host_of notation remote_addr) ≡ some peer
    → trusts trust peer ≡ true
    → chain header ≡ hops ++ rest
    → All (IsTrustedHop notation trust) hops
    → length hops ≤ max_hops
    → Ends notation trust hops rest
    → resolve notation trust remote_addr header
      ≡ (notation.addr_string (last_hop notation trust peer hops), true)
resolve-Ends notation trust remote_addr header peer hops rest known trusted e all room ends =
    resolve-walk notation trust remote_addr header peer known trusted
    ∙ chain-walk notation trust header peer hops rest e all room
    ∙ walk-Ends notation trust (last_hop notation trust peer hops) hops rest ends

-- Where a request is not found to come through a trusted peer, no header changes the result.
pub resolve-untrusted :
    (notation : Notation) (trust : Trust) (remote_addr : Str) (header other : Header)
    → (resolve notation trust remote_addr header).1 ≡ false
    → resolve notation trust remote_addr other ≡ resolve notation trust remote_addr header
unfolding resolve
resolve-untrusted notation trust remote_addr header other h =
    elim (Option-cases (hop notation (host_of notation remote_addr))) [
      | inl unknown ↦ rw (unknown, resolve) refl
      | inr (peer, known) ↦ elim (Bool-cases (trusts trust peer)) [
        | inr untrusted ↦ rw (known, resolve, untrusted) refl
        | inl trusted ↦
            let came : (resolve notation trust remote_addr header).1 ≡ true =
              ap (λ (r : Str × Bool). r.1)
                (resolve-walk notation trust remote_addr header peer known trusted)
              ∙ walk-trusted notation trust 0 peer (chain header) in
            cc
      ]
    ]
