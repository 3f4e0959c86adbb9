-- ===== src/ClientIp/Trust.antt =====
-- The trusted networks that a list of prefixes stands for.
use native.Mathlib.Nat.{mul-div_cancel, pow-suc}
use krouter.Prelude.{
  ℕ, zero, suc, ◌-◌, ◌*◌, ◌/◌, ◌^◌, ◌<◌, ◌≡◌, refl, sym, subst, inl, inr, ◌↔◌, true, none, some,
  List, [], ◌∷◌, arith, Any, Bool-cases, Option-cases, Str,
}
use mathlib.Core.Bool.{false≢true}
use krouter.Netip.{Addr, invalid, v4, v6, Prefix, Notation, prefix_contains, masked}
use krouter.ClientIp.{
  Trust, trusts, Built, built, invalid_proxy, parse_prefixes, new_trust, add_prefix, trust_of,
}

pow_pos : (k : ℕ) → 0 < 2 ^ k
pow_pos zero = omega arith
pow_pos (suc k) = omega (arith, pow-suc 2 k, pow_pos k)

masked_div : (n k : ℕ) → n / 2 ^ k * 2 ^ k / 2 ^ k ≡ n / 2 ^ k
masked_div n k = mul-div_cancel (n / 2 ^ k) (pow_pos k)

contains-masked_at :
    (bits : ℕ) (n a : Addr)
    → prefix_contains (masked (record { addr = n; bits = bits })) a
      ≡ prefix_contains (record { addr = n; bits = bits }) a
unfolding prefix_contains masked
contains-masked_at bits (v4 n) (v4 m) = rw (masked_div n (32 - bits))
contains-masked_at bits (v4 n) (v6 m z) = refl
contains-masked_at bits (v4 n) invalid = refl
contains-masked_at bits (v6 n z) (v6 m y) = rw (masked_div n (128 - bits))
contains-masked_at bits (v6 n z) (v4 m) = refl
contains-masked_at bits (v6 n z) invalid = refl
contains-masked_at bits invalid a = refl

-- Host bits of a prefix carry no meaning.
contains-masked : (p : Prefix) (a : Addr) → prefix_contains (masked p) a ≡ prefix_contains p a
contains-masked p a = contains-masked_at p.bits p.addr a

module _ (notation : Notation) where
  open notation use {parse_prefix}

  -- The text is a prefix that contains the address.
  abbrev pub Covers : Addr → Str → Type 0
  Covers a cidr = (p : Prefix) × (parse_prefix cidr ≡ some p) × (prefix_contains p a ≡ true)

  -- What `New` is to return for a list of texts: networks that trust exactly the addresses that some
  -- text covers, or the refusal of a text that is no prefix.
  abbrev pub IsTrustOf : List Str → Built Trust → Type 0
  IsTrustOf cidrs (built t) = (a : Addr) → (trusts t a ≡ true) ↔ Any (Covers a) cidrs
  IsTrustOf cidrs (invalid_proxy bad) =
      Any (λ cidr. (cidr ≡ bad) × (parse_prefix cidr ≡ none)) cidrs

  Any-cons_iff :
      (a : Addr) (cidr : Str) (p : Prefix) (ps : List Prefix) (cidrs : List Str)
      → parse_prefix cidr ≡ some p
      → (trusts (some ps) a ≡ true) ↔ Any (Covers a) cidrs
      → (trusts (some (masked p ∷ ps)) a ≡ true) ↔ Any (Covers a) (cidr ∷ cidrs)
  unfolding trusts
  Any-cons_iff a cidr p ps cidrs e (to, from) = rw (contains-masked p a) (
    (λ h. elim (Bool-cases (prefix_contains p a)) [
      | inl here ↦ inl (p, e, here)
      | inr away ↦ inr (to (rw away at h))
    ]),
    elim [
      | inl (q, f, here) ↦
          let same : q ≡ p = cc in rw (subst (λ r. prefix_contains r a ≡ true) same here) refl
      | inr later ↦ rw (from later) (ground arith)
    ],
  )

  add_prefix-IsTrustOf :
      (cidr : Str) (cidrs : List Str) (p : Prefix) (r : Built (List Prefix))
      → parse_prefix cidr ≡ some p
      → IsTrustOf cidrs (trust_of r)
      → IsTrustOf (cidr ∷ cidrs) (trust_of (add_prefix (masked p) r))
  add_prefix-IsTrustOf cidr cidrs p (built ps) e h = λ a. Any-cons_iff a cidr p ps cidrs e (h a)
  add_prefix-IsTrustOf cidr cidrs p (invalid_proxy bad) e h = inr h

  parse_prefixes-IsTrustOf :
      (cidrs : List Str) → IsTrustOf cidrs (trust_of (parse_prefixes notation cidrs))
  unfolding parse_prefixes trusts
  parse_prefixes-IsTrustOf [] = λ a. ((λ h. false≢true h), (λ h. absurd h))
  parse_prefixes-IsTrustOf (cidr ∷ cidrs) = elim (Option-cases (parse_prefix cidr)) [
    | inl e ↦
        let refusal : parse_prefixes notation (cidr ∷ cidrs) ≡ invalid_proxy cidr =
          rw (e, parse_prefixes) in
        subst (λ r. IsTrustOf (cidr ∷ cidrs) (trust_of r)) (sym refusal) (inl (refl, e))
    | inr (p, e) ↦
        let more : parse_prefixes notation (cidr ∷ cidrs)
            ≡ add_prefix (masked p) (parse_prefixes notation cidrs) =
          rw (e, parse_prefixes) in
        subst (λ r. IsTrustOf (cidr ∷ cidrs) (trust_of r)) (sym more)
          (add_prefix-IsTrustOf cidr cidrs p (parse_prefixes notation cidrs) e
            (parse_prefixes-IsTrustOf cidrs))
  ]

  -- The networks of a Gateway trust exactly the addresses that one of its prefixes contains, host
  -- bits or not, and none without a prefix; a list with a malformed prefix is refused, and the
  -- refusal names such a prefix.
  pub new_trust-IsTrustOf : (cidrs : List Str) → IsTrustOf cidrs (new_trust notation cidrs)
  unfolding new_trust trusts
  new_trust-IsTrustOf [] = λ a. ((λ h. false≢true h), (λ h. absurd h))
  new_trust-IsTrustOf (cidr ∷ cidrs) = parse_prefixes-IsTrustOf (cidr ∷ cidrs)
