-- ===== src/PortAllocator/Search.antt =====
-- The search for a free port (internal/lib/k8s/gatewayapi/ports.go: Allocate).
use krouter.Prelude.{
  ℕ, zero, suc, ◌+◌, ◌≤◌, ◌<◌, ℤ, wrap_int32, ◌≡◌, ◌≢◌, sym, ap, ◌∙◌, subst, inl, inr, ◌⊎◌, Bool,
  true, false, Option, none, some, arith, if◌then◌else◌, Bool-cases, Str,
}
use krouter.Http.{lookup_str}
use krouter.PortAllocator.{PortAllocator, search_port}

-- The port is in use, and is the first of the range that was not.
pub record IsFirstFree (a : PortAllocator) (port : ℤ) : Type 0 where
  pub candidate : ℕ
  pub at_least : a.min_port ≤ candidate
  pub at_most : candidate ≤ a.max_port
  pub is_port : port ≡ wrap_int32 candidate
  pub free : a.used port ≡ false
  pub first : (d : ℕ) → a.min_port ≤ d → d < candidate → a.used (wrap_int32 d) ≡ true

-- Every assigned port is in use, and no two groups have one port.
pub record IsAllocation (a : PortAllocator) : Type 0 where
  pub covered : (k : Str) (p : ℤ) → lookup_str k a.assigned ≡ some p → a.used p ≡ true
  pub apart :
      (j k : Str) (p : ℤ)
      → lookup_str j a.assigned ≡ some p
      → lookup_str k a.assigned ≡ some p
      → j ≡ k

pub some_none : (p : ℤ) → ◌≢◌ {A = Option ℤ} (some p) none
some_none p e = cc

search_port-free :
    (n c : ℕ) (used : ℤ → Bool)
    → used (wrap_int32 c) ≡ false
    → search_port (suc n) c used ≡ some (wrap_int32 c)
unfolding search_port
search_port-free n c used e =
    ap (λ b. if b then search_port n (suc c) used else some (wrap_int32 c)) e

search_port-busy :
    (n c : ℕ) (used : ℤ → Bool)
    → used (wrap_int32 c) ≡ true
    → search_port (suc n) c used ≡ search_port n (suc c) used
unfolding search_port
search_port-busy n c used e =
    ap (λ b. if b then search_port n (suc c) used else some (wrap_int32 c)) e

le_cases : (c d : ℕ) → c ≤ d → (c ≡ d) ⊎ (suc c ≤ d)
le_cases c d h = omega arith

some-injective : {p q : ℤ} → ◌≡◌ {A = Option ℤ} (some p) (some q) → p ≡ q
some-injective h = cc

pub search_port-found :
    (n c : ℕ) (used : ℤ → Bool) (p : ℤ)
    → search_port n c used ≡ some p
    → (k : ℕ) × (c ≤ k)
      × (k < c + n)
      × (p ≡ wrap_int32 k)
      × (used p ≡ false)
      × ((d : ℕ) → c ≤ d → d < k → used (wrap_int32 d) ≡ true)
unfolding search_port
search_port-found zero c used p h = cc
search_port-found (suc n) c used p h = elim (Bool-cases (used (wrap_int32 c))) [
  | inr free ↦
      let same : wrap_int32 c ≡ p = some-injective (sym (search_port-free n c used free) ∙ h) in
      (
        c,
        omega arith,
        omega arith,
        sym same,
        subst (λ q. used q ≡ false) same free,
        (λ d ge lt. absurd (omega arith)),
      )
  | inl busy ↦
      let (k, ge, lt, same, free, first) =
        search_port-found n (suc c) used p (sym (search_port-busy n c used busy) ∙ h) in
      (
        k,
        omega arith,
        omega arith,
        same,
        free,
        (λ d from below. elim (le_cases c d from) [
          | inl here ↦ subst (λ x. used (wrap_int32 x) ≡ true) here busy
          | inr later ↦ first d later below
        ]),
      )
]

pub search_port-none :
    (n c : ℕ) (used : ℤ → Bool)
    → search_port n c used ≡ none
    → (d : ℕ) → c ≤ d
    → d < c + n
    → used (wrap_int32 d) ≡ true
unfolding search_port
search_port-none zero c used h d ge lt = absurd (omega arith)
search_port-none (suc n) c used h d ge lt = elim (Bool-cases (used (wrap_int32 c))) [
  | inr free ↦
      let clash : some (wrap_int32 c) ≡ none = sym (search_port-free n c used free) ∙ h in
      absurd (some_none (wrap_int32 c) clash)
  | inl busy ↦ elim (le_cases c d ge) [
    | inl here ↦ subst (λ x. used (wrap_int32 x) ≡ true) here busy
    | inr later ↦
        search_port-none n (suc c) used (sym (search_port-busy n c used busy) ∙ h) d later
          (omega arith)
  ]
]
