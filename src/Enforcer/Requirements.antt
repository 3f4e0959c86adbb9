-- ===== src/Enforcer/Requirements.antt =====
-- The requirements of an extension, and what it takes to meet them.
use krouter.Prelude.{
  ◌≡◌, refl, ◌↔◌, inl, inr, Bool, true, List, [], ◌∷◌, arith, Any, All, any, Str, str_eq_iff,
  Bool-cases,
}
use krouter.Compiled.{AuthRequire}
use krouter.Enforcer.{Identity, claim_values, intersects, meets}

-- The identity has one of the values that the requirement accepts.
abbrev pub Satisfies : Identity → AuthRequire → Type 0
Satisfies identity require =
    Any (λ v. Any (λ c. v ≡ c) require.values) (claim_values identity require.claim)

any-Any :
    (p : Str → Bool) (P : Str → Type 0) (h : (v : Str) → (p v ≡ true) ↔ P v) (l : List Str)
    → (any p l ≡ true) ↔ Any P l
any-Any p P h [] = ((λ e. cc), (λ e. absurd e))
any-Any p P h (x ∷ l) = (
  (λ e. elim (Bool-cases (p x)) [
    | inl yes_x ↦ inl ((h x).0 yes_x)
    | inr no_x ↦ inr ((any-Any p P h l).0 (ground (arith, e, no_x)))
  ]),
  (λ e. elim e [
    | inl here ↦ ground (arith, (h x).1 here)
    | inr there ↦ ground (arith, (any-Any p P h l).1 there)
  ]),
)

intersects_iff :
    (values accepted : List Str)
    → (intersects values accepted ≡ true) ↔ Any (λ v. Any (λ c. v ≡ c) accepted) values
unfolding intersects
intersects_iff values accepted =
    any-Any _ _ (λ v. any-Any _ _ (λ c. str_eq_iff v c) accepted) values

pub meets_iff :
    (identity : Identity) (requires : List AuthRequire)
    → (meets identity requires ≡ true) ↔ All (Satisfies identity) requires
unfolding meets
meets_iff identity [] = ((λ e. tt), (λ e. refl))
meets_iff identity (require ∷ requires) =
    let here = intersects_iff (claim_values identity require.claim) require.values in
    let there = meets_iff identity requires in
    elim (Bool-cases (intersects (claim_values identity require.claim) require.values)) [
      | inl good ↦ (
        (λ e. (here.0 good, there.0 (ground (arith, e, good)))),
        (λ (_, rest). ground (arith, there.1 rest, good)),
      )
      | inr bad ↦ (
        (λ e. absurd (ground (arith, e, bad))),
        (λ (good, _). absurd (ground (arith, here.1 good, bad))),
      )
    ]
