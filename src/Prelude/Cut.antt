-- ===== src/Prelude/Cut.antt =====
-- What strings.Cut finds.
use Prim.Native.Nat.{ℕ}
use mathlib.Core.Path.{◌≡◌, refl, ap, subst, sym}
use mathlib.Core.Bool.{true, false}
use mathlib.Core.Logic.{◌⊎◌, inl, inr}
use mathlib.Core.Option.{Option, none, some}
use mathlib.Core.List.{[], ◌∷◌, ◌++◌}
use native.Mathlib.Omega.{arith}
use krouter.Prelude.Tests.{Bool-cases, Option-cases}
use krouter.Prelude.Lists.{length, drop}
use krouter.Prelude.Strings.{Str, has_prefix, longer, cut, contains_str, append_of_has_prefix}

longer-eq-some :
    (c : ℕ) (o : Option (Str × Str)) (a b : Str)
    → longer c o ≡ some (a, b)
    → (a' : Str) × (o ≡ some (a', b)) × (a ≡ c ∷ a')
longer-eq-some c none a b h = cc
longer-eq-some c (some (x, y)) a b h = (x, ground arith, ground arith)

-- The two ways in which a separator is found in a text that is not empty.
cut_cases :
    (c : ℕ) (s sep a b : Str)
    → cut (c ∷ s) sep ≡ some (a, b)
    → ((has_prefix (c ∷ s) sep ≡ true) × (a ≡ []) × (c ∷ s ≡ sep ++ b))
      ⊎ ((has_prefix (c ∷ s) sep ≡ false)
          × ((a' : Str) × (cut s sep ≡ some (a', b)) × (a ≡ c ∷ a')))
unfolding cut
cut_cases c s sep a b h = elim (Bool-cases (has_prefix (c ∷ s) sep)) [
  | inl here ↦
      let tail : drop (length sep) (c ∷ s) ≡ b = ground (arith, h, here) in
      inl (
        here,
        ground (arith, h, here),
        subst (λ (t : Str). c ∷ s ≡ sep ++ t) tail (append_of_has_prefix (c ∷ s) sep here),
      )
  | inr further ↦ inr (further, longer-eq-some c (cut s sep) a b (ground (arith, h, further)))
]

-- The pieces and the separator make up the text.
pub cut_sound :
    (s : Str) (d : ℕ) (sep a b : Str) → cut s (d ∷ sep) ≡ some (a, b) → s ≡ a ++ ((d ∷ sep) ++ b)
unfolding cut
cut_sound [] d sep a b h = absurd (ground (arith, h))
cut_sound (c ∷ s) d sep a b h = elim (cut_cases c s (d ∷ sep) a b h) [
  | inl (here, first, all) ↦ subst (λ (t : Str). c ∷ s ≡ t ++ ((d ∷ sep) ++ b)) (sym first) all
  | inr (further, (a', found, first)) ↦
      subst (λ (t : Str). c ∷ s ≡ t ++ ((d ∷ sep) ++ b)) (sym first)
        (ap (◌∷◌ c) (cut_sound s d sep a' b found))
]

has_prefix-append : (s sep t : Str) → has_prefix s sep ≡ true → has_prefix (s ++ t) sep ≡ true
unfolding has_prefix
has_prefix-append s [] t h = refl
has_prefix-append [] (d ∷ sep) t h = cc
has_prefix-append (c ∷ s) (d ∷ sep) t h = ground (arith, has_prefix-append s sep t)

contains_cases :
    (c : ℕ) (s sep : Str)
    → contains_str (c ∷ s) sep ≡ true
    → (has_prefix (c ∷ s) sep ≡ true) ⊎ (contains_str s sep ≡ true)
unfolding contains_str cut
contains_cases c s sep h = elim (Bool-cases (has_prefix (c ∷ s) sep)) [
  | inl here ↦ inl here
  | inr further ↦ elim (Option-cases (cut s sep)) [
    | inl missing ↦ absurd (ground (arith, h, further, missing))
    | inr (found, e) ↦ inr (ground (arith, e))
  ]
]

-- What stands before the separator does not contain it.
pub cut-first :
    (s : Str) (d : ℕ) (sep a b : Str)
    → cut s (d ∷ sep) ≡ some (a, b)
    → contains_str a (d ∷ sep) ≡ false
unfolding cut contains_str
cut-first [] d sep a b h = absurd (ground (arith, h))
cut-first (c ∷ s) d sep a b h = elim (cut_cases c s (d ∷ sep) a b h) [
  | inl (here, first, all) ↦ subst (λ (t : Str). contains_str t (d ∷ sep) ≡ false) (sym first) refl
  | inr (further, (a', found, first)) ↦
      subst (λ (t : Str). contains_str t (d ∷ sep) ≡ false) (sym first)
        (elim (Bool-cases (contains_str (c ∷ a') (d ∷ sep))) [
          | inr absent ↦ absent
          | inl present ↦ elim (contains_cases c a' (d ∷ sep) present) [
            | inl here ↦
                let made : has_prefix ((c ∷ a') ++ ((d ∷ sep) ++ b)) (d ∷ sep) ≡ true =
                  has_prefix-append (c ∷ a') (d ∷ sep) ((d ∷ sep) ++ b) here in
                absurd (
                  cc (
                    subst (λ (t : Str). has_prefix (c ∷ t) (d ∷ sep) ≡ true)
                        (sym (cut_sound s d sep a' b found)) made,
                    further,
                  ))
            | inr there ↦ absurd (cc (there, cut-first s d sep a' b found))
          ]
        ])
]
