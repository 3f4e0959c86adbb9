-- ===== src/Listeners/Maps.antt =====
-- Go maps whose keys are ports, as association lists.
use krouter.Prelude.{
  ℤ, eq_ℤ, eq_ℤ_iff, ◌≡◌, refl, Option, none, some, List, [], ◌∷◌, if◌then◌else◌, arith,
}

module _ {ℓ} {A : Type ℓ} where
  unfoldable pub lookup_at : ℤ → List (ℤ × A) → Option A
  lookup_at k [] = none
  lookup_at k ((j, v) ∷ m) = if eq_ℤ j k then some v else lookup_at k m

  unfoldable pub put_at : ℤ → A → List (ℤ × A) → List (ℤ × A)
  put_at k v [] = (k, v) ∷ []
  put_at k v ((j, w) ∷ m) = if eq_ℤ j k then (k, v) ∷ m else (j, w) ∷ put_at k v m

  unfoldable pub remove_at : ℤ → List (ℤ × A) → List (ℤ × A)
  remove_at k [] = []
  remove_at k ((j, w) ∷ m) = if eq_ℤ j k then remove_at k m else (j, w) ∷ remove_at k m

  pub lookup_at-put_at :
      (k j : ℤ) (v : A) (m : List (ℤ × A))
      → lookup_at j (put_at k v m) ≡ (if eq_ℤ k j then some v else lookup_at j m)
  unfolding lookup_at put_at
  lookup_at-put_at k j v [] = refl
  lookup_at-put_at k j v ((i, w) ∷ m) =
      ground (arith, eq_ℤ_iff k j, eq_ℤ_iff i k, eq_ℤ_iff i j, lookup_at-put_at k j v m)

  pub lookup_at-remove_at :
      (k j : ℤ) (m : List (ℤ × A))
      → lookup_at j (remove_at k m) ≡ (if eq_ℤ k j then none else lookup_at j m)
  unfolding lookup_at remove_at
  lookup_at-remove_at k j [] = ground arith
  lookup_at-remove_at k j ((i, w) ∷ m) =
      ground (arith, eq_ℤ_iff k j, eq_ℤ_iff i k, eq_ℤ_iff i j, lookup_at-remove_at k j m)
