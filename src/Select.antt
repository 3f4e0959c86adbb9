-- ===== src/Select.antt =====
-- The loop by which match.go chooses a candidate: keep the best so far, and replace it by one that
-- beats it (`if best == nil || score.beats(bestScore)`).
use krouter.Prelude.{
  ◌≡◌, refl, ap, ◌∙◌, subst, ◌↔◌, inl, inr, Bool, true, false, Option, none, some, List, [], ◌∷◌,
  ◌++◌, append_assoc, arith, if◌then◌else◌, All, All-append, All-append_right, Bool-cases,
  append-nil,
}

-- An order by which candidates can be ranked: a strict weak order.
pub record IsRanking {ℓ} {A : Type ℓ} (beats : A → A → Bool) : Type ℓ where
  pub irrefl : (a : A) → beats a a ≡ false
  pub trans : (a b c : A) → beats a b ≡ true → beats b c ≡ true → beats a c ≡ true
  -- Not being beaten is transitive too, so "equally good" is an equivalence.
  pub cotrans : (a b c : A) → beats a b ≡ false → beats b c ≡ false → beats a c ≡ false

module _ {ℓ} {A : Type ℓ} (beats : A → A → Bool) where
  abbrev pub keep_best : Option A → A → A
  keep_best none a = a
  keep_best (some b) a = if beats a b then a else b

  unfoldable pub pick_best : Option A → List A → Option A
  pick_best best [] = best
  pick_best best (a ∷ l) = pick_best (some (keep_best best a)) l

  -- `b` is the first of the best candidates of `l`: it beats all that stand before it, and nothing
  -- that stands after it beats it.
  pub record IsFirstBest (b : A) (l : List A) : Type ℓ where
    pub before : List A
    pub after : List A
    pub split : l ≡ before ++ b ∷ after
    pub beats_before : All (λ a. beats b a ≡ true) before
    pub unbeaten_after : All (λ a. beats a b ≡ false) after

  -- What the loop has found once it went through `l`.
  abbrev pub Picks : Option A → List A → Type ℓ
  Picks none l = l ≡ []
  Picks (some b) l = IsFirstBest b l

  pub pick_best-append :
      (best : Option A) (l m : List A) → pick_best best (l ++ m) ≡ pick_best (pick_best best l) m
  unfolding pick_best
  pick_best-append best [] m = refl
  pick_best-append best (a ∷ l) m = pick_best-append (some (keep_best best a)) l m

  -- What holds of every candidate holds of the chosen one.
  pub IsFirstBest-holds {κ} :
      (P : A → Type κ) (b : A) (l : List A) → IsFirstBest b l → All P l → P b
  IsFirstBest-holds P b l h all =
      (All-append_right P h.before (b ∷ h.after) (subst (All P) h.split all)).0

  module _ (ranking : IsRanking beats) where
    beats-All :
        (a b : A) (l : List A)
        → beats a b ≡ true
        → All (λ x. beats b x ≡ true) l
        → All (λ x. beats a x ≡ true) l
    beats-All a b [] h all = tt
    beats-All a b (x ∷ l) h all = (ranking.trans a b x h all.0, beats-All a b l h all.1)

    not_beaten : (a b x : A) → beats a b ≡ true → beats x b ≡ false → beats a x ≡ true
    not_beaten a b x h k = ground (arith, ranking.cotrans a x b)

    beats_unbeaten :
        (a b : A) (l : List A)
        → beats a b ≡ true
        → All (λ x. beats x b ≡ false) l
        → All (λ x. beats a x ≡ true) l
    beats_unbeaten a b [] h all = tt
    beats_unbeaten a b (x ∷ l) h all = (not_beaten a b x h all.0, beats_unbeaten a b l h all.1)

    keep_best-Picks :
        (best : Option A) (l : List A) (a : A)
        → Picks best l
        → IsFirstBest (keep_best best a) (l ++ a ∷ [])
    keep_best-Picks none l a h = record {
      before = [];
      after = [];
      split = ap (λ m. m ++ a ∷ []) h;
      beats_before = tt;
      unbeaten_after = tt;
    }
    keep_best-Picks (some b) l a h = elim (Bool-cases (beats a b)) [
      | inl wins ↦ rw wins (record {
        before = l;
        after = [];
        split = refl;
        beats_before = rw h.split (
            All-append _ h.before (b ∷ h.after) (beats-All a b h.before wins h.beats_before)
              (wins, beats_unbeaten a b h.after wins h.unbeaten_after));
        unbeaten_after = tt;
      })
      | inr loses ↦ rw loses (record {
        before = h.before;
        after = h.after ++ a ∷ [];
        split = ap (λ m. m ++ a ∷ []) h.split ∙ append_assoc h.before (b ∷ h.after) (a ∷ []);
        beats_before = h.beats_before;
        unbeaten_after = All-append _ h.after (a ∷ []) h.unbeaten_after (loses, tt);
      })
    ]

    pick_best-Picks_from :
        (best : Option A) (done todo : List A)
        → Picks best done
        → Picks (pick_best best todo) (done ++ todo)
    unfolding pick_best
    pick_best-Picks_from best done [] h = rw (append-nil done) h
    pick_best-Picks_from best done (a ∷ todo) h = rw (← append_assoc done (a ∷ []) todo) (
        pick_best-Picks_from (some (keep_best best a)) (done ++ a ∷ []) todo
          (keep_best-Picks best done a h))

    -- The loop finds the first of the best candidates, or there is none.
    pub pick_best-Picks : (l : List A) → Picks (pick_best none l) l
    pick_best-Picks l = pick_best-Picks_from none [] l refl

    asym : (a b : A) → beats a b ≡ true → beats b a ≡ false
    asym a b h = ground (arith, ranking.trans a b a, ranking.irrefl a)

    unbeaten-All :
        (b : A) (l : List A) → All (λ a. beats b a ≡ true) l → All (λ a. beats a b ≡ false) l
    unbeaten-All b [] h = tt
    unbeaten-All b (a ∷ l) h = (asym b a h.0, unbeaten-All b l h.1)

    -- No candidate of the list beats it.
    pub IsFirstBest-unbeaten :
        (b : A) (l : List A) → IsFirstBest b l → All (λ a. beats a b ≡ false) l
    IsFirstBest-unbeaten b l h = rw h.split (
        All-append _ h.before (b ∷ h.after) (unbeaten-All b h.before h.beats_before)
          (ranking.irrefl b, h.unbeaten_after))

    pick_best-unbeaten :
        (b : A) (l : List A) → All (λ a. beats a b ≡ false) l → pick_best (some b) l ≡ some b
    unfolding pick_best
    pick_best-unbeaten b [] all = refl
    pick_best-unbeaten b (a ∷ l) (loses, all) = rw loses (pick_best-unbeaten b l all)

    keep_best-wins :
        (o : Option A) (b : A) (l : List A)
        → Picks o l
        → All (λ a. beats b a ≡ true) l
        → keep_best o b ≡ b
    keep_best-wins none b l h all = refl
    keep_best-wins (some c) b l h all =
        rw (IsFirstBest-holds (λ a. beats b a ≡ true) c l h all) refl

    -- There is no other first of the best.
    pub IsFirstBest-pick_best : (b : A) (l : List A) → IsFirstBest b l → pick_best none l ≡ some b
    unfolding pick_best
    IsFirstBest-pick_best b l h =
        ap (pick_best none) h.split
        ∙ pick_best-append none h.before (b ∷ h.after)
        ∙ ap (λ c. pick_best (some c) h.after)
            (keep_best-wins (pick_best none h.before) b h.before (pick_best-Picks h.before)
              h.beats_before)
        ∙ pick_best-unbeaten b h.after h.unbeaten_after

  -- `pick_best` returns nothing exactly when there is no candidate.
  pub pick_best-some : (b : A) (l : List A) → (c : A) × (pick_best (some b) l ≡ some c)
  unfolding pick_best
  pick_best-some b [] = (b, refl)
  pick_best-some b (a ∷ l) = pick_best-some (keep_best (some b) a) l

  pub pick_best-eq-none_iff : (l : List A) → (pick_best none l ≡ none) ↔ (l ≡ [])
  unfolding pick_best
  pick_best-eq-none_iff [] = ((λ _. refl), (λ _. refl))
  pick_best-eq-none_iff (a ∷ l) = let (c, e) = pick_best-some a l in ((λ h. cc), (λ h. cc))
