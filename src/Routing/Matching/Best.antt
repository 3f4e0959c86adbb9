-- ===== src/Routing/Matching/Best.antt =====
-- The specificity of a rule for a request (match.go: ruleBestMatch).
use krouter.Prelude.{
  ◌≡◌, ◌≢◌, refl, ◌⊎◌, inl, inr, Bool, true, false, Option, none, some, List, [], ◌∷◌, map, arith,
  filter_by, is_empty,
}
use krouter.Select.{pick_best, keep_best, Picks, pick_best-Picks}
use krouter.Compiled.{Match}
use krouter.Http.{Request}
use krouter.Routing.Types.{RuleTable}
use krouter.Routing.Score.{RuleSpecificity, specificity_beats}
use krouter.Routing.Score.Laws.{specificity_beats-IsRanking}
use krouter.Routing.Matching.{
  no_specificity, match_applies, match_specificity, best_match_loop, rule_best_match,
}

-- The specificities of the matches that apply, in order.
abbrev pub applying : Request → List Match → List RuleSpecificity
applying r ms = map match_specificity (filter_by (λ m. match_applies m r) ms)

abbrev pub as_result : Option RuleSpecificity → Bool × RuleSpecificity
as_result none = (false, no_specificity)
as_result (some s) = (true, s)

best_match_loop-matched :
    (r : Request) (ms : List Match) (best : RuleSpecificity)
    → best_match_loop r ms true best
      ≡ as_result (pick_best specificity_beats (some best) (applying r ms))
unfolding best_match_loop pick_best
best_match_loop-matched r [] best = refl
best_match_loop-matched r (m ∷ ms) best = ground (
  arith,
  best_match_loop-matched r ms (keep_best specificity_beats (some best) (match_specificity m)),
  best_match_loop-matched r ms best,
)

best_match_loop-unmatched :
    (r : Request) (ms : List Match)
    → best_match_loop r ms false no_specificity
      ≡ as_result (pick_best specificity_beats none (applying r ms))
unfolding best_match_loop pick_best
best_match_loop-unmatched r [] = refl
best_match_loop-unmatched r (m ∷ ms) =
    ground
      (arith, best_match_loop-matched r ms (match_specificity m), best_match_loop-unmatched r ms)

-- What `ruleBestMatch` is to return: a rule without matches applies with the least specificity; any
-- other applies if one of its matches does, with the first best of their specificities.
abbrev pub IsBestMatch : RuleTable → Request → Bool × RuleSpecificity → Type 0
IsBestMatch rule r result =
    ((rule.matches ≡ []) × (result ≡ (true, no_specificity)))
    ⊎ ((rule.matches ≢ [])
        × (best : Option RuleSpecificity) × (result ≡ as_result best)
        × Picks specificity_beats best (applying r rule.matches))

nonempty_cases : (ms : List Match) → (ms ≡ []) ⊎ ((ms ≢ []) × (is_empty ms ≡ false))
nonempty_cases [] = inl refl
nonempty_cases (m ∷ ms) = inr ((λ e. cc), refl)

-- A rule without matches applies with the least specificity. Any other rule applies exactly if some
-- match of it applies, and its specificity is then that of the first match among those that no
-- applying match beats.
pub rule_best_match-IsBestMatch :
    (rule : RuleTable) (r : Request) → IsBestMatch rule r (rule_best_match rule r)
unfolding rule_best_match
rule_best_match-IsBestMatch rule r = elim (nonempty_cases rule.matches) [
  | inl e ↦ inl (e, rw e refl)
  | inr (some_match, e) ↦ inr (
    some_match,
    pick_best specificity_beats none (applying r rule.matches),
    rw e (best_match_loop-unmatched r rule.matches),
    pick_best-Picks specificity_beats specificity_beats-IsRanking (applying r rule.matches),
  )
]
