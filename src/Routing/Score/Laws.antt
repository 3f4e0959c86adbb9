-- ===== src/Routing/Score/Laws.antt =====
-- The precedence of candidates as an order (match.go: matchScore.beats).
use krouter.Prelude.{
  ◌≡◌, true, false, ◌↔◌, arith, str_lt_irrefl, str_lt_trans, str_lt_cotrans, str_lt_connected,
}
use krouter.Select.{IsRanking}
use krouter.Routing.Score.{
  RuleSpecificity, specificity_beats, specificity_eq, MatchScore, older_beats, score_beats,
}

specificity_beats_irrefl : (s : RuleSpecificity) → specificity_beats s s ≡ false
unfolding specificity_beats
specificity_beats_irrefl s = ground arith

specificity_beats_trans :
    (s t u : RuleSpecificity)
    → specificity_beats s t ≡ true
    → specificity_beats t u ≡ true
    → specificity_beats s u ≡ true
unfolding specificity_beats
specificity_beats_trans s t u h k = ground arith

specificity_beats_cotrans :
    (s t u : RuleSpecificity)
    → specificity_beats s t ≡ false
    → specificity_beats t u ≡ false
    → specificity_beats s u ≡ false
unfolding specificity_beats
specificity_beats_cotrans s t u h k = ground arith

pub specificity_beats-IsRanking : IsRanking specificity_beats
specificity_beats-IsRanking = record {
  irrefl = specificity_beats_irrefl;
  trans = specificity_beats_trans;
  cotrans = specificity_beats_cotrans;
}

specificity_eq_iff : (s t : RuleSpecificity) → (specificity_eq s t ≡ true) ↔ (s ≡ t)
unfolding specificity_eq
specificity_eq_iff s t = ground arith

specificity_connected :
    (s t : RuleSpecificity) → specificity_beats s t ≡ false → specificity_beats t s ≡ false → s ≡ t
unfolding specificity_beats
specificity_connected s t h k = ground arith

pub score_beats_irrefl : (s : MatchScore) → score_beats s s ≡ false
unfolding score_beats older_beats
score_beats_irrefl s = ground (arith, str_lt_irrefl s.name, specificity_beats_irrefl s.specificity)

older_beats_trans :
    (s t u : MatchScore) → older_beats s t ≡ true → older_beats t u ≡ true → older_beats s u ≡ true
unfolding older_beats
older_beats_trans s t u h k = ground (arith, str_lt_trans s.name t.name u.name)

older_beats_cotrans :
    (s t u : MatchScore)
    → older_beats s t ≡ false
    → older_beats t u ≡ false
    → older_beats s u ≡ false
unfolding older_beats
older_beats_cotrans s t u h k = ground (arith, str_lt_cotrans s.name t.name u.name)

score_beats_trans :
    (s t u : MatchScore) → score_beats s t ≡ true → score_beats t u ≡ true → score_beats s u ≡ true
unfolding score_beats
score_beats_trans s t u h k = ground (
  arith,
  older_beats_trans s t u,
  specificity_eq_iff s.specificity t.specificity,
  specificity_eq_iff t.specificity u.specificity,
  specificity_eq_iff s.specificity u.specificity,
  specificity_beats_irrefl s.specificity,
  specificity_beats_trans s.specificity t.specificity u.specificity,
  specificity_beats_trans s.specificity t.specificity s.specificity,
)

score_beats_cotrans :
    (s t u : MatchScore)
    → score_beats s t ≡ false
    → score_beats t u ≡ false
    → score_beats s u ≡ false
unfolding score_beats
score_beats_cotrans s t u h k = ground (
  arith,
  older_beats_cotrans s t u,
  specificity_eq_iff s.specificity t.specificity,
  specificity_eq_iff t.specificity u.specificity,
  specificity_eq_iff s.specificity u.specificity,
  specificity_beats_cotrans s.specificity t.specificity u.specificity,
  specificity_connected s.specificity t.specificity,
)

older_beats_connected :
    (s t : MatchScore)
    → older_beats s t ≡ false
    → older_beats t s ≡ false
    → (s.created ≡ t.created) × (s.name ≡ t.name)
unfolding older_beats
older_beats_connected s t h k = ground (arith, str_lt_connected s.name t.name)

-- Two scores tie only when they are equal, the namespaced name of the route included.
pub score_beats_connected :
    (s t : MatchScore) → score_beats s t ≡ false → score_beats t s ≡ false → s ≡ t
unfolding score_beats
score_beats_connected s t h k = ground (
  arith,
  older_beats_connected s t,
  specificity_eq_iff s.specificity t.specificity,
  specificity_eq_iff t.specificity s.specificity,
  specificity_connected s.specificity t.specificity,
)

-- The precedence of candidates is a strict weak order: no score beats itself, beating is transitive,
-- and so is not being beaten.
pub score_beats-IsRanking : IsRanking score_beats
score_beats-IsRanking = record {
  irrefl = score_beats_irrefl;
  trans = score_beats_trans;
  cotrans = score_beats_cotrans;
}
