-- ===== src/Routing/Score.antt =====
-- Precedence of candidates (match.go: ruleSpecificity, matchScore and their `beats`).
pub mod Laws
use krouter.Prelude.{
  ℕ, ◌≡◌, Bool, not, ◌&&◌, ltb, ◌==◌, if◌then◌else◌, ℤ, ltb_ℤ, eq_ℤ, Str, str_eq, str_lt,
}

pub record RuleSpecificity : Type 0 where
  pub path : ℕ
  pub method : ℕ
  pub headers : ℕ
  pub query_params : ℕ

unfoldable pub specificity_beats : RuleSpecificity → RuleSpecificity → Bool
specificity_beats s other =
    if not (s.path == other.path)
    then ltb other.path s.path
    else if not (s.method == other.method)
    then ltb other.method s.method
    else if not (s.headers == other.headers)
    then ltb other.headers s.headers
    else ltb other.query_params s.query_params

-- Go's `==` on the struct.
unfoldable pub specificity_eq : RuleSpecificity → RuleSpecificity → Bool
specificity_eq s t =
    s.path == t.path
    && (s.method == t.method && (s.headers == t.headers && s.query_params == t.query_params))

pub record MatchScore : Type 0 where
  pub listener_hostname : ℕ
  pub route_hostname : ℕ
  pub specificity : RuleSpecificity
  pub created : ℤ
  pub name : Str

-- The last tests of `matchScore.beats`: age and name.
unfoldable pub older_beats : MatchScore → MatchScore → Bool
older_beats s other =
    if not (eq_ℤ s.created other.created)
    then ltb_ℤ s.created other.created
    else str_lt s.name other.name

unfoldable pub score_beats : MatchScore → MatchScore → Bool
score_beats s other =
    if not (s.listener_hostname == other.listener_hostname)
    then ltb other.listener_hostname s.listener_hostname
    else if not (s.route_hostname == other.route_hostname)
    then ltb other.route_hostname s.route_hostname
    else if not (specificity_eq s.specificity other.specificity)
    then specificity_beats s.specificity other.specificity
    else older_beats s other
