-- ===== src/Routing/Matching.antt =====
-- Which rules apply to a request (match.go: pathPrefixMatches, matchApplies, pathScore,
-- ruleBestMatch).
pub mod Path
pub mod Best
use krouter.Prelude.{
  ℕ, ◌+◌, ◌^◌, Bool, true, false, not, ◌&&◌, ◌||◌, Option, none, some, List, [], ◌∷◌, ◌==◌,
  if◌then◌else◌, length, get_elem?, all, is_empty, Str, codes, str_eq, has_prefix, trim_suffix,
}
use krouter.Compiled.{Match, HeaderMatch, QueryParamMatch}
use krouter.Http.{Request, lookup_str, header_get}
use krouter.Routing.Types.{RuleTable}
use krouter.Routing.Score.{RuleSpecificity, specificity_beats}

abbrev pub slash : Str
slash = codes "/"

byte_is : Option ℕ → ℕ → Bool
byte_is none c = false
byte_is (some b) c = b == c

-- `prefix` without its trailing slash, tested against `path`. The index `len(prefix)` is in range
-- where it is read.
unfoldable pub trimmed_prefix_matches : Str → Str → Bool
unfolding byte_is
trimmed_prefix_matches p path =
    if is_empty p
    then true
    else if not (has_prefix path p)
    then false
    else length path == length p || byte_is (get_elem? path (length p)) b'/'

unfoldable pub path_prefix_matches : Str → Str → Bool
unfolding trimmed_prefix_matches
path_prefix_matches prefix path = trimmed_prefix_matches (trim_suffix prefix slash) path

abbrev pub is_prefix_type : Str → Bool
is_prefix_type t = is_empty t || str_eq t (codes "PathPrefix")

-- The `switch` on the path type.
unfoldable pub path_applies : Match → Str → Bool
path_applies m path =
    if is_prefix_type m.path_type
    then is_empty m.path_value || path_prefix_matches m.path_value path
    else str_eq m.path_type (codes "Exact") && str_eq path m.path_value

unfoldable pub header_applies : Request → HeaderMatch → Bool
header_applies r h = str_eq (header_get r.header h.name) h.value

first_is : Option (List Str) → Str → Bool
first_is none v = false
first_is (some []) v = false
first_is (some (w ∷ ws)) v = str_eq w v

unfoldable pub query_applies : Request → QueryParamMatch → Bool
unfolding first_is
query_applies r q = first_is (lookup_str q.name r.query) q.value

unfoldable pub match_applies : Match → Request → Bool
match_applies m r =
    path_applies m r.url_path
    && ((is_empty m.method || str_eq r.method m.method)
        && (all (header_applies r) m.headers && all (query_applies r) m.query_params))

unfoldable pub path_score : Match → ℕ
path_score m =
    if str_eq m.path_type (codes "Exact")
    then 2 ^ 16 + length m.path_value
    else if is_prefix_type m.path_type
    then length (trim_suffix m.path_value slash)
    else 0

unfoldable pub match_specificity : Match → RuleSpecificity
match_specificity m = record {
  path = path_score m;
  method = if is_empty m.method then 0 else 1;
  headers = length m.headers;
  query_params = length m.query_params;
}

abbrev pub no_specificity : RuleSpecificity
no_specificity = record { path = 0; method = 0; headers = 0; query_params = 0 }

-- The loop of `ruleBestMatch`, with its variables `matched` and `best`.
unfoldable pub best_match_loop :
    Request → List Match → Bool → RuleSpecificity → Bool × RuleSpecificity
best_match_loop r [] matched best = (matched, best)
best_match_loop r (m ∷ ms) matched best = best_match_loop r ms (matched || match_applies m r) (
    if match_applies m r && (not matched || specificity_beats (match_specificity m) best)
    then match_specificity m
    else best)

unfoldable pub rule_best_match : RuleTable → Request → Bool × RuleSpecificity
unfolding best_match_loop
rule_best_match rule r =
    if is_empty rule.matches
    then (true, no_specificity)
    else best_match_loop r rule.matches false no_specificity
