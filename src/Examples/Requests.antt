-- ===== src/Examples/Requests.antt =====
-- A request for a.b.c/api/users on the sample tables.
use krouter.Prelude.{
  ◌<◌, pos, ◌≡◌, refl, ◌↔◌, ◌⊎◌, inl, [], ◌∷◌, true, false, some, arith, Str, codes, has_suffix,
  equal_fold, trim_suffix,
}
use krouter.Routing.Types.{port_of, lookup_port}
use krouter.Routing.Hostname.{hostname_matches, hostname_score, hostname_specificity}
use krouter.Routing.Score.{MatchScore}
use krouter.Routing.Matching.{path_prefix_matches, rule_best_match}
use krouter.Routing.Matching.Path.{IsUnder, path_prefix_matches_iff}
use krouter.Routing.Matching.Best.{IsBestMatch, rule_best_match-IsBestMatch}
use krouter.Routing.Select.{
  match, best_listener_for, best_listener_loop, misdirected, certificate_for,
}
use krouter.Routing.Select.Outcome.{IsMatch, match-IsMatch}
use krouter.Routing.Select.Handshake.{
  HasDistinctAddresses, misdirected_iff, certificate_for_iff, IsCertified,
}
use krouter.Routing.Select.Listener.{matching, Owns}
use krouter.Routing.Types.{ListenerTable}
use krouter.Routing.Build.Ports.{NoRepeat-In}
use krouter.Examples.Data.{
  sample_tables, sample_port, sample_request, sample_rule, wide_listener, narrow_listener,
}

abbrev a_b_c : Str
a_b_c = codes "a.b.c"

sample_found : port_of sample_tables (pos 8080) ≡ some sample_port
unfolding port_of lookup_port
sample_found = refl

match-IsMatch_example :
    IsMatch sample_tables
      (pos 8080)
      sample_port
      sample_found
      a_b_c
      sample_request
      (match sample_tables (pos 8080) a_b_c sample_request)
match-IsMatch_example =
    match-IsMatch sample_tables (pos 8080) sample_port sample_found a_b_c sample_request

rule_best_match-IsBestMatch_example :
    IsBestMatch sample_rule sample_request (rule_best_match sample_rule sample_request)
rule_best_match-IsBestMatch_example = rule_best_match-IsBestMatch sample_rule sample_request

path_prefix_matches_iff_example :
    (path_prefix_matches (codes "/api/") (codes "/api/users") ≡ true)
    ↔ IsUnder (trim_suffix (codes "/api/") (codes "/")) (codes "/api/users")
path_prefix_matches_iff_example = path_prefix_matches_iff (codes "/api/") (codes "/api/users")

wide_below_narrow : hostname_specificity (codes "*.b.c") < hostname_specificity a_b_c
unfolding hostname_specificity
wide_below_narrow = omega arith

wide_matches : hostname_matches (codes "*.b.c") a_b_c ≡ true
unfolding hostname_matches has_suffix
wide_matches = refl

narrow_matches : hostname_matches a_b_c a_b_c ≡ true
unfolding hostname_matches equal_fold
narrow_matches = refl

narrow_higher : hostname_score (codes "*.b.c") < hostname_score a_b_c
unfolding hostname_score
narrow_higher = omega arith

narrow_found : best_listener_for sample_port a_b_c ≡ some narrow_listener
unfolding best_listener_for best_listener_loop hostname_score
narrow_found = rw (wide_matches, narrow_matches) refl

-- The first of the two listeners that match, though it scores lower.
certificate_for_iff_example :
    (certificate_for sample_tables (pos 8080) a_b_c ≡ some wide_listener)
    ↔ IsCertified a_b_c sample_port.listeners wide_listener
certificate_for_iff_example =
    certificate_for_iff sample_tables (pos 8080) sample_port a_b_c wide_listener sample_found

shadowed : certificate_for sample_tables (pos 8080) a_b_c ≡ some wide_listener
shadowed =
    (certificate_for_iff sample_tables (pos 8080) sample_port a_b_c wide_listener sample_found).1 (
      inl (record {
        before = [];
        after = narrow_listener ∷ [];
        split = refl;
        passes = wide_matches;
        fail_before = tt;
      }))

sample_distinct : HasDistinctAddresses sample_port
sample_distinct k l = NoRepeat-In sample_port.listeners k l (((λ e. cc), tt), (tt, tt))

misdirected_iff_example : (misdirected sample_tables (pos 8080) a_b_c (codes "x.b.c") ≡ false) ↔ (
    (matching a_b_c sample_port.listeners ≡ [])
    ⊎ ((l : ListenerTable) × Owns a_b_c sample_port l × Owns (codes "x.b.c") sample_port l))
misdirected_iff_example =
    misdirected_iff sample_tables (pos 8080) sample_port sample_found sample_distinct a_b_c
      (codes "x.b.c")

abbrev some_score : MatchScore
some_score = record {
  listener_hostname = 5;
  route_hostname = 5;
  specificity = record { path = 6; method = 0; headers = 0; query_params = 0 };
  created = pos 5;
  name = codes "ns/route";
}
