-- ===== src/Routing/Select.antt =====
-- Selection of a rule for a request (match.go: Tables.Match, match, routeHostnameScore,
-- bestListenerFor, Misdirected, CertificateFor).
pub mod Candidates
pub mod Isolation
pub mod Outcome
pub mod Listener
pub mod Handshake
use krouter.Prelude.{
  ℕ, ℤ, Bool, true, false, not, ◌&&◌, Option, none, some, List, [], ◌∷◌, ◌==◌, ltb, if◌then◌else◌,
  is_empty, Str, bool_eq,
}
use krouter.Select.{keep_best}
use krouter.Http.{Request, is_grpc_request}
use krouter.Routing.Types.{
  RuleTable, RouteTable, ListenerTable, PortTable, Tables, port_of, route_key,
}
use krouter.Routing.Hostname.{hostname_matches, hostname_score, route_hostname_matches}
use krouter.Routing.Score.{RuleSpecificity, MatchScore, score_beats}
use krouter.Routing.Matching.{rule_best_match}

-- `bestRule`, `bestListener`, `bestRoute` and `bestScore`; all are set together.
pub record Candidate : Type 0 where
  pub rule : RuleTable
  pub listener : ListenerTable
  pub route : RouteTable
  pub score : MatchScore

abbrev pub candidate_beats : Candidate → Candidate → Bool
candidate_beats c d = score_beats c.score d.score

abbrev pub is_none {ℓ} : {A : Type ℓ} → Option A → Bool
is_none none = true
is_none (some a) = false

-- The loop of `routeHostnameScore`.
hostname_score_loop : Str → ℕ → List Str → ℕ
hostname_score_loop host best [] = best
hostname_score_loop host best (pattern ∷ ps) =
    hostname_score_loop host
      (if hostname_matches pattern host && ltb best (hostname_score pattern)
        then hostname_score pattern
        else best)
      ps

unfoldable pub route_hostname_score : ListenerTable → RouteTable → Str → ℕ
unfolding hostname_score_loop
route_hostname_score listener route host =
    if is_empty route.hostnames
    then hostname_score listener.hostname
    else hostname_score_loop host 0 route.hostnames

-- `score > winning`, where `none` is the initial -1.
abbrev pub exceeds : ℕ → Option ℕ → Bool
exceeds score none = true
exceeds score (some best) = ltb best score

-- The first loop of `match`.
unfoldable pub winning_loop : Str → Option ℕ → List ListenerTable → Option ℕ
winning_loop host winning [] = winning
winning_loop host winning (l ∷ ls) =
    winning_loop host
      (if hostname_matches l.hostname host && exceeds (hostname_score l.hostname) winning
        then some (hostname_score l.hostname)
        else winning)
      ls

abbrev pub is_winning : Option ℕ → ℕ → Bool
is_winning none score = false
is_winning (some winning) score = score == winning

-- The score of a candidate.
abbrev pub score_of : Str → ListenerTable → RouteTable → RuleSpecificity → MatchScore
score_of host listener route specificity = record {
  listener_hostname = hostname_score listener.hostname;
  route_hostname = route_hostname_score listener route host;
  specificity = specificity;
  created = route.created;
  name = route_key route;
}

abbrev pub candidate_of : Str → ListenerTable → RouteTable → RuleTable → RuleSpecificity → Candidate
candidate_of host listener route rule specificity = record {
  rule = rule;
  listener = listener;
  route = route;
  score = score_of host listener route specificity;
}

-- The three nested loops of `match` and of `PickTLS`. `admits` is the test on a listener, and
-- `applies` that on a rule: `none` goes on to the next rule.
module _ (host : Str) (admits : ListenerTable → Bool)
    (applies : RuleTable → Option RuleSpecificity) where
  abbrev pub consider :
      ListenerTable
      → RouteTable
      → RuleTable
      → Option RuleSpecificity
      → Option Candidate
      → Option Candidate
  consider listener route rule none best = best
  consider listener route rule (some specificity) best =
      some (keep_best candidate_beats best (candidate_of host listener route rule specificity))

  unfoldable pub rule_loop :
      ListenerTable → RouteTable → Option Candidate → List RuleTable → Option Candidate
  rule_loop listener route best [] = best
  rule_loop listener route best (rule ∷ rules) =
      rule_loop listener route (consider listener route rule (applies rule) best) rules

  unfoldable pub route_loop : ListenerTable → Option Candidate → List RouteTable → Option Candidate
  unfolding rule_loop
  route_loop listener best [] = best
  route_loop listener best (route ∷ routes) =
      route_loop listener
        (if route_hostname_matches route.hostnames host
          then rule_loop listener route best route.rules
          else best)
        routes

  unfoldable pub listener_loop : Option Candidate → List ListenerTable → Option Candidate
  unfolding route_loop
  listener_loop best [] = best
  listener_loop best (listener ∷ listeners) =
      listener_loop (if admits listener then route_loop listener best listener.routes else best)
        listeners

-- The test of `match` on a rule: the kind of route, then the matches.
abbrev pub rule_applies : Bool → Request → RuleTable → Option RuleSpecificity
rule_applies want_grpc r rule =
    let (matched, specificity) = rule_best_match rule r in
    if bool_eq rule.grpc want_grpc && matched then some specificity else none

-- The test of the second loop of `match` on a listener.
abbrev pub listener_wins : Str → Option ℕ → ListenerTable → Bool
listener_wins host winning listener =
    hostname_matches listener.hostname host && is_winning winning (hostname_score listener.hostname)

unfoldable pub match_on : PortTable → Str → Request → Bool → Option Candidate
unfolding listener_loop winning_loop
match_on table host r want_grpc =
    listener_loop host (listener_wins host (winning_loop host none table.listeners))
      (rule_applies want_grpc r) none table.listeners

-- `Tables.match`
unfoldable pub match_kind : Tables → ℤ → Str → Request → Bool → Option Candidate
unfolding match_on
match_kind t port host r want_grpc = elim (port_of t port) [
  | none ↦ none
  | some table ↦ match_on table host r want_grpc
]

-- The first selection that found a rule.
abbrev pub or_else : Option Candidate → Option Candidate → Option Candidate
or_else (some c) other = some c
or_else none other = other

-- `Tables.Match`: gRPC requests prefer rules of GRPCRoutes, and fall back to the others.
unfoldable pub match : Tables → ℤ → Str → Request → Option Candidate
match t port host r =
    if is_grpc_request r
    then or_else (match_kind t port host r true) (match_kind t port host r false)
    else match_kind t port host r false

-- The loop of `bestListenerFor`.
unfoldable pub best_listener_loop :
    Str → Option ListenerTable → Option ℕ → List ListenerTable → Option ListenerTable
best_listener_loop host best best_score [] = best
best_listener_loop host best best_score (l ∷ ls) =
    let better =
      hostname_matches l.hostname host && exceeds (hostname_score l.hostname) best_score in
    best_listener_loop host (if better then some l else best)
      (if better then some (hostname_score l.hostname) else best_score) ls

unfoldable pub best_listener_for : PortTable → Str → Option ListenerTable
unfolding best_listener_loop
best_listener_for table host = best_listener_loop host none none table.listeners

-- Pointers are compared, so listeners are told apart by their addresses.
abbrev pub same_listener : Option ListenerTable → ListenerTable → Bool
same_listener none l = false
same_listener (some k) l = k.address == l.address

-- `Tables.Misdirected`
unfoldable pub misdirected : Tables → ℤ → Str → Str → Bool
unfolding best_listener_for
misdirected t port server_name host = elim (port_of t port) [
  | none ↦ false
  | some table ↦ elim (best_listener_for table server_name) [
    | none ↦ false
    | some selected ↦ not (same_listener (best_listener_for table host) selected)
  ]
]

-- The loop of `CertificateFor`.
unfoldable pub certificate_loop :
    Str → Option ListenerTable → List ListenerTable → Option ListenerTable
certificate_loop name fallback [] = fallback
certificate_loop name fallback (l ∷ ls) =
    let rest = certificate_loop name (if is_none fallback then some l else fallback) ls in
    let skipped = certificate_loop name fallback ls in
    if is_none l.cert
    then skipped
    else if not (is_empty name) && hostname_matches l.hostname name
    then some l
    else rest

-- `Tables.CertificateFor`
unfoldable pub certificate_for : Tables → ℤ → Str → Option ListenerTable
unfolding certificate_loop
certificate_for t port server_name = elim (port_of t port) [
  | none ↦ none
  | some table ↦ certificate_loop server_name none table.listeners
]
