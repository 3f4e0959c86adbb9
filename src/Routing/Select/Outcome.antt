-- ===== src/Routing/Select/Outcome.antt =====
-- What `Match` returns for a request: listener isolation, precedence, and the gRPC fallback.
use krouter.Prelude.{
  ℤ, ◌≡◌, refl, subst, ◌⊎◌, inl, inr, Bool, true, false, Option, none, some, arith, Bool-cases,
  Option-cases, Str,
}
use krouter.Http.{Request, is_grpc_request}
use krouter.Routing.Types.{RuleTable, PortTable, Tables, port_of}
use krouter.Routing.Hostname.{route_hostname_matches}
use krouter.Routing.Score.{RuleSpecificity}
use krouter.Routing.Matching.{rule_best_match}
use krouter.Routing.Select.{
  Candidate, candidate_beats, score_of, winning_loop, rule_applies, listener_wins, match_on,
  match_kind, match,
}
use krouter.Routing.Select.Candidates.{In, IsEligible, Selects, listener_loop-Selects}
use krouter.Routing.Select.Isolation.{OwnsHost, listener_wins-OwnsHost, OwnsHost-listener_wins}

-- The candidate may serve the request: its listener owns the host, its route serves the host, and
-- its rule is of the wanted kind and matches; its score is that of the most specific match.
pub record IsServed (table : PortTable) (host : Str) (r : Request) (want_grpc : Bool)
    (c : Candidate) : Type 0 where
  pub listener_in : In c.listener table.listeners
  pub isolated : OwnsHost host table.listeners c.listener
  pub route_in : In c.route c.listener.routes
  pub serves : route_hostname_matches c.route.hostnames host ≡ true
  pub rule_in : In c.rule c.route.rules
  pub kind : c.rule.grpc ≡ want_grpc
  pub specificity : RuleSpecificity
  pub matched : rule_best_match c.rule r ≡ (true, specificity)
  pub scored : c.score ≡ score_of host c.listener c.route specificity

-- The best of the candidates that may serve the request; nothing where there is none.
abbrev pub IsBest : PortTable → Str → Request → Bool → Option Candidate → Type 0
IsBest table host r want_grpc none = (d : Candidate) → ¬ IsServed table host r want_grpc d
IsBest table host r want_grpc (some c) =
    IsServed table host r want_grpc c
    × ((d : Candidate) → IsServed table host r want_grpc d → candidate_beats d c ≡ false)

rule_applies_sound :
    (want_grpc : Bool) (r : Request) (rule : RuleTable) (s : RuleSpecificity)
    → rule_applies want_grpc r rule ≡ some s
    → (rule.grpc ≡ want_grpc) × (rule_best_match rule r ≡ (true, s))
rule_applies_sound want_grpc r rule s h = (ground arith, ground arith)

rule_applies_complete :
    (want_grpc : Bool) (r : Request) (rule : RuleTable) (s : RuleSpecificity)
    → rule.grpc ≡ want_grpc
    → rule_best_match rule r ≡ (true, s)
    → rule_applies want_grpc r rule ≡ some s
rule_applies_complete want_grpc r rule s g m = ground arith

module _ (table : PortTable) (host : Str) (r : Request) (want_grpc : Bool) where
  abbrev Eligible : Candidate → Type 0
  Eligible =
      IsEligible host (listener_wins host (winning_loop host none table.listeners))
        (rule_applies want_grpc r) table.listeners

  IsServed-of_Eligible : (c : Candidate) → Eligible c → IsServed table host r want_grpc c
  IsServed-of_Eligible c e =
      let (kind, matched) = rule_applies_sound want_grpc r c.rule e.specificity e.applied in
      record {
        listener_in = e.listener_in;
        isolated = listener_wins-OwnsHost host table.listeners c.listener e.admitted;
        route_in = e.route_in;
        serves = e.serves;
        rule_in = e.rule_in;
        kind = kind;
        specificity = e.specificity;
        matched = matched;
        scored = e.scored;
      }

  Eligible-of_IsServed : (c : Candidate) → IsServed table host r want_grpc c → Eligible c
  Eligible-of_IsServed c s = record {
    listener_in = s.listener_in;
    admitted = OwnsHost-listener_wins host table.listeners c.listener s.listener_in s.isolated;
    route_in = s.route_in;
    serves = s.serves;
    rule_in = s.rule_in;
    specificity = s.specificity;
    applied = rule_applies_complete want_grpc r c.rule s.specificity s.kind s.matched;
    scored = s.scored;
  }

  IsBest-of_Selects :
      (best : Option Candidate)
      → Selects host
          (listener_wins host (winning_loop host none table.listeners))
          (rule_applies want_grpc r)
          table.listeners
          best
      → IsBest table host r want_grpc best
  IsBest-of_Selects none h = λ d s. h d (Eligible-of_IsServed d s)
  IsBest-of_Selects (some c) (e, top) =
      (IsServed-of_Eligible c e, (λ d s. top d (Eligible-of_IsServed d s)))

  match_on-IsBest : IsBest table host r want_grpc (match_on table host r want_grpc)
  unfolding match_on
  match_on-IsBest = IsBest-of_Selects _ (
      listener_loop-Selects host (listener_wins host (winning_loop host none table.listeners))
        (rule_applies want_grpc r) table.listeners)

module _ (t : Tables) (port : ℤ) (table : PortTable) (found : port_of t port ≡ some table) where
  match_kind-eq :
      (host : Str) (r : Request) (want_grpc : Bool)
      → match_kind t port host r want_grpc ≡ match_on table host r want_grpc
  unfolding match_kind
  match_kind-eq host r want_grpc = rw (found, match_kind)

  -- On a known port the selection for one kind of rules returns a candidate that may serve the
  -- request and that no other such candidate beats, or nothing if there is no such candidate.
  pub match_kind-IsBest :
      (host : Str) (r : Request) (want_grpc : Bool)
      → IsBest table host r want_grpc (match_kind t port host r want_grpc)
  match_kind-IsBest host r want_grpc =
      rw (match_kind-eq host r want_grpc) (match_on-IsBest table host r want_grpc)

  -- The three outcomes of `Match`: a plain request takes the best rule that is no gRPC rule; a gRPC
  -- request takes the best gRPC rule, and falls back to the others only if no gRPC rule serves it.
  abbrev pub IsMatch : Str → Request → Option Candidate → Type 0
  IsMatch host r result =
      ((is_grpc_request r ≡ false) × IsBest table host r false result)
      ⊎ ((is_grpc_request r ≡ true)
          × (c : Candidate) × (result ≡ some c)
          × IsBest table host r true (some c))
      ⊎ ((is_grpc_request r ≡ true)
          × IsBest table host r true none
          × IsBest table host r false result)

  -- On a known port `Match` serves a plain request by the best rule that is no gRPC rule, and a gRPC
  -- request by the best gRPC rule, or, only if no gRPC rule serves it, by the best of the others;
  -- nothing is returned only if there is no such rule. The best is a rule that matches the request,
  -- of a route that serves the host, on a listener that owns the host, and no other such rule beats
  -- it.
  pub match-IsMatch : (host : Str) (r : Request) → IsMatch host r (match t port host r)
  unfolding match
  match-IsMatch host r =
      let plain_best = match_kind-IsBest host r false in
      let grpc_best = match_kind-IsBest host r true in
      elim (Bool-cases (is_grpc_request r)) [
        | inr plain ↦ rw plain (inl (refl, plain_best))
        | inl grpc ↦ elim (Option-cases (match_kind t port host r true)) [
          | inl e ↦
              rw (grpc, e)
                (inr (inr (refl, subst (IsBest table host r true) e grpc_best, plain_best)))
          | inr (c, e) ↦
              rw (grpc, e) (inr (inl (refl, c, refl, subst (IsBest table host r true) e grpc_best)))
        ]
      ]
