-- ===== src/Routing/Select/Candidates.antt =====
-- The candidates of a selection, and the nested loops over them (match.go: match, PickTLS).
use krouter.Prelude.{
  ◌≡◌, refl, ap, subst, inl, inr, Bool, true, false, Option, none, some, List, [], ◌∷◌, ◌++◌, arith,
  if◌then◌else◌, All, Any, All-append, Any-append_left, Any-append_right, Bool-cases, Option-cases,
  Str,
}
use krouter.Select.{
  IsRanking, pick_best, pick_best-append, Picks, pick_best-Picks, IsFirstBest-unbeaten,
  IsFirstBest-holds,
}
use krouter.Routing.Types.{RuleTable, RouteTable, ListenerTable}
use krouter.Routing.Hostname.{route_hostname_matches}
use krouter.Routing.Score.{RuleSpecificity}
use krouter.Routing.Score.Laws.{score_beats-IsRanking}
use krouter.Routing.Select.{
  Candidate, candidate_beats, score_of, candidate_of, rule_loop, route_loop, listener_loop,
  consider,
}

pub candidate_beats-IsRanking : IsRanking candidate_beats
candidate_beats-IsRanking = record {
  irrefl = λ c. score_beats-IsRanking.irrefl c.score;
  trans = λ c d e. score_beats-IsRanking.trans c.score d.score e.score;
  cotrans = λ c d e. score_beats-IsRanking.cotrans c.score d.score e.score;
}

-- The elements of a list that are a given one.
abbrev pub In : {A : Type 0} → A → List A → Type 0
In a l = Any (λ x. x ≡ a) l

module _ (host : Str) (admits : ListenerTable → Bool)
    (applies : RuleTable → Option RuleSpecificity) where
  rule_candidate : ListenerTable → RouteTable → RuleTable → Option RuleSpecificity → List Candidate
  rule_candidate listener route rule none = []
  rule_candidate listener route rule (some s) = candidate_of host listener route rule s ∷ []

  rule_candidates : ListenerTable → RouteTable → List RuleTable → List Candidate
  rule_candidates listener route [] = []
  rule_candidates listener route (rule ∷ rules) =
      rule_candidate listener route rule (applies rule) ++ rule_candidates listener route rules

  route_candidates : ListenerTable → List RouteTable → List Candidate
  route_candidates listener [] = []
  route_candidates listener (route ∷ routes) =
      (if route_hostname_matches route.hostnames host
        then rule_candidates listener route route.rules
        else [])
      ++ route_candidates listener routes

  -- Every rule that applies, of every route that serves the host, of every admitted listener.
  pub candidates : List ListenerTable → List Candidate
  candidates [] = []
  candidates (listener ∷ listeners) =
      (if admits listener then route_candidates listener listener.routes else [])
      ++ candidates listeners

  rule_loop-pick :
      (listener : ListenerTable) (route : RouteTable) (best : Option Candidate)
      (rules : List RuleTable)
      → rule_loop host admits applies listener route best rules
        ≡ pick_best candidate_beats best (rule_candidates listener route rules)
  unfolding rule_loop rule_candidates pick_best rule_candidate
  rule_loop-pick listener route best [] = refl
  rule_loop-pick listener route best (rule ∷ rules) = elim (Option-cases (applies rule)) [
    | inl e ↦ rw (e, rule_candidate) (rule_loop-pick listener route best rules)
    | inr (s, e) ↦
        rw (e, rule_candidate)
          (rule_loop-pick listener route
            (consider host admits applies listener route rule (some s) best) rules)
  ]

  route_loop-pick :
      (listener : ListenerTable) (best : Option Candidate) (routes : List RouteTable)
      → route_loop host admits applies listener best routes
        ≡ pick_best candidate_beats best (route_candidates listener routes)
  unfolding route_loop route_candidates pick_best
  route_loop-pick listener best [] = refl
  route_loop-pick listener best (route ∷ routes) =
      elim (Bool-cases (route_hostname_matches route.hostnames host)) [
        | inl e ↦ rw e (
            ground (
              arith,
              route_loop-pick listener
                  (rule_loop host admits applies listener route best route.rules) routes,
              rule_loop-pick listener route best route.rules,
              pick_best-append candidate_beats best (rule_candidates listener route route.rules)
                  (route_candidates listener routes),
            ))
        | inr e ↦ rw e (route_loop-pick listener best routes)
      ]

  pub listener_loop-pick :
      (best : Option Candidate) (listeners : List ListenerTable)
      → listener_loop host admits applies best listeners
        ≡ pick_best candidate_beats best (candidates listeners)
  unfolding listener_loop candidates pick_best
  listener_loop-pick best [] = refl
  listener_loop-pick best (listener ∷ listeners) = elim (Bool-cases (admits listener)) [
    | inl e ↦ rw e (
        ground (
          arith,
          listener_loop-pick (route_loop host admits applies listener best listener.routes)
              listeners,
          route_loop-pick listener best listener.routes,
          pick_best-append candidate_beats best (route_candidates listener listener.routes)
              (candidates listeners),
        ))
    | inr e ↦ rw e (listener_loop-pick best listeners)
  ]

  -- What makes a candidate: its listener, route and rule stand in the table and pass their tests.
  pub record IsEligible (listeners : List ListenerTable) (c : Candidate) : Type 0 where
    pub listener_in : In c.listener listeners
    pub admitted : admits c.listener ≡ true
    pub route_in : In c.route c.listener.routes
    pub serves : route_hostname_matches c.route.hostnames host ≡ true
    pub rule_in : In c.rule c.route.rules
    pub specificity : RuleSpecificity
    pub applied : applies c.rule ≡ some specificity
    pub scored : c.score ≡ score_of host c.listener c.route specificity

  All-rule_candidates :
      (P : Candidate → Type 0) (listener : ListenerTable) (route : RouteTable)
      (rules : List RuleTable)
      → ((rule : RuleTable) (s : RuleSpecificity)
          → In rule rules
          → applies rule ≡ some s
          → P (candidate_of host listener route rule s))
      → All P (rule_candidates listener route rules)
  unfolding rule_candidates rule_candidate
  All-rule_candidates P listener route [] h = tt
  All-rule_candidates P listener route (rule ∷ rules) h =
      let rest = All-rule_candidates P listener route rules (λ u s i. h u s (inr i)) in
      elim (Option-cases (applies rule)) [
        | inl e ↦ rw (e, rule_candidate) rest
        | inr (s, e) ↦ rw (e, rule_candidate) (h rule s (inl refl) e, rest)
      ]

  All-route_candidates :
      (P : Candidate → Type 0) (listener : ListenerTable) (routes : List RouteTable)
      → ((route : RouteTable) (rule : RuleTable) (s : RuleSpecificity)
          → In route routes
          → route_hostname_matches route.hostnames host ≡ true
          → In rule route.rules
          → applies rule ≡ some s
          → P (candidate_of host listener route rule s))
      → All P (route_candidates listener routes)
  unfolding route_candidates
  All-route_candidates P listener [] h = tt
  All-route_candidates P listener (route ∷ routes) h =
      let rest = All-route_candidates P listener routes (λ t u s i m j e. h t u s (inr i) m j e) in
      elim (Bool-cases (route_hostname_matches route.hostnames host)) [
        | inl e ↦ rw e (
            All-append P (rule_candidates listener route route.rules) _
              (All-rule_candidates P listener route route.rules
                (λ u s i a. h route u s (inl refl) e i a))
              rest)
        | inr e ↦ rw e rest
      ]

  All-candidates :
      (P : Candidate → Type 0) (listeners : List ListenerTable)
      → ((listener : ListenerTable) (route : RouteTable) (rule : RuleTable) (s : RuleSpecificity)
          → In listener listeners
          → admits listener ≡ true
          → In route listener.routes
          → route_hostname_matches route.hostnames host ≡ true
          → In rule route.rules
          → applies rule ≡ some s
          → P (candidate_of host listener route rule s))
      → All P (candidates listeners)
  unfolding candidates
  All-candidates P [] h = tt
  All-candidates P (listener ∷ listeners) h =
      let rest = All-candidates P listeners (λ l t u s i a j m k e. h l t u s (inr i) a j m k e) in
      elim (Bool-cases (admits listener)) [
        | inl e ↦ rw e (
            All-append P (route_candidates listener listener.routes) _
              (All-route_candidates P listener listener.routes
                (λ t u s j m k a. h listener t u s (inl refl) e j m k a))
              rest)
        | inr e ↦ rw e rest
      ]

  pub candidates-IsEligible :
      (listeners : List ListenerTable) → All (IsEligible listeners) (candidates listeners)
  candidates-IsEligible listeners =
      All-candidates (IsEligible listeners) listeners (λ l t u s i a j m k e. record {
        listener_in = i;
        admitted = a;
        route_in = j;
        serves = m;
        rule_in = k;
        specificity = s;
        applied = e;
        scored = refl;
      })

  In-rule_candidates :
      (listener : ListenerTable) (route : RouteTable) (rule : RuleTable) (s : RuleSpecificity)
      (rules : List RuleTable)
      → applies rule ≡ some s
      → In rule rules
      → In (candidate_of host listener route rule s) (rule_candidates listener route rules)
  unfolding rule_candidates rule_candidate
  In-rule_candidates listener route rule s [] e i = i
  In-rule_candidates listener route rule s (u ∷ rules) e (inl same) =
      rw (same, e, rule_candidate) (inl (ap (λ x. candidate_of host listener route x s) same))
  In-rule_candidates listener route rule s (u ∷ rules) e (inr i) =
      Any-append_right _ (rule_candidate listener route u (applies u)) _
        (In-rule_candidates listener route rule s rules e i)

  In-route_candidates :
      (listener : ListenerTable) (route : RouteTable) (c : Candidate) (routes : List RouteTable)
      → route_hostname_matches route.hostnames host ≡ true
      → In c (rule_candidates listener route route.rules)
      → In route routes
      → In c (route_candidates listener routes)
  unfolding route_candidates
  In-route_candidates listener route c [] m k i = i
  In-route_candidates listener route c (t ∷ routes) m k (inl same) =
      rw (same, m) (Any-append_left _ _ (route_candidates listener routes) k)
  In-route_candidates listener route c (t ∷ routes) m k (inr i) =
      Any-append_right _ _ (route_candidates listener routes)
        (In-route_candidates listener route c routes m k i)

  In-candidates :
      (listener : ListenerTable) (c : Candidate) (listeners : List ListenerTable)
      → admits listener ≡ true
      → In c (route_candidates listener listener.routes)
      → In listener listeners
      → In c (candidates listeners)
  unfolding candidates
  In-candidates listener c [] a k i = i
  In-candidates listener c (l ∷ listeners) a k (inl same) =
      rw (same, a) (Any-append_left _ _ (candidates listeners) k)
  In-candidates listener c (l ∷ listeners) a k (inr i) =
      Any-append_right _ _ (candidates listeners) (In-candidates listener c listeners a k i)

  pub IsEligible-candidates :
      (listeners : List ListenerTable) (c : Candidate)
      → IsEligible listeners c
      → In c (candidates listeners)
  IsEligible-candidates listeners c h =
      let same : candidate_of host c.listener c.route c.rule h.specificity ≡ c = ground arith in
      subst (λ d. In d (candidates listeners)) same
        (In-candidates c.listener _ listeners h.admitted
          (In-route_candidates c.listener c.route _ c.listener.routes h.serves
            (In-rule_candidates c.listener c.route c.rule h.specificity c.route.rules h.applied
              h.rule_in)
            h.route_in)
          h.listener_in)

  -- The outcome of a selection: an eligible candidate that no eligible candidate beats, or nothing
  -- where none is eligible.
  abbrev pub Selects : List ListenerTable → Option Candidate → Type 0
  Selects listeners none = (d : Candidate) → ¬ IsEligible listeners d
  Selects listeners (some c) =
      IsEligible listeners c
      × ((d : Candidate) → IsEligible listeners d → candidate_beats d c ≡ false)

  All-In : (P : Candidate → Type 0) (c : Candidate) (l : List Candidate) → All P l → In c l → P c
  All-In P c [] all i = elim i [ ]
  All-In P c (d ∷ l) all (inl e) = subst P e all.0
  All-In P c (d ∷ l) all (inr i) = All-In P c l all.1 i

  Selects-of_Picks :
      (listeners : List ListenerTable) (best : Option Candidate)
      → Picks candidate_beats best (candidates listeners)
      → Selects listeners best
  Selects-of_Picks listeners none h =
      λ d eligible. subst (In d) h (IsEligible-candidates listeners d eligible)
  Selects-of_Picks listeners (some c) h = (
    IsFirstBest-holds candidate_beats (IsEligible listeners) c (candidates listeners) h
        (candidates-IsEligible listeners),
    (λ d eligible.
        All-In (λ x. candidate_beats x c ≡ false) d (candidates listeners)
          (IsFirstBest-unbeaten candidate_beats candidate_beats-IsRanking c (candidates listeners)
            h)
          (IsEligible-candidates listeners d eligible)),
  )

  -- The loops find the first best candidate in table order, or nothing if there is no candidate.
  pub listener_loop-Picks :
      (listeners : List ListenerTable)
      → Picks candidate_beats
          (listener_loop host admits applies none listeners)
          (candidates listeners)
  listener_loop-Picks listeners =
      rw (listener_loop-pick none listeners)
        (pick_best-Picks candidate_beats candidate_beats-IsRanking (candidates listeners))

  -- What they find is eligible, and no eligible candidate beats it.
  pub listener_loop-Selects :
      (listeners : List ListenerTable)
      → Selects listeners (listener_loop host admits applies none listeners)
  listener_loop-Selects listeners =
      Selects-of_Picks listeners (listener_loop host admits applies none listeners)
        (listener_loop-Picks listeners)
