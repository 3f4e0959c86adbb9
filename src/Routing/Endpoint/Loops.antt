-- ===== src/Routing/Endpoint/Loops.antt =====
-- What the loops of AuthEndpoint collect.
use krouter.Prelude.{
  ◌≡◌, ◌≢◌, refl, sym, ap, subst, inl, inr, ◌⊎◌, Bool, true, false, Option, none, some, List, [],
  ◌∷◌, ◌++◌, arith, if◌then◌else◌, All, All-append, Any, Any-append_left, Any-append_right,
  Any-append_cases, Bool-cases, Str, str_eq, str_eq_iff,
}
use krouter.Compiled.{Auth}
use krouter.Routing.Types.{RuleTable, RouteTable, ListenerTable}
use krouter.Routing.Hostname.{hostname_matches, route_hostname_matches}
use krouter.Routing.Endpoint.{
  has_cookie_provider, under_prefix, Reserved, is_seen, reserve, consider_enforcer, reserve_rules,
  reserve_routes, reserve_listeners,
}

-- An enforcer that intercepts the path.
abbrev pub Intercepts : Str → Auth → Type 0
Intercepts path e = (has_cookie_provider e ≡ true) × (under_prefix path e.path_prefix ≡ true)

abbrev RuleHas : Auth → RuleTable → Type 0
RuleHas e rule = rule.auth_enforcer ≡ some e

abbrev RouteHas : Str → Auth → RouteTable → Type 0
RouteHas host e route =
    (route_hostname_matches route.hostnames host ≡ true) × Any (RuleHas e) route.rules

-- A rule that is served under the hostname, through a listener and a route that match it, has the
-- enforcer.
abbrev pub IsServed : Str → Auth → List ListenerTable → Type 0
IsServed host e listeners =
    Any (λ l. (hostname_matches l.hostname host ≡ true) × Any (RouteHas host e) l.routes) listeners

-- Some candidate has the identity.
abbrev pub IsNamed : Str → List Auth → Type 0
IsNamed identity es = Any (λ (e : Auth). e.identity ≡ identity) es

-- No two candidates have one identity.
abbrev pub AreDistinct : List Auth → Type 0
AreDistinct [] = Unit
AreDistinct (e ∷ es) = All (λ (d : Auth). d.identity ≢ e.identity) es × AreDistinct es

-- What the loops keep: what is seen is what the candidates are named.
abbrev IsConsistent : (Auth → Type 0) → Reserved → Type 0
IsConsistent P r =
    All P r.candidates
    × AreDistinct r.candidates
    × ((identity : Str) → IsNamed identity r.candidates → is_seen identity r.seen ≡ true)
    × ((identity : Str) → is_seen identity r.seen ≡ true → IsNamed identity r.candidates)

is_seen_new : (identity : Str) (seen : List Str) → is_seen identity (identity ∷ seen) ≡ true
is_seen_new identity seen = rw ((str_eq_iff identity identity).1 refl) refl

IsNamed-add : (i : Str) (es : List Auth) (e : Auth) → IsNamed i es → IsNamed i (es ++ e ∷ [])
IsNamed-add i es e h = Any-append_left (λ (d : Auth). d.identity ≡ i) es (e ∷ []) h

AreDistinct-add :
    (es : List Auth) (e : Auth)
    → AreDistinct es
    → (IsNamed e.identity es → ⊥)
    → AreDistinct (es ++ e ∷ [])
AreDistinct-add [] e h new = (tt, tt)
AreDistinct-add (d ∷ es) e h new = (
  All-append (λ (x : Auth). x.identity ≢ d.identity) es (e ∷ []) h.0
      ((λ same. new (inl (sym same))), tt),
  AreDistinct-add es e h.1 (λ named. new (inr named)),
)

module _ (path : Str) (P : Auth → Type 0) where
  -- From `r` to `r'` a loop has added what intercepts the path among what `S` holds of.
  abbrev Reserves : (Auth → Type 0) → Reserved → Reserved → Type 0
  Reserves S r r' =
      IsConsistent P r'
      × ((i : Str) → IsNamed i r.candidates → IsNamed i r'.candidates)
      × ((e : Auth) → S e → Intercepts path e → IsNamed e.identity r'.candidates)

  skipped :
      (S : Auth → Type 0) (r : Reserved)
      → IsConsistent P r
      → ((e : Auth) → S e → Intercepts path e → IsNamed e.identity r.candidates)
      → Reserves S r r
  skipped S r h nothing = (h, (λ i named. named), nothing)

  chained :
      (S T U : Auth → Type 0) (r s t : Reserved)
      → Reserves S r s
      → Reserves T s t
      → ((e : Auth) → U e → S e ⊎ T e)
      → Reserves U r t
  chained S T U r s t first second cover = (
    second.0,
    (λ i named. second.1 i (first.1 i named)),
    (λ e u hits. elim (cover e u) [
      | inl a ↦ second.1 e.identity (first.2 e a hits)
      | inr b ↦ second.2 e b hits
    ]),
  )

  reserve-Reserves :
      (e : Auth) (r : Reserved)
      → P e
      → is_seen e.identity r.seen ≡ false
      → IsConsistent P r
      → Reserves (λ d. d ≡ e) r (reserve e r)
  reserve-Reserves e r sound unseen h =
      let new : IsNamed e.identity r.candidates → ⊥ =
        λ named. let seen = h.2 e.identity named in ground (arith, seen, unseen) in
      (
        (
          All-append P r.candidates (e ∷ []) h.0 (sound, tt),
          AreDistinct-add r.candidates e h.1 new,
          (λ i named.
              elim (Any-append_cases (λ (d : Auth). d.identity ≡ i) r.candidates (e ∷ []) named) [
                | inl old ↦ let seen = h.2 i old in ground (arith, seen)
                | inr (inl same) ↦ rw ((str_eq_iff e.identity i).1 same) refl
                | inr (inr impossible) ↦ elim impossible [ ]
              ]),
          (λ i seen. elim (Bool-cases (str_eq e.identity i)) [
            | inl same ↦
                Any-append_right (λ (d : Auth). d.identity ≡ i) r.candidates (e ∷ [])
                  (inl ((str_eq_iff e.identity i).0 same))
            | inr other ↦ IsNamed-add i r.candidates e (h.3 i (ground (arith, seen, other)))
          ]),
        ),
        (λ i named. IsNamed-add i r.candidates e named),
        (λ d same hits.
            Any-append_right (λ (x : Auth). x.identity ≡ d.identity) r.candidates (e ∷ [])
              (inl (ap (λ (x : Auth). x.identity) (sym same)))),
      )

  consider_enforcer-Reserves :
      (e : Auth) (r : Reserved)
      → (Intercepts path e → P e)
      → IsConsistent P r
      → Reserves (λ d. d ≡ e) r (consider_enforcer path e r)
  unfolding consider_enforcer
  consider_enforcer-Reserves e r sound h = elim (Bool-cases (has_cookie_provider e)) [
    | inr bare ↦ rw bare (
        skipped (λ d. d ≡ e) r h
          (λ d same hits. absurd (ground (arith, ap has_cookie_provider same, hits.0, bare))))
    | inl cookie ↦ elim (Bool-cases (is_seen e.identity r.seen)) [
      | inl seen ↦
          rw (cookie, seen)
            (skipped (λ d. d ≡ e) r h
              (λ d same hits.
                subst (λ (x : Auth). IsNamed x.identity r.candidates) (sym same)
                  (h.3 e.identity seen)))
      | inr unseen ↦ elim (Bool-cases (under_prefix path e.path_prefix)) [
        | inr above ↦
            rw (cookie, unseen, above)
              (skipped (λ d. d ≡ e) r h
                (λ d same hits. absurd (
                  ground (
                    arith,
                    ap (λ (x : Auth). under_prefix path x.path_prefix) same,
                    hits.1,
                    above,
                  ))))
        | inl below ↦
            rw (cookie, unseen, below) (reserve-Reserves e r (sound (cookie, below)) unseen h)
      ]
    ]
  ]

  optional-Reserves :
      (o : Option Auth) (r : Reserved)
      → ((e : Auth) → o ≡ some e → Intercepts path e → P e)
      → IsConsistent P r
      → Reserves (λ d. o ≡ some d) r (elim o [ none ↦ r | some e ↦ consider_enforcer path e r ])
  optional-Reserves none r sound h =
      skipped (λ d. none ≡ some d) r h (λ d impossible hits. absurd (ground (arith, impossible)))
  optional-Reserves (some x) r sound h =
      let step = consider_enforcer-Reserves x r (sound x refl) h in
      (step.0, step.1, (λ d same hits. step.2 d (ground (arith, same)) hits))

  guarded-Reserves :
      (S : Auth → Type 0) (b : Bool) (r r' : Reserved)
      → IsConsistent P r
      → (b ≡ true → Reserves S r r')
      → Reserves (λ e. (b ≡ true) × S e) r (if b then r' else r)
  guarded-Reserves S true r r' h inside =
      let step = inside refl in (step.0, step.1, (λ e s hits. step.2 e s.1 hits))
  guarded-Reserves S false r r' h inside =
      skipped (λ e. (false ≡ true) × S e) r h (λ e s hits. absurd (ground (arith, s.0)))

  reserve_rules-Reserves :
      (rules : List RuleTable) (r : Reserved)
      → ((e : Auth) → Any (RuleHas e) rules → Intercepts path e → P e)
      → IsConsistent P r
      → Reserves (λ e. Any (RuleHas e) rules) r (reserve_rules path rules r)
  unfolding reserve_rules
  reserve_rules-Reserves [] r sound h =
      skipped (λ e. ⊥) r h (λ e impossible hits. absurd impossible)
  reserve_rules-Reserves (rule ∷ rules) r sound h =
      let step = optional-Reserves rule.auth_enforcer r (λ e had. sound e (inl had)) h in
      chained (λ d. RuleHas d rule) (λ d. Any (RuleHas d) rules)
        (λ d. Any (RuleHas d) (rule ∷ rules)) r _ _ step
        (reserve_rules-Reserves rules _ (λ d had. sound d (inr had)) step.0) (λ d had. had)

  module _ (host : Str) where
    reserve_routes-Reserves :
        (routes : List RouteTable) (r : Reserved)
        → ((e : Auth) → Any (RouteHas host e) routes → Intercepts path e → P e)
        → IsConsistent P r
        → Reserves (λ e. Any (RouteHas host e) routes) r (reserve_routes host path routes r)
    unfolding reserve_routes
    reserve_routes-Reserves [] r sound h =
        skipped (λ e. ⊥) r h (λ e impossible hits. absurd impossible)
    reserve_routes-Reserves (route ∷ routes) r sound h =
        let step =
          guarded-Reserves (λ e. Any (RuleHas e) route.rules)
            (route_hostname_matches route.hostnames host) r (reserve_rules path route.rules r) h
            (λ matches.
              reserve_rules-Reserves route.rules r (λ e had. sound e (inl (matches, had))) h) in
        chained (λ e. RouteHas host e route) (λ e. Any (RouteHas host e) routes)
          (λ e. Any (RouteHas host e) (route ∷ routes)) r _ _ step
          (reserve_routes-Reserves routes _ (λ e had. sound e (inr had)) step.0) (λ e had. had)

    pub reserve_listeners-Reserves :
        (ls : List ListenerTable) (r : Reserved)
        → ((e : Auth) → IsServed host e ls → Intercepts path e → P e)
        → IsConsistent P r
        → Reserves (λ e. IsServed host e ls) r (reserve_listeners host path ls r)
    unfolding reserve_listeners
    reserve_listeners-Reserves [] r sound h =
        skipped (λ e. ⊥) r h (λ e impossible hits. absurd impossible)
    reserve_listeners-Reserves (l ∷ ls) r sound h =
        let step =
          guarded-Reserves (λ e. Any (RouteHas host e) l.routes) (hostname_matches l.hostname host)
            r (reserve_routes host path l.routes r) h
            (λ matches.
              reserve_routes-Reserves l.routes r (λ e had. sound e (inl (matches, had))) h) in
        chained (λ e. (hostname_matches l.hostname host ≡ true) × Any (RouteHas host e) l.routes)
          (λ e. IsServed host e ls) (λ e. IsServed host e (l ∷ ls)) r _ _ step
          (reserve_listeners-Reserves ls _ (λ e had. sound e (inr had)) step.0) (λ e had. had)
