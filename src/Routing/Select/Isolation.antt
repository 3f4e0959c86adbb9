-- ===== src/Routing/Select/Isolation.antt =====
-- Listener isolation (match.go: the first loop of match).
use krouter.Prelude.{
  ℕ, ◌≤◌, ◌≡◌, refl, sym, subst, ◌⊎◌, inl, inr, true, ◌&&◌, Option, none, some, List, [], ◌∷◌,
  arith, if◌then◌else◌, All, Any, Bool-cases, Option-cases, Str, ltb,
}
use krouter.Routing.Types.{ListenerTable}
use krouter.Routing.Hostname.{hostname_matches, hostname_score}
use krouter.Routing.Select.{exceeds, winning_loop, listener_wins}
use krouter.Routing.Select.Candidates.{In}

module _ (host : Str) where
  -- The listener matches the host, and no listener of the port that matches it scores higher.
  abbrev pub OwnsHost : List ListenerTable → ListenerTable → Type 0
  OwnsHost listeners l =
      (hostname_matches l.hostname host ≡ true)
      × All
          (λ k.
            hostname_matches k.hostname host ≡ true
            → hostname_score k.hostname ≤ hostname_score l.hostname)
          listeners

  abbrev Bounded : List ListenerTable → ℕ → Type 0
  Bounded listeners w =
      All (λ k. hostname_matches k.hostname host ≡ true → hostname_score k.hostname ≤ w) listeners

  abbrev AtMost : Option ℕ → ℕ → Type 0
  AtMost none w = Unit
  AtMost (some best) w = best ≤ w

  -- The value after one round of the first loop.
  abbrev next_winning : Option ℕ → ListenerTable → Option ℕ
  next_winning best l =
      if hostname_matches l.hostname host && exceeds (hostname_score l.hostname) best
      then some (hostname_score l.hostname)
      else best

  next_winning-bounds :
      (best : Option ℕ) (l : ListenerTable) (w : ℕ)
      → AtMost (next_winning best l) w
      → AtMost best w × (hostname_matches l.hostname host ≡ true → hostname_score l.hostname ≤ w)
  next_winning-bounds none l w h = (tt, ground arith)
  next_winning-bounds (some b) l w h = (ground arith, ground arith)

  AtMost-self : (best : Option ℕ) (w : ℕ) → best ≡ some w → AtMost best w
  AtMost-self none w e = cc
  AtMost-self (some b) w e = ground arith

  winning_loop-bounds :
      (best : Option ℕ) (listeners : List ListenerTable) (w : ℕ)
      → winning_loop host best listeners ≡ some w
      → AtMost best w × Bounded listeners w
  unfolding winning_loop
  winning_loop-bounds best [] w e = (AtMost-self best w e, tt)
  winning_loop-bounds best (l ∷ ls) w e =
      let (a, rest) = winning_loop-bounds (next_winning best l) ls w e in
      let (b, here) = next_winning-bounds best l w a in (b, (here, rest))

  abbrev Attains : ℕ → ListenerTable → Type 0
  Attains w k = (hostname_matches k.hostname host ≡ true) × (hostname_score k.hostname ≡ w)

  next_winning-attained :
      (best : Option ℕ) (l : ListenerTable) (w : ℕ)
      → next_winning best l ≡ some w
      → (best ≡ some w) ⊎ Attains w l
  next_winning-attained none l w h = ground arith
  next_winning-attained (some b) l w h = ground arith

  winning_loop-attained :
      (best : Option ℕ) (listeners : List ListenerTable) (w : ℕ)
      → winning_loop host best listeners ≡ some w
      → (best ≡ some w) ⊎ Any (Attains w) listeners
  unfolding winning_loop
  winning_loop-attained best [] w e = inl e
  winning_loop-attained best (l ∷ ls) w e =
      elim (winning_loop-attained (next_winning best l) ls w e) [
        | inl h ↦ elim (next_winning-attained best l w h) [
          | inl same ↦ inl same
          | inr a ↦ inr (inl a)
        ]
        | inr a ↦ inr (inr a)
      ]

  winning_loop-some :
      (b : ℕ) (listeners : List ListenerTable)
      → (w : ℕ) × (winning_loop host (some b) listeners ≡ some w)
  unfolding winning_loop
  winning_loop-some b [] = (b, refl)
  winning_loop-some b (l ∷ ls) =
      elim (Bool-cases (hostname_matches l.hostname host && ltb b (hostname_score l.hostname))) [
        | inl h ↦ rw h (winning_loop-some (hostname_score l.hostname) ls)
        | inr h ↦ rw h (winning_loop-some b ls)
      ]

  winning_loop-found :
      (best : Option ℕ) (l : ListenerTable) (listeners : List ListenerTable)
      → hostname_matches l.hostname host ≡ true
      → In l listeners
      → (w : ℕ) × (winning_loop host best listeners ≡ some w)
  unfolding winning_loop
  winning_loop-found best l [] m i = elim i [ ]
  winning_loop-found best l (k ∷ ls) m (inr i) = winning_loop-found (next_winning best k) l ls m i
  winning_loop-found none l (k ∷ ls) m (inl e) =
      let n : hostname_matches k.hostname host ≡ true =
        subst (λ x. hostname_matches x.hostname host ≡ true) (sym e) m in
      rw n (winning_loop-some (hostname_score k.hostname) ls)
  winning_loop-found (some b) l (k ∷ ls) m (inl e) = winning_loop-some b (k ∷ ls)

  Bounded-In :
      (listeners : List ListenerTable) (w : ℕ) (l : ListenerTable)
      → Bounded listeners w
      → In l listeners
      → hostname_matches l.hostname host ≡ true
      → hostname_score l.hostname ≤ w
  Bounded-In [] w l b i m = elim i [ ]
  Bounded-In (k ∷ ls) w l b (inl e) m =
      subst (λ x. hostname_matches x.hostname host ≡ true → hostname_score x.hostname ≤ w) e b.0 m
  Bounded-In (k ∷ ls) w l b (inr i) m = Bounded-In ls w l b.1 i m

  Bounded-attained :
      (listeners : List ListenerTable) (v w : ℕ)
      → Bounded listeners v
      → Any (Attains w) listeners
      → w ≤ v
  Bounded-attained [] v w b a = elim a [ ]
  Bounded-attained (k ∷ ls) v w b (inl (m, e)) = let le = b.0 m in omega arith
  Bounded-attained (k ∷ ls) v w b (inr a) = Bounded-attained ls v w b.1 a

  pub listener_wins-OwnsHost :
      (listeners : List ListenerTable) (l : ListenerTable)
      → listener_wins host (winning_loop host none listeners) l ≡ true
      → OwnsHost listeners l
  listener_wins-OwnsHost listeners l h = elim (Option-cases (winning_loop host none listeners)) [
    | inl e ↦
        let g : listener_wins host none l ≡ true = rw e at h in
        let no_winner : ⊥ = ground arith in absurd no_winner
    | inr (w, e) ↦
        let g : listener_wins host (some w) l ≡ true = rw e at h in
        let same : hostname_score l.hostname ≡ w = ground arith in
        (
          ground arith,
          subst (Bounded listeners) (sym same) (winning_loop-bounds none listeners w e).1,
        )
  ]

  pub OwnsHost-listener_wins :
      (listeners : List ListenerTable) (l : ListenerTable)
      → In l listeners
      → OwnsHost listeners l
      → listener_wins host (winning_loop host none listeners) l ≡ true
  OwnsHost-listener_wins listeners l i (m, top) =
      let (w, e) = winning_loop-found none l listeners m i in
      let upper = Bounded-In listeners w l (winning_loop-bounds none listeners w e).1 i m in
      let lower : w ≤ hostname_score l.hostname = elim (winning_loop-attained none listeners w e) [
        | inl h ↦ cc
        | inr a ↦ Bounded-attained listeners (hostname_score l.hostname) w top a
      ] in
      rw (m, e) (ground arith)
