-- ===== src/Routing/Select/Listener.antt =====
-- The listener that owns a host name (match.go: bestListenerFor).
use krouter.Prelude.{
  ◌≤◌, ◌≡◌, ◌↔◌, ◌∙◌, refl, subst, inl, inr, Bool, true, false, Option, none, some, List, [], ◌∷◌,
  arith, All, All-imp, Bool-cases, Str, ltb, filter_by,
}
use krouter.Select.{
  IsRanking, IsFirstBest, IsFirstBest-pick_best, pick_best-eq-none_iff, pick_best, Picks,
  pick_best-Picks, IsFirstBest-unbeaten, IsFirstBest-holds,
}
use krouter.Routing.Types.{ListenerTable, PortTable}
use krouter.Routing.Hostname.{hostname_matches, hostname_score}
use krouter.Routing.Select.{best_listener_loop, best_listener_for}
use krouter.Routing.Select.Candidates.{In}
use krouter.Routing.Select.Isolation.{OwnsHost}

abbrev pub listener_beats : ListenerTable → ListenerTable → Bool
listener_beats l k = ltb (hostname_score k.hostname) (hostname_score l.hostname)

listener_beats-IsRanking : IsRanking listener_beats
listener_beats-IsRanking = record {
  irrefl = λ l. ground arith;
  trans = λ k l m h i. ground arith;
  cotrans = λ k l m h i. ground arith;
}

module _ (host : Str) where
  abbrev pub matching : List ListenerTable → List ListenerTable
  matching = filter_by (λ l. hostname_matches l.hostname host)

  best_listener_loop-some :
      (b : ListenerTable) (ls : List ListenerTable)
      → best_listener_loop host (some b) (some (hostname_score b.hostname)) ls
        ≡ pick_best listener_beats (some b) (matching ls)
  unfolding best_listener_loop pick_best
  best_listener_loop-some b [] = refl
  best_listener_loop-some b (l ∷ ls) =
      ground (arith, best_listener_loop-some l ls, best_listener_loop-some b ls)

  best_listener_loop-none :
      (ls : List ListenerTable)
      → best_listener_loop host none none ls ≡ pick_best listener_beats none (matching ls)
  unfolding best_listener_loop pick_best
  best_listener_loop-none [] = refl
  best_listener_loop-none (l ∷ ls) =
      ground (arith, best_listener_loop-some l ls, best_listener_loop-none ls)

  -- The owner of a host is the first of the best scored listeners that match it.
  pub best_listener_for-Picks :
      (table : PortTable)
      → Picks listener_beats (best_listener_for table host) (matching table.listeners)
  unfolding best_listener_for
  best_listener_for-Picks table =
      rw (best_listener_loop-none table.listeners)
        (pick_best-Picks listener_beats listener_beats-IsRanking (matching table.listeners))

  matching-holds :
      (ls : List ListenerTable) → All (λ l. hostname_matches l.hostname host ≡ true) (matching ls)
  matching-holds [] = tt
  matching-holds (l ∷ ls) = elim (Bool-cases (hostname_matches l.hostname host)) [
    | inl m ↦ rw m (m, matching-holds ls)
    | inr m ↦ rw m (matching-holds ls)
  ]

  score_le :
      (k l : ListenerTable)
      → listener_beats k l ≡ false
      → hostname_score k.hostname ≤ hostname_score l.hostname
  score_le k l h = ground arith

  unbeaten-owns :
      (l : ListenerTable) (ls : List ListenerTable)
      → All (λ k. listener_beats k l ≡ false) (matching ls)
      → All
          (λ k.
            hostname_matches k.hostname host ≡ true
            → hostname_score k.hostname ≤ hostname_score l.hostname)
          ls
  unbeaten-owns l [] h = tt
  unbeaten-owns l (k ∷ ls) h = elim (Bool-cases (hostname_matches k.hostname host)) [
    | inl m ↦
        let (here, later) = (rw m at h) in ((λ _. score_le k l here), unbeaten-owns l ls later)
    | inr m ↦ ((λ n. cc), unbeaten-owns l ls (rw m at h))
  ]

  Picks-OwnsHost :
      (ls : List ListenerTable) (best : Option ListenerTable) (l : ListenerTable)
      → Picks listener_beats best (matching ls)
      → best ≡ some l
      → OwnsHost host ls l
  Picks-OwnsHost ls none l h e = cc
  Picks-OwnsHost ls (some k) l h e =
      let same : k ≡ l = cc in
      subst (OwnsHost host ls) same (
        IsFirstBest-holds listener_beats (λ x. hostname_matches x.hostname host ≡ true) k
            (matching ls) h (matching-holds ls),
        unbeaten-owns k ls
            (IsFirstBest-unbeaten listener_beats listener_beats-IsRanking k (matching ls) h),
      )

  matching-In : (ls : List ListenerTable) → All (λ l. In l ls) (matching ls)
  matching-In [] = tt
  matching-In (l ∷ ls) =
      let later =
        All-imp (λ k. In k ls) (λ k. In k (l ∷ ls)) (matching ls) (λ k i. inr i) (matching-In ls) in
      elim (Bool-cases (hostname_matches l.hostname host)) [
        | inl m ↦ rw m (inl refl, later)
        | inr m ↦ rw m later
      ]

  Picks-In :
      (ls : List ListenerTable) (best : Option ListenerTable) (l : ListenerTable)
      → Picks listener_beats best (matching ls)
      → best ≡ some l
      → In l ls
  Picks-In ls none l h e = cc
  Picks-In ls (some k) l h e =
      let same : k ≡ l = cc in
      subst (λ x. In x ls) same
        (IsFirstBest-holds listener_beats (λ x. In x ls) k (matching ls) h (matching-In ls))

  -- The listener that is found for a host stands in the table and owns the host.
  pub best_listener_for-OwnsHost :
      (table : PortTable) (l : ListenerTable)
      → best_listener_for table host ≡ some l
      → In l table.listeners × OwnsHost host table.listeners l
  best_listener_for-OwnsHost table l e = (
    Picks-In table.listeners (best_listener_for table host) l (best_listener_for-Picks table) e,
    Picks-OwnsHost table.listeners (best_listener_for table host) l (best_listener_for-Picks table)
        e,
  )

  -- The owner of a host: among the listeners of the port that match it, the first of the best scored.
  abbrev pub Owns : PortTable → ListenerTable → Type 0
  Owns table l = IsFirstBest listener_beats l (matching table.listeners)

  pub best_listener_for-none :
      (table : PortTable) → (best_listener_for table host ≡ none) ↔ (matching table.listeners ≡ [])
  unfolding best_listener_for
  best_listener_for-none table =
      rw (best_listener_loop-none table.listeners)
        (pick_best-eq-none_iff listener_beats (matching table.listeners))

  pub best_listener_for-Owns :
      (table : PortTable) (l : ListenerTable)
      → (best_listener_for table host ≡ some l) ↔ Owns table l
  unfolding best_listener_for
  best_listener_for-Owns table l = (
    (λ e.
        subst (λ o. Picks listener_beats o (matching table.listeners)) e
          (best_listener_for-Picks table)),
    (λ h.
        best_listener_loop-none table.listeners
        ∙ IsFirstBest-pick_best listener_beats listener_beats-IsRanking l (matching table.listeners)
            h),
  )
