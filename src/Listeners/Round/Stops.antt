-- ===== src/Listeners/Round/Stops.antt =====
-- The first loop of `reconcile`, at each port.
use krouter.Prelude.{
  ℤ, eq_ℤ, eq_ℤ_iff, ◌≡◌, refl, sym, ap, ◌∙◌, subst, inl, inr, true, false, none, some, is_some,
  List, [], ◌∷◌, arith, if◌then◌else◌, Bool-cases, Option-cases,
}
use krouter.Routing.Types.{PortSpec}
use krouter.Listeners.Maps.{lookup_at, lookup_at-remove_at}
use krouter.Listeners.{Child, Worker, current_at, is_current, stop_child, stop_loop}
use krouter.Listeners.Round.{served_at, kept, IsAt}

-- The children and the specs after the first loop, at a port.
module _ (ports : List (ℤ × PortSpec)) (port : ℤ) where
  stop_other :
      (q : ℤ) (c : Child) (w : Worker)
      → eq_ℤ q port ≡ false
      → (lookup_at port (stop_child q c w).children ≡ lookup_at port w.children)
        × (lookup_at port (stop_child q c w).specs ≡ lookup_at port w.specs)
  stop_other q c w other = (
    ground (arith, lookup_at-remove_at q port w.children, other),
    ground (arith, lookup_at-remove_at q port w.specs, other),
  )

  stop_same :
      (c : Child) (w : Worker)
      → (lookup_at port (stop_child port c w).children ≡ none)
        × (lookup_at port (stop_child port c w).specs ≡ none)
  stop_same c w = (
    ground (arith, lookup_at-remove_at port port w.children, eq_ℤ_iff port port),
    ground (arith, lookup_at-remove_at port port w.specs, eq_ℤ_iff port port),
  )

  -- A port that is not served stays so.
  stop_loop-none :
      (l : List (ℤ × Child)) (w : Worker)
      → lookup_at port w.children ≡ none
      → lookup_at port w.specs ≡ none
      → (lookup_at port (stop_loop ports l w).children ≡ none)
        × (lookup_at port (stop_loop ports l w).specs ≡ none)
  unfolding stop_loop
  stop_loop-none [] w a b = (a, b)
  stop_loop-none ((q, c) ∷ l) w a b = elim (Bool-cases (is_current ports w.specs q)) [
    | inl current ↦ rw (current, stop_loop) (stop_loop-none l w a b)
    | inr stale ↦
        rw (stale, stop_loop)
          (stop_loop-none l (stop_child q c w)
            (ground (arith, lookup_at-remove_at q port w.children, a))
            (ground (arith, lookup_at-remove_at q port w.specs, b)))
  ]

  -- Whether a port is current depends on the specs only at that port.
  current_of_lookup :
      (specs specs' : List (ℤ × PortSpec))
      → lookup_at port specs ≡ lookup_at port specs'
      → is_current ports specs port ≡ is_current ports specs' port
  unfolding is_current
  current_of_lookup specs specs' h = ap (current_at (lookup_at port ports)) h

  abbrev stepped : ℤ → Child → Worker → Worker
  stepped q c w = if is_current ports w.specs q then w else stop_child q c w

  step_other :
      (q : ℤ) (c : Child) (w : Worker)
      → eq_ℤ q port ≡ false
      → IsAt port (lookup_at port w.children) (lookup_at port w.specs) (stepped q c w)
  step_other q c w other = elim (Bool-cases (is_current ports w.specs q)) [
    | inl current ↦ rw current (refl, refl)
    | inr stale ↦ rw stale (stop_other q c w other)
  ]

  step_current :
      (c : Child) (w : Worker) (q : ℤ)
      → q ≡ port
      → is_current ports w.specs port ≡ true
      → stepped q c w ≡ w
  step_current c w q same at = rw (same, at) refl

  step_stale :
      (c : Child) (w : Worker) (q : ℤ)
      → q ≡ port
      → is_current ports w.specs port ≡ false
      → IsAt port none none (stepped q c w)
  step_stale c w q same at = rw (same, at) (stop_same c w)

  stop_loop-current :
      (l : List (ℤ × Child)) (w : Worker)
      → is_current ports w.specs port ≡ true
      → IsAt port (lookup_at port w.children) (lookup_at port w.specs) (stop_loop ports l w)
  unfolding stop_loop
  stop_loop-current [] w at = (refl, refl)
  stop_loop-current ((q, c) ∷ l) w at = elim (Bool-cases (eq_ℤ q port)) [
    | inl same ↦
        subst
          (λ (v : Worker).
            IsAt port (lookup_at port w.children) (lookup_at port w.specs) (stop_loop ports l v))
          (sym (step_current c w q ((eq_ℤ_iff q port).0 same) at)) (stop_loop-current l w at)
    | inr other ↦
        let (a, b) = step_other q c w other in
        let later =
          stop_loop-current l (stepped q c w)
            (current_of_lookup (stepped q c w).specs w.specs b ∙ at) in
        (later.0 ∙ a, later.1 ∙ b)
  ]

  stop_loop-absent :
      (l : List (ℤ × Child)) (w : Worker)
      → lookup_at port l ≡ none
      → IsAt port (lookup_at port w.children) (lookup_at port w.specs) (stop_loop ports l w)
  unfolding stop_loop lookup_at
  stop_loop-absent [] w h = (refl, refl)
  stop_loop-absent ((q, c) ∷ l) w h = elim (Bool-cases (eq_ℤ q port)) [
    | inl same ↦ absurd (ground (arith, h, same))
    | inr other ↦
        let (a, b) = step_other q c w other in
        let later = stop_loop-absent l (stepped q c w) (ground (arith, h, other)) in
        (later.0 ∙ a, later.1 ∙ b)
  ]

  stop_loop-stale :
      (l : List (ℤ × Child)) (w : Worker) (child : Child)
      → lookup_at port l ≡ some child
      → is_current ports w.specs port ≡ false
      → IsAt port none none (stop_loop ports l w)
  unfolding stop_loop lookup_at
  stop_loop-stale [] w child h at = cc
  stop_loop-stale ((q, c) ∷ l) w child h at = elim (Bool-cases (eq_ℤ q port)) [
    | inl same ↦
        let (a, b) = step_stale c w q ((eq_ℤ_iff q port).0 same) at in
        stop_loop-none l (stepped q c w) a b
    | inr other ↦
        let (a, b) = step_other q c w other in
        stop_loop-stale l (stepped q c w) child (ground (arith, h, other))
          (current_of_lookup (stepped q c w).specs w.specs b ∙ at)
  ]

  -- The first loop, as a whole.
  pub after_stop :
      (w : Worker)
      → is_some (lookup_at port w.children) ≡ is_some (lookup_at port w.specs)
      → (served_at (stop_loop ports w.children w) port
          ≡ kept (lookup_at port ports) (served_at w port))
        × (is_some (lookup_at port (stop_loop ports w.children w).children)
            ≡ is_some (lookup_at port (stop_loop ports w.children w).specs))
  unfolding is_current current_at
  after_stop w consistent = elim (Option-cases (lookup_at port w.children)) [
    | inl absent ↦
        let (a, b) = stop_loop-absent w.children w absent in
        (ground (arith, a, b, absent), ground (arith, a, b, consistent))
    | inr (c, present) ↦ elim (Bool-cases (is_current ports w.specs port)) [
      | inl current ↦
          let (a, b) = stop_loop-current w.children w current in
          elim (Option-cases (lookup_at port ports)) [
            | inl unwanted ↦ absurd (ground (arith, current, unwanted))
            | inr (spec, wanted) ↦
                (ground (arith, a, b, present, wanted, current), ground (arith, a, b, consistent))
          ]
      | inr stale ↦
          let (a, b) = stop_loop-stale w.children w c present stale in
          elim (Option-cases (lookup_at port ports)) [
            | inl unwanted ↦ (ground (arith, a, b, present, unwanted), ground (arith, a, b))
            | inr (spec, wanted) ↦
                (ground (arith, a, b, present, wanted, stale), ground (arith, a, b))
          ]
    ]
  ]

  stepped-round : (q : ℤ) (c : Child) (w : Worker) → (stepped q c w).round ≡ w.round
  stepped-round q c w = ground arith

  pub stop_loop-round : (l : List (ℤ × Child)) (w : Worker) → (stop_loop ports l w).round ≡ w.round
  unfolding stop_loop
  stop_loop-round [] w = refl
  stop_loop-round ((q, c) ∷ l) w = stop_loop-round l (stepped q c w) ∙ stepped-round q c w
