-- ===== src/Listeners/Round/Stopped.antt =====
-- The children that a round stops.
use krouter.Prelude.{
  suc, ℤ, eq_ℤ, eq_ℤ_iff, ◌≡◌, refl, sym, ap, ◌∙◌, subst, ◌⊎◌, inl, inr, Bool, true, false, not,
  some, is_some, List, [], ◌∷◌, arith, if◌then◌else◌, Bool-cases, Option-cases, Any,
  Any-append_left, Any-append_right, Any-append_cases,
}
use krouter.Routing.Types.{PortSpec}
use krouter.Listeners.Maps.{lookup_at, lookup_at-remove_at}
use krouter.Listeners.{
  Child, Worker, current_at, is_current, stop_child, stop_loop, start_child, start_loop, reconcile,
}
use krouter.Listeners.Round.{IsStopped, IsDropped, StopsDropped}

module _ (ports : List (ℤ × PortSpec)) where
  abbrev stepped : ℤ → Child → Worker → Worker
  stepped q c w = if is_current ports w.specs q then w else stop_child q c w

  IsDropped-of_stale :
      (w : Worker) (port : ℤ) (c : Child)
      → is_current ports w.specs port ≡ false
      → IsDropped ports w port c
  unfolding is_current current_at
  IsDropped-of_stale w port c stale = elim (Option-cases (lookup_at port ports)) [
    | inl unwanted ↦ rw unwanted refl
    | inr (spec, wanted) ↦ ground (arith, stale, wanted)
  ]

  stale_of_dropped :
      (w : Worker) (port : ℤ) (c : Child)
      → IsDropped ports w port c
      → is_current ports w.specs port ≡ false
  unfolding is_current current_at
  stale_of_dropped w port c dropped = elim (Option-cases (lookup_at port ports)) [
    | inl unwanted ↦ rw unwanted refl
    | inr (spec, wanted) ↦ ground (arith, dropped, wanted)
  ]

  stepped-keeps :
      (q : ℤ) (d : Child) (w : Worker) (c : Child) → IsStopped c w → IsStopped c (stepped q d w)
  stepped-keeps q d w c h = elim (Bool-cases (is_current ports w.specs q)) [
    | inl current ↦ rw current h
    | inr stale ↦ rw stale (Any-append_left (λ e. e ≡ c) w.stopped (d ∷ []) h)
  ]

  stop_loop-keeps :
      (l : List (ℤ × Child)) (w : Worker) (c : Child)
      → IsStopped c w
      → IsStopped c (stop_loop ports l w)
  unfolding stop_loop
  stop_loop-keeps [] w c h = h
  stop_loop-keeps ((q, d) ∷ l) w c h = stop_loop-keeps l (stepped q d w) c (stepped-keeps q d w c h)

  -- Another port's step leaves the spec of the port.
  stepped-specs :
      (q : ℤ) (d : Child) (w : Worker) (port : ℤ)
      → eq_ℤ q port ≡ false
      → lookup_at port (stepped q d w).specs ≡ lookup_at port w.specs
  stepped-specs q d w port other = elim (Bool-cases (is_current ports w.specs q)) [
    | inl current ↦ rw current refl
    | inr stale ↦ rw stale (ground (arith, lookup_at-remove_at q port w.specs, other))
  ]

  current_of_specs :
      (v w : Worker) (port : ℤ)
      → lookup_at port v.specs ≡ lookup_at port w.specs
      → is_current ports v.specs port ≡ is_current ports w.specs port
  unfolding is_current
  current_of_specs v w port e = ap (current_at (lookup_at port ports)) e

  stop_loop-stops :
      (port : ℤ) (l : List (ℤ × Child)) (w : Worker) (c : Child)
      → lookup_at port l ≡ some c
      → is_current ports w.specs port ≡ false
      → IsStopped c (stop_loop ports l w)
  unfolding stop_loop lookup_at
  stop_loop-stops port [] w c h stale = cc
  stop_loop-stops port ((q, d) ∷ l) w c h stale = elim (Bool-cases (eq_ℤ q port)) [
    | inl same ↦
        let first : d ≡ c = ground (arith, h, same) in
        let at : is_current ports w.specs q ≡ false =
          ap (is_current ports w.specs) ((eq_ℤ_iff q port).0 same) ∙ stale in
        stop_loop-keeps l (stepped q d w) c
          (rw at (Any-append_right (λ e. e ≡ c) w.stopped (d ∷ []) (inl first)))
    | inr other ↦
        stop_loop-stops port l (stepped q d w) c (ground (arith, h, other))
          (current_of_specs (stepped q d w) w port (stepped-specs q d w port other) ∙ stale)
  ]

  -- The specs that were current at the start of the loop are still there.
  abbrev IsIntact : Worker → Worker → Type 0
  IsIntact start w =
      (port : ℤ)
      → is_current ports start.specs port ≡ true
      → lookup_at port w.specs ≡ lookup_at port start.specs

  stale_at_start :
      (start w : Worker) (q : ℤ)
      → IsIntact start w
      → is_current ports w.specs q ≡ false
      → is_current ports start.specs q ≡ false
  stale_at_start start w q intact stale = elim (Bool-cases (is_current ports start.specs q)) [
    | inl current ↦ absurd (cc (stale, current, current_of_specs w start q (intact q current)))
    | inr before ↦ before
  ]

  stepped-IsIntact :
      (start w : Worker) (q : ℤ) (d : Child) → IsIntact start w → IsIntact start (stepped q d w)
  stepped-IsIntact start w q d intact port current =
      elim (Bool-cases (is_current ports w.specs q)) [
        | inl same ↦ rw same (intact port current)
        | inr stale ↦ elim (Bool-cases (eq_ℤ q port)) [
          | inr other ↦ stepped-specs q d w port other ∙ intact port current
          | inl same ↦
              let here = stale_at_start start w q intact stale in
              absurd (cc (here, current, (eq_ℤ_iff q port).0 same))
        ]
      ]

  stop_loop-no_other :
      (start : Worker) (l : List (ℤ × Child)) (w : Worker) (c : Child)
      → IsIntact start w
      → IsStopped c (stop_loop ports l w)
      → IsStopped c w
        ⊎ ((port : ℤ) × Any (λ entry. entry ≡ (port, c)) l
            × (is_current ports start.specs port ≡ false))
  unfolding stop_loop
  stop_loop-no_other start [] w c intact h = inl h
  stop_loop-no_other start ((q, d) ∷ l) w c intact h =
      elim (stop_loop-no_other start l (stepped q d w) c (stepped-IsIntact start w q d intact) h) [
        | inr (port, listed, stale) ↦ inr (port, inr listed, stale)
        | inl earlier ↦ elim (Bool-cases (is_current ports w.specs q)) [
          | inl current ↦ inl (rw current at earlier)
          | inr stale ↦
              elim (Any-append_cases (λ e. e ≡ c) w.stopped (d ∷ []) (rw stale at earlier)) [
                | inl before ↦ inl before
                | inr (inl now) ↦
                    inr (q, inl (ap (λ e. (q, e)) now), stale_at_start start w q intact stale)
                | inr (inr nothing) ↦ absurd nothing
              ]
        ]
      ]

start_loop-stopped :
    (binds : ℤ → Bool) (l : List (ℤ × PortSpec)) (w : Worker)
    → (start_loop binds l w).stopped ≡ w.stopped
unfolding start_loop
start_loop-stopped binds [] w = refl
start_loop-stopped binds ((port, spec) ∷ l) w =
    start_loop-stopped binds l (
      if is_some (lookup_at port w.children)
      then w
      else if not (binds port)
      then w
      else start_child port spec w)
    ∙ ground arith

pub reconcile-StopsDropped :
    (binds : ℤ → Bool) (ports : List (ℤ × PortSpec)) (w : Worker)
    → StopsDropped ports w (reconcile binds ports w)
unfolding reconcile
reconcile-StopsDropped binds ports w =
    let begun : Worker = record w { round = suc w.round } in
    let v = stop_loop ports w.children begun in
    let same : (start_loop binds ports v).stopped ≡ v.stopped = start_loop-stopped binds ports v in
    record {
      all_dropped = λ port c present dropped. subst (Any (λ d. d ≡ c)) (sym same) (
          stop_loop-stops ports port w.children begun c present
            (stale_of_dropped ports w port c dropped));
      earlier =
          λ c h. subst (Any (λ d. d ≡ c)) (sym same) (stop_loop-keeps ports w.children begun c h);
      no_other = λ c h.
          elim (stop_loop-no_other ports begun w.children begun c (λ port _. refl)
            (subst (Any (λ d. d ≡ c)) same h)) [
              | inl before ↦ inl before
              | inr (port, listed, stale) ↦
                  inr (port, listed, IsDropped-of_stale ports w port c stale)
            ];
    }
