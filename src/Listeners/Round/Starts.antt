-- ===== src/Listeners/Round/Starts.antt =====
-- The second loop of `reconcile`, at each port.
use krouter.Prelude.{
  ℕ, ℤ, eq_ℤ, eq_ℤ_iff, ◌≡◌, refl, sym, ◌∙◌, subst, inl, inr, Bool, true, false, not, Option, none,
  some, is_some, List, [], ◌∷◌, arith, if◌then◌else◌, Bool-cases, Option-cases,
}
use krouter.Routing.Types.{PortSpec}
use krouter.Listeners.Maps.{lookup_at, lookup_at-put_at}
use krouter.Listeners.{Child, Worker, new_child, start_child, start_loop}
use krouter.Listeners.Round.{served_at, started, or_else, IsAt}

module _ (ports : List (ℤ × PortSpec)) (port : ℤ) where
  -- The second loop, at a port that is served, and at one that is not.
  start_step : (ℤ → Bool) → ℤ → PortSpec → Worker → Worker
  start_step binds q spec w =
      if is_some (lookup_at q w.children)
      then w
      else if not (binds q)
      then w
      else start_child q spec w

  start_other :
      (binds : ℤ → Bool) (q : ℤ) (spec : PortSpec) (w : Worker)
      → eq_ℤ q port ≡ false
      → IsAt port (lookup_at port w.children) (lookup_at port w.specs) (start_step binds q spec w)
  unfolding start_step
  start_other binds q spec w other = ground (
    arith,
    lookup_at-put_at q port (new_child q spec w.round) w.children,
    lookup_at-put_at q port spec w.specs,
    other,
  )

  start_step-round :
      (binds : ℤ → Bool) (q : ℤ) (spec : PortSpec) (w : Worker)
      → (start_step binds q spec w).round ≡ w.round
  unfolding start_step
  start_step-round binds q spec w = ground arith

  start_loop-served :
      (binds : ℤ → Bool) (l : List (ℤ × PortSpec)) (w : Worker) (c : Child)
      → lookup_at port w.children ≡ some c
      → IsAt port (lookup_at port w.children) (lookup_at port w.specs) (start_loop binds l w)
  unfolding start_loop start_step
  start_loop-served binds [] w c present = (refl, refl)
  start_loop-served binds ((q, spec) ∷ l) w c present = elim (Bool-cases (eq_ℤ q port)) [
    | inl same ↦
        let here : start_step binds q spec w ≡ w = rw ((eq_ℤ_iff q port).0 same, present) refl in
        subst
          (λ (v : Worker).
            IsAt port (lookup_at port w.children) (lookup_at port w.specs) (start_loop binds l v))
          (sym here) (start_loop-served binds l w c present)
    | inr other ↦
        let (a, b) = start_other binds q spec w other in
        let later = start_loop-served binds l (start_step binds q spec w) c (a ∙ present) in
        (later.0 ∙ a, later.1 ∙ b)
  ]

  -- The lookups at the port once it has been started, if it is wanted and can be bound.
  abbrev IsStarted : Option PortSpec → Bool → ℕ → Worker → Type 0
  IsStarted none b round w = IsAt port none none w
  IsStarted (some spec) true round w = IsAt port (some (new_child port spec round)) (some spec) w
  IsStarted (some spec) false round w = IsAt port none none w

  unbound :
      (o : Option PortSpec) (n : ℕ) (w : Worker) → IsStarted o false n w → IsAt port none none w
  unbound none n w h = h
  unbound (some spec) n w h = h

  start_loop-free :
      (binds : ℤ → Bool) (l : List (ℤ × PortSpec)) (w : Worker)
      → lookup_at port w.children ≡ none
      → lookup_at port w.specs ≡ none
      → IsStarted (lookup_at port l) (binds port) w.round (start_loop binds l w)
  unfolding start_loop lookup_at start_step
  start_loop-free binds [] w a b = (a, b)
  start_loop-free binds ((q, spec) ∷ l) w a b = elim (Bool-cases (eq_ℤ q port)) [
    | inr other ↦
        let v = start_step binds q spec w in
        let (x, y) = start_other binds q spec w other in
        rw other (
          subst (λ (n : ℕ). IsStarted (lookup_at port l) (binds port) n (start_loop binds l v))
            (start_step-round binds q spec w) (start_loop-free binds l v (x ∙ a) (y ∙ b)))
    | inl same ↦ elim (Bool-cases (binds port)) [
      | inl bound ↦
          let v = start_child q spec w in
          let here : start_step binds q spec w ≡ v = rw ((eq_ℤ_iff q port).0 same, a, bound) refl in
          let c : lookup_at port v.children ≡ some (new_child port spec w.round) =
            rw ((eq_ℤ_iff q port).0 same) (
              ground (
                arith,
                lookup_at-put_at port port (new_child port spec w.round) w.children,
                eq_ℤ_iff port port,
              )) in
          let d : lookup_at port v.specs ≡ some spec =
            ground (arith, lookup_at-put_at q port spec w.specs, same) in
          let later = start_loop-served binds l v (new_child port spec w.round) c in
          rw (same, bound)
            (subst
              (λ (u : Worker).
                IsAt port (some (new_child port spec w.round)) (some spec) (start_loop binds l u))
              (sym here) (later.0 ∙ c, later.1 ∙ d))
      | inr refused ↦
          let here : start_step binds q spec w ≡ w =
            rw ((eq_ℤ_iff q port).0 same, a, refused) refl in
          rw (same, refused)
            (subst (λ (u : Worker). IsAt port none none (start_loop binds l u)) (sym here)
              (unbound (lookup_at port l) w.round (start_loop binds l w) (
                subst (λ (t : Bool). IsStarted (lookup_at port l) t w.round (start_loop binds l w))
                  refused (start_loop-free binds l w a b))))
    ]
  ]

  of_started :
      (o : Option PortSpec) (b : Bool) (n : ℕ) (u w : Worker)
      → lookup_at port w.children ≡ none
      → IsStarted o b n u
      → (served_at u port ≡ or_else (served_at w port) (started port o b n))
        × (is_some (lookup_at port u.children) ≡ is_some (lookup_at port u.specs))
  of_started none b n u w absent (x, y) = (ground (arith, x, y, absent), ground (arith, x, y))
  of_started (some spec) true n u w absent (x, y) =
      (ground (arith, x, y, absent), ground (arith, x, y))
  of_started (some spec) false n u w absent (x, y) =
      (ground (arith, x, y, absent), ground (arith, x, y))

  -- The second loop, as a whole.
  pub after_start :
      (binds : ℤ → Bool) (l : List (ℤ × PortSpec)) (w : Worker)
      → is_some (lookup_at port w.children) ≡ is_some (lookup_at port w.specs)
      → (served_at (start_loop binds l w) port
          ≡ or_else (served_at w port) (started port (lookup_at port l) (binds port) w.round))
        × (is_some (lookup_at port (start_loop binds l w).children)
            ≡ is_some (lookup_at port (start_loop binds l w).specs))
  after_start binds l w consistent = elim (Option-cases (lookup_at port w.children)) [
    | inr (c, present) ↦
        let (a, b) = start_loop-served binds l w c present in
        (ground (arith, a, b, present), ground (arith, a, b, consistent))
    | inl absent ↦ elim (Option-cases (lookup_at port w.specs)) [
      | inr (spec, there) ↦ absurd (ground (arith, consistent, absent, there))
      | inl nothing ↦
          let free = start_loop-free binds l w absent nothing in
          of_started (lookup_at port l) (binds port) w.round (start_loop binds l w) w absent free
    ]
  ]
