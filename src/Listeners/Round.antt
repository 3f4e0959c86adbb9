-- ===== src/Listeners/Round.antt =====
-- The round of one port in the abstract (internal/app/dataplane/listeners/worker.go, reconcile).
pub mod Stops
pub mod Starts
pub mod Stopped
pub mod Refined
use krouter.Prelude.{
  Any, ◌⊎◌, ℕ, suc, ℤ, eq_ℤ, eq_ℤ_iff, ◌≡◌, ◌≢◌, refl, sym, ap, ap₂, ◌∙◌, subst, inl, inr, Bool,
  true, false, not, ◌&&◌, Option, none, some, is_some, List, [], ◌∷◌, arith, if◌then◌else◌,
  Bool-cases, Option-cases,
}
use krouter.Routing.Types.{PortSpec}
use krouter.Listeners.Maps.{lookup_at, put_at, remove_at, lookup_at-put_at, lookup_at-remove_at}
use krouter.Listeners.{
  Child, Worker, same_spec, spec_or_zero, new_child, current_at, is_current, stop_child, stop_loop,
  start_child, start_loop, reconcile,
}

-- A port in the abstract: not served, or served by a child that was started with a spec.
abbrev pub Served : Type 0
Served = Option (Child × PortSpec)

abbrev pub served_of : Option Child → Option PortSpec → Served
served_of none spec = none
served_of (some c) spec = some (c, spec_or_zero spec)

abbrev pub served_at : Worker → ℤ → Served
served_at w port = served_of (lookup_at port w.children) (lookup_at port w.specs)

-- A child stays if its port is wanted with the spec that it was started with.
abbrev pub kept : Option PortSpec → Served → Served
kept wanted none = none
kept none (some _) = none
kept (some spec) (some (c, old)) = if same_spec spec old then some (c, old) else none

abbrev pub started : ℤ → Option PortSpec → Bool → ℕ → Served
started port none binds round = none
started port (some spec) binds round =
    if binds then some (new_child port spec round, spec) else none

abbrev pub or_else : Served → Served → Served
or_else (some s) other = some s
or_else none other = other

-- The round of one port, for which no other port counts.
abbrev pub next : ℤ → Option PortSpec → Bool → ℕ → Served → Served
next port wanted binds round s = or_else (kept wanted s) (started port wanted binds round)

-- `children` and `specs` have the same keys.
abbrev pub IsConsistent : Worker → Type 0
IsConsistent w = (port : ℤ) → is_some (lookup_at port w.children) ≡ is_some (lookup_at port w.specs)

abbrev pub listed : ℤ → List (ℤ × Child) → Bool
listed port l = is_some (lookup_at port l)

-- The lookups at the port.
abbrev pub IsAt : ℤ → Option Child → Option PortSpec → Worker → Type 0
IsAt port c spec w = (lookup_at port w.children ≡ c) × (lookup_at port w.specs ≡ spec)

-- `Stop` has been called on the child.
abbrev pub IsStopped : Child → Worker → Type 0
IsStopped c w = Any (λ d. d ≡ c) w.stopped

-- The child at the port does not stay.
abbrev pub IsDropped : List (ℤ × PortSpec) → Worker → ℤ → Child → Type 0
IsDropped ports w port c =
    kept (lookup_at port ports) (served_of (some c) (lookup_at port w.specs)) ≡ none

-- A round from `w` to `after` stops the children that do not stay, and no other ones.
pub record StopsDropped (ports : List (ℤ × PortSpec)) (w after : Worker) : Type 0 where
  pub all_dropped :
      (port : ℤ) (c : Child)
      → lookup_at port w.children ≡ some c
      → IsDropped ports w port c
      → IsStopped c after
  pub earlier : (c : Child) → IsStopped c w → IsStopped c after
  pub no_other :
      (c : Child)
      → IsStopped c after
      → IsStopped c w
        ⊎ ((port : ℤ) × Any (λ entry. entry ≡ (port, c)) w.children × IsDropped ports w port c)
