-- ===== src/Examples/Supervising.antt =====
-- A worker that takes tables for the ports 8080 and 9090, of which one then changes its kind.
use krouter.Prelude.{
  ◌≡◌, refl, ℤ, pos, eq_ℤ, not, Bool, true, false, List, [], ◌∷◌, ◌++◌, some, arith,
}
use krouter.Routing.Types.{PortSpec}
use krouter.Listeners.{Child, Worker, tcp, http, zero_spec, reconcile, initial, tables_of}
use krouter.Listeners.Maps.{lookup_at}
use krouter.Listeners.Round.{served_at, next, IsConsistent, StopsDropped}
use krouter.Listeners.Round.Refined.{reconcile-Refines}
use krouter.Listeners.History.{run, wanted_served, IsServerFor, served_undisturbed}

abbrev https_spec : PortSpec
https_spec = record zero_spec { tls = true }

abbrev tcp_spec : PortSpec
tcp_spec = record zero_spec { tcp = true }

-- Port 7070 is taken by another process.
abbrev binds : ℤ → Bool
binds port = not (eq_ℤ port (pos 7070))

abbrev before : List (ℤ × PortSpec)
before = (pos 8080, https_spec) ∷ (pos 7070, tcp_spec) ∷ (pos 9090, tcp_spec) ∷ []

abbrev after : List (ℤ × PortSpec)
after = (pos 9090, https_spec) ∷ (pos 8080, https_spec) ∷ []

-- Port 9090 changes from TCP to HTTPS.
wanted_served_example :
    (c : Child) × (served_at
        (run ((tables_of before binds ∷ []) ++ tables_of after binds ∷ []) initial)
        (pos 9090)
      ≡ some (c, https_spec))
    × IsServerFor (pos 9090) https_spec c
unfolding lookup_at
wanted_served_example =
    wanted_served (tables_of before binds ∷ []) after binds (pos 9090) https_spec (tt, tt) refl refl

abbrev serving : Child
serving = record { port = pos 8080; kind = http true; guarded = false; since = 1 }

abbrev outdated : Child
outdated = record { port = pos 9090; kind = tcp; guarded = false; since = 1 }

abbrev running : Worker
running = record {
  children = (pos 8080, serving) ∷ (pos 9090, outdated) ∷ [];
  specs = (pos 8080, https_spec) ∷ (pos 9090, tcp_spec) ∷ [];
  round = 1;
  stopped = [];
}

running-IsConsistent : IsConsistent running
unfolding lookup_at
running-IsConsistent port = ground arith

-- The server at 9090 is stopped, and another one started.
reconcile-Refines_example :
    ((port : ℤ)
      → served_at (reconcile binds after running) port
        ≡ next port (lookup_at port after) (binds port) 2 (served_at running port))
    × IsConsistent (reconcile binds after running)
    × StopsDropped after running (reconcile binds after running)
reconcile-Refines_example = reconcile-Refines binds after running running-IsConsistent

served_undisturbed_example :
    served_at (run (tables_of before binds ∷ tables_of after binds ∷ []) running) (pos 8080)
    ≡ some (serving, https_spec)
unfolding lookup_at
served_undisturbed_example =
    served_undisturbed (tables_of before binds ∷ tables_of after binds ∷ []) running (pos 8080)
      serving https_spec running-IsConsistent refl (refl, (refl, tt))
