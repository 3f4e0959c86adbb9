-- ===== src/Listeners/Round/Refined.antt =====
-- A whole round of `reconcile`, against the round of one port.
use krouter.Prelude.{ℕ, suc, ℤ, ◌≡◌, ap₂, ◌∙◌, Bool, is_some, List}
use krouter.Routing.Types.{PortSpec}
use krouter.Listeners.Maps.{lookup_at}
use krouter.Listeners.{Worker, stop_loop, start_loop, reconcile}
use krouter.Listeners.Round.{Served, served_at, started, or_else, next, IsConsistent, StopsDropped}
use krouter.Listeners.Round.Stopped.{reconcile-StopsDropped}
use krouter.Listeners.Round.Stops.{after_stop, stop_loop-round}
use krouter.Listeners.Round.Starts.{after_start}

-- One round of the supervisor is, at each port on its own, a round of the abstract machine: a child
-- stays exactly if its port is wanted with the spec that it was started with, any other child is
-- dropped, and a wanted port without a child gets one of the wanted spec if the port can be bound, and
-- none otherwise. `Stop` is called on every child that is dropped, and on no other one. The two maps
-- have the same keys, if they had them before.
pub reconcile-Refines :
    (binds : ℤ → Bool) (ports : List (ℤ × PortSpec)) (w : Worker)
    → IsConsistent w
    → ((port : ℤ)
        → served_at (reconcile binds ports w) port
          ≡ next port (lookup_at port ports) (binds port) (suc w.round) (served_at w port))
      × IsConsistent (reconcile binds ports w)
      × StopsDropped ports w (reconcile binds ports w)
unfolding reconcile
reconcile-Refines binds ports w consistent =
    ((λ port. (round_at port).0), (λ port. (round_at port).1), reconcile-StopsDropped binds ports w)
  where
    begun : Worker
    begun = record w { round = suc w.round }

    round_at :
        (port : ℤ)
        → (served_at (start_loop binds ports (stop_loop ports w.children begun)) port
            ≡ next port (lookup_at port ports) (binds port) (suc w.round) (served_at w port))
          × (is_some (
                lookup_at port (start_loop binds ports (stop_loop ports w.children begun)).children)
              ≡ is_some (
                  lookup_at port (start_loop binds ports (stop_loop ports w.children begun)).specs))
    round_at port =
        let v = stop_loop ports w.children begun in
        let (stops, same_keys) = after_stop ports port begun (consistent port) in
        let (starts, keys) = after_start ports port binds ports v same_keys in
        let round : v.round ≡ suc w.round = stop_loop-round ports port w.children begun in
        (
          starts
              ∙ ap₂
                  (λ (s : Served) (n : ℕ).
                    or_else s (started port (lookup_at port ports) (binds port) n))
                  stops round,
          keys,
        )
