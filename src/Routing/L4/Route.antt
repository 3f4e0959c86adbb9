-- ===== src/Routing/L4/Route.antt =====
-- The route that serves a TCP or UDP port (match.go: l4Route).
use krouter.Prelude.{
  ◌≡◌, refl, sym, ap, ◌∙◌, not, Option, none, some, List, [], ◌∷◌, ◌++◌, arith, Bool-cases, inl,
  inr, str_lt_irrefl, str_lt_trans, str_lt_cotrans, is_empty, filter_by,
}
use krouter.Select.{IsRanking, pick_best, pick_best-append, keep_best, Picks, pick_best-Picks}
use krouter.Routing.Types.{RouteTable, ListenerTable, PortTable, route_key}
use krouter.Routing.L4.{route_beats, l4_route_loop, l4_listener_loop, l4_route}

route_beats-IsRanking : IsRanking route_beats
route_beats-IsRanking = record {
  irrefl = λ r. ground (arith, str_lt_irrefl (route_key r));
  trans = λ r s t h k. ground (arith, str_lt_trans (route_key r) (route_key s) (route_key t));
  cotrans = λ r s t h k. ground (arith, str_lt_cotrans (route_key r) (route_key s) (route_key t));
}

-- The routes of all listeners that have a rule, in order.
abbrev pub populated : List RouteTable → List RouteTable
populated = filter_by (λ r. not (is_empty r.rules))

abbrev pub populated_routes : List ListenerTable → List RouteTable
populated_routes [] = []
populated_routes (l ∷ ls) = populated l.routes ++ populated_routes ls

l4_route_loop-pick :
    (best : Option RouteTable) (rs : List RouteTable)
    → l4_route_loop best rs ≡ pick_best route_beats best (populated rs)
unfolding l4_route_loop pick_best
l4_route_loop-pick best [] = refl
l4_route_loop-pick best (r ∷ rs) = elim (Bool-cases (is_empty r.rules)) [
  | inl e ↦ rw e (l4_route_loop-pick best rs)
  | inr e ↦ rw e (l4_route_loop-pick (some (keep_best route_beats best r)) rs)
]

l4_listener_loop-pick :
    (best : Option RouteTable) (ls : List ListenerTable)
    → l4_listener_loop best ls ≡ pick_best route_beats best (populated_routes ls)
unfolding l4_listener_loop pick_best
l4_listener_loop-pick best [] = refl
l4_listener_loop-pick best (l ∷ ls) =
    l4_listener_loop-pick (l4_route_loop best l.routes) ls
    ∙ ap (λ b. pick_best route_beats b (populated_routes ls)) (l4_route_loop-pick best l.routes)
    ∙ sym (pick_best-append route_beats best (populated l.routes) (populated_routes ls))

-- The route of a stream port is the oldest route with a rule, among equally old ones that of the
-- least name, and the first of those; there is none only if no route has a rule.
pub l4_route-Picks :
    (table : PortTable) → Picks route_beats (l4_route table) (populated_routes table.listeners)
unfolding l4_route
l4_route-Picks table =
    rw (l4_listener_loop-pick none table.listeners)
      (pick_best-Picks route_beats route_beats-IsRanking (populated_routes table.listeners))
