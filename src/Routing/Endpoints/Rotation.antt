-- ===== src/Routing/Endpoints/Rotation.antt =====
-- Round-robin over the endpoints of a backend, with the counter threaded through.
use native.Mathlib.Nat.{mod-eq_of_lt, mul-add-mod_self_right}
use krouter.Prelude.{
  ℕ, zero, suc, ◌+◌, ◌*◌, ◌%◌, ◌^◌, ◌<◌, ◌≡◌, ◌≢◌, refl, sym, ap, ap₂, ◌∙◌, pos, inc_int64, List,
  [], ◌∷◌, map, arith, length, is_empty_of_ne,
}
use krouter.Routing.Types.{BackendTable}
use krouter.Routing.Balance.{Counters}
use krouter.Routing.Balance.Round.{iota, map-iota_congr}
use krouter.Routing.Balance.Rotation.{inc_int64_pos, fetch_add_self, map-iota_suc}
use krouter.Routing.Endpoints.{
  EndpointsIndex, Endpoint, endpoints_of, Picked, picked, index_endpoints, pick,
}

-- The endpoints that `n` connections in a row get from one backend.
pub picked_endpoints : ℕ → Counters → BackendTable → EndpointsIndex → List (Picked Endpoint)
picked_endpoints zero counters b idx = []
picked_endpoints (suc n) counters b idx =
    let (endpoint, counters') = pick counters b idx in endpoint ∷ picked_endpoints n counters' b idx

abbrev endpoints_for : BackendTable → EndpointsIndex → List Endpoint
endpoints_for b idx = endpoints_of idx b.namespace b.name b.port

abbrev nth_picked : List Endpoint → ℕ → Picked Endpoint
nth_picked l k = index_endpoints l (pos k)

nth_picked-iota : (l : List Endpoint) → map (nth_picked l) (iota 0 (length l)) ≡ map picked l
nth_picked-iota [] = refl
nth_picked-iota (e ∷ l) = ap (◌∷◌ (picked e)) (
    sym (
      map-iota_suc (nth_picked l) (nth_picked (e ∷ l)) 0 (length l)
        (λ k. ap (nth_picked (e ∷ l)) {x = suc k} (omega arith)))
    ∙ nth_picked-iota l)

module _ (b : BackendTable) (idx : EndpointsIndex) (some_endpoint : endpoints_for b idx ≢ []) where
  pick-at :
      (counters : Counters) (start : ℕ)
      → counters b.counter ≡ pos start
      → (pick counters b idx).0
        ≡ nth_picked (endpoints_for b idx) (start % length (endpoints_for b idx))
  unfolding pick
  pick-at counters start at =
      let n = length (endpoints_for b idx) in
      let same : n + 0 ≡ n = omega arith in
      rw (is_empty_of_ne (endpoints_for b idx) some_endpoint, at, same)

  pick-counter :
      (counters : Counters) (start : ℕ)
      → counters b.counter ≡ pos start
      → start + 1 < 2 ^ 63
      → (pick counters b idx).1 b.counter ≡ pos (start + 1)
  unfolding pick
  pick-counter counters start at room =
      rw (is_empty_of_ne (endpoints_for b idx) some_endpoint)
        (fetch_add_self counters b.counter ∙ ap inc_int64 at ∙ inc_int64_pos start room)

  picked-iota :
      (n start : ℕ) (counters : Counters)
      → counters b.counter ≡ pos start
      → start + n < 2 ^ 63
      → picked_endpoints n counters b idx
        ≡ map
            (λ k. nth_picked (endpoints_for b idx) ((start + k) % length (endpoints_for b idx)))
            (iota 0 n)
  unfolding picked_endpoints
  picked-iota zero start counters at room = refl
  picked-iota (suc n) start counters at room =
      let f : ℕ → Picked Endpoint =
        λ k. nth_picked (endpoints_for b idx) (k % length (endpoints_for b idx)) in
      ap₂ ◌∷◌ (pick-at counters start at ∙ ap f (omega arith)) (
        picked-iota n (start + 1) (pick counters b idx).1
          (pick-counter counters start at (omega arith)) (omega arith)
        ∙ map-iota_suc (λ k. f (start + 1 + k)) (λ k. f (start + k)) 0 n (λ k. ap f (omega arith)))

-- From the start of a round, as many connections in a row as a backend has endpoints get every
-- endpoint once, in order: none is refused, and no index is out of range. The counter is to stay
-- below 2^63 over the round.
pub picked_endpoints-all :
    (counters : Counters) (b : BackendTable) (idx : EndpointsIndex) (round : ℕ)
    → let l = endpoints_of idx b.namespace b.name b.port in
      (l ≢ [])
      → counters b.counter ≡ pos (round * length l)
      → round * length l + length l < 2 ^ 63
      → picked_endpoints (length l) counters b idx ≡ map picked l
picked_endpoints-all counters b idx round some_endpoint at room =
    let l = endpoints_for b idx in
    let n = length l in
    picked-iota b idx some_endpoint n (round * n) counters at room
    ∙ map-iota_congr (λ k. nth_picked l ((round * n + k) % n)) (nth_picked l) 0 n
        (λ k lo hi.
          ap (nth_picked l)
            (mul-add-mod_self_right round n k ∙ mod-eq_of_lt {n = k} {m = n} (omega arith)))
    ∙ nth_picked-iota l
