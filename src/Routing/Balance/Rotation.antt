-- ===== src/Routing/Balance/Rotation.antt =====
-- Weighted round-robin over a run of picks, with the counter threaded through.
use krouter.Prelude.{
  ℕ, zero, suc, ◌+◌, ◌*◌, ◌^◌, ◌<◌, ◌≡◌, refl, ap, ap₂, ◌∙◌, pos, ◌+ℤ◌, inc_int64, Option, List, [],
  ◌∷◌, map, arith,
}
use krouter.Routing.Types.{BackendTable, RuleTable}
use krouter.Routing.Balance.{Counters, fetch_add, pick_bucket, pick_backend}
use krouter.Routing.Balance.Round.{AreWeights, sum_weights, iota, shares, pick_bucket-shares}

pub inc_int64_pos : (c : ℕ) → c + 1 < 2 ^ 63 → inc_int64 (pos c) ≡ pos (c + 1)
unfolding ◌+ℤ◌
inc_int64_pos c h = ground arith

pub fetch_add_self :
    (counters : Counters) (a : ℕ) → (fetch_add counters a).1 a ≡ inc_int64 (counters a)
unfolding fetch_add
fetch_add_self counters a = ground arith

-- The backends that `n` requests in a row get from one rule.
pub picks : ℕ → Counters → RuleTable → List (Option BackendTable)
picks zero counters rule = []
picks (suc n) counters rule =
    let (backend, counters') = pick_backend counters rule in backend ∷ picks n counters' rule

pub map-iota_suc :
    {A : Type 0} (f g : ℕ → A) (a n : ℕ)
    → ((k : ℕ) → f k ≡ g (k + 1))
    → map f (iota a n) ≡ map g (iota (a + 1) n)
map-iota_suc f g a zero h = refl
map-iota_suc f g a (suc n) h = ap₂ ◌∷◌ (h a) (map-iota_suc f g (a + 1) n h)

pick_backend-counter :
    (counters : Counters) (rule : RuleTable) (start : ℕ)
    → counters rule.counter ≡ pos start
    → start + 1 < 2 ^ 63
    → (pick_backend counters rule).1 rule.counter ≡ pos (start + 1)
unfolding pick_backend
pick_backend-counter counters rule start at room =
    fetch_add_self counters rule.counter ∙ ap inc_int64 at ∙ inc_int64_pos start room

picks-iota :
    (n start : ℕ) (counters : Counters) (rule : RuleTable)
    → counters rule.counter ≡ pos start
    → start + n < 2 ^ 63
    → picks n counters rule
      ≡ map (λ k. pick_bucket (pos (start + k)) rule.backends rule.total) (iota 0 n)
unfolding picks pick_backend
picks-iota zero start counters rule at room = refl
picks-iota (suc n) start counters rule at room =
    let f : ℕ → Option BackendTable = λ k. pick_bucket (pos k) rule.backends rule.total in
    ap₂ ◌∷◌ (ap (λ c. pick_bucket c rule.backends rule.total) (at ∙ ap pos (omega arith))) (
      picks-iota n (start + 1) (pick_backend counters rule).1 rule
        (pick_backend-counter counters rule start at (omega arith)) (omega arith)
      ∙ map-iota_suc (λ k. f (start + 1 + k)) (λ k. f (start + k)) 0 n (λ k. ap f (omega arith)))

-- From the start of a round, the next `total` requests of a rule are given to its backends in order,
-- to each as often as its weight says. The counter is to stay below 2^63 over the round.
pub picks-shares :
    (counters : Counters) (rule : RuleTable) (round : ℕ)
    → AreWeights rule.backends
    → rule.total ≡ pos (sum_weights rule.backends)
    → counters rule.counter ≡ pos (round * sum_weights rule.backends)
    → round * sum_weights rule.backends + sum_weights rule.backends < 2 ^ 63
    → picks (sum_weights rule.backends) counters rule ≡ shares rule.backends
picks-shares counters rule round weights total at room =
    let n = sum_weights rule.backends in
    picks-iota n (round * n) counters rule at room
    ∙ ap (λ t. map (λ k. pick_bucket (pos (round * n + k)) rule.backends t) (iota 0 n)) total
    ∙ pick_bucket-shares rule.backends round weights
