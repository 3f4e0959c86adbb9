-- ===== src/Routing/Balance.antt =====
-- Weighted round-robin (match.go: pickBucket, RuleTable.PickBackend). The atomic counters are a
-- store, by address; `counter.Add(1) - 1` is the old value, at the wrap-around too.
pub mod Round
pub mod Rotation
use krouter.Prelude.{
  ℕ, ℤ, pos, ◌-ℤ◌, ltb_ℤ, leb_ℤ, rem_ℤ, inc_int64, Option, none, some, List, [], ◌∷◌, ◌==◌,
  if◌then◌else◌,
}
use krouter.Routing.Types.{BackendTable, RuleTable}

abbrev pub Counters : Type 0
Counters = ℕ → ℤ

unfoldable pub fetch_add : Counters → ℕ → ℤ × Counters
fetch_add counters a = (counters a, (λ b. if b == a then inc_int64 (counters a) else counters b))

-- The loop of `pickBucket`.
unfoldable pub pick_slot : ℤ → List BackendTable → Option BackendTable
pick_slot slot [] = none
pick_slot slot (b ∷ bs) =
    let next = slot -ℤ b.weight in
    let rest = pick_slot next bs in if ltb_ℤ next (pos 0) then some b else rest

unfoldable pub pick_bucket : ℤ → List BackendTable → ℤ → Option BackendTable
pick_bucket counter backends total =
    if leb_ℤ total (pos 0) then none else pick_slot (rem_ℤ counter total) backends

-- `RuleTable.PickBackend`
unfoldable pub pick_backend : Counters → RuleTable → Option BackendTable × Counters
unfolding fetch_add
pick_backend counters rule =
    let (slot, counters') = fetch_add counters rule.counter in
    (pick_bucket slot rule.backends rule.total, counters')
