-- ===== src/RateLimit/Bound.antt =====
-- How many requests of one key are let through.
use native.Mathlib.Nat.{add-mul}
use krouter.Prelude.{
  ℕ, suc, ◌+◌, ◌-◌, ◌*◌, ◌%◌, ◌≤◌, ◌≡◌, refl, sym, ap, ap₂, ◌∙◌, subst, inl, inr, Option, none,
  some, List, [], ◌∷◌, ◌==◌, leb, if◌then◌else◌, Bool-cases, arith, Str, str_eq, str_eq_iff,
}
use krouter.Compiled.{RateLimit}
use krouter.RateLimit.{
  Limiter, new_limiter, sweep, allow, count_op, take_token, put_bucket, or_full, refill,
}
use krouter.RateLimit.Capacity.{
  available, available_later, available-count_op, spent, take_token-own, take_token-other,
}

granted : Option ℕ → ℕ
granted none = 1
granted (some wait) = 0

-- The calls of `Allow`, each with its key and its instant; how many of one key are granted.
unfoldable pub grants : Str → List (Str × ℕ) → Limiter → ℕ
unfolding granted
grants k [] l = 0
grants k ((key, now) ∷ calls) l =
    let out = allow key now l in (if str_eq key k then granted out.1 else 0) + grants k calls out.0

-- Each call no earlier than the one before, the first no earlier than `now`, the last at `end`.
abbrev pub Runs : ℕ → List (Str × ℕ) → ℕ → Type 0
Runs now [] end = now ≡ end
Runs now ((key, later) ∷ calls) end = (now ≤ later) × Runs later calls end

SameRates : Limiter → Limiter → Type 0
SameRates l m = (l.requests ≡ m.requests) × (l.window ≡ m.window) × (l.burst ≡ m.burst)

count_op-SameRates : (now : ℕ) (l : Limiter) → SameRates (count_op now l) l
unfolding SameRates count_op sweep
count_op-SameRates now l = elim (Bool-cases (suc l.ops % 256 == 0)) [
  | inl e ↦ rw (e) (refl, refl, refl)
  | inr e ↦ rw (e) (refl, refl, refl)
]

take_token-SameRates :
    (k : Str) (now parts : ℕ) (l : Limiter) → SameRates (take_token k now parts l).0 l
unfolding SameRates take_token put_bucket
take_token-SameRates k now parts l = elim (Bool-cases (leb l.window parts)) [
  | inl e ↦ rw (e) (refl, refl, refl)
  | inr e ↦ rw (e) (refl, refl, refl)
]

allow-SameRates : (k : Str) (now : ℕ) (l : Limiter) → SameRates (allow k now l).0 l
unfolding allow SameRates
allow-SameRates k now l =
    let ready = count_op now l in
    let (r, w, b) = count_op-SameRates now l in
    let (r', w', b') =
      take_token-SameRates k now (refill ready now (or_full ready now (ready.buckets k))) ready in
    (r' ∙ r, w' ∙ w, b' ∙ b)

spent_eq : (l : Limiter) (o : Option ℕ) → spent l o ≡ granted o * l.window
unfolding spent granted
spent_eq l none = omega arith
spent_eq l (some wait) = omega arith

charged : Str → Str → Option ℕ → ℕ
unfolding granted
charged key k o = if str_eq key k then granted o else 0

take_token-available :
    (key k : Str) (now : ℕ) (l : Limiter)
    → let out = take_token key now (available l now key) l in
      available out.0 now k + charged key k out.1 * l.window ≡ available l now k
unfolding charged
take_token-available key k now l = elim (Bool-cases (str_eq key k)) [
  | inl e ↦
      let out = take_token key now (available l now key) l in
      let same : key ≡ k = (str_eq_iff key k).0 e in
      rw (e) (
        subst (λ k'. available out.0 now k' + granted out.1 * l.window ≡ available l now k') same
          (ap (λ n. available out.0 now key + n) (sym (spent_eq l out.1))
            ∙ take_token-own l key now (available l now key)))
  | inr e ↦
      let out = take_token key now (available l now key) l in
      let left : available out.0 now k ≡ available l now k =
        take_token-other l key k now (available l now key) e in
      rw (e) (omega (arith, left))
]

-- One call.
allow-available :
    (key k : Str) (now : ℕ) (l : Limiter)
    → l.burst ≤ 2 * l.requests
    → available (allow key now l).0 now k + charged key k (allow key now l).1 * l.window
      ≡ available l now k
unfolding allow SameRates
allow-available key k now l small =
    let ready = count_op now l in
    let same = (count_op-SameRates now l).1 in
    subst
      (λ w.
        available (allow key now l).0 now k + charged key k (allow key now l).1 * w
        ≡ available l now k)
      same (take_token-available key k now ready ∙ available-count_op l now k small)

-- One more call, over what the others take.
add_call :
    (one others first rest left now later end requests window : ℕ)
    → now ≤ later
    → later ≤ end
    → left + one * window ≡ first
    → others * window ≤ left + (end - later) * requests
    → first ≤ rest + (later - now) * requests
    → (one + others) * window ≤ rest + (end - now) * requests
add_call one others first rest left now later end requests window order order' own more less =
    let time : end - now ≡ (end - later) + (later - now) = omega arith in
    let spread : (end - now) * requests ≡ (end - later) * requests + (later - now) * requests =
      ap (λ n. n * requests) time ∙ add-mul (end - later) (later - now) requests in
    omega (arith, add-mul one others window, spread)

Runs-le : (calls : List (Str × ℕ)) (now end : ℕ) → Runs now calls end → now ≤ end
Runs-le [] now end runs = omega (arith, runs)
Runs-le ((key, later) ∷ calls) now end (order, runs) =
    omega (arith, order, Runs-le calls later end runs)

bound :
    (k : Str) (calls : List (Str × ℕ)) (l : Limiter) (now end : ℕ)
    → l.burst ≤ 2 * l.requests
    → Runs now calls end
    → grants k calls l * l.window ≤ available l now k + (end - now) * l.requests
unfolding grants charged SameRates
bound k [] l now end small runs = omega arith
bound k ((key, later) ∷ calls) l now end small (order, runs) =
    let next = (allow key later l).0 in
    let (r, w, b) = allow-SameRates key later l in
    let small' : next.burst ≤ 2 * next.requests = rw (r, b) small in
    let more : grants k calls next * l.window
        ≤ available next later k + (end - later) * l.requests =
      subst {A = ℕ × ℕ}
        (λ p. grants k calls next * p.0 ≤ available next later k + (end - later) * p.1)
        (ap₂ (λ a c. (a, c)) w r) (bound k calls next later end small' runs) in
    add_call (charged key k (allow key later l).1) (grants k calls next) (available l later k)
      (available l now k) (available next later k) now later end l.requests l.window order
      (Runs-le calls later end runs) (allow-available key k later l small) more
      (available_later l now later (l.buckets k) order)

-- Starting from an empty limiter whose burst is at most two windows' requests, and for calls that are
-- processed in the order of their instants, from `start` to `end`: the number of requests of one key
-- that are granted, times the window, is at most the burst times the window plus the requests times
-- the time from `start` to `end`, whatever the other keys do and however often idle buckets are swept.
-- Tokens are exact fractions here, in place of float64.
pub grants-bounded :
    (config : RateLimit) (k : Str) (calls : List (Str × ℕ)) (start end : ℕ)
    → let l = new_limiter config in
      l.burst ≤ 2 * l.requests
      → Runs start calls end
      → grants k calls l * l.window ≤ l.burst * l.window + (end - start) * l.requests
unfolding or_full refill
grants-bounded config k calls start end small runs =
    let l = new_limiter config in
    let full : available l start k ≡ l.burst * l.window = ground arith in
    subst (λ n. grants k calls l * l.window ≤ n + (end - start) * l.requests) full
      (bound k calls l start end small runs)
