-- ===== src/RateLimit/Capacity.antt =====
-- The tokens that a key can take at an instant, and what the steps of the limiter do to them.
use native.Mathlib.Nat.{add-mul, mul-le-mul_right, mul_comm, mul_assoc}
use krouter.Prelude.{
  ℕ, suc, ◌+◌, ◌-◌, ◌*◌, ◌%◌, ◌≤◌, ◌<◌, ◌≡◌, refl, sym, ap, ◌∙◌, subst, inl, inr, false, Option,
  none, some, ◌==◌, ltb, leb, Bool-cases, arith, Str, str_eq, str_eq_refl,
}
use krouter.RateLimit.{
  Bucket, Limiter, sweep, keep_recent, or_full, refill, count_op, take_token, put_bucket,
}

-- What a key could take at an instant.
abbrev pub available : Limiter → ℕ → Str → ℕ
available l now k = refill l now (or_full l now (l.buckets k))

elapsed_le :
    (last now later r : ℕ) → now ≤ later → (later - last) * r ≤ (now - last) * r + (later - now) * r
elapsed_le last now later r h =
    let bound : later - last ≤ (now - last) + (later - now) = omega arith in
    subst (λ n. (later - last) * r ≤ n) (add-mul (now - last) (later - now) r)
      (mul-le-mul_right r bound)

refill_later :
    (l : Limiter) (now later : ℕ) (b : Bucket)
    → now ≤ later
    → refill l later b ≤ refill l now b + (later - now) * l.requests
unfolding refill
refill_later l now later b h = ground (arith, elapsed_le b.last now later l.requests h)

-- Time adds at most `requests` tokens a window.
pub available_later :
    (l : Limiter) (now later : ℕ) (o : Option Bucket)
    → now ≤ later
    → refill l later (or_full l later o)
      ≤ refill l now (or_full l now o) + (later - now) * l.requests
unfolding or_full refill
available_later l now later none h = ground arith
available_later l now later (some b) h = refill_later l now later b h

swept :
    (l : Limiter) (now : ℕ) (b : Bucket)
    → l.burst ≤ 2 * l.requests
    → b.last + 2 * l.window < now
    → refill l now b ≡ l.burst * l.window
unfolding refill
swept l now b small old =
    let long : 2 * l.window ≤ now - b.last = omega arith in
    let first : 2 * l.window * l.requests ≤ (now - b.last) * l.requests =
      mul-le-mul_right l.requests long in
    let second : l.burst * l.window ≤ 2 * l.requests * l.window = mul-le-mul_right l.window small in
    let same : 2 * l.window * l.requests ≡ 2 * l.requests * l.window =
      mul_assoc 2 l.window l.requests
      ∙ ap (λ n. 2 * n) (mul_comm l.window l.requests)
      ∙ sym (mul_assoc 2 l.requests l.window) in
    ground arith

fresh_full : (l : Limiter) (now : ℕ) → refill l now (or_full l now none) ≡ l.burst * l.window
unfolding refill or_full
fresh_full l now = ground arith

-- Where `burst` is at most two windows' worth, a bucket that is swept was full.
available-keep_recent :
    (l : Limiter) (now : ℕ) (o : Option Bucket)
    → l.burst ≤ 2 * l.requests
    → refill l now (or_full l now (keep_recent l.window now o)) ≡ refill l now (or_full l now o)
unfolding keep_recent or_full
available-keep_recent l now none small = refl
available-keep_recent l now (some b) small = elim (Bool-cases (ltb (b.last + 2 * l.window) now)) [
  | inl old ↦ rw (old) (fresh_full l now ∙ sym (swept l now b small (ground arith)))
  | inr recent ↦ rw (recent) refl
]

-- The counter and the sweep leave what a key can take.
pub available-count_op :
    (l : Limiter) (now : ℕ) (k : Str)
    → l.burst ≤ 2 * l.requests
    → available (count_op now l) now k ≡ available l now k
unfolding count_op sweep or_full refill
available-count_op l now k small = elim (Bool-cases (suc l.ops % 256 == 0)) [
  | inl e ↦ rw (e) (available-keep_recent l now (l.buckets k) small)
  | inr e ↦ rw (e) refl
]

unfoldable pub spent : Limiter → Option ℕ → ℕ
spent l none = l.window
spent l (some wait) = 0

-- A grant takes one token from its own key, a refusal takes none.
pub take_token-own :
    (l : Limiter) (k : Str) (now parts : ℕ)
    → available (take_token k now parts l).0 now k + spent l (take_token k now parts l).1 ≡ parts
unfolding take_token put_bucket spent refill or_full
take_token-own l k now parts = elim (Bool-cases (leb l.window parts)) [
  | inl e ↦ rw (e, str_eq_refl k) (ground arith)
  | inr e ↦ rw (e, str_eq_refl k) (ground arith)
]

pub take_token-other :
    (l : Limiter) (k other : Str) (now parts : ℕ)
    → str_eq k other ≡ false
    → available (take_token k now parts l).0 now other ≡ available l now other
unfolding take_token put_bucket or_full refill
take_token-other l k other now parts h = elim (Bool-cases (leb l.window parts)) [
  | inl e ↦ rw (e, h) refl
  | inr e ↦ rw (e, h) refl
]
