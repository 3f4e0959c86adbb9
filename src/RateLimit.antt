-- ===== src/RateLimit.antt =====
-- The token buckets of rate limiting (internal/extensions/ratelimiting/limiter.go). Instants and
-- durations are nanoseconds. A bucket's tokens are counted in parts of `1 / window`, so that they are
-- exact: the rounding of float64 is not modelled.
use krouter.Prelude.{
  ℕ, ℤ, suc, ◌+◌, ◌-◌, ◌*◌, ◌/◌, ◌%◌, Bool, true, false, Option, none, some, ◌==◌, ltb, leb,
  if◌then◌else◌, min, pos_part, drop, Str, codes, str_eq, has_prefix,
}
use krouter.Compiled.{RateLimit}
use krouter.Http.{Request, header_get}
pub mod Capacity
pub mod Bound
pub mod Document

-- `bucket`: `parts` is tokens * window.
pub record Bucket : Type 0 where
  pub parts : ℕ
  pub last : ℕ

-- `Limiter`, without its clock and its mutex: a call is one step, at the instant it is given.
pub record Limiter : Type 0 where
  pub requests : ℕ
  pub window : ℕ
  pub burst : ℕ
  pub key : Str
  pub status : ℤ
  pub ops : ℕ
  pub buckets : Str → Option Bucket

abbrev pub sweep_every : ℕ
sweep_every = 256

-- `NewLimiter`. The number of requests, the burst and the window are at least one here: Parse
-- (ratelimiting.go) refuses less, but a window of less than a millisecond is compiled to no
-- milliseconds, and that one the model does not cover.
abbrev pub new_limiter : RateLimit → Limiter
new_limiter config = record {
  requests = pos_part config.requests;
  window = pos_part config.window_millis * 1000000;
  burst = pos_part config.burst;
  key = config.key;
  status = config.status;
  ops = 0;
  buckets = λ _. none;
}

-- `KeyFor`
unfoldable pub key_for : Limiter → Request → Str → Str
key_for l r client_ip =
    if has_prefix l.key (codes "header:") then header_get r.header (drop 7 l.key) else client_ip

-- One entry of the loop of `sweep`.
unfoldable pub keep_recent : ℕ → ℕ → Option Bucket → Option Bucket
keep_recent window now none = none
keep_recent window now (some b) = if ltb (b.last + 2 * window) now then none else some b

-- `sweep`
unfoldable pub sweep : ℕ → Limiter → Limiter
unfolding keep_recent
sweep now l = record l { buckets = λ k. keep_recent l.window now (l.buckets k) }

-- A key without a bucket gets a full one.
unfoldable pub or_full : Limiter → ℕ → Option Bucket → Bucket
or_full l now none = record { parts = l.burst * l.window; last = now }
or_full l now (some b) = b

-- The tokens of a bucket at an instant; where no time has passed, they stay.
unfoldable pub refill : Limiter → ℕ → Bucket → ℕ
refill l now b =
    if ltb b.last now
    then min (l.burst * l.window) (b.parts + (now - b.last) * l.requests)
    else b.parts

unfoldable pub put_bucket : Str → Bucket → Limiter → Limiter
put_bucket k b l = record l {
  buckets = λ other. if str_eq k other then some b else l.buckets other;
}

-- What `Allow` answers: `some wait` is a refusal, with the time until the next token.
unfoldable pub take_token : Str → ℕ → ℕ → Limiter → Limiter × Option ℕ
unfolding put_bucket
take_token k now parts l =
    if leb l.window parts
    then (put_bucket k (record { parts = parts - l.window; last = now }) l, none)
    else (
      put_bucket k (record { parts = parts; last = now }) l,
      some ((l.window - parts) / l.requests),
    )

-- The counter, and the sweep that it brings about.
unfoldable pub count_op : ℕ → Limiter → Limiter
unfolding sweep
count_op now l =
    let counted = record l { ops = suc l.ops } in
    if suc l.ops % sweep_every == 0 then sweep now counted else counted

-- `Allow`
unfoldable pub allow : Str → ℕ → Limiter → Limiter × Option ℕ
unfolding count_op or_full refill take_token
allow k now l =
    let ready = count_op now l in
    take_token k now (refill ready now (or_full ready now (ready.buckets k))) ready
