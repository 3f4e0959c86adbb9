-- ===== src/Proxy/Mirrors.antt =====
-- Copies of a request for mirror backends (internal/lib/transports/http/proxy/handler.go:
-- sampleMirrors, fireMirrors, cappedBuffer). The draws of math/rand are an argument.
pub mod Capture
pub mod Fired
use krouter.Prelude.{
  ℕ, zero, suc, ◌+◌, ◌*◌, ◌^◌, Bool, true, false, not, ◌||◌, Option, none, some, List, [], ◌∷◌,
  ◌++◌, length, ltb, leb, if◌then◌else◌, is_some, is_empty, Str, codes,
}
use krouter.Compiled.{Percent}
use krouter.Routing.Types.{Transport, MirrorTable}
use krouter.Routing.Balance.{Counters}
use krouter.Routing.Endpoints.{Endpoint, EndpointsIndex, Picked, panics, refused, picked, pick}

-- `cappedBuffer`
pub record CappedBuffer : Type 0 where
  pub buf : Str
  pub limit : ℕ
  pub overflowed : Bool

abbrev pub mirror_body_limit : ℕ
mirror_body_limit = 2 ^ 20

-- `cappedBuffer.Write`; the length that it answers is always that of the bytes.
unfoldable pub write_capped : CappedBuffer → Str → CappedBuffer
write_capped c p =
    if ltb c.limit (length c.buf + length p)
    then record c { overflowed = true }
    else record c { buf = c.buf ++ p }

-- The writes of what is read of a body, piece by piece: the reader of `forward` writes a piece when
-- the backend's transport has read it.
unfoldable pub write_all : CappedBuffer → List Str → CappedBuffer
unfolding write_capped
write_all c [] = c
write_all c (p ∷ ps) = write_all (write_capped c p) ps

-- rand.Float64 draws a multiple of 2^-53 below 1. The test against a percentage is exact here.
abbrev draw_unit : ℕ
draw_unit = 2 ^ 53

unfoldable pub is_sampled : Percent → ℕ → Bool
is_sampled p draw =
    leb (100 * p.denominator) p.numerator
    || ltb (draw * 100 * p.denominator) (p.numerator * draw_unit)

-- `sampleMirrors`, with a draw for each mirror.
unfoldable pub sample_mirrors : (ℕ → ℕ) → List MirrorTable → List MirrorTable
unfolding is_sampled
sample_mirrors draws [] = []
sample_mirrors draws (m ∷ ms) =
    let rest = sample_mirrors (λ n. draws (suc n)) ms in
    if is_sampled m.percent (draws 0) then m ∷ rest else rest

-- What a mirror backend is sent: the endpoint, its TLS transport if it has one, and the body.
pub record Copy : Type 0 where
  pub endpoint : Endpoint
  pub transport : Option Transport
  pub body : Option Str

-- The copies, and the counters; `none` is an index out of range.
abbrev pub add_copy : Copy → Option (List Copy × Counters) → Option (List Copy × Counters)
add_copy c none = none
add_copy c (some (copies, counters)) = some (c ∷ copies, counters)

-- The loop of `fireMirrors`.
unfoldable pub fire_loop :
    Counters → EndpointsIndex → Option Str → List MirrorTable → Option (List Copy × Counters)
unfolding pick
fire_loop counters idx body [] = some ([], counters)
fire_loop counters idx body (m ∷ ms) =
    let (target, counters') = pick counters m.backend idx in
    let skipped = fire_loop counters idx body ms in
    let others = fire_loop counters' idx body ms in
    if m.backend.tls_invalid then skipped else elim target [
      | panics ↦ none
      | refused ↦ others
      | picked endpoint ↦
          add_copy
            (record { endpoint = endpoint; transport = m.backend.tls_transport; body = body })
            others
    ]

abbrev is_overflowed : Option CappedBuffer → Bool
is_overflowed none = false
is_overflowed (some c) = c.overflowed

abbrev captured : Option CappedBuffer → Option Str
captured none = none
captured (some c) = some c.buf

-- `fireMirrors`; `made` tells whether the outbound request was made.
unfoldable pub fire_mirrors :
    Counters
    → EndpointsIndex
    → Option CappedBuffer
    → Bool
    → List MirrorTable
    → Option (List Copy × Counters)
unfolding fire_loop
fire_mirrors counters idx body made mirrors =
    if is_empty mirrors || not made
    then some ([], counters)
    else if is_overflowed body
    then some ([], counters)
    else fire_loop counters idx (captured body) mirrors
