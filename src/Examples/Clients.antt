-- ===== src/Examples/Clients.antt =====
-- A request from the trusted 10.0.0.1 whose chain is an untrusted address, then a trusted one.
use krouter.Prelude.{◌≡◌, refl, true, some, [], ◌∷◌, arith, Str, codes, str_eq}
use krouter.Http.{Header}
use krouter.Netip.{v4, without_zone, unmap, prefix_contains}
use krouter.ClientIp.{Trust, trusts, hop, host_of, chain, resolve}
use krouter.ClientIp.Walk.{resolve-Names}
use krouter.Examples.Data.{host_address, sample_notation}

abbrev trust : Trust
trust = some (record { addr = host_address 0; bits = 24 } ∷ [])

-- "xx" is an untrusted address, "a" and "b" are trusted ones, and "???" is malformed.
abbrev chain_of : Str → Header
chain_of text = (codes "X-Forwarded-For", text ∷ []) ∷ []

resolve-Names_example :
    resolve sample_notation trust (codes "b") (chain_of (codes "evil, xx, a"))
    ≡ (codes "addr", true)
unfolding hop host_of trusts chain without_zone unmap prefix_contains str_eq
resolve-Names_example =
    resolve-Names sample_notation trust (codes "b") (chain_of (codes "evil, xx, a"))
      (host_address b'b') (v4 b'x') (codes "a" ∷ []) (codes "xx" ∷ codes "evil" ∷ []) refl refl refl
      ((host_address b'a', refl, refl), tt) (omega arith)
      (codes "xx", codes "evil" ∷ [], refl, refl, refl)
