-- ===== src/Routing/Hostname.antt =====
-- Hostname patterns (internal/lib/transports/http/routing/match.go: hostnameMatches, hostnameScore,
-- hostnameSpecificity, routeHostnameMatches).
pub mod Laws
use krouter.Prelude.{
  ℕ, ◌+◌, ◌^◌, Bool, true, false, ◌&&◌, ◌||◌, List, [], ◌∷◌, if◌then◌else◌, ltb, length, drop, any,
  is_empty, Str, codes, has_prefix, has_suffix, equal_fold,
}

-- "*."
abbrev pub wildcard : Str
wildcard = codes "*."

unfoldable pub hostname_matches : Str → Str → Bool
unfolding has_prefix
hostname_matches pattern host =
    if is_empty pattern
    then true
    else if has_prefix pattern wildcard
    then ltb (length (drop 1 pattern)) (length host) && has_suffix host (drop 1 pattern)
    else equal_fold pattern host

-- `1<<16 + len(hostname)` is `(1<<16) + len(hostname)` in Go.
unfoldable pub hostname_score : Str → ℕ
unfolding has_prefix
hostname_score hostname =
    if is_empty hostname
    then 0
    else if has_prefix hostname wildcard
    then length hostname
    else 2 ^ 16 + length hostname

unfoldable pub hostname_specificity : Str → ℕ
unfolding has_prefix
hostname_specificity hostname =
    if is_empty hostname then 0 else if has_prefix hostname wildcard then 1 else 2

unfoldable pub route_hostname_matches : List Str → Str → Bool
unfolding hostname_matches
route_hostname_matches hostnames host =
    is_empty hostnames || any (λ pattern. hostname_matches pattern host) hostnames
