-- ===== src/Proxy/Rewrite.antt =====
-- Paths that a filter replaces, and redirects (internal/lib/transports/http/proxy/handler.go:
-- rewrittenPath, redirectFilter, serveRedirect, hostOnly, requestPort).
pub mod Swap
use krouter.Prelude.{
  ℕ, zero, suc, ℤ, pos, negsuc, ◌+◌, ◌-◌, ◌*◌, ◌^◌, eq_ℤ, ltb, leb, Bool, true, false, not, ◌&&◌,
  ◌||◌, Option, none, some, [], ◌∷◌, ◌++◌, if◌then◌else◌, is_empty, wrap_int32, Str, codes, str_eq,
  trim_suffix, trim_prefix, map,
}
use krouter.Compiled.{FilterDetails, Filter, filter_of, Filters, no_filters, more_filters}
use krouter.Netip.{Notation}
use krouter.ClientIp.{host_of}
use krouter.Routing.L4.{decimal}
use krouter.Proxy.Message.{Writer, Incoming, redirected}

-- The replacement of a prefix; nothing stands for the root.
unfoldable pub replacement_of : FilterDetails → Str
replacement_of d = if is_empty d.path_rewrite_value then codes "/" else d.path_rewrite_value

-- `rewrittenPath`
unfoldable pub rewritten_path : Str → FilterDetails → Str
unfolding replacement_of trim_suffix trim_prefix
rewritten_path path d =
    let rest = trim_prefix path (trim_suffix d.path_prefix (codes "/")) in
    if str_eq d.path_rewrite_type (codes "ReplaceFullPath")
    then d.path_rewrite_value
    else if not (str_eq d.path_rewrite_type (codes "ReplacePrefixMatch"))
    then path
    else if is_empty rest || str_eq rest (codes "/")
    then replacement_of d
    else trim_suffix (replacement_of d) (codes "/") ++ rest

-- `redirectFilter`: the first redirect of the rule.
unfoldable pub redirect_filter : Filters → Option FilterDetails
redirect_filter no_filters = none
redirect_filter (more_filters (filter_of kind details _ _ _) filters) =
    let rest = redirect_filter filters in
    if str_eq kind (codes "RequestRedirect") then some details else rest

-- strconv.Atoi: an optional sign and decimal digits, in the range of int64.
digits : ℕ → Str → Option ℕ
digits acc [] = some acc
digits acc (c ∷ s) =
    let rest = digits (acc * 10 + (c - b'0')) s in if leb b'0' c && leb c b'9' then rest else none

magnitude : Str → Option ℕ
unfolding digits
magnitude s = if is_empty s then none else digits 0 s

positive : Option ℕ → Option ℤ
positive none = none
positive (some n) = if ltb n (2 ^ 63) then some (pos n) else none

negative : Option ℕ → Option ℤ
negative none = none
negative (some zero) = some (pos 0)
negative (some (suc n)) = if ltb n (2 ^ 63) then some (negsuc n) else none

unfoldable pub atoi : Str → Option ℤ
unfolding magnitude positive negative
atoi [] = none
atoi (c ∷ s) =
    if str_eq (c ∷ []) (codes "-")
    then negative (magnitude s)
    else if str_eq (c ∷ []) (codes "+")
    then positive (magnitude s)
    else positive (magnitude (c ∷ s))

-- int32(n)
abbrev pub to_int32 : ℤ → ℤ
to_int32 (pos n) = wrap_int32 n
to_int32 (negsuc n) = wrap_int32 (2 ^ 64 - (n + 1))

-- The parts of url.URL that a redirect sets.
pub record Location : Type 0 where
  pub scheme : Str
  pub host : Str
  pub path : Str
  pub raw_query : Str

abbrev pub scheme_of : Bool → Str
scheme_of true = codes "https"
scheme_of false = codes "http"

-- The port that a scheme stands for need not be named.
unfoldable pub is_default_port : Str → ℤ → Bool
is_default_port scheme port =
    (str_eq scheme (codes "http") && eq_ℤ port (pos 80))
    || (str_eq scheme (codes "https") && eq_ℤ port (pos 443))

abbrev pub or_scheme : Str → Str → Str
or_scheme given other = if is_empty given then other else given

module _ (notation : Notation) where
  open notation use {split_host_port}

  -- The default of `requestPort`.
  abbrev pub listener_port : Bool → ℤ
  listener_port with_tls = if with_tls then pos 443 else pos 80

  -- `requestPort`; `hostOnly` of a Host is `host_of`, which is the same code.
  unfoldable pub request_port : Str → Bool → ℤ
  unfolding atoi
  request_port host with_tls = elim (split_host_port host) [
    | none ↦ listener_port with_tls
    | some (_, p) ↦ elim (atoi p) [ none ↦ listener_port with_tls | some port ↦ to_int32 port ]
  ]

  -- The port that the location names, 0 for none.
  unfoldable pub redirect_port : Str → FilterDetails → Bool → ℤ
  unfolding request_port
  redirect_port host d with_tls =
      if eq_ℤ d.port (pos 0) && is_empty d.scheme then request_port host with_tls else d.port

  -- `location` of `serveRedirect`
  unfoldable pub location_of : Incoming → FilterDetails → Bool → Location
  unfolding host_of redirect_port is_default_port rewritten_path decimal
  location_of r d with_tls =
      let scheme = or_scheme d.scheme (scheme_of with_tls) in
      let host = or_scheme d.hostname (host_of notation r.host) in
      let port = redirect_port r.host d with_tls in
      record {
        scheme = scheme;
        host =
            if not (eq_ℤ port (pos 0)) && not (is_default_port scheme port)
            then host ++ (b':' ∷ decimal port)
            else host;
        path = rewritten_path r.request.url_path d;
        raw_query = r.raw_query;
      }

  -- `serveRedirect`; `url_string` is URL.String.
  unfoldable pub serve_redirect :
      (Location → Str) → Incoming → FilterDetails → Bool → Writer → Writer × ℤ
  unfolding location_of
  serve_redirect url_string r d with_tls w =
      let status = if eq_ℤ d.status_code (pos 0) then pos 302 else d.status_code in
      (record w { reply = redirected (url_string (location_of r d with_tls)) status }, status)
