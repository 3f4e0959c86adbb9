-- ===== src/Proxy/Cors.antt =====
-- Cross-origin requests (internal/lib/transports/http/proxy/cors.go).
pub mod Origins
use krouter.Prelude.{
  ℤ, pos, Bool, true, false, not, ◌&&◌, ◌||◌, Option, none, some, List, [], ◌∷◌, if◌then◌else◌,
  is_empty, drop, length, ltb, Str, codes, str_eq, has_prefix, has_suffix, cut, join,
}
use krouter.Compiled.{Cors}
use krouter.Http.{Header, Request, header_get, header_set, header_add}
use krouter.Routing.L4.{decimal}
use krouter.Proxy.Message.{Writer, bare}

-- `isCORSPreflight`
unfoldable pub is_cors_preflight : Request → Bool
unfolding header_get
is_cors_preflight r =
    str_eq r.method (codes "OPTIONS")
    && (not (is_empty (header_get r.header (codes "Origin")))
        && not (is_empty (header_get r.header (codes "Access-Control-Request-Method"))))

-- `corsWildcard`
unfoldable pub cors_wildcard : List Str → Bool
cors_wildcard (v ∷ []) = str_eq v (codes "*")
cors_wildcard _ = false

-- The pattern's host against the origin's, from the suffix of the host on.
unfoldable pub host_under : Str → Str → Bool
host_under host origin_host =
    let suffix = drop 1 host in
    ltb (length suffix) (length origin_host) && has_suffix origin_host suffix

-- One round of the loop of `corsOriginAllowed`.
unfoldable pub pattern_allows : Str → Str → Bool
unfolding cut host_under
pattern_allows pattern origin =
    if str_eq pattern (codes "*") || str_eq pattern origin
    then true
    else elim (cut pattern (codes "://")) [
      | none ↦ false
      | some (scheme, host) ↦
          if not (has_prefix host (codes "*.")) then false else elim (cut origin (codes "://")) [
            | none ↦ false
            | some (origin_scheme, origin_host) ↦
                if not (str_eq origin_scheme scheme) then false else host_under host origin_host
          ]
    ]

-- `corsOriginAllowed`
unfoldable pub cors_origin_allowed : List Str → Str → Bool
unfolding pattern_allows
cors_origin_allowed [] origin = false
cors_origin_allowed (pattern ∷ patterns) origin =
    let rest = cors_origin_allowed patterns origin in
    if pattern_allows pattern origin then true else rest

-- `header.Set`, where there is a value.
unfoldable pub set_unless_empty : Str → Str → Header → Header
set_unless_empty name value h = if is_empty value then h else header_set h name value

abbrev pub allow_credentials : Cors → Header → Header
allow_credentials cors h =
    if cors.allow_credentials
    then header_set h (codes "Access-Control-Allow-Credentials") (codes "true")
    else h

abbrev pub expose_headers : Cors → Header → Header
expose_headers cors h =
    if is_empty cors.expose_headers
    then h
    else header_set h (codes "Access-Control-Expose-Headers")
        (join cors.expose_headers (codes ", "))

-- What is listed, or what was requested where the list is the wildcard.
unfoldable pub listed_or_requested : List Str → Str → Str
unfolding cors_wildcard join
listed_or_requested values requested =
    if cors_wildcard values then requested else join values (codes ", ")

-- `serveCORSPreflight`, of an origin that is allowed.
unfoldable pub preflight_headers : Request → Cors → Header → Header
unfolding set_unless_empty listed_or_requested decimal header_set
preflight_headers r cors h =
    let origin =
      header_set h (codes "Access-Control-Allow-Origin") (header_get r.header (codes "Origin")) in
    let credentials = allow_credentials cors origin in
    let methods =
      set_unless_empty (codes "Access-Control-Allow-Methods")
        (listed_or_requested cors.allow_methods
          (header_get r.header (codes "Access-Control-Request-Method")))
        credentials in
    let headers =
      set_unless_empty (codes "Access-Control-Allow-Headers")
        (listed_or_requested cors.allow_headers
          (header_get r.header (codes "Access-Control-Request-Headers")))
        methods in
    header_set (expose_headers cors headers) (codes "Access-Control-Max-Age")
      (decimal cors.max_age_seconds)

-- `serveCORSPreflight`
unfoldable pub serve_cors_preflight : Request → Cors → Writer → Writer × ℤ
unfolding preflight_headers cors_origin_allowed header_add
serve_cors_preflight r cors w =
    let varied = header_add w.header (codes "Vary") (codes "Origin") in
    (
      record {
        header =
            if cors_origin_allowed cors.allow_origins (header_get r.header (codes "Origin"))
            then preflight_headers r cors varied
            else varied;
        reply = bare (pos 204);
      },
      pos 204,
    )

-- `applyCORSResponse`, on the header of the response.
unfoldable pub apply_cors_response : Str → Cors → Header → Header
unfolding cors_origin_allowed header_add header_set
apply_cors_response origin cors h =
    let varied = header_add h (codes "Vary") (codes "Origin") in
    if is_empty origin || not (cors_origin_allowed cors.allow_origins origin)
    then varied
    else expose_headers cors
        (allow_credentials cors (header_set varied (codes "Access-Control-Allow-Origin") origin))
