-- ===== src/Routing/Endpoint.antt =====
-- The authentication extensions whose reserved endpoints intercept a path (match.go: AuthEndpoint;
-- internal/extensions/auth/enforcer.go: Identity, PathPrefix, HasCookieProvider).
pub mod Loops
pub mod Laws
use krouter.Prelude.{
  ℤ, Bool, true, false, not, ◌&&◌, ◌||◌, Option, none, some, List, [], ◌∷◌, ◌++◌, if◌then◌else◌,
  any, Str, str_eq, has_prefix, is_some,
}
use krouter.Compiled.{Auth}
use krouter.Routing.Types.{RuleTable, RouteTable, ListenerTable, PortTable, Tables, port_of}
use krouter.Routing.Hostname.{hostname_matches, route_hostname_matches}

-- `HasCookieProvider`
unfoldable pub has_cookie_provider : Auth → Bool
has_cookie_provider e = is_some e.oidc || is_some e.saml || is_some e.ldap

-- The test on the path: the prefix itself, or a path below it.
unfoldable pub under_prefix : Str → Str → Bool
under_prefix path prefix = str_eq path prefix || has_prefix path (prefix ++ (b'/' ∷ []))

-- `candidates` and `seen`.
pub record Reserved : Type 0 where
  pub candidates : List Auth
  pub seen : List Str

abbrev pub is_seen : Str → List Str → Bool
is_seen identity seen = any (λ s. str_eq s identity) seen

abbrev pub reserve : Auth → Reserved → Reserved
reserve e r = record { candidates = r.candidates ++ e ∷ []; seen = e.identity ∷ r.seen }

-- The body of the innermost loop, after the test for an enforcer.
unfoldable pub consider_enforcer : Str → Auth → Reserved → Reserved
unfolding has_cookie_provider under_prefix
consider_enforcer path e r =
    if not (has_cookie_provider e)
    then r
    else if is_seen e.identity r.seen
    then r
    else if not (under_prefix path e.path_prefix)
    then r
    else reserve e r

unfoldable pub reserve_rules : Str → List RuleTable → Reserved → Reserved
unfolding consider_enforcer
reserve_rules path [] r = r
reserve_rules path (rule ∷ rules) r =
    reserve_rules path rules
      (elim rule.auth_enforcer [ none ↦ r | some e ↦ consider_enforcer path e r ])

unfoldable pub reserve_routes : Str → Str → List RouteTable → Reserved → Reserved
unfolding reserve_rules
reserve_routes host path [] r = r
reserve_routes host path (route ∷ routes) r =
    reserve_routes host path routes
      (if route_hostname_matches route.hostnames host then reserve_rules path route.rules r else r)

unfoldable pub reserve_listeners : Str → Str → List ListenerTable → Reserved → Reserved
unfolding reserve_routes
reserve_listeners host path [] r = r
reserve_listeners host path (l ∷ ls) r =
    reserve_listeners host path ls
      (if hostname_matches l.hostname host then reserve_routes host path l.routes r else r)

-- `Tables.AuthEndpoint`
unfoldable pub auth_endpoint : Tables → ℤ → Str → Str → List Auth
unfolding reserve_listeners
auth_endpoint t port host path = elim (port_of t port) [
  | none ↦ []
  | some table ↦
      (reserve_listeners host path table.listeners
        (record { candidates = []; seen = [] })).candidates
]
