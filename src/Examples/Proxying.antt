-- ===== src/Examples/Proxying.antt =====
-- Requests that go through the proxy to a backend, and what it sends on.
use krouter.Prelude.{
  ◌≡◌, ◌↔◌, refl, pos, true, false, Option, none, some, List, [], ◌∷◌, Str, codes, arith, Any, All,
  ◌⊎◌, ◌≤◌, ◌<◌, length, take, trim_suffix, has_prefix, str_eq,
}
use krouter.Compiled.{FilterDetails}
use krouter.Http.{Request, header_values}
use krouter.ClientIp.{Trust, resolve, host_of, hop, trusts, split_commas, trim_space, chain}
use krouter.Netip.{without_zone, unmap, prefix_contains}
use krouter.Routing.Matching.{path_prefix_matches}
use krouter.Routing.Types.{MirrorTable, RuleTable, ListenerTable, Tables}
use krouter.Routing.Balance.{Counters}
use krouter.RateLimit.{Limiter}
use krouter.Prelude.{equal_fold, ◌-ℤ◌, str_lt}
use krouter.Http.{lookup_str}
use krouter.Routing.Types.{port_of}
use krouter.Routing.Hostname.{hostname_matches, route_hostname_matches, hostname_score}
use krouter.Routing.Matching.{rule_best_match, match_applies, path_applies}
use krouter.Routing.Select.{match_kind}
use krouter.Routing.Balance.{pick_bucket, pick_slot}
use krouter.Routing.Endpoints.{
  endpoints_of, service_port_name, sort_endpoints, collect, slice_endpoints, target_port,
  endpoints_at, is_eligible, insert_sorted,
}
use krouter.Proxy.Extensions.Closed.{HasStatuses}
use krouter.Routing.Select.{Candidate, match}
use krouter.Routing.Endpoint.{auth_endpoint}
use krouter.Routing.Peers.{client_ip}
use krouter.Proxy.Mirrors.{Copy, write_all, fire_mirrors}
use krouter.Proxy.Mirrors.Capture.{empty_buffer}
use krouter.Proxy.Mirrors.Fired.{IsCopyFor, reachable, fire_mirrors-IsCopyFor}
use krouter.Proxy.Forward.{Services, Dispatch, dispatch_to}
use krouter.Proxy.Serve.{World, Outcome, dispatched, serve, is_misdirected}
use krouter.Proxy.Serve.Decisions.{IsGuarded, serve-IsGuarded}
use krouter.Examples.Identities.{
  token_auth, sample_providers, sample_inspector, request_with, blank,
}
use krouter.Examples.Data.{
  sample_notation, sample_index, sample_request, sample_rule, sample_route, sample_port,
  sample_tables, narrow_listener, backend_with, host_address,
}
use krouter.Proxy.Cors.{cors_origin_allowed}
use krouter.Proxy.Cors.Origins.{Admits, cors_origin_allowed_iff}
use krouter.Proxy.Rewrite.Swap.{IsSwapped, rewritten_path-IsSwapped}
use krouter.Proxy.Message.{Incoming}
use krouter.Proxy.Forwarding.{rewrite_forwarding_headers}
use krouter.Proxy.Forwarding.Headers.{IsStripped}
use krouter.Proxy.Forwarding.Chain.{resolve-relayed}

abbrev origins : List Str
origins = codes "https://a.org" ∷ codes "https://*.b.org" ∷ []

cors_origin_allowed_iff_example :
    (cors_origin_allowed origins (codes "https://x.y.b.org") ≡ true)
    ↔ Any (λ p. Admits p (codes "https://x.y.b.org")) origins
cors_origin_allowed_iff_example = cors_origin_allowed_iff origins (codes "https://x.y.b.org")

abbrev swap : FilterDetails
swap = record {
  set_headers = [];
  add_headers = [];
  remove_headers = [];
  scheme = [];
  hostname = [];
  port = pos 0;
  status_code = pos 0;
  path_rewrite_type = codes "ReplacePrefixMatch";
  path_rewrite_value = codes "/v2";
  path_prefix = codes "/api";
}

rewritten_path-IsSwapped_example : IsSwapped swap refl (codes "/api/users/7")
unfolding has_prefix path_prefix_matches trim_suffix
rewritten_path-IsSwapped_example =
    rewritten_path-IsSwapped swap (codes "/api/users/7") refl refl refl

-- A request to a.b.c that claims to come from "xx".
abbrev pub incoming : Request → Incoming
incoming r = record {
  request = r;
  host = codes "a.b.c";
  raw_query = [];
  uri = r.url_path;
  server_name = some (codes "a.b.c");
  has_body = true;
}

abbrev spoofed : Request
spoofed = record sample_request {
  header =
      (codes "X-Forwarded-For", codes "xx" ∷ [])
      ∷ (codes "X-Forwarded-Proto", codes "https" ∷ [])
      ∷ [];
  remote_addr = codes "a";
}

nothing-IsStripped : IsStripped []
unfolding header_values
nothing-IsStripped = record { no_host = refl; no_proto = refl; no_forwarded = refl }

-- "a" and "b" are trusted.
abbrev trust : Trust
trust = some (record { addr = host_address 0; bits = 24 } ∷ [])

resolve-relayed_example :
    (resolve sample_notation trust (codes "b") (
      rewrite_forwarding_headers sample_notation
        (incoming spoofed)
        false
        (resolve sample_notation trust (codes "a") spoofed.header).1
        [])).0
    ≡ (resolve sample_notation trust (codes "a") spoofed.header).0
unfolding hop host_of without_zone unmap trusts prefix_contains split_commas trim_space chain str_eq
resolve-relayed_example =
    resolve-relayed sample_notation trust refl (incoming spoofed) false [] (codes "b")
      (host_address b'b') (host_address b'a') nothing-IsStripped refl refl refl
      (record { no_comma = refl; trimmed = refl }) (omega arith)

-- Two mirrors, of which one rejects its TLS policy.
abbrev mirrors : List MirrorTable
mirrors =
    record {
      backend = backend_with (codes "a") (pos 1);
      percent = record { numerator = 100; denominator = 1 };
    }
    ∷ record {
      backend = record (backend_with (codes "a") (pos 1)) { tls_invalid = true };
      percent = record { numerator = 100; denominator = 1 };
    }
    ∷ []

abbrev untouched : Counters
untouched = λ c. pos 0

abbrev pieces : List Str
pieces = codes "ab" ∷ codes "c" ∷ codes "d" ∷ []

abbrev or_nothing : Option (List Copy × Counters) → List Copy × Counters
or_nothing none = ([], untouched)
or_nothing (some o) = o

abbrev fired : List Copy × Counters
fired = or_nothing (
    fire_mirrors untouched sample_index (some (write_all (empty_buffer 3) (take 2 pieces))) true
      mirrors)

fire_mirrors-IsCopyFor_example :
    All (IsCopyFor sample_index (some (codes "abc")) mirrors) fired.0
    × ((2 < 3) ⊎ All (IsCopyFor sample_index (some (codes "abcd")) mirrors) fired.0)
    × ((fired.0 ≡ []) ⊎ (3 ≤ 3))
    × ((true ≡ false) ⊎ (3 < 3) ⊎ (length fired.0 ≡ length (reachable sample_index mirrors)))
unfolding fire_mirrors write_all endpoints_of lookup_str str_eq service_port_name sort_endpoints
    collect slice_endpoints target_port endpoints_at is_eligible insert_sorted str_lt
fire_mirrors-IsCopyFor_example =
    fire_mirrors-IsCopyFor sample_index 3 2 pieces true mirrors untouched fired.0 fired.1 refl

-- a.b.c/api is for ann only.
abbrev guarded_rule : RuleTable
guarded_rule = record sample_rule { auth_enforcer = some token_auth }

abbrev guarded_listener : ListenerTable
guarded_listener = record narrow_listener {
  routes = record sample_route { rules = guarded_rule ∷ [] } ∷ [];
}

abbrev guarded_tables : Tables
guarded_tables = record sample_tables {
  by_port = (pos 8080, record sample_port { listeners = guarded_listener ∷ [] }) ∷ [];
}

abbrev services : Services
services = record {
  notation = sample_notation;
  url_string = λ l. l.host;
  outgoing = λ h. [];
  clean_query = λ q. q;
  inspect = sample_inspector;
  providers = sample_providers;
}

-- No rule of the tables has a limiter.
abbrev limiter : Limiter
limiter = record {
  requests = 1;
  window = 1;
  burst = 1;
  key = codes "ClientIP";
  status = pos 429;
  ops = 0;
  buckets = λ k. none;
}

abbrev world : World
world = record { counters = untouched; limiters = λ a. limiter }

abbrev nowhere : Dispatch
nowhere =
    dispatch_to services sample_index guarded_rule (backend_with (codes "a") (pos 1))
      (record { address = []; port = pos 0 }) (incoming sample_request) false false (λ n. 0)

abbrev or_nowhere : Outcome → Request × Dispatch
or_nowhere (dispatched r d) = (r, d)
or_nowhere _ = (sample_request, nowhere)

abbrev sent : Request × Dispatch
sent =
    or_nowhere
      (serve services sample_index guarded_tables (pos 8080) true 1 (λ n. 0)
        (incoming (request_with (codes "Bearer t"))) blank world).0

sent-dispatched :
    (serve services sample_index guarded_tables
      (pos 8080)
      true
      1
      (λ n. 0)
      (incoming (request_with (codes "Bearer t")))
      blank
      world).0
    ≡ dispatched sent.0 sent.1
unfolding serve port_of hostname_matches equal_fold route_hostname_matches match_kind hostname_score
    rule_best_match match_applies path_applies path_prefix_matches pick_bucket pick_slot ◌-ℤ◌
    endpoints_of lookup_str str_eq service_port_name sort_endpoints collect slice_endpoints
    target_port endpoints_at is_eligible insert_sorted str_lt
sent-dispatched = refl

sample_inspector-HasStatuses : HasStatuses sample_inspector
sample_inspector-HasStatuses program client r headers_only status rule_id e = cc

serve-IsGuarded_example :
    (is_misdirected services sample_index guarded_tables
        (pos 8080)
        true
        (some (codes "a.b.c"))
        (host_of sample_notation (codes "a.b.c"))
      ≡ false)
    × (auth_endpoint guarded_tables
          (pos 8080)
          (host_of sample_notation (codes "a.b.c"))
          sample_request.url_path
        ≡ [])
    × ((c : Candidate) × (match guarded_tables
            (pos 8080)
            (host_of sample_notation (codes "a.b.c"))
            (request_with (codes "Bearer t"))
          ≡ some c)
        × IsGuarded services sample_index sample_inspector-HasStatuses true 1
            (λ n. 0)
            blank
            c.rule
            (client_ip sample_notation guarded_tables
              (pos 8080)
              (request_with (codes "Bearer t"))).0
            (incoming (request_with (codes "Bearer t")))
            world
            sent.0
            sent.1)
serve-IsGuarded_example =
    serve-IsGuarded services sample_index sample_inspector-HasStatuses true 1 (λ n. 0) blank
      guarded_tables (pos 8080) (incoming (request_with (codes "Bearer t"))) world sent.0 sent.1
      (λ a e. cc) sent-dispatched
