-- ===== src/Lib.antt =====
-- krouter's data plane: how compiled Gateway API configuration becomes routing tables, and how
-- requests, connections and their clients are looked up in them.
--
-- The control plane compiles each Gateway into ConfigMaps and a Secret
-- (internal/lib/k8s/compiled). The loader of the data plane
-- (internal/app/dataplane/loader/worker.go) takes each snapshot of these objects, verifies the
-- generation that a manifest lists (internal/lib/transports/http/routing/load.go), builds the
-- tables of the Gateway (build.go) and publishes the tables of all Gateways together. A supervisor
-- (internal/app/dataplane/listeners/worker.go) opens and closes the ports that the tables want.
-- The handler of requests (internal/lib/transports/http/proxy) finds out which client a request
-- speaks for (internal/lib/transports/proxyproto, internal/lib/transports/http/clientip), looks it
-- up in the published tables (match.go), has the extensions of the rule let it go on or refuse it
-- - a limit on its rate (internal/extensions/ratelimiting/limiter.go), authentication
-- (internal/extensions/auth/enforcer.go), a firewall -, and then answers a preflight, redirects, or
-- passes the request on to a backend, with copies for the mirrors.
--
-- Files and code:
--   Prelude and its children: shared names, tests, lists, 64-bit integers, byte strings, results.
--   Select: the loop that keeps the best candidate, used by match.go in several places.
--   Compiled, Kube: compiled.go, and the Kubernetes objects that hold the payloads.
--   Http: header and request of net/http as far as they are read; IsRequest of grpc.go.
--     Http.Headers: what setting, adding and deleting a header does to its values.
--   Netip: addresses and prefixes of net/netip; the notation of addresses is an interface.
--   Routing.Types: types.go. Routing.Peers: ClientIP and TrustsPeer of types.go.
--   Routing.Hostname, Routing.Score, Routing.Matching, Routing.Select: match.go, from hostname and
--     path tests over the precedence of rules to Match, Misdirected and CertificateFor.
--   Routing.Endpoint: AuthEndpoint of match.go.
--   Routing.Balance, Routing.Endpoints, Routing.L4: PickBackend, Endpoints, Pick, PickTCP, PickUDP
--     and PickTLS of match.go.
--   Routing.Backends, Routing.Rules, Routing.Listeners, Routing.Build: build.go, from a backend over
--     a rule and the listeners to BuildGatewayTable and MergeTables.
--   Loading: LoadGeneration of load.go. Reload: rebuild of worker.go.
--   ClientIp: clientip.go. ProxyProto: proxyproto.go. RateLimit: limiter.go.
--   RateLimit.Document: ratelimiting.go. PortAllocator: internal/lib/k8s/gatewayapi/ports.go.
--   Enforcer: enforcer.go, with Session of session.go and intersects of jwt.go.
--   Proxy.Message: replies, and those of grpc.go. Proxy.Cors: cors.go. Proxy.Extensions:
--     extensions.go. The others are parts of handler.go: Proxy.Rewrite paths and redirects,
--     Proxy.Forwarding the outbound request and the response, Proxy.Mirrors the mirrors,
--     Proxy.Forward forward, Proxy.Serve Serve and TLSConfigFor.
--   Listeners: worker.go of internal/app/dataplane/listeners; Listeners.Round one port of it.
--   Examples: concrete inputs.
--
-- State and numbers. State is passed explicitly: the counters of atomic.Int64 are a function
-- from addresses to integers (Routing.Balance), a limiter, a connection and the loader are
-- records that each operation returns anew. A pointer whose identity matters is an address:
-- listeners, counters and transports get the next free one when they are built. A Go map is an
-- association list, whose order stands for that in which Go goes through the map. Errors are
-- values of Result or Option. The weights' total, the timeouts and the counters keep the
-- wrap-around of int64; the tokens of a bucket are exact fractions in place of float64. All
-- loops are structural recursion over the list that the code goes through, or over the number
-- of ports of a range, and none needs fuel; only the digits of a number are written on fuel,
-- the number's successor, which is more than its digits.
--
-- Bounds. The limiter's calls are given the instant at which they read the clock; where a theorem needs
-- them in order, it says so. The lifetime of a session is not negative and in the range of a Duration.
-- The body that a mirror captures is the part that the backend's transport reads.
--
-- Parameters. The checksum, the parsers of certificates and of firewall programs, the JSON
-- decoders (Routing.Backends.Toolkit, Loading.Codec), those of HCL and of durations and the
-- notation of addresses (Netip.Notation) are arguments, about which nothing is assumed. So
-- are the providers and the session codec of an enforcer (Enforcer.Providers), and, for the
-- handler (Proxy.Forward.Services), URL.String, the header and the query that the reverse
-- proxy starts from and the firewall. The draws that sample mirrors are a function of their
-- position, and a message to the supervisor tells which ports can be bound.
--
-- Not modelled: the control plane (internal/lib/k8s/gatewayapi) but for its port allocation,
-- the authentication protocols, session cookies and reserved endpoints, the firewall engine,
-- the I/O of servers, forwarders and the reverse proxy, metrics, logs, mailboxes and
-- deadlines; sanVerifier of build.go, which checks parsed certificates; text outside ASCII
-- where Go folds case or trims space.
pub mod Prelude
pub mod Select
pub mod Compiled
pub mod Kube
pub mod Http
pub mod Loading
pub mod Reload
pub mod Netip
pub mod ClientIp
pub mod ProxyProto
pub mod RateLimit
pub mod Routing
pub mod PortAllocator
pub mod Enforcer
pub mod Proxy
pub mod Listeners
pub mod Examples
