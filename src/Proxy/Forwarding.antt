-- ===== src/Proxy/Forwarding.antt =====
-- The request that a backend is sent, and the response that comes back
-- (internal/lib/transports/http/proxy/handler.go: rewriteForwardingHeaders, applyFilter,
-- applyResponseFilter).
pub mod Headers
pub mod Entries
pub mod Chain
use krouter.Prelude.{
  Bool, true, false, Option, none, some, List, [], ◌∷◌, ◌++◌, if◌then◌else◌, is_empty, Str, codes,
  str_eq, join,
}
use krouter.Compiled.{FilterDetails, Filter, filter_of, Filters, no_filters, more_filters}
use krouter.Http.{Header, header_get, header_values, header_set, header_add, header_del}
use krouter.Netip.{Notation}
use krouter.ClientIp.{host_of}
use krouter.Proxy.Message.{Incoming}
use krouter.Proxy.Rewrite.{scheme_of, rewritten_path}

abbrev pub forwarded_for : Str
forwarded_for = codes "X-Forwarded-For"

abbrev pub forwarded_host : Str
forwarded_host = codes "X-Forwarded-Host"

abbrev pub forwarded_proto : Str
forwarded_proto = codes "X-Forwarded-Proto"

abbrev pub forwarded : Str
forwarded = codes "Forwarded"

-- `pr.Out`: where it goes, and what it says.
pub record Outbound : Type 0 where
  pub scheme : Str
  pub address : Str
  pub host : Str
  pub path : Str
  pub raw_query : Str
  pub method : Str
  pub header : Header

-- Passing a received value on, where there is one, and writing one where there is none yet.
unfoldable pub pass_on : Str → Str → Header → Header
pass_on name value h = if is_empty value then h else header_set h name value

unfoldable pub generate : Str → Str → Header → Header
generate name value h = if is_empty (header_get h name) then header_set h name value else h

-- What is written in front of the peer.
unfoldable pub received_chain : Header → Str
unfolding join header_values
received_chain h =
    let received = join (header_values h forwarded_for) (codes ", ") in
    if is_empty received then [] else received ++ codes ", "

unfoldable pub pass_received : Header → Header → Header
pass_received received h =
    pass_on forwarded (join (header_values received forwarded) (codes ", ")) (
      pass_on forwarded_proto (header_get received forwarded_proto)
        (pass_on forwarded_host (header_get received forwarded_host) h))

-- The value of Forwarded.
abbrev pub forwarded_text : Str → Str → Str → Str
forwarded_text peer host proto =
    codes "for=" ++ (peer ++ (codes ";host=" ++ (host ++ (codes ";proto=" ++ proto))))

module _ (notation : Notation) where
  -- `rewriteForwardingHeaders`, on the header of the outbound request.
  unfoldable pub rewrite_forwarding_headers : Incoming → Bool → Bool → Header → Header
  rewrite_forwarding_headers r with_tls trusted_peer h =
      let peer = host_of notation r.request.remote_addr in
      let host = host_of notation r.host in
      let passed = if trusted_peer then pass_received r.request.header h else h in
      let before = if trusted_peer then received_chain r.request.header else [] in
      generate forwarded (forwarded_text peer host (scheme_of with_tls)) (
        generate forwarded_proto (scheme_of with_tls)
          (generate forwarded_host host (header_set passed forwarded_for (before ++ peer))))

unfoldable pub set_all : List (Str × Str) → Header → Header
unfolding header_set
set_all [] h = h
set_all ((name, value) ∷ edits) h = set_all edits (header_set h name value)

unfoldable pub add_all : List (Str × Str) → Header → Header
unfolding header_add
add_all [] h = h
add_all ((name, value) ∷ edits) h = add_all edits (header_add h name value)

unfoldable pub del_all : List Str → Header → Header
unfolding header_del
del_all [] h = h
del_all (name ∷ names) h = del_all names (header_del h name)

-- The edits of a header modifier.
unfoldable pub edit_header : FilterDetails → Header → Header
unfolding set_all add_all del_all
edit_header d h = del_all d.remove_headers (add_all d.add_headers (set_all d.set_headers h))

unfoldable pub rewrite_url : FilterDetails → Outbound → Outbound
unfolding rewritten_path
rewrite_url d o = record o {
  host = if is_empty d.hostname then o.host else d.hostname;
  path = if is_empty d.path_rewrite_type then o.path else rewritten_path o.path d;
}

-- `applyFilter`
unfoldable pub apply_filter : Filter → Outbound → Outbound
unfolding edit_header rewrite_url
apply_filter (filter_of kind d _ _ _) o =
    if str_eq kind (codes "RequestHeaderModifier")
    then record o { header = edit_header d o.header }
    else if str_eq kind (codes "URLRewrite")
    then rewrite_url d o
    else o

unfoldable pub apply_filters : Filters → Outbound → Outbound
unfolding apply_filter
apply_filters no_filters o = o
apply_filters (more_filters filter filters) o = apply_filters filters (apply_filter filter o)

-- `applyResponseFilter`
unfoldable pub apply_response_filter : Filter → Header → Header
unfolding edit_header
apply_response_filter (filter_of kind d _ _ _) h =
    if str_eq kind (codes "ResponseHeaderModifier") then edit_header d h else h

unfoldable pub apply_response_filters : Filters → Header → Header
unfolding apply_response_filter
apply_response_filters no_filters h = h
apply_response_filters (more_filters filter filters) h =
    apply_response_filters filters (apply_response_filter filter h)
