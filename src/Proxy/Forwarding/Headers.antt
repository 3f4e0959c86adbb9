-- ===== src/Proxy/Forwarding/Headers.antt =====
-- The forwarding headers of an outbound request.
use krouter.Prelude.{
  ◌≡◌, refl, Bool, true, false, [], ◌∷◌, ◌++◌, if◌then◌else◌, is_empty, Str, codes, str_eq, join,
}
use krouter.Http.{Header, header_values, header_get, header_set, canonical_key, first_or_empty}
use krouter.Http.Headers.{same_name, same_name_refl, header_values-set}
use krouter.Netip.{Notation}
use krouter.ClientIp.{host_of}
use krouter.Proxy.Message.{Incoming}
use krouter.Proxy.Rewrite.{scheme_of}
use krouter.Proxy.Forwarding.{
  forwarded_for, forwarded_host, forwarded_proto, forwarded, pass_on, generate, received_chain,
  pass_received, forwarded_text, rewrite_forwarding_headers,
}

for-host : same_name forwarded_for forwarded_host ≡ false
unfolding canonical_key str_eq
for-host = refl

for-proto : same_name forwarded_for forwarded_proto ≡ false
unfolding canonical_key str_eq
for-proto = refl

for-forwarded : same_name forwarded_for forwarded ≡ false
unfolding canonical_key str_eq
for-forwarded = refl

host-for : same_name forwarded_host forwarded_for ≡ false
unfolding canonical_key str_eq
host-for = refl

host-proto : same_name forwarded_host forwarded_proto ≡ false
unfolding canonical_key str_eq
host-proto = refl

host-forwarded : same_name forwarded_host forwarded ≡ false
unfolding canonical_key str_eq
host-forwarded = refl

proto-for : same_name forwarded_proto forwarded_for ≡ false
unfolding canonical_key str_eq
proto-for = refl

proto-host : same_name forwarded_proto forwarded_host ≡ false
unfolding canonical_key str_eq
proto-host = refl

proto-forwarded : same_name forwarded_proto forwarded ≡ false
unfolding canonical_key str_eq
proto-forwarded = refl

forwarded-for : same_name forwarded forwarded_for ≡ false
unfolding canonical_key str_eq
forwarded-for = refl

forwarded-host : same_name forwarded forwarded_host ≡ false
unfolding canonical_key str_eq
forwarded-host = refl

forwarded-proto : same_name forwarded forwarded_proto ≡ false
unfolding canonical_key str_eq
forwarded-proto = refl

ruleset names = (
  for-host, for-proto, for-forwarded, host-for, host-proto, host-forwarded, proto-for, proto-host,
  proto-forwarded, forwarded-for, forwarded-host, forwarded-proto, same_name_refl,
)

pass_on_values :
    (a v : Str) (h : Header) (b : Str)
    → header_values (pass_on a v h) b ≡ (
        if is_empty v
        then header_values h b
        else (if same_name a b then v ∷ [] else header_values h b))
unfolding pass_on
pass_on_values a [] h b = refl
pass_on_values a (c ∷ v) h b = header_values-set h a b (c ∷ v)

generate_if :
    (empty : Bool) (a v : Str) (h : Header) (b : Str)
    → header_values (if empty then header_set h a v else h) b
      ≡ (if empty then (if same_name a b then v ∷ [] else header_values h b) else header_values h b)
generate_if true a v h b = header_values-set h a b v
generate_if false a v h b = refl

generate_values :
    (a v : Str) (h : Header) (b : Str)
    → header_values (generate a v h) b ≡ (
        if is_empty (first_or_empty (header_values h a))
        then (if same_name a b then v ∷ [] else header_values h b)
        else header_values h b)
unfolding generate header_get
generate_values a v h b = generate_if (is_empty (first_or_empty (header_values h a))) a v h b

if_same {ℓ} : {A : Type ℓ} (b : Bool) (x : A) → (if b then x else x) ≡ x
if_same true x = refl
if_same false x = refl

abbrev pub or_own : Str → Str → Str
or_own received own = if is_empty received then own else received

-- What was passed on stays, and what was not is generated.
pass_generate :
    (received own : Str)
    → (if is_empty (first_or_empty (if is_empty received then [] else received ∷ []))
        then own ∷ []
        else (if is_empty received then [] else received ∷ []))
      ≡ or_own received own ∷ []
pass_generate [] own = refl
pass_generate (c ∷ received) own = refl

-- The header that the reverse proxy hands over has none of the last three.
pub record IsStripped (h : Header) : Type 0 where
  pub no_host : header_values h forwarded_host ≡ []
  pub no_proto : header_values h forwarded_proto ≡ []
  pub no_forwarded : header_values h forwarded ≡ []

-- The value of each of the four, received if the peer is trusted and sent one, and otherwise the
-- connection's own.
pub record IsForwarded (notation : Notation) (r : Incoming) (with_tls trusted_peer : Bool)
    (h : Header) : Type 0 where
  pub for_peer :
      header_values h forwarded_for
      ≡ ((if trusted_peer then received_chain r.request.header else [])
          ++ host_of notation r.request.remote_addr)
        ∷ []
  pub host :
      header_values h forwarded_host
      ≡ or_own
          (if trusted_peer then header_get r.request.header forwarded_host else [])
          (host_of notation r.host)
        ∷ []
  pub proto :
      header_values h forwarded_proto
      ≡ or_own
          (if trusted_peer then header_get r.request.header forwarded_proto else [])
          (scheme_of with_tls)
        ∷ []
  pub text :
      header_values h forwarded
      ≡ or_own
          (if trusted_peer
            then join (header_values r.request.header forwarded) (codes ", ")
            else [])
          (forwarded_text
            (host_of notation r.request.remote_addr)
            (host_of notation r.host)
            (scheme_of with_tls))
        ∷ []

ruleset values = (names, pass_on_values, generate_values, header_values-set, if_same, pass_generate)

module _ (notation : Notation) where
  pub rewrite_forwarding_headers-IsForwarded :
      (r : Incoming) (with_tls trusted_peer : Bool) (h : Header)
      → IsStripped h
      → IsForwarded notation r with_tls trusted_peer
          (rewrite_forwarding_headers notation r with_tls trusted_peer h)
  unfolding rewrite_forwarding_headers pass_received
  rewrite_forwarding_headers-IsForwarded r with_tls false h s = record {
    for_peer = simp (values, s.no_host, s.no_proto, s.no_forwarded) refl;
    host = simp (values, s.no_host, s.no_proto, s.no_forwarded) refl;
    proto = simp (values, s.no_host, s.no_proto, s.no_forwarded) refl;
    text = simp (values, s.no_host, s.no_proto, s.no_forwarded) refl;
  }
  rewrite_forwarding_headers-IsForwarded r with_tls true h s = record {
    for_peer = simp (values, s.no_host, s.no_proto, s.no_forwarded) refl;
    host = simp (values, s.no_host, s.no_proto, s.no_forwarded) refl;
    proto = simp (values, s.no_host, s.no_proto, s.no_forwarded) refl;
    text = simp (values, s.no_host, s.no_proto, s.no_forwarded) refl;
  }
