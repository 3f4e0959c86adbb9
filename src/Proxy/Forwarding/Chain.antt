-- ===== src/Proxy/Forwarding/Chain.antt =====
-- The chain of a request that one gateway has sent to another.
use mathlib.Core.List.{reverse-append}
use krouter.Prelude.{
  suc, ◌<◌, ◌≡◌, refl, sym, ap, ap₂, ◌∙◌, subst, ◌⊎◌, inl, inr, Bool, true, false, none, some, List,
  [], ◌∷◌, ◌++◌, reverse, is_empty, arith, Bool-cases, Str, codes, length, join, append_assoc,
}
use krouter.Http.{Header, header_values}
use krouter.Netip.{Addr, Notation}
use krouter.ClientIp.{
  max_hops, Trust, trusts, split_commas, skip_spaces, trim_space, flat_entries, chain, hop, walk,
  host_of, resolve,
}
use krouter.ClientIp.Walk.{walk-Names, walk-trusted, resolve-walk}
use krouter.Proxy.Message.{Incoming}
use krouter.Proxy.Forwarding.{forwarded_for, received_chain, rewrite_forwarding_headers}
use krouter.Proxy.Forwarding.Headers.{IsStripped, rewrite_forwarding_headers-IsForwarded}
use krouter.Proxy.Forwarding.Entries.{
  entries, entries-append, walk-shift, IsEntry, entries-one, chain-one, received_entries,
}

module _ (notation : Notation) (r : Incoming) (with_tls : Bool) (h : Header)
    (stripped : IsStripped h) where
  abbrev peer : Str
  peer = host_of notation r.request.remote_addr

  abbrev sent : Bool → Header
  sent trusted_peer = rewrite_forwarding_headers notation r with_tls trusted_peer h

  chain-sent_untrusted : IsEntry peer → chain (sent false) ≡ peer ∷ []
  chain-sent_untrusted one =
      chain-one (sent false) peer
        (rewrite_forwarding_headers-IsForwarded notation r with_tls false h stripped).for_peer
      ∙ ap reverse (entries-one peer one)

  chain-sent_trusted :
      IsEntry peer
      → is_empty (join (header_values r.request.header forwarded_for) (codes ", ")) ≡ false
      → chain (sent true) ≡ peer ∷ chain r.request.header
  unfolding chain received_chain
  chain-sent_trusted one some_text =
      let received = join (header_values r.request.header forwarded_for) (codes ", ") in
      let before : received_chain r.request.header ≡ received ++ codes ", " =
        rw (some_text, received_chain) refl in
      chain-one (sent true) (received_chain r.request.header ++ peer)
        (rewrite_forwarding_headers-IsForwarded notation r with_tls true h stripped).for_peer
      ∙ ap (λ (t : Str). reverse (entries (t ++ peer))) before
      ∙ ap (λ (t : Str). reverse (entries t)) (append_assoc received (codes ", ") peer)
      ∙ ap reverse (entries-append received peer)
      ∙ ap₂ (λ (a b : List Str). reverse (a ++ b)) (received_entries r.request.header some_text)
          (entries-one peer one)
      ∙ reverse-append (flat_entries (header_values r.request.header forwarded_for)) (peer ∷ [])

  -- Without a received text the peer is the only entry.
  chain-sent_blank :
      IsEntry peer
      → is_empty (join (header_values r.request.header forwarded_for) (codes ", ")) ≡ true
      → chain (sent true) ≡ peer ∷ []
  unfolding chain received_chain
  chain-sent_blank one no_text =
      let before : received_chain r.request.header ≡ [] = rw (no_text, received_chain) refl in
      chain-one (sent true) (received_chain r.request.header ++ peer)
        (rewrite_forwarding_headers-IsForwarded notation r with_tls true h stripped).for_peer
      ∙ ap (λ (t : Str). reverse (entries (t ++ peer))) before
      ∙ ap reverse (entries-one peer one)

-- A received text is empty if there is no value, or one that is empty.
blank_values : (vs : List Str) → is_empty (join vs (codes ", ")) ≡ true → (vs ≡ []) ⊎ (vs ≡ [] ∷ [])
unfolding join
blank_values [] h = inl refl
blank_values ([] ∷ []) h = inr refl
blank_values ((c ∷ v) ∷ []) h = cc
blank_values ([] ∷ w ∷ vs) h = cc
blank_values ((c ∷ v) ∷ w ∷ vs) h = cc

module _ (notation : Notation) (trust : Trust) (unnamed : hop notation [] ≡ none) where
  open notation use {addr_string}

  walk-blank :
      (a : Addr) (h : Header)
      → is_empty (join (header_values h forwarded_for) (codes ", ")) ≡ true
      → walk notation trust 0 a (chain h) ≡ (addr_string a, true)
  unfolding walk chain flat_entries split_commas trim_space skip_spaces
  walk-blank a h no_text = elim (blank_values (header_values h forwarded_for) no_text) [
    | inl e ↦ rw (e, chain) refl
    | inr e ↦ rw (e, chain) (rw (unnamed, walk) refl)
  ]

  walk-empty : (a : Addr) → walk notation trust 0 a [] ≡ (addr_string a, true)
  unfolding walk
  walk-empty a = refl

  resolve-refused :
      (remote_addr : Str) (header : Header) (a : Addr)
      → hop notation (host_of notation remote_addr) ≡ some a
      → trusts trust a ≡ false
      → resolve notation trust remote_addr header ≡ (addr_string a, false)
  unfolding resolve
  resolve-refused remote_addr header a known untrusted = rw (known, resolve, untrusted) refl

  -- One trusted hop more.
  walk-peer :
      (k a : Addr) (peer : Str) (l : List Str)
      → hop notation peer ≡ some a
      → trusts trust a ≡ true
      → suc (length l) < max_hops
      → walk notation trust 0 k (peer ∷ l) ≡ walk notation trust 0 a l
  unfolding walk
  walk-peer k a peer l known trusted room =
      rw (known, walk, trusted) (walk-shift notation trust 0 a l (omega arith))

  -- Two gateways with one trust list, of which the second trusts the first, find the same client: what
  -- the second resolves from the request that the first sends on is what the first has resolved. The
  -- chain is to leave room for one hop more, the peer's address is to be an entry of a chain, and the
  -- empty text no address.
  pub resolve-relayed :
      (r : Incoming) (with_tls : Bool) (h : Header) (gateway : Str) (k a : Addr)
      → IsStripped h
      → hop notation (host_of notation gateway) ≡ some k
      → trusts trust k ≡ true
      → hop notation (host_of notation r.request.remote_addr) ≡ some a
      → IsEntry (host_of notation r.request.remote_addr)
      → suc (length (chain r.request.header)) < max_hops
      → let first = resolve notation trust r.request.remote_addr r.request.header in
        (resolve notation trust gateway
          (rewrite_forwarding_headers notation r with_tls first.1 h)).0
        ≡ first.0
  resolve-relayed r with_tls h gateway k a stripped gate gate_trusted known one room =
      let peer = host_of notation r.request.remote_addr in
      let sent : Bool → Header = λ (b : Bool). rewrite_forwarding_headers notation r with_tls b h in
      let first = resolve notation trust r.request.remote_addr r.request.header in
      let text = join (header_values r.request.header forwarded_for) (codes ", ") in
      let second : (b : Bool)
          → resolve notation trust gateway (sent b) ≡ walk notation trust 0 k (chain (sent b)) =
        λ (b : Bool). resolve-walk notation trust gateway (sent b) k gate gate_trusted in
      let finish : (o : Str × Bool)
          → first ≡ o
          → walk notation trust 0 k (chain (sent o.1)) ≡ (o.0, true)
          → (resolve notation trust gateway (sent first.1)).0 ≡ first.0 =
        λ (o : Str × Bool) e same.
          subst (λ (p : Str × Bool). (resolve notation trust gateway (sent p.1)).0 ≡ p.0) (sym e)
            (ap (λ (p : Str × Bool). p.0) (second o.1 ∙ same)) in
      elim (Bool-cases (trusts trust a)) [
        | inr untrusted ↦
            finish (addr_string a, false)
              (resolve-refused r.request.remote_addr r.request.header a known untrusted)
              (ap (walk notation trust 0 k)
                  (chain-sent_untrusted notation r with_tls h stripped one)
                ∙ walk-Names notation trust 0 k a (peer ∷ []) (omega arith)
                    (peer, [], refl, known, untrusted))
        | inl trusted ↦
            let came =
              resolve-walk notation trust r.request.remote_addr r.request.header a known trusted in
            let flag = walk-trusted notation trust 0 a (chain r.request.header) in
            elim (Bool-cases (is_empty text)) [
              | inr some_text ↦
                  finish ((walk notation trust 0 a (chain r.request.header)).0, true)
                    (came
                      ∙ ap (λ (b : Bool). ((walk notation trust 0 a (chain r.request.header)).0, b))
                          flag)
                    (ap (walk notation trust 0 k)
                        (chain-sent_trusted notation r with_tls h stripped one some_text)
                      ∙ walk-peer k a peer (chain r.request.header) known trusted room
                      ∙ ap (λ (b : Bool). ((walk notation trust 0 a (chain r.request.header)).0, b))
                          flag)
              | inl no_text ↦
                  finish (addr_string a, true) (came ∙ walk-blank a r.request.header no_text)
                    (ap (walk notation trust 0 k)
                        (chain-sent_blank notation r with_tls h stripped one no_text)
                      ∙ walk-peer k a peer [] known trusted (omega arith)
                      ∙ walk-empty a)
            ]
      ]
