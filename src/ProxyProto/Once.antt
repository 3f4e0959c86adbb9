-- ===== src/ProxyProto/Once.antt =====
-- Sequences of calls on an accepted connection (proxyproto.go: Conn).
use krouter.Prelude.{
  ℕ, Bool, true, false, ◌≡◌, refl, ap, ◌∙◌, Option, none, some, List, [], ◌∷◌, ◌++◌, append_assoc,
  take, drop, take-append-drop, Str,
}
use krouter.ProxyProto.{Refusal, client, refuse, read}
use krouter.ProxyProto.Conn.{
  Cause, cause_untrusted_peer, cause_malformed, cause_of, Conn, accept, reject, settle, peer_addr,
  run_once, preamble, conn_read, deliver, remote_addr, announce, conn_write,
}
use krouter.Netip.{Addr, Notation}

pub data Call : Type 0 where
  call_read : ℕ → Call
  call_write : Call
  call_remote_addr : Call

module _ (notation : Notation) (trusted : Addr → Bool) where
  unfoldable pub call : Call → Conn → Conn × Str
  unfolding conn_read remote_addr conn_write
  call (call_read n) c =
      let out = conn_read notation trusted n c in
      (out.0, elim out.1 [ none ↦ [] | some bytes ↦ bytes ])
  call call_write c = ((conn_write notation trusted c).0, [])
  call call_remote_addr c = ((remote_addr notation trusted c).0, [])

  -- The connection after some calls, and the bytes that the reads gave.
  unfoldable pub calls : List Call → Conn → Conn × Str
  unfolding call
  calls [] c = (c, [])
  calls (k ∷ ks) c =
      let first = call k c in let others = calls ks first.0 in (others.0, first.1 ++ others.1)

  -- The connection once its preamble has named `source`, with `rest` still to be read.
  abbrev served : Str → Option (Addr × ℕ) → Str → Conn
  served peer source rest = record {
    peer = peer;
    stream = rest;
    done = true;
    source = source;
    rejected = none;
    closed = false;
  }

  abbrev refused : Str → Str → Cause → Conn
  refused peer stream cause = record {
    peer = peer;
    stream = stream;
    done = true;
    source = none;
    rejected = some cause;
    closed = true;
  }

  -- A call needs the connection only once its preamble is read.
  call_ready :
      (k : Call) (c d : Conn)
      → preamble notation trusted c ≡ preamble notation trusted d
      → call k c ≡ call k d
  unfolding call conn_read remote_addr conn_write
  call_ready (call_read n) c d e =
      ap
        (λ r.
          let out = deliver notation trusted n r in
          (out.0, elim out.1 [ none ↦ [] | some bytes ↦ bytes ]))
        e
  call_ready call_write c d e = ap (λ r. (r, [])) e
  call_ready call_remote_addr c d e = ap (λ r. ((announce notation trusted r).0, [])) e

  calls_ready :
      (k : Call) (ks : List Call) (c d : Conn)
      → preamble notation trusted c ≡ preamble notation trusted d
      → calls (k ∷ ks) c ≡ calls (k ∷ ks) d
  unfolding calls
  calls_ready k ks c d e =
      ap (λ first. let others = calls ks first.0 in (others.0, first.1 ++ others.1))
        (call_ready k c d e)

  calls-served :
      (ks : List Call) (peer : Str) (source : Option (Addr × ℕ)) (rest : Str)
      → (left : Str) × ((calls ks (served peer source rest)).0 ≡ served peer source left)
        × ((calls ks (served peer source rest)).1 ++ left ≡ rest)
  unfolding calls call conn_read remote_addr conn_write preamble deliver announce
  calls-served [] peer source rest = (rest, refl, refl)
  calls-served (call_read n ∷ ks) peer source rest =
      let (left, state, bytes) = calls-served ks peer source (drop n rest) in
      (
        left,
        state,
        append_assoc (take n rest) (calls ks (served peer source (drop n rest))).1 left
            ∙ ap (◌++◌ (take n rest)) bytes
            ∙ take-append-drop n rest,
      )
  calls-served (call_write ∷ ks) peer source rest = calls-served ks peer source rest
  calls-served (call_remote_addr ∷ ks) peer source rest = calls-served ks peer source rest

  calls-refused :
      (ks : List Call) (peer stream : Str) (cause : Cause)
      → calls ks (refused peer stream cause) ≡ (refused peer stream cause, [])
  unfolding calls call conn_read remote_addr conn_write preamble deliver announce
  calls-refused [] peer stream cause = refl
  calls-refused (call_read n ∷ ks) peer stream cause = calls-refused ks peer stream cause
  calls-refused (call_write ∷ ks) peer stream cause = calls-refused ks peer stream cause
  calls-refused (call_remote_addr ∷ ks) peer stream cause = calls-refused ks peer stream cause

  -- A trusted peer whose preamble is well formed: whatever calls are made first, the reads give the
  -- bytes after the preamble, in order and each once, RemoteAddr reports the client that the preamble
  -- names (or the peer where it names none), and the connection is open.
  pub calls-serve :
      (peer stream rest : Str) (a : Addr) (source : Option (Addr × ℕ))
      → peer_addr notation trusted peer ≡ some a
      → trusted a ≡ true
      → read notation stream ≡ client source rest
      → (k : Call) (ks : List Call)
      → let out = calls (k ∷ ks) (accept peer stream) in
        (out.1 ++ out.0.stream ≡ rest)
        × ((remote_addr notation trusted out.0).1 ≡ source)
        × (out.0.closed ≡ false)
  unfolding preamble run_once settle remote_addr announce
  calls-serve peer stream rest a source known trust names k ks =
      let ready : preamble notation trusted (accept peer stream) ≡ served peer source rest =
        rw (run_once, known, trust, names) refl in
      let (left, state, bytes) = calls-served (k ∷ ks) peer source rest in
      rw (calls_ready k ks (accept peer stream) (served peer source rest) ready, state)
        (bytes, refl, refl)

  -- The three ways to be refused, with the cause that is counted.
  pub data IsRefused : Str → Str → Cause → Type 0 where
    unusable_peer :
        {peer stream : Str}
        → peer_addr notation trusted peer ≡ none
        → IsRefused peer stream cause_malformed
    untrusted_peer :
        {peer stream : Str} {a : Addr}
        → peer_addr notation trusted peer ≡ some a
        → trusted a ≡ false
        → IsRefused peer stream cause_untrusted_peer
    bad_preamble :
        {peer stream : Str} {a : Addr} {e : Refusal}
        → peer_addr notation trusted peer ≡ some a
        → trusted a ≡ true
        → read notation stream ≡ refuse e
        → IsRefused peer stream (cause_of e)

  preamble-refused :
      (peer stream : Str) (cause : Cause)
      → IsRefused peer stream cause
      → preamble notation trusted (accept peer stream) ≡ refused peer stream cause
  unfolding preamble run_once settle reject
  preamble-refused peer stream _ (unusable_peer e) = rw (run_once, e) refl
  preamble-refused peer stream _ (untrusted_peer e t) = rw (run_once, e, t) refl
  preamble-refused peer stream _ (bad_preamble e t r) = rw (run_once, e, t, r) refl

  -- A refused connection gives no byte to any sequence of calls, is closed, and names no client: the
  -- peer's address cannot be read, the peer is not trusted (whatever it sends), or the preamble does
  -- not parse, each with its own cause.
  pub calls-refuse :
      (peer stream : Str) (cause : Cause)
      → IsRefused peer stream cause
      → (k : Call) (ks : List Call)
      → let out = calls (k ∷ ks) (accept peer stream) in
        (out.1 ≡ [])
        × (out.0.rejected ≡ some cause)
        × (out.0.closed ≡ true)
        × ((remote_addr notation trusted out.0).1 ≡ none)
  unfolding remote_addr announce preamble
  calls-refuse peer stream cause why k ks =
      rw
        (
          calls_ready k ks (accept peer stream) (refused peer stream cause)
              (preamble-refused peer stream cause why),
          calls-refused (k ∷ ks) peer stream cause,
        )
        (refl, refl, refl, refl)
