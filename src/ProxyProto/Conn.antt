-- ===== src/ProxyProto/Conn.antt =====
-- The connections that `Wrap` accepts (internal/lib/transports/proxyproto/proxyproto.go): `Conn` with
-- its `sync.Once`. The stream is what the peer sends; deadlines and logging are not part of the state.
use krouter.Prelude.{ℕ, Bool, true, false, Option, none, some, if◌then◌else◌, take, drop, Str}
use krouter.ProxyProto.{Refusal, no_preamble, Preamble, client, refuse, read}
use krouter.Netip.{Addr, Notation, unmap, without_zone}

-- The causes of connectionsRejected.
pub data Cause : Type 0 where
  cause_no_preamble : Cause
  cause_untrusted_peer : Cause
  cause_malformed : Cause

-- `done` is the state of `once`; `rejected` and `closed` are what `reject` leaves.
pub record Conn : Type 0 where
  pub peer : Str
  pub stream : Str
  pub done : Bool
  pub source : Option (Addr × ℕ)
  pub rejected : Option Cause
  pub closed : Bool

abbrev pub accept : Str → Str → Conn
accept peer stream = record {
  peer = peer;
  stream = stream;
  done = false;
  source = none;
  rejected = none;
  closed = false;
}

-- `reject`
unfoldable pub reject : Cause → Conn → Conn
reject cause c = record c { rejected = some cause; closed = true; done = true }

abbrev pub cause_of : Refusal → Cause
cause_of no_preamble = cause_no_preamble
cause_of _ = cause_malformed

unfoldable pub settle : Preamble → Conn → Conn
unfolding reject
settle (client source rest) c = record c { stream = rest; source = source; done = true }
settle (refuse e) c = reject (cause_of e) c

module _ (notation : Notation) (trusted : Addr → Bool) where
  open notation use {parse_addr, split_host_port}

  -- `peerAddr`
  unfoldable pub peer_addr : Str → Option Addr
  peer_addr peer = elim (split_host_port peer) [
    | none ↦ none
    | some (host, _) ↦ elim (parse_addr host) [
      | none ↦ none
      | some addr ↦ some (without_zone (unmap addr))
    ]
  ]

  -- What `once` runs.
  unfoldable pub run_once : Conn → Conn
  unfolding settle
  run_once c = elim (peer_addr c.peer) [
    | none ↦ reject cause_malformed c
    | some peer ↦
        if trusted peer then settle (read notation c.stream) c else reject cause_untrusted_peer c
  ]

  -- `preamble`
  unfoldable pub preamble : Conn → Conn
  unfolding run_once
  preamble c = if c.done then c else run_once c

  unfoldable pub deliver : ℕ → Conn → Conn × Option Str
  deliver n c = elim c.rejected [
    | none ↦ (record c { stream = drop n c.stream }, some (take n c.stream))
    | some _ ↦ (c, none)
  ]

  -- `Read`, for a call that the reader answers with up to `n` bytes.
  unfoldable pub conn_read : ℕ → Conn → Conn × Option Str
  unfolding preamble deliver
  conn_read n c = deliver n (preamble c)

  unfoldable pub announce : Conn → Conn × Option (Addr × ℕ)
  announce c = elim c.rejected [ none ↦ (c, c.source) | some _ ↦ (c, none) ]

  -- `RemoteAddr`; `none` is the address of the peer.
  unfoldable pub remote_addr : Conn → Conn × Option (Addr × ℕ)
  unfolding preamble announce
  remote_addr c = announce (preamble c)

  -- `Write`: whether the bytes are passed to the connection.
  unfoldable pub conn_write : Conn → Conn × Bool
  unfolding preamble
  conn_write c =
      let ready = preamble c in (ready, elim ready.rejected [ none ↦ true | some _ ↦ false ])
