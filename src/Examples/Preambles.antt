-- ===== src/Examples/Preambles.antt =====
-- A version 2 preamble from 1.2.3.4:4660, and the connections that send it.
use krouter.Prelude.{◌≡◌, refl, Bool, true, false, none, some, [], ◌∷◌, ◌++◌, Str, codes}
use krouter.Netip.{Addr, v4, without_zone, unmap}
use krouter.ProxyProto.{client, read, addr_from_slice}
use krouter.ProxyProto.Binary.{encode, encode_block, read-encode_proxy}
use krouter.ProxyProto.Conn.{accept, cause_untrusted_peer, peer_addr, remote_addr}
use krouter.ProxyProto.Once.{
  call_read, call_write, call_remote_addr, calls, calls-serve, calls-refuse, untrusted_peer,
}
use krouter.Examples.Data.{host_address, sample_notation}

abbrev source : Str
source = 1 ∷ 2 ∷ 3 ∷ 4 ∷ []

abbrev target : Str
target = 5 ∷ 6 ∷ 7 ∷ 8 ∷ []

abbrev sent : Str
sent = encode 0x21 0x11 (encode_block source target 4660 80 []) ++ codes "GET /"

abbrev trusted : Addr → Bool
trusted (v4 n) = true
trusted _ = false

read-encode_proxy_example :
    read sample_notation sent ≡ client (some (addr_from_slice source, 4660)) (codes "GET /")
read-encode_proxy_example =
    read-encode_proxy sample_notation 0x11 4 source target 4660 80 [] (codes "GET /") refl refl refl

sent-read : read sample_notation sent ≡ client (some (v4 0x01020304, 4660)) (codes "GET /")
sent-read =
    read-encode_proxy sample_notation 0x11 4 source target 4660 80 [] (codes "GET /") refl refl refl

calls-serve_example :
    let out =
      calls sample_notation trusted
        (call_read 3 ∷ call_remote_addr ∷ [])
        (accept (codes "a") sent) in
    (out.1 ++ out.0.stream ≡ codes "GET /")
    × ((remote_addr sample_notation trusted out.0).1 ≡ some (v4 0x01020304, 4660))
    × (out.0.closed ≡ false)
unfolding peer_addr without_zone unmap
calls-serve_example =
    calls-serve sample_notation trusted (codes "a") sent (codes "GET /") (host_address b'a')
      (some (v4 0x01020304, 4660)) refl refl sent-read (call_read 3) (call_remote_addr ∷ [])

calls-refuse_example :
    let out =
      calls sample_notation
        (λ _. false)
        (call_read 3 ∷ call_write ∷ [])
        (accept (codes "a") sent) in
    (out.1 ≡ [])
    × (out.0.rejected ≡ some cause_untrusted_peer)
    × (out.0.closed ≡ true)
    × ((remote_addr sample_notation (λ _. false) out.0).1 ≡ none)
unfolding peer_addr without_zone unmap
calls-refuse_example =
    calls-refuse sample_notation (λ _. false) (codes "a") sent cause_untrusted_peer
      (untrusted_peer {a = host_address b'a'} refl refl) (call_read 3) (call_write ∷ [])
