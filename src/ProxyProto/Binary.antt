-- ===== src/ProxyProto/Binary.antt =====
-- The version 2 preamble and an encoder of the format (proxyproto.go: readV2).
use krouter.Prelude.{
  ℕ, suc, ◌+◌, ◌*◌, ◌/◌, ◌%◌, ◌≤◌, ◌≡◌, ap, ap₂, ◌∙◌, subst, some, [], ◌∷◌, ◌++◌, arith, length,
  take, take-append, drop-append, length-append, Str, str_eq_refl, ltb, false,
}
use krouter.ProxyProto.{
  client, signature, read_v2, read_block, interpret, block_client, read, byte_at, addr_from_slice,
  family_size,
}
use krouter.Netip.{Notation}

-- Two bytes, the higher first.
abbrev pub uint16_bytes : ℕ → Str
uint16_bytes n = n / 256 ∷ n % 256 ∷ []

-- A version 2 preamble with its declared block.
abbrev pub encode : ℕ → ℕ → Str → Str
encode command family body = signature ++ command ∷ family ∷ uint16_bytes (length body) ++ body

-- The block of a proxied connection: both addresses, both ports, then entries that are skipped.
abbrev pub encode_block : Str → Str → ℕ → ℕ → Str → Str
encode_block src dst sport dport entries =
    src ++ (dst ++ (uint16_bytes sport ++ (uint16_bytes dport ++ entries)))

bytes_of : (n : ℕ) → n / 256 * 256 + n % 256 ≡ n
bytes_of n = omega arith

byte_at-append : (s t : Str) (i : ℕ) → byte_at (s ++ t) (length s + i) ≡ byte_at t i
byte_at-append [] t i = ap (byte_at t) {y = i} (omega arith)
byte_at-append (c ∷ s) t i =
    ap (byte_at (c ∷ s ++ t)) {y = suc (length s + i)} (omega arith) ∙ byte_at-append s t i

framed_block :
    (command family : ℕ) (body rest : Str)
    → read_block command family (length body) (body ++ rest) ≡ interpret command family body rest
unfolding read_block
framed_block command family body rest =
    let long_body : ltb (length (body ++ rest)) (length body) ≡ false =
      ground (arith, length-append body rest) in
    rw (long_body) (ap₂ (interpret command family) (take-append body rest) (drop-append body rest))

framed :
    (command family : ℕ) (body rest : Str)
    → read_v2 (encode command family body ++ rest) ≡ interpret command family body rest
unfolding read_v2
framed command family body rest =
    let long_header : ltb (length (encode command family body ++ rest)) 16 ≡ false = ground arith in
    rw (long_header) (
      ap (λ n. read_block command family n (body ++ rest)) (bytes_of (length body))
      ∙ framed_block command family body rest)

-- The source port stands after both addresses.
source_port :
    (src dst tail : Str) (size sport : ℕ)
    → length src ≡ size
    → length dst ≡ size
    → byte_at (src ++ (dst ++ (uint16_bytes sport ++ tail))) (size * 2) * 256
        + byte_at (src ++ (dst ++ (uint16_bytes sport ++ tail))) (size * 2 + 1)
      ≡ sport
source_port src dst tail size sport src_size dst_size =
    let body = uint16_bytes sport ++ tail in
    let at : (i : ℕ) → byte_at (src ++ (dst ++ body)) (size * 2 + i) ≡ byte_at body i = λ i.
      ap (byte_at (src ++ (dst ++ body))) {y = length src + (length dst + i)} (omega arith)
      ∙ byte_at-append src (dst ++ body) (length dst + i)
      ∙ byte_at-append dst body i in
    let first : byte_at (src ++ (dst ++ body)) (size * 2) ≡ sport / 256 =
      ap (byte_at (src ++ (dst ++ body))) {y = size * 2 + 0} (omega arith) ∙ at 0 in
    ap₂ (λ a b. a * 256 + b) first (at 1) ∙ bytes_of sport

named_block :
    (size : ℕ) (src dst : Str) (sport dport : ℕ) (entries rest : Str)
    → length src ≡ size
    → length dst ≡ size
    → block_client size (encode_block src dst sport dport entries) rest
      ≡ client (some (addr_from_slice src, sport)) rest
unfolding block_client
named_block size src dst sport dport entries rest src_size dst_size =
    let tail = uint16_bytes dport ++ entries in
    let source : take size (encode_block src dst sport dport entries) ≡ src =
      subst (λ n. take n (src ++ (dst ++ (uint16_bytes sport ++ tail))) ≡ src) src_size
        (take-append src (dst ++ (uint16_bytes sport ++ tail))) in
    ap₂ (λ a n. client (some (addr_from_slice a, n)) rest) source
      (source_port src dst tail size sport src_size dst_size)

named :
    (family size : ℕ) (src dst : Str) (sport dport : ℕ) (entries rest : Str)
    → family_size family ≡ some size
    → length src ≡ size
    → length dst ≡ size
    → interpret 0x21 family (encode_block src dst sport dport entries) rest
      ≡ client (some (addr_from_slice src, sport)) rest
unfolding interpret
named family size src dst sport dport entries rest known src_size dst_size =
    let body = encode_block src dst sport dport entries in
    let fits : ltb (length body) (size * 2 + 4) ≡ false =
      let after = uint16_bytes sport ++ (uint16_bytes dport ++ entries) in
      let measured : size * 2 + 4 ≤ length body =
        omega (arith, length-append src (dst ++ after), length-append dst after) in
      ground arith in
    let block = named_block size src dst sport dport entries rest src_size dst_size in
    rw (known, fits) block

module _ (notation : Notation) where
  -- A version 2 preamble gets past the first checks.
  pub read-encode :
      (command family : ℕ) (body rest : Str)
      → read notation (encode command family body ++ rest) ≡ interpret command family body rest
  unfolding read
  read-encode command family body rest =
      let long : ltb (length (encode command family body ++ rest)) 12 ≡ false = ground arith in
      rw (long, str_eq_refl signature) (framed command family body rest)

  -- Reading a version 2 preamble for a proxied TCP connection over IPv4 or IPv6, whatever entries end
  -- its address block, gives exactly the source address and port that it encodes and leaves exactly
  -- the bytes that follow the preamble. The addresses have the size of the family.
  pub read-encode_proxy :
      (family size : ℕ) (src dst : Str) (sport dport : ℕ) (entries rest : Str)
      → family_size family ≡ some size
      → length src ≡ size
      → length dst ≡ size
      → read notation (encode 0x21 family (encode_block src dst sport dport entries) ++ rest)
        ≡ client (some (addr_from_slice src, sport)) rest
  read-encode_proxy family size src dst sport dport entries rest known src_size dst_size =
      read-encode 0x21 family (encode_block src dst sport dport entries) rest
      ∙ named family size src dst sport dport entries rest known src_size dst_size
