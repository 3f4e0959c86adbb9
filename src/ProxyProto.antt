-- ===== src/ProxyProto.antt =====
-- The PROXY protocol preamble (internal/lib/transports/proxyproto/proxyproto.go). A reader is the
-- bytes that the peer sends before it closes its side; a read takes bytes from the front.
use krouter.Prelude.{
  ℕ, ◌+◌, ◌-◌, ◌*◌, ◌/◌, ◌^◌, Bool, true, false, not, ◌&&◌, ◌||◌, Option, none, some, List, [], ◌∷◌,
  ◌++◌, ◌==◌, ltb, leb, if◌then◌else◌, length, take, drop, get_elem?, is_empty, Str, codes, str_eq,
  trim_suffix,
}
use krouter.ClientIp.{is_space}
use krouter.Netip.{Addr, v4, v6, Notation}
pub mod Binary
pub mod Conn
pub mod Once

abbrev pub max_line_length : ℕ
max_line_length = 107

abbrev pub signature : Str
signature = 0x0D ∷ 0x0A ∷ 0x0D ∷ 0x0A ∷ 0x00 ∷ 0x0D ∷ 0x0A ∷ 0x51 ∷ 0x55 ∷ 0x49 ∷ 0x54 ∷ 0x0A ∷ []

-- The errors of `Read`, by the message.
pub data Refusal : Type 0 where
  no_preamble : Refusal
  truncated_preamble : Refusal
  truncated_address_block : Refusal
  too_long : Refusal
  malformed : Refusal
  invalid_source : Refusal
  wrong_family : Refusal
  unsupported_transport : Refusal
  invalid_port : Refusal
  unsupported_command : Refusal
  unsupported_family : Refusal
  short_block : Refusal

-- `client none` is the invalid address: the preamble names no client. The rest of the stream follows.
pub data Preamble : Type 0 where
  client : Option (Addr × ℕ) → Str → Preamble
  refuse : Refusal → Preamble

-- The number that some bytes stand for, the highest first.
abbrev pub big_endian : ℕ → Str → ℕ
big_endian acc [] = acc
big_endian acc (c ∷ s) = big_endian (acc * 256 + c) s

-- netip.AddrFromSlice
abbrev pub addr_from_slice : Str → Addr
addr_from_slice s = if length s == 4 then v4 (big_endian 0 s) else v6 (big_endian 0 s) []

abbrev pub byte_at : Str → ℕ → ℕ
byte_at s i = elim (get_elem? s i) [ none ↦ 0 | some c ↦ c ]

abbrev pub family_size : ℕ → Option ℕ
family_size family = if family == 0x11 then some 4 else if family == 0x21 then some 16 else none

-- The address of a block that is long enough.
unfoldable pub block_client : ℕ → Str → Str → Preamble
block_client size body rest =
    client
      (some (
        addr_from_slice (take size body),
        byte_at body (size * 2) * 256 + byte_at body (size * 2 + 1),
      ))
      rest

-- The two `switch` statements of `readV2`, once the whole preamble is read.
unfoldable pub interpret : ℕ → ℕ → Str → Str → Preamble
unfolding block_client
interpret command family body rest =
    if command == 0x20
    then client none rest
    else if not (command == 0x21)
    then refuse unsupported_command
    else elim (family_size family) [
      | none ↦ if family == 0x00 then client none rest else refuse unsupported_family
      | some size ↦
          if ltb (length body) (size * 2 + 4)
          then refuse short_block
          else block_client size body rest
    ]

-- The rest of `readV2` after the header: the declared block.
unfoldable pub read_block : ℕ → ℕ → ℕ → Str → Preamble
unfolding interpret
read_block command family n after =
    if ltb (length after) n
    then refuse truncated_address_block
    else interpret command family (take n after) (drop n after)

-- `readV2`: io.ReadFull fails on fewer bytes than it is to read.
unfoldable pub read_v2 : Str → Preamble
unfolding read_block
read_v2 stream =
    if ltb (length stream) (length signature + 4)
    then refuse truncated_preamble
    else read_block (byte_at stream (length signature)) (byte_at stream (length signature + 1))
        (byte_at stream (length signature + 2) * 256 + byte_at stream (length signature + 3))
        (drop (length signature + 4) stream)

-- ReadString('\n'): the line with its newline, and the rest.
unfoldable pub read_line : Str → Option (Str × Str)
read_line [] = none
read_line (c ∷ s) =
    if c == 10
    then some (c ∷ [], s)
    else elim (read_line s) [ none ↦ none | some (line, rest) ↦ some (c ∷ line, rest) ]

add_field : Str → List Str → List Str
add_field [] fields = fields
add_field (c ∷ s) fields = (c ∷ s) ∷ fields

-- strings.Fields, with the field that is being read, over ASCII white space.
fields_from : Str → Str → List Str
unfolding add_field
fields_from cur [] = add_field cur []
fields_from cur (c ∷ s) =
    let closed = fields_from [] s in
    let longer = fields_from (cur ++ c ∷ []) s in
    if is_space c then add_field cur closed else longer

unfoldable pub fields_of : Str → List Str
unfolding fields_from is_space
fields_of s = fields_from [] s

is_digit : ℕ → Bool
is_digit c = leb b'0' c && leb c b'9'

digits_value : ℕ → Str → Option ℕ
unfolding is_digit
digits_value acc [] = some acc
digits_value acc (c ∷ s) =
    let rest = digits_value (acc * 10 + (c - b'0')) s in if is_digit c then rest else none

-- strconv.ParseUint(s, 10, 16)
unfoldable pub parse_port : Str → Option ℕ
unfolding digits_value
parse_port [] = none
parse_port (c ∷ s) = elim (digits_value 0 (c ∷ s)) [
  | none ↦ none
  | some n ↦ if ltb n 65536 then some n else none
]

-- Is4 and Is6 of netip; Is4In6 is the IPv4-mapped form.
abbrev pub is_v4 : Addr → Bool
is_v4 (v4 n) = true
is_v4 _ = false

abbrev pub is_proper_v6 : Addr → Bool
is_proper_v6 (v6 bits zone) = not (bits / 2 ^ 32 == 0xffff)
is_proper_v6 _ = false

abbrev pub with_port : Option ℕ → Addr → Str → Preamble
with_port none source rest = refuse invalid_port
with_port (some port) source rest = client (some (source, port)) rest

-- The checks on the family, then the port.
unfoldable pub v1_source : Str → Addr → Str → Str → Preamble
unfolding parse_port
v1_source transport source sport rest =
    if str_eq transport (codes "TCP4")
    then if is_v4 source then with_port (parse_port sport) source rest else refuse wrong_family
    else if str_eq transport (codes "TCP6")
    then if is_proper_v6 source
      then with_port (parse_port sport) source rest
      else refuse wrong_family
    else refuse unsupported_transport

abbrev pub is_unknown : List Str → Bool
is_unknown (_ ∷ transport ∷ _) = str_eq transport (codes "UNKNOWN")
is_unknown (_ ∷ []) = false
is_unknown [] = false

module _ (notation : Notation) where
  open notation use {parse_addr}

  unfoldable pub v1_fields : List Str → Str → Preamble
  unfolding v1_source
  v1_fields (proto ∷ transport ∷ src ∷ dst ∷ sport ∷ dport ∷ []) rest = elim (parse_addr src) [
    | none ↦ refuse invalid_source
    | some source ↦ v1_source transport source sport rest
  ]
  v1_fields _ rest = refuse malformed

  unfoldable pub v1_line : Str → Str → Preamble
  unfolding fields_of v1_fields
  v1_line line rest =
      if ltb max_line_length (length line)
      then refuse too_long
      else let fields = fields_of (trim_suffix (trim_suffix line (10 ∷ [])) (13 ∷ [])) in
        if is_unknown fields then client none rest else v1_fields fields rest

  -- `readV1`
  unfoldable pub read_v1 : Str → Preamble
  unfolding read_line v1_line
  read_v1 stream = elim (read_line stream) [
    | none ↦ refuse truncated_preamble
    | some (line, rest) ↦ v1_line line rest
  ]

  -- `Read`
  unfoldable pub read : Str → Preamble
  unfolding read_v1 read_v2
  read stream =
      if ltb (length stream) (length signature)
      then refuse no_preamble
      else if str_eq (take (length signature) stream) signature
      then read_v2 stream
      else if not (str_eq (take 6 stream) (codes "PROXY "))
      then refuse no_preamble
      else read_v1 stream
