-- ===== src/Netip.antt =====
-- The part of net/netip that the program uses. Addresses are their bits; how an address is written
-- (netip.ParseAddr, netip.ParsePrefix, Addr.String, net.SplitHostPort) is an interface.
use krouter.Prelude.{
  ℕ, ◌-◌, ◌*◌, ◌/◌, ◌^◌, Bool, false, ◌&&◌, Option, [], ◌==◌, leb, if◌then◌else◌, Str, is_empty,
}

pub data Addr : Type 0 where
  invalid : Addr
  v4 : ℕ → Addr
  v6 : ℕ → Str → Addr

pub record Prefix : Type 0 where
  pub addr : Addr
  pub bits : ℕ

-- Addr.Unmap: an IPv4-mapped IPv6 address, ::ffff:a.b.c.d, becomes the IPv4 address.
unfoldable pub unmap : Addr → Addr
unmap (v6 bits zone) = if bits / 2 ^ 32 == 0xffff then v4 (bits - 0xffff * 2 ^ 32) else v6 bits zone
unmap a = a

-- Addr.WithZone("")
unfoldable pub without_zone : Addr → Addr
without_zone (v6 bits zone) = v6 bits []
without_zone a = a

contains_at : ℕ → Addr → Addr → Bool
contains_at bits (v4 n) (v4 m) = leb bits 32 && n / 2 ^ (32 - bits) == m / 2 ^ (32 - bits)
contains_at bits (v6 n _) (v6 m zone) =
    is_empty zone && (leb bits 128 && n / 2 ^ (128 - bits) == m / 2 ^ (128 - bits))
contains_at bits _ _ = false

-- Prefix.Contains; an address with a zone is in no prefix.
unfoldable pub prefix_contains : Prefix → Addr → Bool
unfolding contains_at
prefix_contains p a = contains_at p.bits p.addr a

mask_at : ℕ → Addr → Addr
mask_at bits (v4 n) = v4 (n / 2 ^ (32 - bits) * 2 ^ (32 - bits))
mask_at bits (v6 n _) = v6 (n / 2 ^ (128 - bits) * 2 ^ (128 - bits)) []
mask_at bits invalid = invalid

-- Prefix.Masked
unfoldable pub masked : Prefix → Prefix
unfolding mask_at
masked p = record p { addr = mask_at p.bits p.addr }

-- The notation of addresses.
pub record Notation : Type 0 where
  pub parse_addr : Str → Option Addr
  pub parse_prefix : Str → Option Prefix
  pub addr_string : Addr → Str
  -- net.SplitHostPort: the host and the port; `none` is an error.
  pub split_host_port : Str → Option (Str × Str)
