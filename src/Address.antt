-- ===== src/Address.antt =====
-- IP addresses as package net/netip has them, and `blockedIP` of whatsapp-bridge/fetch_url.go. An IPv4
-- address is its 32-bit number, an IPv6 address its 128-bit number, with a zone where it has one.
pub mod Ranges
use whatsapp_mcp_plugin.Prelude.{
  ℕ, ◌+◌, ◌-◌, ◌*◌, ◌/◌, ◌%◌, ◌^◌, Bool, true, false, ◌&&◌, ◌||◌, not, String, Option, none, some,
  ◌==◌, if◌then◌else◌,
}

pub data Addr : Type 0 where
  invalid : Addr
  v4 v6 : ℕ → Addr
  zoned : ℕ → String → Addr

-- The sixteen bits at the top of an IPv6 address.
abbrev pub top16 : ℕ → ℕ
top16 n = n / 2 ^ 112

-- `Addr.Unmap`: ::ffff:a.b.c.d is a.b.c.d, without its zone.
unfoldable pub unmap : Addr → Addr
unmap (v6 n) = if n / 2 ^ 32 == 0xffff then v4 (n % 2 ^ 32) else v6 n
unmap (zoned n zone) = if n / 2 ^ 32 == 0xffff then v4 (n % 2 ^ 32) else zoned n zone
unmap a = a

abbrev pub is_valid : Addr → Bool
is_valid invalid = false
is_valid _ = true

abbrev pub is_loopback : Addr → Bool
is_loopback invalid = false
is_loopback (v4 n) = n / 2 ^ 24 == 127
is_loopback (v6 n) = n == 1
is_loopback (zoned n zone) = n == 1

abbrev pub is_link_local_unicast : Addr → Bool
is_link_local_unicast invalid = false
is_link_local_unicast (v4 n) = n / 2 ^ 24 == 169 && n / 2 ^ 16 % 256 == 254
is_link_local_unicast (v6 n) = top16 n / 64 == 0x3fa
is_link_local_unicast (zoned n zone) = top16 n / 64 == 0x3fa

abbrev pub is_link_local_multicast : Addr → Bool
is_link_local_multicast invalid = false
is_link_local_multicast (v4 n) = n / 2 ^ 24 == 224 && n / 2 ^ 16 % 256 == 0 && n / 2 ^ 8 % 256 == 0
is_link_local_multicast (v6 n) = top16 n / 256 == 0xff && top16 n % 16 == 2
is_link_local_multicast (zoned n zone) = top16 n / 256 == 0xff && top16 n % 16 == 2

abbrev pub is_private : Addr → Bool
is_private invalid = false
is_private (v4 n) =
    n / 2 ^ 24 == 10
    || n / 2 ^ 24 == 172 && n / 2 ^ 20 % 16 == 1
    || n / 2 ^ 24 == 192 && n / 2 ^ 16 % 256 == 168
is_private (v6 n) = top16 n / 512 == 0x7e
is_private (zoned n zone) = top16 n / 512 == 0x7e

-- The address is compared with `::`, which has no zone.
abbrev pub is_unspecified : Addr → Bool
is_unspecified invalid = false
is_unspecified (v4 n) = n == 0
is_unspecified (v6 n) = n == 0
is_unspecified (zoned n zone) = false

abbrev pub is_multicast : Addr → Bool
is_multicast invalid = false
is_multicast (v4 n) = n / 2 ^ 28 == 14
is_multicast (v6 n) = top16 n / 256 == 0xff
is_multicast (zoned n zone) = top16 n / 256 == 0xff

abbrev pub is_interface_local_multicast : Addr → Bool
is_interface_local_multicast (v6 n) = top16 n / 256 == 0xff && top16 n % 16 == 1
is_interface_local_multicast (zoned n zone) = top16 n / 256 == 0xff && top16 n % 16 == 1
is_interface_local_multicast _ = false

-- 100.64.0.0/10
abbrev pub in_cgnat_range : Addr → Bool
in_cgnat_range (v4 n) = n / 2 ^ 22 == 401
in_cgnat_range _ = false

-- `blockedIP`: the reason for which an address is refused.
abbrev pub reason : Addr → Option String
reason a =
    if not (is_valid a)
    then some "direccion invalida"
    else if is_loopback a
    then some "loopback"
    else if is_link_local_unicast a || is_link_local_multicast a
    then some "link-local (metadata de instancia)"
    else if is_private a
    then some "rango privado"
    else if is_unspecified a
    then some "direccion no especificada"
    else if is_multicast a || is_interface_local_multicast a
    then some "multicast"
    else if in_cgnat_range a
    then some "CGNAT 100.64/10"
    else none

unfoldable pub blocked_ip : Addr → Option String
unfolding unmap
blocked_ip a = reason (unmap a)
