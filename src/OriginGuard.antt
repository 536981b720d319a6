-- ===== src/OriginGuard.antt =====
-- whatsapp-bridge/origin_guard.go: which requests reach the API. `net.SplitHostPort` and `net.ParseIP` are
-- `HostNames`.
pub mod Names
pub mod Allowed
use mathlib.Core.List.{reverse}
use whatsapp_mcp_plugin.Prelude.{
  ℕ, Bool, true, false, ◌&&◌, ◌||◌, not, Option, none, some, List, [], ◌∷◌, any, ◌==◌,
  if◌then◌else◌,
}
use whatsapp_mcp_plugin.Bytes.{Text, bytes, equal, to_lower, trim_space}
use whatsapp_mcp_plugin.Address.{Addr, unmap, is_loopback}

pub record HostNames : Type 0 where
  -- the host of `host:port`, none where the text has no such form
  pub split_host_port : Text → Option Text
  pub parse_ip : Text → Option Addr

abbrev pub drop_brackets : Text → Text
drop_brackets [] = []
drop_brackets (c ∷ s) = let rest = drop_brackets s in if c == b'[' || c == b']' then rest else c ∷ s

-- `strings.Trim(h, "[]")`
abbrev pub trim_brackets : Text → Text
trim_brackets s = reverse (drop_brackets (reverse (drop_brackets s)))

abbrev pub or_host : Text → Option Text → Text
or_host host none = host
or_host host (some h) = h

-- `ParseIP` gives an IPv4 address in its IPv6 form, which `IsLoopback` reads as the IPv4 address.
abbrev pub is_loopback_ip : Option Addr → Bool
is_loopback_ip none = false
is_loopback_ip (some ip) = is_loopback (unmap ip)

unfoldable pub host_is_loopback : HostNames → Text → Bool
unfolding equal bytes to_lower unmap
host_is_loopback names [] = false
host_is_loopback names (c ∷ host) =
    let h = to_lower (trim_brackets (or_host (c ∷ host) (names.split_host_port (c ∷ host)))) in
    if equal h (bytes "localhost") then true else is_loopback_ip (names.parse_ip h)

abbrev pub drop_slash : Text → Text
drop_slash [] = []
drop_slash (c ∷ s) = if c == b'/' then s else c ∷ s

-- The key of an origin in the map: `strings.ToLower(strings.TrimSuffix(o, "/"))`.
unfoldable pub origin_key : Text → Text
unfolding to_lower
origin_key o = to_lower (reverse (drop_slash (reverse o)))

-- The keys of `newOriginGuard`'s map.
unfoldable pub new_origin_guard : List Text → List Text
unfolding origin_key trim_space equal
new_origin_guard [] = []
new_origin_guard (o ∷ rest) =
    let keys = new_origin_guard rest in
    if equal (trim_space o) [] then keys else origin_key (trim_space o) ∷ keys

pub data Served : Type 0 where
  passed forbidden_host forbidden_origin : Served

-- `ServeHTTP` of the guard with these keys, for a request's Host and Origin, empty where missing.
unfoldable pub serve_http : HostNames → List Text → Text → Text → Served
unfolding host_is_loopback origin_key equal
serve_http names allowed host origin =
    if not (host_is_loopback names host)
    then forbidden_host
    else if not (equal origin []) && not (any (equal (origin_key origin)) allowed)
    then forbidden_origin
    else passed
