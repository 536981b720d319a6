-- ===== src/Address/Ranges.antt =====
-- The addresses that `blockedIP` refuses, as intervals of numbers.
use whatsapp_mcp_plugin.Prelude.{
  ℕ, ◌+◌, ◌-◌, ◌*◌, ◌/◌, ◌%◌, ◌^◌, ◌≤◌, ◌≡◌, refl, ap, ◌↔◌, ◌≢◌, ◌⊎◌, inl, inr, String, true, none,
  arith, ◌==◌, Bool-cases, ◌&&◌,
}
use whatsapp_mcp_plugin.Address.{Addr, invalid, v4, v6, zoned, reason, blocked_ip, unmap}

-- a.b.c.d
abbrev pub ip : ℕ → ℕ → ℕ → ℕ → ℕ
ip a b c d = a * 2 ^ 24 + b * 2 ^ 16 + c * 2 ^ 8 + d

abbrev pub Within : ℕ → ℕ → ℕ → Type 0
Within lo hi n = (lo ≤ n) × (n ≤ hi)

-- The IPv4 ranges inside some network: this host, private use, carrier-grade NAT, loopback,
-- link-local with the metadata endpoints, and multicast.
abbrev pub Internal4 : ℕ → Type 0
Internal4 n =
    (n ≡ 0)
    ⊎ Within (ip 10 0 0 0) (ip 10 255 255 255) n
    ⊎ Within (ip 100 64 0 0) (ip 100 127 255 255) n
    ⊎ Within (ip 127 0 0 0) (ip 127 255 255 255) n
    ⊎ Within (ip 169 254 0 0) (ip 169 254 255 255) n
    ⊎ Within (ip 172 16 0 0) (ip 172 31 255 255) n
    ⊎ Within (ip 192 168 0 0) (ip 192 168 255 255) n
    ⊎ Within (ip 224 0 0 0) (ip 239 255 255 255) n

-- The IPv6 ranges: ::, ::1, fc00::/7, fe80::/10 and ff00::/8.
abbrev pub Internal6 : ℕ → Type 0
Internal6 n =
    (n ≡ 0)
    ⊎ (n ≡ 1)
    ⊎ Within (0xfc00 * 2 ^ 112) (0xfe00 * 2 ^ 112 - 1) n
    ⊎ Within (0xfe80 * 2 ^ 112) (0xfec0 * 2 ^ 112 - 1) n
    ⊎ Within (0xff00 * 2 ^ 112) (0x10000 * 2 ^ 112 - 1) n

module _ (n : ℕ) where
  loopback4 : (n / 2 ^ 24 == 127) ≡ true ↔ Within (ip 127 0 0 0) (ip 127 255 255 255) n
  loopback4 = (λ e. ground arith, λ w. ground arith)

  private10 : (n / 2 ^ 24 == 10) ≡ true ↔ Within (ip 10 0 0 0) (ip 10 255 255 255) n
  private10 = (λ e. ground arith, λ w. ground arith)

  private172 :
      (n / 2 ^ 24 == 172 && n / 2 ^ 20 % 16 == 1) ≡ true
      ↔ Within (ip 172 16 0 0) (ip 172 31 255 255) n
  private172 = (λ e. ground arith, λ w. ground arith)

  private192 :
      (n / 2 ^ 24 == 192 && n / 2 ^ 16 % 256 == 168) ≡ true
      ↔ Within (ip 192 168 0 0) (ip 192 168 255 255) n
  private192 = (λ e. ground arith, λ w. ground arith)

  link_local4 :
      (n / 2 ^ 24 == 169 && n / 2 ^ 16 % 256 == 254) ≡ true
      ↔ Within (ip 169 254 0 0) (ip 169 254 255 255) n
  link_local4 = (λ e. ground arith, λ w. ground arith)

  multicast4 : (n / 2 ^ 28 == 14) ≡ true ↔ Within (ip 224 0 0 0) (ip 239 255 255 255) n
  multicast4 = (λ e. ground arith, λ w. ground arith)

  cgnat4 : (n / 2 ^ 22 == 401) ≡ true ↔ Within (ip 100 64 0 0) (ip 100 127 255 255) n
  cgnat4 = (λ e. ground arith, λ w. ground arith)

  private6 : (n / 2 ^ 112 / 512 == 0x7e) ≡ true ↔ Within (0xfc00 * 2 ^ 112) (0xfe00 * 2 ^ 112 - 1) n
  private6 = (λ e. ground arith, λ w. ground arith)

  link_local6 :
      (n / 2 ^ 112 / 64 == 0x3fa) ≡ true ↔ Within (0xfe80 * 2 ^ 112) (0xfec0 * 2 ^ 112 - 1) n
  link_local6 = (λ e. ground arith, λ w. ground arith)

  multicast6 :
      (n / 2 ^ 112 / 256 == 0xff) ≡ true ↔ Within (0xff00 * 2 ^ 112) (0x10000 * 2 ^ 112 - 1) n
  multicast6 = (λ e. ground arith, λ w. ground arith)

  reason-Internal4 : reason (v4 n) ≢ none → Internal4 n
  reason-Internal4 e = ground (
    arith, loopback4.0, private10.0, private172.0, private192.0, link_local4.0, multicast4.0,
    cgnat4.0,
  )

  Internal4-reason : Internal4 n → reason (v4 n) ≢ none
  Internal4-reason i e = ground (
    arith, loopback4.1, private10.1, private172.1, private192.1, link_local4.1, multicast4.1,
    cgnat4.1,
  )

  reason-Internal6 : reason (v6 n) ≢ none → Internal6 n
  reason-Internal6 e = ground (arith, private6.0, link_local6.0, multicast6.0)

  reason-zoned : (zone : String) → reason (zoned n zone) ≢ none → (n ≢ 0) × Internal6 n
  reason-zoned zone e =
      ((λ z. ground (arith, e, z)), ground (arith, private6.0, link_local6.0, multicast6.0))

  zoned-reason : (zone : String) → (n ≢ 0) × Internal6 n → reason (zoned n zone) ≢ none
  zoned-reason zone (z, i) e = ground (arith, private6.1, link_local6.1, multicast6.1)

  Internal6-reason : Internal6 n → reason (v6 n) ≢ none
  Internal6-reason i e = ground (arith, private6.1, link_local6.1, multicast6.1)

abbrev pub mapped_base : ℕ
mapped_base = 0xffff * 2 ^ 32

-- ::ffff:0:0/96, the IPv4 addresses written as IPv6.
abbrev pub IsMapped : ℕ → Type 0
IsMapped n = Within mapped_base (mapped_base + (2 ^ 32 - 1)) n

-- What the bridge must never be talked into fetching from. `::` counts only without a zone.
abbrev pub Internal : Addr → Type 0
Internal invalid = Unit {0}
Internal (v4 n) = Internal4 n
Internal (v6 n) = (IsMapped n × Internal4 (n - mapped_base)) ⊎ ((IsMapped n → ⊥) × Internal6 n)
Internal (zoned n zone) =
    (IsMapped n × Internal4 (n - mapped_base)) ⊎ ((IsMapped n → ⊥) × ((n ≢ 0) × Internal6 n))

unmap_cases :
    (n : ℕ)
    → (IsMapped n × (unmap (v6 n) ≡ v4 (n - mapped_base)))
      ⊎ ((IsMapped n → ⊥) × (unmap (v6 n) ≡ v6 n))
unfolding unmap
unmap_cases n = elim (Bool-cases (n / 2 ^ 32 == 0xffff)) [
  | inl e ↦ inl (ground arith, rw e (ap v4 (ground arith)))
  | inr e ↦ inr ((λ m. ground arith), rw e)
]

unmap-zoned_cases :
    (n : ℕ) (zone : String)
    → (IsMapped n × (unmap (zoned n zone) ≡ v4 (n - mapped_base)))
      ⊎ ((IsMapped n → ⊥) × (unmap (zoned n zone) ≡ zoned n zone))
unfolding unmap
unmap-zoned_cases n zone = elim (Bool-cases (n / 2 ^ 32 == 0xffff)) [
  | inl e ↦ inl (ground arith, rw e (ap v4 (ground arith)))
  | inr e ↦ inr ((λ m. ground arith), rw e)
]

blocked_ip-unmapped : (a b : Addr) → unmap a ≡ b → blocked_ip a ≡ reason b
unfolding blocked_ip
blocked_ip-unmapped a b e = ap reason e

blocked_ip-v4 : (n : ℕ) → blocked_ip (v4 n) ≡ reason (v4 n)
unfolding unmap
blocked_ip-v4 n = blocked_ip-unmapped (v4 n) (v4 n) refl

invalid-blocked : blocked_ip invalid ≢ none
unfolding blocked_ip
invalid-blocked e = cc

-- The guard refuses an address exactly when it is no address or lies in one of the internal ranges, an
-- IPv4 address written as IPv6 and an address with a zone included; only `::` with a zone, although it is
-- the unspecified address, is let through.
pub blocked_ip-Internal : (a : Addr) → (blocked_ip a ≢ none) ↔ Internal a
blocked_ip-Internal invalid = ((λ e. tt), λ i e. invalid-blocked e)
blocked_ip-Internal (v4 n) = rw (blocked_ip-v4 n) (reason-Internal4 n, Internal4-reason n)
blocked_ip-Internal (v6 n) = elim (unmap_cases n) [
  | inl (m, e) ↦ rw (blocked_ip-unmapped _ _ e) (
    (λ h. inl (m, reason-Internal4 (n - mapped_base) h)),
    λ i. elim i [
      | inl (_, j) ↦ Internal4-reason (n - mapped_base) j
      | inr (no_map, _) ↦ absurd (no_map m)
    ],
  )
  | inr (m, e) ↦ rw (blocked_ip-unmapped _ _ e) (
    (λ h. inr (m, reason-Internal6 n h)),
    λ i. elim i [ inl (yes_map, _) ↦ absurd (m yes_map) | inr (_, j) ↦ Internal6-reason n j ],
  )
]
blocked_ip-Internal (zoned n zone) = elim (unmap-zoned_cases n zone) [
  | inl (m, e) ↦ rw (blocked_ip-unmapped _ _ e) (
    (λ h. inl (m, reason-Internal4 (n - mapped_base) h)),
    λ i. elim i [
      | inl (_, j) ↦ Internal4-reason (n - mapped_base) j
      | inr (no_map, _) ↦ absurd (no_map m)
    ],
  )
  | inr (m, e) ↦ rw (blocked_ip-unmapped _ _ e) (
    (λ h. inr (m, reason-zoned n zone h)),
    λ i. elim i [ inl (yes_map, _) ↦ absurd (m yes_map) | inr (_, j) ↦ zoned-reason n zone j ],
  )
]
