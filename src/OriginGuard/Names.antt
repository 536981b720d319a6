-- ===== src/OriginGuard/Names.antt =====
-- Loopback hosts and origins of whatsapp-bridge/origin_guard.go, described without the code's own tests.
use mathlib.Core.List.{reverse, reverse-cons, reverse-reverse}
use whatsapp_mcp_plugin.Prelude.{
  ℕ, ◌+◌, ◌*◌, ◌/◌, ◌%◌, ◌^◌, ◌≡◌, refl, sym, ◌∙◌, ap, subst, ◌↔◌, ◌⊎◌, inl, inr, true, false, some,
  [], ◌∷◌, ◌++◌, ◌==◌, if◌then◌else◌, Bool-cases, if-cases, Option-cases, arith,
}
use whatsapp_mcp_plugin.Bytes.{Text, bytes, equal, to_lower}
use whatsapp_mcp_plugin.Bytes.Equal.{equal→eq, equal_refl}
use whatsapp_mcp_plugin.Address.{Addr, invalid, v4, v6, zoned, unmap, is_loopback}
use whatsapp_mcp_plugin.Address.Ranges.{ip, Within}
use whatsapp_mcp_plugin.OriginGuard.{
  HostNames, drop_slash, trim_brackets, or_host, is_loopback_ip, host_is_loopback, origin_key,
}

-- The text without the slash that it ends in.
abbrev pub without_slash : Text → Text
without_slash [] = []
without_slash (c ∷ []) = if c == b'/' then [] else c ∷ []
without_slash (c ∷ d ∷ s) = c ∷ without_slash (d ∷ s)

without_slash-append :
    (s : Text) (c : ℕ) → without_slash (s ++ c ∷ []) ≡ (if c == b'/' then s else s ++ c ∷ [])
without_slash-append [] c = refl
without_slash-append (a ∷ []) c = ground arith
without_slash-append (a ∷ b ∷ s) c = ap (λ t. a ∷ t) (without_slash-append (b ∷ s) c) ∙ ground arith

-- Read from its end, a text.
drop_slash-reverse : (t : Text) → reverse (drop_slash t) ≡ without_slash (reverse t)
drop_slash-reverse [] = refl
drop_slash-reverse (c ∷ t) = sym (
    ap without_slash (reverse-cons c t)
    ∙ without_slash-append (reverse t) c
    ∙ if-cases (λ u. u ≡ reverse (drop_slash (c ∷ t))) (c == b'/') (reverse t) (reverse t ++ c ∷ [])
        (λ e. rw e refl) (λ e. rw e (sym (reverse-cons c t))))

pub origin_key-without_slash : (o : Text) → origin_key o ≡ to_lower (without_slash o)
unfolding origin_key
origin_key-without_slash o =
    ap to_lower (drop_slash-reverse (reverse o) ∙ ap without_slash (reverse-reverse o))

-- 127.0.0.0/8, also as IPv6, and ::1.
abbrev pub IsLoopback6 : ℕ → Type 0
IsLoopback6 n =
    (n ≡ 1) ⊎ Within (0xffff * 2 ^ 32 + ip 127 0 0 0) (0xffff * 2 ^ 32 + ip 127 255 255 255) n

abbrev pub IsLoopback : Addr → Type 0
IsLoopback invalid = ⊥
IsLoopback (v4 n) = Within (ip 127 0 0 0) (ip 127 255 255 255) n
IsLoopback (v6 n) = IsLoopback6 n
IsLoopback (zoned n zone) = IsLoopback6 n

loopback-Within :
    (n : ℕ) → (n / 2 ^ 24 == 127) ≡ true ↔ Within (ip 127 0 0 0) (ip 127 255 255 255) n
loopback-Within n = ((λ e. ground arith), λ w. ground arith)

loopback-mapped :
    (n : ℕ) → (n / 2 ^ 32 == 0xffff) ≡ true → (n % 2 ^ 32 / 2 ^ 24 == 127) ≡ true ↔ IsLoopback6 n
loopback-mapped n e = ((λ l. inr (ground (arith, e, l))), λ i. ground (arith, e, i))

loopback-unmapped : (n : ℕ) → (n / 2 ^ 32 == 0xffff) ≡ false → (n == 1) ≡ true ↔ IsLoopback6 n
loopback-unmapped n e = ((λ l. inl (ground (arith, l))), λ i. ground (arith, e, i))

is_loopback-IsLoopback : (a : Addr) → (is_loopback (unmap a) ≡ true) ↔ IsLoopback a
unfolding unmap
is_loopback-IsLoopback invalid = ((λ e. absurd (ground (arith, e))), λ i. elim i [ ])
is_loopback-IsLoopback (v4 n) = loopback-Within n
is_loopback-IsLoopback (v6 n) = elim (Bool-cases (n / 2 ^ 32 == 0xffff)) [
  | inl e ↦ rw e (loopback-mapped n e)
  | inr e ↦ rw e (loopback-unmapped n e)
]
is_loopback-IsLoopback (zoned n zone) = elim (Bool-cases (n / 2 ^ 32 == 0xffff)) [
  | inl e ↦ rw e (loopback-mapped n e)
  | inr e ↦ rw e (loopback-unmapped n e)
]

-- What stands in the Host before its port, in lower case and without brackets around it.
abbrev pub host_name : HostNames → Text → Text
host_name names host = to_lower (trim_brackets (or_host host (names.split_host_port host)))

-- The Host is given, and is localhost or a loopback address.
abbrev pub IsLocal : HostNames → Text → Type 0
IsLocal names host =
    (equal host [] ≡ false)
    × ((host_name names host ≡ bytes "localhost")
        ⊎ ((a : Addr) × (names.parse_ip (host_name names host) ≡ some a) × IsLoopback a))

module _ (names : HostNames) where
  is_loopback_ip-IsLoopback :
      (h : Text)
      → (is_loopback_ip (names.parse_ip h) ≡ true)
        ↔ ((a : Addr) × (names.parse_ip h ≡ some a) × IsLoopback a)
  is_loopback_ip-IsLoopback h = (
    (λ l. elim (Option-cases (names.parse_ip h)) [
      | inl e ↦ absurd (ground (arith, ap is_loopback_ip e, l))
      | inr (a, e) ↦ (a, e, (is_loopback-IsLoopback a).0 (sym (ap is_loopback_ip e) ∙ l))
    ]),
    λ (a, e, i). ap is_loopback_ip e ∙ (is_loopback-IsLoopback a).1 i,
  )

  pub host_is_loopback-IsLocal :
      (host : Text) → (host_is_loopback names host ≡ true) ↔ IsLocal names host
  unfolding host_is_loopback equal
  host_is_loopback-IsLocal [] =
      ((λ e. absurd (ground (arith, e))), λ (e, i). absurd (ground (arith, e)))
  host_is_loopback-IsLocal (c ∷ host) =
      let h = host_name names (c ∷ host) in
      elim (Bool-cases (equal h (bytes "localhost"))) [
        | inl e ↦ ((λ l. (refl, inl (equal→eq h (bytes "localhost") e))), λ i. ground (arith, e))
        | inr e ↦ (
          (λ l. (refl, inr ((is_loopback_ip-IsLoopback h).0 (ground (arith, e, l))))),
          λ (f, i). elim i [
            | inl at ↦ absurd (
                ground (
                  arith,
                  e,
                  subst (λ z. equal z (bytes "localhost") ≡ true) (sym at)
                      (equal_refl (bytes "localhost")),
                ))
            | inr j ↦ ground (arith, e, (is_loopback_ip-IsLoopback h).1 j)
          ],
        )
      ]
