-- ===== src/OriginGuard/Allowed.antt =====
-- The configured origins against the keys of the guard (whatsapp-bridge/origin_guard.go).
use mathlib.Core.Path.{fun_ext}
use whatsapp_mcp_plugin.Prelude.{
  subst, ◌≡◌, refl, sym, ◌∙◌, ap, ◌↔◌, ◌⊎◌, inl, inr, Bool, true, false, List, [], ◌∷◌, any,
  Bool-cases, arith,
}
use whatsapp_mcp_plugin.Bytes.{Text, equal, trim_space, to_lower}
use whatsapp_mcp_plugin.OriginGuard.Names.{
  without_slash, origin_key-without_slash, IsLocal, host_is_loopback-IsLocal,
}
use whatsapp_mcp_plugin.OriginGuard.{
  HostNames, host_is_loopback, origin_key, new_origin_guard, passed, serve_http,
}

-- One of the configured origins, blank ones left aside, has the key of `origin`.
abbrev IsKeyed : (Text → Text) → Text → List Text → Type 0
IsKeyed key origin [] = ⊥
IsKeyed key origin (o ∷ rest) =
    ((equal (trim_space o) [] ≡ false) × (equal (key origin) (key (trim_space o)) ≡ true))
    ⊎ IsKeyed key origin rest

-- One of the configured origins, without the spaces around it, is `origin`, up to the case of ASCII letters
-- and a slash at the end of either.
abbrev pub IsListed : Text → List Text → Type 0
IsListed = IsKeyed (λ o. to_lower (without_slash o))

module _ (origin o : Text) (rest : List Text) where
  abbrev matches : List Text → Bool
  matches keys = any (equal (origin_key origin)) keys

  key-blank : equal (trim_space o) [] ≡ true → new_origin_guard (o ∷ rest) ≡ new_origin_guard rest
  unfolding new_origin_guard
  key-blank h = rw h refl

  key-filled :
      equal (trim_space o) [] ≡ false
      → new_origin_guard (o ∷ rest) ≡ origin_key (trim_space o) ∷ new_origin_guard rest
  unfolding new_origin_guard
  key-filled h = rw h refl

any-IsKeyed :
    (origin : Text) (origins : List Text)
    → any (equal (origin_key origin)) (new_origin_guard origins) ≡ true
    → IsKeyed origin_key origin origins
unfolding new_origin_guard
any-IsKeyed origin [] h = ground (arith, h)
any-IsKeyed origin (o ∷ rest) h = elim (Bool-cases (equal (trim_space o) [])) [
  | inl blank ↦ inr (
      any-IsKeyed origin rest
        (ap (matches origin o rest) (sym (key-blank origin o rest blank)) ∙ h))
  | inr filled ↦ elim (Bool-cases (equal (origin_key origin) (origin_key (trim_space o)))) [
    | inl same ↦ inl (filled, same)
    | inr other ↦
        let found = ap (matches origin o rest) (sym (key-filled origin o rest filled)) ∙ h in
        inr (any-IsKeyed origin rest (ground (arith, other, found)))
  ]
]

IsKeyed-any :
    (origin : Text) (origins : List Text)
    → IsKeyed origin_key origin origins
    → any (equal (origin_key origin)) (new_origin_guard origins) ≡ true
IsKeyed-any origin [] h = elim h [ ]
IsKeyed-any origin (o ∷ rest) (inl (filled, same)) =
    ap (matches origin o rest) (key-filled origin o rest filled) ∙ ground (arith, same)
IsKeyed-any origin (o ∷ rest) (inr later) = elim (Bool-cases (equal (trim_space o) [])) [
  | inl blank ↦
      ap (matches origin o rest) (key-blank origin o rest blank) ∙ IsKeyed-any origin rest later
  | inr filled ↦
      ap (matches origin o rest) (key-filled origin o rest filled)
      ∙ ground (arith, IsKeyed-any origin rest later)
]

IsKeyed-IsListed :
    (origin : Text) (origins : List Text)
    → IsKeyed origin_key origin origins ≡ IsListed origin origins
IsKeyed-IsListed origin origins =
    ap (λ (key : Text → Text). IsKeyed key origin origins) (fun_ext origin_key-without_slash)

passed-tests :
    (names : HostNames) (keys : List Text) (host origin : Text)
    → serve_http names keys host origin ≡ passed
    → (host_is_loopback names host ≡ true)
      × ((equal origin [] ≡ true) ⊎ (any (equal (origin_key origin)) keys ≡ true))
unfolding serve_http
passed-tests names keys host origin h = ground (arith, h)

tests-passed :
    (names : HostNames) (keys : List Text) (host origin : Text)
    → host_is_loopback names host ≡ true
    → (equal origin [] ≡ true) ⊎ (any (equal (origin_key origin)) keys ≡ true)
    → serve_http names keys host origin ≡ passed
unfolding serve_http
tests-passed names keys host origin h (inl e) = rw (h, e) refl
tests-passed names keys host origin h (inr e) = ground (arith, h, e)

-- A request reaches the API exactly when its Host is given and is localhost or a loopback address, and it
-- either carries no Origin or one that the configuration lists. A blank entry of the configuration lists none.
pub serve_http-passed :
    (names : HostNames) (origins : List Text) (host origin : Text)
    → (serve_http names (new_origin_guard origins) host origin ≡ passed)
      ↔ (IsLocal names host × ((equal origin [] ≡ true) ⊎ IsListed origin origins))
serve_http-passed names origins host origin = (
  (λ h.
      let (local, known) = passed-tests names (new_origin_guard origins) host origin h in
      (
        (host_is_loopback-IsLocal names host).0 local,
        elim known [
          | inl e ↦ inl e
          | inr e ↦ inr (
              subst (λ (T : Type 0). T) (IsKeyed-IsListed origin origins)
                (any-IsKeyed origin origins e))
        ],
      )),
  λ (local, known).
      tests-passed names (new_origin_guard origins) host origin
        ((host_is_loopback-IsLocal names host).1 local)
        (elim known [
          | inl e ↦ inl e
          | inr e ↦ inr (
              IsKeyed-any origin origins
                (subst (λ (T : Type 0). T) (sym (IsKeyed-IsListed origin origins)) e))
        ]),
)
