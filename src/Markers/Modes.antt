-- ===== src/Markers/Modes.antt =====
-- The failure modes that whatsapp-bridge/undecryptable.go puts into a marker.
use whatsapp_mcp_plugin.Prelude.{
  ◌∙◌, all-append, ℕ, zero, suc, ◌+◌, ◌≤◌, ◌≡◌, refl, Bool, true, false, ◌||◌, [], ◌∷◌, ◌++◌, all,
  where_rows, length, length-append, take, ltb, ◌==◌, if◌then◌else◌, if-cases, Bool-cases, arith,
  inl, inr,
}
use whatsapp_mcp_plugin.Bytes.{Text, bytes}
use whatsapp_mcp_plugin.Markers.{
  is_mode_byte, sanitize_mode_token, Undecryptable, with_type, decrypt_failure_mode,
}

abbrev pub is_safe_byte : ℕ → Bool
is_safe_byte c = is_mode_byte c || c == b':'

-- A mode that a marker keeps whole on one line: letters, digits, `_`, `-` and `:` only, 60 bytes at most.
abbrev pub SafeMode : Text → Type 0
SafeMode s = (all is_safe_byte s ≡ true) × (length s ≤ 60)

kept-safe : (s : Text) → all is_safe_byte (where_rows is_mode_byte s) ≡ true
kept-safe [] = refl
kept-safe (c ∷ s) = elim (Bool-cases (is_mode_byte c)) [
  | inl e ↦ rw (e, e) (kept-safe s)
  | inr e ↦ rw e (kept-safe s)
]

take-safe : (n : ℕ) (s : Text) → all is_safe_byte s ≡ true → all is_safe_byte (take n s) ≡ true
take-safe zero s h = refl
take-safe (suc n) [] h = refl
take-safe (suc n) (c ∷ s) h = ground (arith, take-safe n s (ground (arith, h)), h)

length-take-le : (n : ℕ) (s : Text) → length (take n s) ≤ n
length-take-le zero s = omega arith
length-take-le (suc n) [] = omega arith
length-take-le (suc n) (c ∷ s) = omega (arith, length-take-le n s)

abbrev Short : ℕ → Text → Type 0
Short n s = (all is_safe_byte s ≡ true) × (length s ≤ n)

token-Short : (s : Text) → Short 40 (sanitize_mode_token s)
unfolding sanitize_mode_token
token-Short s =
    let kept = where_rows is_mode_byte s in
    if-cases (Short 40) (ltb 40 (length kept)) (take 40 kept) kept
      (λ h. (take-safe 40 kept (kept-safe s), length-take-le 40 kept))
      (λ h. (kept-safe s, ground (arith, h)))

append-Short : (m n : ℕ) (s t : Text) → Short m s → Short n t → Short (m + n) (s ++ t)
append-Short m n s t (hs, ls) (ht, lt) = (
  all-append is_safe_byte s t ∙ ground (arith, hs, ht),
  rw (length-append s t) (omega (arith, ls, lt)),
)

with_type-Short : (mode t : Text) → Short 14 mode → Short 40 t → Short 55 (with_type mode t)
unfolding bytes
with_type-Short mode [] (hm, lm) ht = (hm, omega (arith, lm))
with_type-Short mode (c ∷ t) hm ht =
    append-Short 15 40 (mode ++ bytes ":") (c ∷ t)
      (append-Short 14 1 mode (bytes ":") hm (refl, omega arith)) ht

start-Short :
    (unavailable : Bool)
    → Short 14 (if unavailable then bytes "unavailable" else bytes "decrypt-failed")
unfolding bytes
start-Short true = (refl, omega arith)
start-Short false = (refl, omega arith)

-- Whatever type the server names, a failure mode has only letters, digits, `_`, `-` and `:`, so that no
-- byte of it ends a marker, and at most 60 bytes.
pub decrypt_failure_mode-SafeMode : (evt : Undecryptable) → SafeMode (decrypt_failure_mode evt)
unfolding decrypt_failure_mode bytes
decrypt_failure_mode-SafeMode evt =
    let start = if evt.is_unavailable then bytes "unavailable" else bytes "decrypt-failed" in
    let mode = with_type start (sanitize_mode_token evt.unavailable_type) in
    let short =
      with_type-Short start (sanitize_mode_token evt.unavailable_type)
        (start-Short evt.is_unavailable) (token-Short evt.unavailable_type) in
    if-cases SafeMode evt.hide (mode ++ bytes ":hide") mode
      (λ h. append-Short 55 5 mode (bytes ":hide") short (refl, omega arith))
      (λ h. (short.0, omega (arith, short.1)))
