-- ===== src/Vault/Safe.antt =====
-- `sanitizeFilename` of whatsapp-bridge/export_vault.go.
use mathlib.Core.List.{reverse, reverse_aux, reverse-append, reverse-reverse}
use whatsapp_mcp_plugin.Prelude.{
  ℕ, ◌≡◌, refl, ap, sym, subst, all, take, drop, true, ◌&&◌, String, List, ◌∙◌, inl, inr, Bool,
  false, ◌||◌, [], ◌∷◌, ◌++◌, map, any, ◌==◌, if◌then◌else◌, if-cases, Bool-cases, arith,
}
use whatsapp_mcp_plugin.Bytes.{is_blank, Text, bytes, equal, trim_space, drop_spaces, is_space}
use whatsapp_mcp_plugin.Bytes.Equal.{equal→eq}
use whatsapp_mcp_plugin.Vault.{
  Unicode, is_device_number, upper_byte, is_forbidden, dashed, drop_dots, trim_dots,
  is_windows_reserved_name, cleaned, sanitize_filename,
}

-- A dot or a space in front.
abbrev pub dot_first : Text → Bool
dot_first [] = false
dot_first (c ∷ s) = c == b'.' || c == b' '

-- The names that Windows gives to devices.
abbrev pub devices : List String
devices =
    "CON" ∷ "PRN" ∷ "AUX" ∷ "NUL" ∷ "COM1" ∷ "COM2" ∷ "COM3" ∷ "COM4" ∷ "COM5" ∷ "COM6" ∷ "COM7"
    ∷ "COM8" ∷ "COM9" ∷ "LPT1" ∷ "LPT2" ∷ "LPT3" ∷ "LPT4" ∷ "LPT5" ∷ "LPT6" ∷ "LPT7" ∷ "LPT8"
    ∷ "LPT9" ∷ []

-- The whole text, in capitals, is such a name.
abbrev pub is_device : Text → Bool
is_device s = any (λ (d : String). equal (map upper_byte s) (bytes d)) devices

-- A name that is no path, and not itself the name of a device.
pub record IsSafe (s : Text) : Type 0 where
  pub filled : is_blank s ≡ false
  pub clean : any is_forbidden s ≡ false
  pub ending : dot_first (reverse s) ≡ false
  pub no_device : is_device s ≡ false

any-reverse_aux : (p : ℕ → Bool) (s t : Text) → any p (reverse_aux s t) ≡ (any p s || any p t)
any-reverse_aux p [] t = refl
any-reverse_aux p (c ∷ s) t = any-reverse_aux p s (c ∷ t) ∙ ground arith

any-reverse : (p : ℕ → Bool) (s : Text) → any p (reverse s) ≡ any p s
any-reverse p s = any-reverse_aux p s [] ∙ ground arith

clean-append : (s t : Text) → any is_forbidden (s ++ t) ≡ (any is_forbidden s || any is_forbidden t)
clean-append [] t = refl
clean-append (c ∷ s) t = ground (arith, clean-append s t)

dashed-clean : (s : Text) → any is_forbidden (map dashed s) ≡ false
dashed-clean [] = refl
dashed-clean (c ∷ s) = elim (Bool-cases (is_forbidden c)) [
  | inl e ↦ rw e (dashed-clean s)
  | inr e ↦ rw e (rw e (dashed-clean s))
]

drop_spaces-clean :
    (s : Text) → any is_forbidden s ≡ false → any is_forbidden (drop_spaces s) ≡ false
drop_spaces-clean [] h = refl
drop_spaces-clean (c ∷ s) h =
    if-cases (λ t. any is_forbidden t ≡ false) (is_space c) (drop_spaces s) (c ∷ s)
      (λ e. drop_spaces-clean s (ground (arith, h))) (λ e. h)

drop_dots-clean : (s : Text) → any is_forbidden s ≡ false → any is_forbidden (drop_dots s) ≡ false
drop_dots-clean [] h = refl
drop_dots-clean (c ∷ s) h =
    if-cases (λ t. any is_forbidden t ≡ false) (c == b'.' || c == b' ') (drop_dots s) (c ∷ s)
      (λ e. drop_dots-clean s (ground (arith, h))) (λ e. h)

drop_dots-first : (s : Text) → dot_first (drop_dots s) ≡ false
drop_dots-first [] = refl
drop_dots-first (c ∷ s) =
    if-cases (λ t. dot_first t ≡ false) (c == b'.' || c == b' ') (drop_dots s) (c ∷ s)
      (λ e. drop_dots-first s) (λ e. e)

reverse-clean : (s : Text) → any is_forbidden s ≡ false → any is_forbidden (reverse s) ≡ false
reverse-clean s h = any-reverse is_forbidden s ∙ h

cleaned-clean : (unicode : Unicode) (name : Text) → any is_forbidden (cleaned unicode name) ≡ false
unfolding cleaned trim_space
cleaned-clean unicode name =
    let s = map dashed (unicode.nfc name) in
    let front = drop_spaces s in
    let trimmed = drop_spaces (reverse front) in
    let front_clean = drop_spaces-clean s (dashed-clean (unicode.nfc name)) in
    let trimmed_clean = drop_spaces-clean (reverse front) (reverse-clean front front_clean) in
    let turned = reverse (reverse trimmed) in
    reverse-clean (drop_dots turned) (
      drop_dots-clean turned
        (reverse-clean (reverse trimmed) (reverse-clean trimmed trimmed_clean)))

trim_dots-ending : (s : Text) → dot_first (reverse (trim_dots s)) ≡ false
trim_dots-ending s =
    ap dot_first (reverse-reverse (drop_dots (reverse s))) ∙ drop_dots-first (reverse s)

cleaned-ending :
    (unicode : Unicode) (name : Text) → dot_first (reverse (cleaned unicode name)) ≡ false
unfolding cleaned
cleaned-ending unicode name = trim_dots-ending (trim_space (map dashed (unicode.nfc name)))

-- No reserved name ends in an underscore.
underscored-ordinary : (s : Text) → is_windows_reserved_name (s ++ b'_' ∷ []) ≡ false
unfolding is_windows_reserved_name equal bytes
underscored-ordinary [] = refl
underscored-ordinary (a ∷ []) = ground arith
underscored-ordinary (a ∷ b ∷ []) = ground arith
underscored-ordinary (a ∷ b ∷ c ∷ []) = ground arith
underscored-ordinary (a ∷ b ∷ c ∷ d ∷ []) = ground arith
underscored-ordinary (a ∷ b ∷ c ∷ d ∷ e ∷ s) = ground arith

underscored-filled : (s : Text) → is_blank (s ++ b'_' ∷ []) ≡ false
underscored-filled [] = refl
underscored-filled (c ∷ s) = refl

unknown-IsSafe : IsSafe (bytes "Unknown")
unfolding bytes is_windows_reserved_name equal
unknown-IsSafe = record { filled = refl; clean = refl; ending = refl; no_device = refl }

passes-listed :
    (q : Text → Bool) (up : Text) (names : List String)
    → all (λ (d : String). q (bytes d)) names ≡ true
    → any (λ (d : String). equal up (bytes d)) names ≡ true
    → q up ≡ true
passes-listed q up [] h e = ground (arith, e)
passes-listed q up (d ∷ names) h e = elim (Bool-cases (equal up (bytes d))) [
  | inl here ↦ subst (λ z. q z ≡ true) (sym (equal→eq up (bytes d) here)) (ground (arith, h))
  | inr other ↦ passes-listed q up names (ground (arith, h)) (ground (arith, e, other))
]

-- The test of a text in capitals
abbrev is_reserved : Text → Bool
is_reserved up =
    any (equal up) (bytes "CON" ∷ bytes "PRN" ∷ bytes "AUX" ∷ bytes "NUL" ∷ [])
    || (equal (take 3 up) (bytes "COM") || equal (take 3 up) (bytes "LPT"))
      && is_device_number (drop 3 up)

devices-is_reserved : all (λ (d : String). is_reserved (bytes d)) devices ≡ true
unfolding bytes equal
devices-is_reserved = refl

-- The test lets through no name of a device.
no_device-listed : (s : Text) → is_windows_reserved_name s ≡ false → is_device s ≡ false
unfolding is_windows_reserved_name
no_device-listed s h = elim (Bool-cases (is_device s)) [
  | inl e ↦
      let listed = passes-listed is_reserved (map upper_byte s) devices devices-is_reserved e in
      ground (arith, h, listed)
  | inr e ↦ e
]

-- Whatever the display name holds, the text made of it is not empty, has no separator, no character that
-- Windows refuses and no control character, does not end in a dot or a space, and is not, as a whole and
-- in any case, the name of a device: one of `devices`. What stands before a dot in it is not looked at.
pub sanitize_filename-IsSafe :
    (unicode : Unicode) (name : Text) → IsSafe (sanitize_filename unicode name)
unfolding sanitize_filename
sanitize_filename-IsSafe unicode name =
    let c = cleaned unicode name in
    if-cases IsSafe (is_windows_reserved_name c) (c ++ b'_' ∷ [])
      (if is_blank c then bytes "Unknown" else c)
      (λ e. record {
        filled = underscored-filled c;
        clean = clean-append c (b'_' ∷ []) ∙ ground (arith, cleaned-clean unicode name);
        ending = ap dot_first (reverse-append c (b'_' ∷ []));
        no_device = no_device-listed (c ++ b'_' ∷ []) (underscored-ordinary c);
      })
      (λ ordinary.
        if-cases IsSafe (is_blank c) (bytes "Unknown") c (λ e. unknown-IsSafe)
          (λ filled. record {
            filled = filled;
            clean = cleaned-clean unicode name;
            ending = cleaned-ending unicode name;
            no_device = no_device-listed c ordinary;
          }))
