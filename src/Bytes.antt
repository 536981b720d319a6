-- ===== src/Bytes.antt =====
-- Go strings as the bytes that the code walks, and the functions of package `strings` that it calls.
-- `to_lower` is `strings.ToLower` on ASCII bytes.
pub mod Equal
pub mod Search
use Prim.Native.Char.{code}
use mathlib.Core.List.{reverse}
use whatsapp_mcp_plugin.Prelude.{
  ℕ, ◌+◌, ◌/◌, ◌%◌, String, Bool, true, false, ◌&&◌, ◌||◌, List, [], ◌∷◌, ◌++◌, map, ltb, leb, ◌==◌,
  if◌then◌else◌, Option, none, some, suc,
}

abbrev pub Text : Type 0
Text = List ℕ

-- UTF-8.
unfoldable pub encode_rune : ℕ → Text
encode_rune c =
    if ltb c 0x80
    then c ∷ []
    else if ltb c 0x800
    then (192 + c / 64) ∷ (128 + c % 64) ∷ []
    else if ltb c 0x10000
    then (224 + c / 4096) ∷ (128 + c / 64 % 64) ∷ (128 + c % 64) ∷ []
    else (240 + c / 262144) ∷ (128 + c / 4096 % 64) ∷ (128 + c / 64 % 64) ∷ (128 + c % 64) ∷ []

unfoldable pub bytes : String → Text
unfolding encode_rune
bytes String.[] = []
bytes (String.◌∷◌ c s) = encode_rune (code c) ++ bytes s

unfoldable pub lower_byte : ℕ → ℕ
lower_byte c = if leb b'A' c && leb c b'Z' then c + 32 else c

unfoldable pub to_lower : Text → Text
unfolding lower_byte
to_lower = map lower_byte

-- ASCII white space of `strings.TrimSpace`.
unfoldable pub is_space : ℕ → Bool
is_space c = c == 32 || leb 9 c && leb c 13

unfoldable pub equal : Text → Text → Bool
equal [] [] = true
equal [] (b ∷ t) = false
equal (a ∷ s) [] = false
equal (a ∷ s) (b ∷ t) = a == b && equal s t

-- `strings.HasPrefix(s, p)`
unfoldable pub has_prefix : Text → Text → Bool
has_prefix s [] = true
has_prefix [] (b ∷ p) = false
has_prefix (a ∷ s) (b ∷ p) = a == b && has_prefix s p

-- `strings.Contains(s, p)`
unfoldable pub contains : Text → Text → Bool
unfolding has_prefix
contains [] p = has_prefix [] p
contains (c ∷ s) p = has_prefix (c ∷ s) p || contains s p

abbrev pub later : Option ℕ → Option ℕ
later none = none
later (some i) = some (suc i)

-- `strings.Index(s, p)`, with `none` for -1
unfoldable pub index : Text → Text → Option ℕ
unfolding has_prefix
index [] p = if has_prefix [] p then some 0 else none
index (c ∷ s) p = let rest = later (index s p) in if has_prefix (c ∷ s) p then some 0 else rest

abbrev pub drop_spaces : Text → Text
drop_spaces [] = []
drop_spaces (c ∷ s) = let rest = drop_spaces s in if is_space c then rest else c ∷ s

-- `strings.TrimSpace`
unfoldable pub trim_space : Text → Text
unfolding is_space
trim_space s = reverse (drop_spaces (reverse (drop_spaces s)))

abbrev pub is_digit : ℕ → Bool
is_digit c = leb b'0' c && leb c b'9'

-- `DigitsOnly` of prospect-api/normalize.go, and what is left where `nonDigits` of
-- whatsapp-bridge/auth.go is removed
unfoldable pub digits_only : Text → Text
digits_only [] = []
digits_only (c ∷ s) = let rest = digits_only s in if is_digit c then c ∷ rest else rest

-- `s == ""`
abbrev pub is_blank : Text → Bool
is_blank [] = true
is_blank (c ∷ s) = false

-- `strings.Join(parts, separator)`
unfoldable pub join_texts : Text → List Text → Text
join_texts separator [] = []
join_texts separator (l ∷ []) = l
join_texts separator (l ∷ k ∷ ls) = l ++ (separator ++ join_texts separator (k ∷ ls))
