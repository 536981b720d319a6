-- ===== src/Fetch/Name.antt =====
-- `fetchNameHint` of whatsapp-bridge/fetch_url.go, with `path.Base` (which `filepath.Base` is on Unix).
use mathlib.Core.List.{reverse}
use whatsapp_mcp_plugin.Prelude.{
  ℕ, ◌≡◌, refl, ◌⊎◌, inl, inr, Bool, true, false, ◌||◌, Option, none, some, [], ◌∷◌, any, ◌==◌,
  if◌then◌else◌, if-cases, arith,
}
use whatsapp_mcp_plugin.Bytes.{Text, bytes, equal, trim_space}

abbrev pub is_slash : ℕ → Bool
is_slash c = c == b'/'

abbrev pub drop_slashes : Text → Text
drop_slashes [] = []
drop_slashes (c ∷ s) = let rest = drop_slashes s in if is_slash c then rest else c ∷ s

abbrev pub after_last_slash : Text → Text
after_last_slash [] = []
after_last_slash (c ∷ s) =
    let rest = after_last_slash s in
    if any is_slash s then rest else if is_slash c then s else c ∷ s

abbrev pub or_text : Text → Text → Text
or_text [] t = t
or_text (c ∷ s) t = c ∷ s

-- `path.Base`
unfoldable pub base : Text → Text
base [] = b'.' ∷ []
base (c ∷ s) = or_text (after_last_slash (reverse (drop_slashes (reverse (c ∷ s))))) (b'/' ∷ [])

-- The path's last part, and none for the names that say nothing.
unfoldable pub path_name : Text → Text
unfolding base equal bytes
path_name path =
    let name = base path in
    if (equal name []
      || equal name (bytes ".")
      || equal name (bytes "/")
      || equal name (bytes "download")
      || equal name (bytes "view"))
    then []
    else name

-- `fetchNameHint`, given the `filename` of the Content-Disposition header, where it parses, and the
-- URL's path.
unfoldable pub fetch_name_hint : Option Text → Text → Text
unfolding path_name base equal bytes trim_space
fetch_name_hint none path = path_name path
fetch_name_hint (some filename) path =
    let name = base (trim_space filename) in
    if equal (trim_space filename) []
    then path_name path
    else if equal name (bytes ".") || equal name (bytes "/")
    then path_name path
    else name

after_last_slash-flat : (s : Text) → any is_slash (after_last_slash s) ≡ false
after_last_slash-flat [] = refl
after_last_slash-flat (c ∷ s) = ground (arith, after_last_slash-flat s)

or_text-flat :
    (s : Text)
    → any is_slash s ≡ false
    → (or_text s (b'/' ∷ []) ≡ b'/' ∷ []) ⊎ (any is_slash (or_text s (b'/' ∷ [])) ≡ false)
or_text-flat [] h = inl refl
or_text-flat (c ∷ s) h = inr h

base-flat : (s : Text) → (base s ≡ b'/' ∷ []) ⊎ (any is_slash (base s) ≡ false)
unfolding base
base-flat [] = inr refl
base-flat (c ∷ s) =
    let t = reverse (drop_slashes (reverse (c ∷ s))) in
    or_text-flat (after_last_slash t) (after_last_slash-flat t)

slash_equal : (s : Text) → s ≡ b'/' ∷ [] → equal s (bytes "/") ≡ true
unfolding equal bytes
slash_equal s h = rw h refl

path_name-flat : (path : Text) → any is_slash (path_name path) ≡ false
unfolding path_name
path_name-flat path =
    let name = base path in
    if-cases (λ (t : Text). any is_slash t ≡ false)
      (equal name []
        || equal name (bytes ".")
        || equal name (bytes "/")
        || equal name (bytes "download")
        || equal name (bytes "view"))
      [] name (λ h. refl)
      (λ h. elim (base-flat path) [
        | inl e ↦ ground (arith, slash_equal name e, h)
        | inr flat ↦ flat
      ])

-- Whatever the Content-Disposition header names and whatever the path of the URL, the name hint holds
-- no slash, so it names no directory.
pub fetch_name_hint-flat :
    (filename : Option Text) (path : Text) → any is_slash (fetch_name_hint filename path) ≡ false
unfolding fetch_name_hint
fetch_name_hint-flat none path = path_name-flat path
fetch_name_hint-flat (some filename) path =
    let name = base (trim_space filename) in
    let flat = λ (t : Text). any is_slash t ≡ false in
    let test = equal name (bytes ".") || equal name (bytes "/") in
    if-cases flat (equal (trim_space filename) []) (path_name path)
      (if test then path_name path else name) (λ h. path_name-flat path)
      (λ h0.
        if-cases flat test (path_name path) name (λ h. path_name-flat path)
          (λ h. elim (base-flat (trim_space filename)) [
            | inl e ↦ ground (arith, slash_equal name e, h)
            | inr f ↦ f
          ]))
