-- ===== src/Vault.antt =====
-- The names of the files of the vault export: `sanitizeFilename`, `assignFilenames` and the check of its
-- result in `buildExportUnits` (whatsapp-bridge/export_vault.go). The tables of Unicode are a parameter.
pub mod Safe
pub mod Settled
pub mod Units
pub mod Write
pub mod Distinct
pub mod File
pub mod Forest
pub mod Identity
pub mod Plan
pub mod Directory
pub mod Heal
pub mod Sweep
pub mod Export
pub mod Render
use mathlib.Core.List.{reverse}
use whatsapp_mcp_plugin.Prelude.{
  ℕ, zero, suc, ◌+◌, ◌-◌, ◌*◌, drop, String, Bool, true, false, ◌&&◌, ◌||◌, not, Option, none, some,
  List, [], ◌∷◌, ◌++◌, map, any, leb, ltb, length, take, ◌==◌, if◌then◌else◌,
}
use whatsapp_mcp_plugin.Bytes.{
  is_blank, Text, bytes, equal, index, to_lower, trim_space, digits_only, is_digit,
}

-- `norm.NFC.String` and `strings.ToLower`
pub record Unicode : Type 0 where
  pub nfc : Text → Text
  pub lower : Text → Text

-- The bytes that `replacer` and `strings.Map` turn into `-`.
abbrev pub is_forbidden : ℕ → Bool
is_forbidden c =
    c == b'/'
    || c == b'\\'
    || c == b'?'
    || c == b'%'
    || c == b'*'
    || c == b':'
    || c == b'|'
    || c == b'"'
    || c == b'<'
    || c == b'>'
    || c == b'['
    || c == b']'
    || ltb c 0x20
    || c == 0x7f

abbrev pub dashed : ℕ → ℕ
dashed c = if is_forbidden c then b'-' else c

-- `strings.TrimRight(s, ". ")`, on the reversed text
abbrev pub drop_dots : Text → Text
drop_dots [] = []
drop_dots (c ∷ s) = let rest = drop_dots s in if c == b'.' || c == b' ' then rest else c ∷ s

abbrev pub trim_dots : Text → Text
trim_dots s = reverse (drop_dots (reverse s))

-- `strings.ToUpper` on ASCII
abbrev pub upper_byte : ℕ → ℕ
upper_byte c = if leb b'a' c && leb c b'z' then c - 32 else c

abbrev pub is_device_number : Text → Bool
is_device_number (c ∷ []) = leb b'1' c && leb c b'9'
is_device_number _ = false

-- `isWindowsReservedName`
unfoldable pub is_windows_reserved_name : Text → Bool
unfolding equal bytes
is_windows_reserved_name s =
    let up = map upper_byte s in
    any (equal up) (bytes "CON" ∷ bytes "PRN" ∷ bytes "AUX" ∷ bytes "NUL" ∷ [])
    || (equal (take 3 up) (bytes "COM") || equal (take 3 up) (bytes "LPT"))
      && is_device_number (drop 3 up)

-- The text before the last two steps of `sanitizeFilename`.
unfoldable pub cleaned : Unicode → Text → Text
unfolding trim_space
cleaned unicode name = trim_dots (trim_space (map dashed (unicode.nfc name)))

-- `sanitizeFilename`
unfoldable pub sanitize_filename : Unicode → Text → Text
unfolding cleaned is_windows_reserved_name bytes
sanitize_filename unicode name =
    let c = cleaned unicode name in
    if is_windows_reserved_name c then c ++ b'_' ∷ [] else if is_blank c then bytes "Unknown" else c

-- The fields of `exportUnit` that its name is made of.
pub record ExportUnit : Type 0 where
  pub primary : Text
  pub chat_type : Text
  pub display : Text
  pub phone : Text

abbrev pub before : Text → Option ℕ → Text
before s none = s
before s (some i) = take i s

abbrev pub user_digits : Text → Option ℕ → Text
user_digits jid none = []
user_digits jid (some at) = digits_only (before (take at jid) (index (take at jid) (b':' ∷ [])))

-- `extractPhone` of whatsapp-bridge/import_baileys.go
unfoldable pub extract_phone : Text → Text
unfolding index digits_only
extract_phone jid = user_digits jid (index jid (b'@' ∷ []))

abbrev pub or_jid : Unicode → Text → Text → Text
or_jid unicode jid tag = if is_blank tag then sanitize_filename unicode jid else tag

abbrev pub in_brackets : Text → Text → Text
in_brackets base tag = base ++ bytes " (" ++ tag ++ bytes ")"

-- The level-1 tag of a direct chat.
unfoldable pub phone_tag : Unicode → ExportUnit → Text
unfolding sanitize_filename extract_phone
phone_tag unicode u =
    if not (is_blank u.phone)
    then sanitize_filename unicode (b'+' ∷ u.phone)
    else or_jid unicode u.primary (extract_phone u.primary)

-- `name` of `assignFilenames`, by the level
unfoldable pub unit_name : Unicode → ExportUnit → ℕ → Text
unfolding sanitize_filename phone_tag extract_phone equal bytes
unit_name unicode u level =
    let base = sanitize_filename unicode u.display in
    let typed = λ (tag : Text). in_brackets base (u.chat_type ++ bytes " " ++ tag) in
    if equal u.chat_type (bytes "direct")
    then (if level == 0
        then base
        else if level == 1
        then in_brackets base (phone_tag unicode u)
        else in_brackets base (sanitize_filename unicode u.primary))
    else if level == 0
    then in_brackets base u.chat_type
    else if level == 1
    then typed (or_jid unicode u.primary (extract_phone u.primary))
    else typed (sanitize_filename unicode u.primary)

-- `foldKey`
unfoldable pub fold_key : Unicode → Text → Text
fold_key unicode s = unicode.lower (unicode.nfc s)

pub record Planned : Type 0 where
  pub unit : ExportUnit
  pub level : ℕ

abbrev pub max_level : ℕ
max_level = 2

unfoldable pub key_of : Unicode → Planned → Text
unfolding fold_key unit_name
key_of unicode p = fold_key unicode (unit_name unicode p.unit p.level)

abbrev pub times : Text → List Text → ℕ
times k [] = 0
times k (j ∷ ks) = if equal k j then suc (times k ks) else times k ks

-- `len(idxs) < 2 && !blocked`, negated
abbrev pub collides : List Text → List Text → Text → Bool
collides taken keys k = leb 2 (times k keys) || any (equal k) taken

abbrev pub escalates : Unicode → List Text → List Text → Planned → Bool
escalates unicode taken keys p = collides taken keys (key_of unicode p) && ltb p.level max_level

abbrev pub escalated : Unicode → List Text → List Text → Planned → Planned
escalated unicode taken keys p =
    if escalates unicode taken keys p then record p { level = suc p.level } else p

-- The loop of `assignFilenames`, on fuel: a round escalates what collides, until nothing changes.
unfoldable pub settle_names : Unicode → List Text → ℕ → List Planned → List Planned
unfolding key_of
settle_names unicode taken zero ps = ps
settle_names unicode taken (suc fuel) ps =
    let keys = map (key_of unicode) ps in
    let rest = settle_names unicode taken fuel (map (escalated unicode taken keys) ps) in
    if any (escalates unicode taken keys) ps then rest else ps

abbrev pub at_level_0 : ExportUnit → Planned
at_level_0 u = record { unit = u; level = 0 }

-- `assignFilenames`
unfoldable pub assign_filenames : Unicode → List Text → List ExportUnit → List Planned
unfolding settle_names
assign_filenames unicode taken units =
    settle_names unicode taken (max_level * length units) (map at_level_0 units)

pub data PlanResult : Type 0 where
  named : List Planned → PlanResult
  -- The unit that shares its name with an earlier one, or with a file that is not managed.
  refused : Planned → PlanResult

-- The check after it, with the keys of the units before.
unfoldable pub first_collision : Unicode → List Text → List Text → List Planned → Option Planned
unfolding key_of
first_collision unicode taken seen [] = none
first_collision unicode taken seen (p ∷ ps) =
    if any (equal (key_of unicode p)) seen || any (equal (key_of unicode p)) taken
    then some p
    else first_collision unicode taken (key_of unicode p ∷ seen) ps

abbrev pub plan_result : List Planned → Option Planned → PlanResult
plan_result ps none = named ps
plan_result ps (some p) = refused p

-- The naming in `buildExportUnits`
unfoldable pub plan_filenames : Unicode → List Text → List ExportUnit → PlanResult
unfolding assign_filenames first_collision
plan_filenames unicode taken units =
    let ps = assign_filenames unicode taken units in
    plan_result ps (first_collision unicode taken [] ps)
