-- ===== src/Vault/File.antt =====
-- The files of the vault export (whatsapp-bridge/export_vault.go): what a run reads from the front matter
-- of a chat file that is there, and how it writes one.
pub mod Lines
pub mod Values
use mathlib.Core.List.{reverse}
use whatsapp_mcp_plugin.Prelude.{
  ℕ, zero, suc, ◌+◌, ◌-◌, ◌*◌, ◌/◌, ◌%◌, String, Bool, true, false, ◌&&◌, ◌||◌, not, Option, none,
  some, List, [], ◌∷◌, ◌++◌, map, any, take, drop, where_rows, length, ltb, leb, ◌==◌,
  if◌then◌else◌,
}
use whatsapp_mcp_plugin.Bytes.{
  Text, bytes, equal, has_prefix, index, trim_space, is_digit, is_blank, is_space,
}

-- `strings.Split(s, "\n")`
abbrev pub onto_first : ℕ → List Text → List Text
onto_first c [] = (c ∷ []) ∷ []
onto_first c (l ∷ ls) = (c ∷ l) ∷ ls

unfoldable pub split_lines : Text → List Text
split_lines [] = [] ∷ []
split_lines (c ∷ s) =
    let rest = split_lines s in if c == b'\n' then [] ∷ rest else onto_first c rest

abbrev pub is_quote : ℕ → Bool
is_quote c = c == b'"' || c == b'\''

abbrev pub drop_quotes : Text → Text
drop_quotes [] = []
drop_quotes (c ∷ s) = let rest = drop_quotes s in if is_quote c then rest else c ∷ s

-- `strings.Trim(val, "\"'")`
unfoldable pub trim_quotes : Text → Text
trim_quotes s = reverse (drop_quotes (reverse (drop_quotes s)))

-- `%d` of a number that is not negative
abbrev pub digits : ℕ → ℕ → Text
digits zero n = []
digits (suc fuel) n =
    let rest = digits fuel (n / 10) in (if ltb n 10 then [] else rest) ++ (b'0' + n % 10) ∷ []

unfoldable pub decimal : ℕ → Text
decimal n = digits (suc n) n

abbrev pub read_digits : ℕ → Text → ℕ
read_digits acc [] = acc
read_digits acc (c ∷ s) =
    let rest = read_digits (acc * 10 + (c - b'0')) s in if is_digit c then rest else acc

-- `fmt.Sscanf(val, "%d", &n)` of a number without a sign, which leaves `n` where no digit comes first
unfoldable pub scan_decimal : ℕ → Text → ℕ
scan_decimal n [] = n
scan_decimal n (c ∷ s) = if is_digit c then read_digits 0 (c ∷ s) else n

-- `json.Unmarshal` into a list of strings, of an array of texts without escapes: where it stands, and what it has read
pub data JsonState : Type 0 where
  start : JsonState
  opened : JsonState
  between : List Text → JsonState
  inside : List Text → Text → JsonState
  after : List Text → JsonState
  finished : List Text → JsonState
  failed : JsonState

abbrev pub json_step : ℕ → JsonState → JsonState
json_step c start = if is_space c then start else if c == b'[' then opened else failed
json_step c opened =
    if is_space c
    then opened
    else if c == b'"'
    then inside [] []
    else if c == b']'
    then finished []
    else failed
json_step c (between out) =
    if is_space c then between out else if c == b'"' then inside out [] else failed
json_step c (inside out s) =
    if c == b'"'
    then after (out ++ s ∷ [])
    else if c == b'\\' || ltb c 0x20
    then failed
    else inside out (s ++ c ∷ [])
json_step c (after out) =
    if is_space c
    then after out
    else if c == b','
    then between out
    else if c == b']'
    then finished out
    else failed
json_step c (finished out) = if is_space c then finished out else failed
json_step c failed = failed

unfoldable pub json_run : JsonState → Text → JsonState
unfolding is_space
json_run state [] = state
json_run state (c ∷ s) = json_run (json_step c state) s

abbrev pub finished_with : List Text → JsonState → List Text
finished_with old (finished out) = out
finished_with old _ = old

-- `id.aliasJIDs` after the value of `alias_jids`
unfoldable pub read_array : List Text → Text → List Text
unfolding json_run
read_array old s = finished_with old (json_run start s)

-- `chatFileIdentity`
pub record ChatFileIdentity : Type 0 where
  pub exists : Bool
  pub file_type : Text
  pub jid : Text
  pub alias_jids : List Text
  pub chat_type : Text
  pub last_ts : ℕ
  pub message_count : ℕ

abbrev pub no_identity : ChatFileIdentity
no_identity = record {
  exists = false;
  file_type = [];
  jid = [];
  alias_jids = [];
  chat_type = [];
  last_ts = 0;
  message_count = 0;
}

-- The `switch` on the key
unfoldable pub read_field : Text → Text → ChatFileIdentity → ChatFileIdentity
unfolding equal bytes trim_quotes scan_decimal read_array
read_field key val id =
    if equal key (bytes "type")
    then record id { file_type = trim_quotes val }
    else if equal key (bytes "jid")
    then record id { jid = trim_quotes val }
    else if equal key (bytes "chat_type")
    then record id { chat_type = trim_quotes val }
    else if equal key (bytes "last_message_ts")
    then record id { last_ts = scan_decimal id.last_ts val }
    else if equal key (bytes "message_count")
    then record id { message_count = scan_decimal id.message_count val }
    else if equal key (bytes "alias_jids")
    then record id { alias_jids = read_array id.alias_jids val }
    else id

abbrev pub field_at : Text → Option ℕ → ChatFileIdentity → ChatFileIdentity
field_at line none id = id
field_at line (some zero) id = id
field_at line (some (suc i)) id =
    read_field (trim_space (take (suc i) line)) (trim_space (drop (suc (suc i)) line)) id

unfoldable pub read_line : Text → ChatFileIdentity → ChatFileIdentity
unfolding read_field index trim_space
read_line line id = field_at line (index line (b':' ∷ [])) id

unfoldable pub read_lines : List Text → ChatFileIdentity → ChatFileIdentity
unfolding read_line
read_lines [] id = id
read_lines (l ∷ ls) id = read_lines ls (read_line l id)

-- `rest[:end]` of a file with front matter
abbrev pub up_to : Text → Option ℕ → Option Text
up_to rest none = none
up_to rest (some end) = some (take end rest)

unfoldable pub front_matter : Text → Option Text
unfolding has_prefix index bytes
front_matter content =
    if has_prefix content (bytes "---\n")
    then up_to (drop 4 content) (index (drop 4 content) (bytes "\n---"))
    else none

abbrev pub identity_in : Option Text → ChatFileIdentity
identity_in none = no_identity
identity_in (some fm) = read_lines (split_lines fm) (record no_identity { exists = true })

-- `readChatFileIdentity`, of the content of the file, or of none
unfoldable pub read_chat_file_identity : Option Text → ChatFileIdentity
unfolding front_matter split_lines read_lines
read_chat_file_identity none = no_identity
read_chat_file_identity (some content) = identity_in (front_matter content)

-- `canonicalFrontmatterKeys`
unfoldable pub is_canonical : Text → Bool
unfolding equal bytes
is_canonical key = any (equal key) (
    bytes "type"
    ∷ bytes "contact"
    ∷ bytes "phone"
    ∷ bytes "jid"
    ∷ bytes "alias_jids"
    ∷ bytes "chat_type"
    ∷ bytes "message_count"
    ∷ bytes "first_message"
    ∷ bytes "last_message"
    ∷ bytes "last_message_ts"
    ∷ bytes "last_sync"
    ∷ bytes "participants_count"
    ∷ [])

abbrev pub is_indented : Text → Bool
is_indented [] = false
is_indented (c ∷ s) = c == b' ' || c == b'\t'

abbrev pub is_extra_key : Text → Option ℕ → Bool
is_extra_key line none = false
is_extra_key line (some zero) = false
is_extra_key line (some (suc i)) = not (is_canonical (trim_space (take (suc i) line)))

-- The lines that the loop keeps
unfoldable pub is_extra : Text → Bool
unfolding trim_space index is_canonical
is_extra line =
    not (is_blank (trim_space line))
    && not (is_indented line)
    && is_extra_key line (index line (b':' ∷ []))

abbrev pub extras_in : Option Text → List Text
extras_in none = []
extras_in (some fm) = where_rows is_extra (split_lines fm)

-- `extractNonCanonicalFrontmatter`
unfoldable pub extract_extras : Option Text → List Text
unfolding front_matter split_lines is_extra
extract_extras none = []
extract_extras (some content) = extras_in (front_matter content)
