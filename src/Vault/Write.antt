-- ===== src/Vault/Write.antt =====
-- `exportOneUnit` (whatsapp-bridge/export_vault.go): the text of a chat file. The
-- local time zone is a parameter: the date and the time of day of a timestamp, as they are formatted.
pub mod Header
pub mod Body
pub mod Front
pub mod Again
pub mod Extras
use whatsapp_mcp_plugin.Sorting.{sort_by, text_less, jid_less}
use whatsapp_mcp_plugin.Prelude.{
  ℕ, zero, suc, ◌+◌, String, Bool, true, false, ◌&&◌, ◌||◌, not, Option, none, some, List, [], ◌∷◌,
  ◌++◌, map, any, where_rows, length, ltb, leb, ◌==◌, same, if◌then◌else◌,
}
use whatsapp_mcp_plugin.Bytes.{join_texts, Text, bytes, equal, is_blank}
use whatsapp_mcp_plugin.Markers.{undecryptable_fail_mode, unsupported_raw_type}
use whatsapp_mcp_plugin.Archive.{StoredMessage}
use whatsapp_mcp_plugin.Vault.Render.{render_message_text, escape_yaml}
use whatsapp_mcp_plugin.Vault.Units.{ChatUnit}
use whatsapp_mcp_plugin.Vault.File.{
  decimal, ChatFileIdentity, read_chat_file_identity, extract_extras,
}

-- What the process reads besides the tables: the formatted local times, today's date and the
-- `voice_note_transcript` of a message.
pub record Surroundings : Type 0 where
  pub date_of : ℕ → Text
  pub clock_of : ℕ → Text
  pub today : Text
  pub transcript_of : String → Text

abbrev pub of_unit : List String → StoredMessage → Bool
of_unit members m = any (same m.chat_jid) members

-- `ORDER BY timestamp ASC, id ASC`
abbrev pub earlier : StoredMessage → StoredMessage → Bool
earlier m n = ltb m.timestamp n.timestamp || m.timestamp == n.timestamp && jid_less m.id n.id

unfoldable pub unit_messages : List StoredMessage → List String → List StoredMessage
unfolding sort_by bytes
unit_messages messages members = sort_by earlier (where_rows (of_unit members) messages)

abbrev pub text_of : Surroundings → StoredMessage → Text
text_of env m = render_message_text m.type m.scrubbed_text (env.transcript_of m.id)

abbrev pub speaker_of : Text → StoredMessage → Text
speaker_of display m =
    if m.is_from_me
    then bytes "You"
    else if is_blank m.sender_display
    then display
    else m.sender_display

-- One line of a file
unfoldable pub message_line : Surroundings → Text → StoredMessage → Text
unfolding bytes render_message_text
message_line env display m =
    bytes "**"
    ++ env.clock_of m.timestamp
    ++ bytes "** "
    ++ speaker_of display m
    ++ bytes ": "
    ++ text_of env m

-- `byDate`
abbrev pub Days : Type 0
Days = List (Text × List Text)

abbrev pub add_line : Text → Text → Days → Days
add_line date line [] = (date, line ∷ []) ∷ []
add_line date line ((d, ls) ∷ days) =
    let rest = (d, ls) ∷ add_line date line days in
    if equal date d then (d, ls ++ line ∷ []) ∷ days else rest

-- The messages that are written: not before the year 1970 has begun in earnest, and not without a text.
abbrev pub is_written : Surroundings → StoredMessage → Bool
is_written env m = leb 1000 m.timestamp && not (is_blank (text_of env m))

unfoldable pub by_date : Surroundings → Text → List StoredMessage → Days → Days
unfolding message_line render_message_text equal
by_date env display [] days = days
by_date env display (m ∷ messages) days =
    let longer = add_line (env.date_of m.timestamp) (message_line env display m) days in
    by_date env display messages (if is_written env m then longer else days)

abbrev pub earlier_day : Text × List Text → Text × List Text → Bool
earlier_day (d, ls) (e, ks) = text_less d e

abbrev pub quoted : Text → Text
quoted s = b'"' ∷ s ++ bytes "\""

-- `alias_jids: [...]`, where there are any
unfoldable pub alias_line : List String → List Text
unfolding bytes join_texts escape_yaml
alias_line [] = []
alias_line (a ∷ as_) =
    (bytes "alias_jids: ["
      ++ (join_texts (bytes ", ") (map (λ j. quoted (escape_yaml (bytes j))) (a ∷ as_))
          ++ bytes "]"))
    ∷ []

abbrev pub phone_line : Text → List Text
phone_line phone = if is_blank phone then [] else (bytes "phone: " ++ quoted (b'+' ∷ phone)) ∷ []

-- `distinctSenderFloor`
abbrev pub distinct_senders : List String → List StoredMessage → ℕ
distinct_senders seen [] = 0
distinct_senders seen (m ∷ messages) =
    let more = suc (distinct_senders (m.sender_jid ∷ seen) messages) in
    let rest = distinct_senders seen messages in
    if same m.sender_jid "" || any (same m.sender_jid) seen then rest else more

abbrev pub participants : ChatUnit → List StoredMessage → ℕ
participants u messages =
    if ltb u.participants_count (distinct_senders [] messages)
    then distinct_senders [] messages
    else u.participants_count

abbrev pub group_line : ChatUnit → List StoredMessage → List Text
group_line u messages =
    if same u.chat_type "group"
    then (bytes "participants_count: " ++ decimal (participants u messages)) ∷ []
    else []

-- The lines of the front matter that the exporter owns
unfoldable pub header_lines : Text → ChatUnit → List StoredMessage → Text → Text → List Text
unfolding bytes escape_yaml alias_line decimal
header_lines today u messages first last =
    bytes "type: whatsapp-chat"
    ∷ (bytes "contact: " ++ quoted (escape_yaml u.display))
    ∷ (phone_line u.phone
        ++ ((bytes "jid: " ++ quoted (bytes u.primary))
            ∷ (alias_line u.alias_jids
                ++ ((bytes "chat_type: " ++ quoted (bytes u.chat_type))
                    ∷ (bytes "message_count: " ++ decimal (length messages))
                    ∷ (bytes "first_message: " ++ first)
                    ∷ (bytes "last_message: " ++ last)
                    ∷ (bytes "last_message_ts: " ++ decimal u.last_message_ts)
                    ∷ (bytes "last_sync: " ++ today)
                    ∷ group_line u messages))))

abbrev pub day_lines : Days → List Text
day_lines [] = []
day_lines ((d, ls) ∷ days) = (bytes "## " ++ d) ∷ [] ∷ (ls ++ ([] ∷ day_lines days))

abbrev pub first_date : Days → Text
first_date [] = []
first_date ((d, ls) ∷ days) = d

abbrev pub last_date : Days → Text
last_date [] = []
last_date ((d, ls) ∷ []) = d
last_date ((d, ls) ∷ e ∷ days) = last_date (e ∷ days)

-- The whole text: the front matter, and the days in order
unfoldable pub chat_file : List Text → List Text → Text → Days → Text
unfolding bytes join_texts
chat_file header extras display days = join_texts (bytes "\n") (
    bytes "---"
    ∷ ((header ++ extras)
        ++ (bytes "---" ∷ [] ∷ (bytes "# WhatsApp: " ++ display) ∷ [] ∷ day_lines days)))

-- What `exportOneUnit` does to the file, with the new content.
pub data WriteResult : Type 0 where
  wrote : Text → WriteResult
  unchanged : WriteResult
  empty : WriteResult

abbrev pub file_is_ours : ChatUnit → ChatFileIdentity → Bool
file_is_ours u id =
    not id.exists
    || equal id.file_type (bytes "whatsapp-chat") && any (λ jid. equal id.jid (bytes jid)) u.members

abbrev pub closure_text : List Text → Text
closure_text jids = join_texts (bytes "\n") (sort_by text_less jids)

-- The test that skips the write
unfoldable pub is_unchanged : Bool → ChatUnit → ChatFileIdentity → Bool
unfolding bytes equal join_texts sort_by
is_unchanged force_rewrite u id =
    not force_rewrite
    && id.exists
    && file_is_ours u id
    && not (is_blank id.jid)
    && ltb 0 u.last_message_ts
    && leb u.last_message_ts id.last_ts
    && equal (closure_text (id.jid ∷ id.alias_jids))
        (closure_text (bytes u.primary ∷ map bytes u.alias_jids))

abbrev pub written_file :
    Surroundings → ChatUnit → List StoredMessage → List Text → Days → WriteResult
written_file env u messages extras [] = empty
written_file env u messages extras (d ∷ days) = wrote (
    chat_file (header_lines env.today u messages (first_date (d ∷ days)) (last_date (d ∷ days)))
      extras u.display (d ∷ days))

-- `exportOneUnit`, of the file that is there, and of a query and a write that go through
unfoldable pub export_one_unit :
    Surroundings → List StoredMessage → Bool → ChatUnit → Option Text → WriteResult
unfolding read_chat_file_identity extract_extras is_unchanged unit_messages by_date sort_by
    header_lines chat_file equal bytes
export_one_unit env stored force_rewrite u file =
    let id = read_chat_file_identity file in
    let messages = unit_messages stored u.members in
    let days = sort_by earlier_day (by_date env u.display messages []) in
    let extras = if file_is_ours u id then extract_extras file else [] in
    if is_unchanged force_rewrite u id
    then unchanged
    else if length messages == 0
    then empty
    else written_file env u messages extras days
