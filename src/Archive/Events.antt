-- ===== src/Archive/Events.antt =====
-- `onMessage` (whatsapp-bridge/bridge.go) and `onUndecryptableMessage`
-- (whatsapp-bridge/undecryptable.go) on the whole archive, and runs of such events. The queue of the
-- transcriber is left out.
use whatsapp_mcp_plugin.Prelude.{
  upsert, String, Bool, Option, none, some, List, [], ◌∷◌, ◌++◌, any, same, if◌then◌else◌,
}
use whatsapp_mcp_plugin.Bytes.{Text, bytes}
use whatsapp_mcp_plugin.Markers.{
  Undecryptable, undecryptable_marker, raw_type_nullable, decrypt_failure_mode,
}
use whatsapp_mcp_plugin.Archive.{StoredMessage, Archive}
use whatsapp_mcp_plugin.Archive.Aliases.{record_jid_alias}
use whatsapp_mcp_plugin.Archive.Contacts.{none_if_empty, chat_type_from_jid}
use whatsapp_mcp_plugin.Archive.Intake.{
  MessageInfo, Decoded, Faults, preview_of, display_of, chat_name_for, new_chat, with_last,
  upsert_chat, message_row, store_message, store_contact,
}

-- `recordJIDAlias` as `onMessage` calls it
unfoldable pub message_alias : MessageInfo → Bool → Archive → Archive
unfolding record_jid_alias
message_alias info fails db = record db {
  aliases =
      if info.is_from_me
      then record_jid_alias fails info.chat info.recipient_alt "message_recipient" info.timestamp
          db.aliases
      else record_jid_alias fails info.sender info.sender_alt "message_sender" info.timestamp
          db.aliases;
}

unfoldable pub on_message : (Text → Text) → Faults → MessageInfo → Decoded → Archive → Archive
unfolding chat_name_for upsert_chat message_row store_message store_contact message_alias
on_message normalize f info d db =
    let name = none_if_empty (chat_name_for info db) in
    let stored : Archive = record db {
      chats =
          if f.chat_fails
          then db.chats
          else upsert_chat normalize info name (preview_of d.content) db.chats;
      messages =
          if f.message_fails
          then db.messages
          else store_message (message_row normalize info d) db.messages;
    } in
    let known : Archive = record stored {
      contacts = if f.contact_fails then db.contacts else store_contact normalize info db.contacts;
    } in
    if info.is_group then stored else message_alias info f.alias_fails known

abbrev pub marker_of : Undecryptable → Text
marker_of failure = undecryptable_marker (decrypt_failure_mode failure)

abbrev pub marker_name : MessageInfo → Text
marker_name info = if same (chat_type_from_jid info.chat) "direct" then display_of info else []

-- The row of a message that could not be decrypted.
unfoldable pub placeholder_row : (Text → Text) → MessageInfo → Undecryptable → StoredMessage
unfolding raw_type_nullable undecryptable_marker decrypt_failure_mode bytes
placeholder_row normalize info failure = record {
  id = info.id;
  chat_jid = info.chat.text;
  sender_jid = info.sender.text;
  sender_display = display_of info;
  timestamp = info.timestamp;
  type = bytes "system";
  content_text = marker_of failure;
  content_normalized = normalize (marker_of failure);
  is_from_me = info.is_from_me;
  scrubbed_text = marker_of failure;
  scrub_flags = [];
  media = none;
  raw_type = raw_type_nullable (bytes "system") (marker_of failure);
}

abbrev pub is_stored : String → List StoredMessage → Bool
is_stored id rows = any (λ r. same r.id id) rows

-- `INSERT ... ON CONFLICT(id) DO NOTHING`
unfoldable pub store_placeholder : StoredMessage → List StoredMessage → List StoredMessage
store_placeholder row rows = if is_stored row.id rows then rows else rows ++ row ∷ []

-- `onUndecryptableMessage` of an event that is not nil. The edge is recorded only where a row is new.
unfoldable pub on_undecryptable_message :
    (Text → Text) → Faults → MessageInfo → Undecryptable → Archive → Archive
unfolding placeholder_row store_placeholder record_jid_alias upsert
on_undecryptable_message normalize f info failure db =
    let marker = marker_of failure in
    let chatted : Archive = record db {
      chats =
          if f.chat_fails
          then db.chats
          else upsert (λ r. same r.jid info.chat.text) (with_last info marker)
              (new_chat info (some (marker_name info)) (some (normalize (marker_name info))) marker)
              db.chats;
    } in
    let stored : Archive = record chatted {
      messages = store_placeholder (placeholder_row normalize info failure) db.messages;
    } in
    let linked : Archive = record stored {
      aliases =
          if info.is_group
          then db.aliases
          else record_jid_alias f.alias_fails info.sender info.sender_alt "message_sender"
              info.timestamp db.aliases;
    } in
    if same info.id ""
    then db
    else if f.message_fails
    then chatted
    else if is_stored info.id db.messages
    then stored
    else linked

pub data Arrival : Type 0 where
  message : Faults → MessageInfo → Decoded → Arrival
  undecryptable : Faults → MessageInfo → Undecryptable → Arrival

unfoldable pub arrive : (Text → Text) → Arrival → Archive → Archive
unfolding on_message on_undecryptable_message
arrive normalize (message f info d) db = on_message normalize f info d db
arrive normalize (undecryptable f info failure) db =
    on_undecryptable_message normalize f info failure db

unfoldable pub arrive_all : (Text → Text) → List Arrival → Archive → Archive
unfolding arrive
arrive_all normalize [] db = db
arrive_all normalize (a ∷ rest) db = arrive_all normalize rest (arrive normalize a db)

unfoldable pub find_stored : String → List StoredMessage → Option StoredMessage
find_stored id [] = none
find_stored id (r ∷ rows) = let rest = find_stored id rows in if same r.id id then some r else rest
