-- ===== src/Archive/Intake.antt =====
-- What arrives from WhatsApp: `onMessage` of whatsapp-bridge/bridge.go and `onUndecryptableMessage` of
-- whatsapp-bridge/undecryptable.go. The decoding of a message (`extractContent`,
-- `extractDownloadableFields`) is a part of the event; each statement may fail.
use whatsapp_mcp_plugin.Prelude.{
  upsert, ℕ, String, Bool, ◌&&◌, ◌||◌, not, Option, none, some, List, [], ◌++◌, same, leb, length,
  take, if◌then◌else◌,
}
use whatsapp_mcp_plugin.Bytes.{is_blank, Text, bytes, equal, has_prefix, to_lower}
use whatsapp_mcp_plugin.Scrub.{scrub}
use whatsapp_mcp_plugin.Sends.{UploadResult}
use whatsapp_mcp_plugin.Markers.{undecryptable_prefix, raw_type_nullable}
use whatsapp_mcp_plugin.Archive.{Jid, ChatRow, StoredMessage, StoredContact, Archive, first_of}
use whatsapp_mcp_plugin.Archive.Contacts.{
  normalized_of, address_book_name_for, chat_name_from_message, chat_type_from_jid,
}

pub record MessageInfo : Type 0 where
  pub id : String
  pub chat : Jid
  pub sender : Jid
  pub sender_alt : Jid
  pub recipient_alt : Jid
  pub push_name : Text
  pub timestamp : ℕ
  pub is_from_me : Bool
  pub is_group : Bool

pub record Decoded : Type 0 where
  pub content : Text
  pub msg_type : Text
  pub media : Option (String × UploadResult)

-- Which statements fail.
pub record Faults : Type 0 where
  pub chat_fails : Bool
  pub message_fails : Bool
  pub contact_fails : Bool
  pub alias_fails : Bool

abbrev pub default_user_server : String
default_user_server = "s.whatsapp.net"

abbrev pub preview_of : Text → Text
preview_of content = if leb (length content) 120 then content else take 120 content ++ bytes "..."

abbrev pub display_of : MessageInfo → Text
display_of info = if is_blank info.push_name then info.sender.user else info.push_name

-- `chatNameFor`
unfoldable pub chat_name_for : MessageInfo → Archive → Text
unfolding chat_type_from_jid address_book_name_for chat_name_from_message
chat_name_for info db =
    let book = address_book_name_for info.chat db.aliases db.contacts in
    if not (same (chat_type_from_jid info.chat) "direct")
    then []
    else if not (is_blank book)
    then book
    else chat_name_from_message info.is_group info.is_from_me info.push_name

-- A new row of `chats`, with the message as its last.
abbrev pub new_chat : MessageInfo → Option Text → Option Text → Text → ChatRow
new_chat info name normalized preview = record {
  jid = info.chat.text;
  chat_type = chat_type_from_jid info.chat;
  name = name;
  normalized_name = normalized;
  participants_count = 0;
  created_at = info.timestamp;
  updated_at = info.timestamp;
  last_message_id = some info.id;
  last_message_time = info.timestamp;
  last_message_preview = preview;
}

abbrev pub with_last : MessageInfo → Text → ChatRow → ChatRow
with_last info preview r = record r {
  last_message_id = some info.id;
  last_message_time = info.timestamp;
  last_message_preview = preview;
  updated_at = info.timestamp;
}

-- The upsert of the chat of a message: a name that is there wins over none.
unfoldable pub upsert_chat :
    (Text → Text) → MessageInfo → Option Text → Text → List ChatRow → List ChatRow
unfolding upsert
upsert_chat normalize info name preview =
    upsert (λ r. same r.jid info.chat.text)
      (λ r. record (with_last info preview r) {
        name = first_of name r.name;
        normalized_name = first_of (normalized_of normalize name) r.normalized_name;
      })
      (new_chat info name (normalized_of normalize name) preview)

unfoldable pub message_row : (Text → Text) → MessageInfo → Decoded → StoredMessage
unfolding scrub raw_type_nullable
message_row normalize info d = record {
  id = info.id;
  chat_jid = info.chat.text;
  sender_jid = info.sender.text;
  sender_display = display_of info;
  timestamp = info.timestamp;
  type = d.msg_type;
  content_text = d.content;
  content_normalized = normalize d.content;
  is_from_me = info.is_from_me;
  scrubbed_text = (scrub d.content).0;
  scrub_flags = (scrub d.content).1;
  media = d.media;
  raw_type = raw_type_nullable d.msg_type d.content;
}

-- `content_text LIKE '[undecryptable: %'`, which takes ASCII letters in either case
unfoldable pub is_placeholder : StoredMessage → Bool
unfolding has_prefix to_lower undecryptable_prefix
is_placeholder r = has_prefix (to_lower r.content_text) undecryptable_prefix

-- `COALESCE(excluded.content_text, '') <> '' OR excluded.type <> 'system'`
unfoldable pub has_content : StoredMessage → Bool
unfolding equal bytes
has_content row = not (is_blank row.content_text) || not (equal row.type (bytes "system"))

-- The columns that `DO UPDATE SET` takes from the new row.
abbrev pub upgraded : StoredMessage → StoredMessage → StoredMessage
upgraded row old = record row {
  id = old.id;
  chat_jid = old.chat_jid;
  sender_jid = old.sender_jid;
  timestamp = old.timestamp;
  is_from_me = old.is_from_me;
}

abbrev pub upgrade : StoredMessage → StoredMessage → StoredMessage
upgrade row old = if is_placeholder old && has_content row then upgraded row old else old

unfoldable pub store_message : StoredMessage → List StoredMessage → List StoredMessage
unfolding upsert
store_message row = upsert (λ r. same r.id row.id) (upgrade row) row

-- `phoneToStore`
abbrev pub phone_to_store : MessageInfo → Option Text
phone_to_store info =
    if same info.sender.server default_user_server
    then some info.sender.user
    else if not info.sender_alt.is_empty && same info.sender_alt.server default_user_server
    then some info.sender_alt.user
    else none

unfoldable pub store_contact : (Text → Text) → MessageInfo → List StoredContact → List StoredContact
unfolding upsert
store_contact normalize info =
    upsert (λ r. same r.jid info.sender.text)
      (λ r. record r {
        push_name = some (display_of info);
        normalized_name = some (normalize (display_of info));
        phone = first_of (phone_to_store info) r.phone;
        updated_at = info.timestamp;
      })
      (record {
        jid = info.sender.text;
        phone = phone_to_store info;
        push_name = some (display_of info);
        normalized_name = some (normalize (display_of info));
        full_name = none;
        normalized_full_name = none;
        created_at = info.timestamp;
        updated_at = info.timestamp;
      })
