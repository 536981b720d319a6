-- ===== src/Archive.antt =====
-- The local archive of the bridge: the tables `chats`, `messages`, `contacts` and `jid_aliases`, and the
-- upserts on them. `Normalize` (golang.org/x/text) and the JIDs of whatsmeow are parameters.
pub mod Aliases
pub mod Contacts
pub mod Events
pub mod Intake
pub mod Kept
pub mod Symmetric
use whatsapp_mcp_plugin.Prelude.{
  ℕ, ◌+◌, String, Bool, true, false, ◌&&◌, ◌||◌, not, Option, none, some, List, [], ◌∷◌, ◌++◌, any,
  same, if◌then◌else◌,
}
use whatsapp_mcp_plugin.Bytes.{Text}
use whatsapp_mcp_plugin.Sends.{UploadResult}

-- `types.JID`: its text, its parts, and whether it is the empty one.
pub record Jid : Type 0 where
  pub text : String
  pub user : Text
  pub server : String
  pub is_empty : Bool
  -- `ToNonAD().String()`
  pub non_ad : String

pub record ChatRow : Type 0 where
  pub jid : String
  pub chat_type : String
  pub name : Option Text
  pub normalized_name : Option Text
  pub participants_count : ℕ
  pub created_at : ℕ
  pub updated_at : ℕ
  pub last_message_id : Option String
  pub last_message_time : ℕ
  pub last_message_preview : Text

pub record StoredMessage : Type 0 where
  pub id : String
  pub chat_jid : String
  pub sender_jid : String
  pub sender_display : Text
  pub timestamp : ℕ
  pub type : Text
  pub content_text : Text
  pub content_normalized : Text
  pub is_from_me : Bool
  pub scrubbed_text : Text
  pub scrub_flags : List Text
  pub media : Option (String × UploadResult)
  pub raw_type : Option Text

pub record StoredContact : Type 0 where
  pub jid : String
  pub phone : Option Text
  pub push_name : Option Text
  pub normalized_name : Option Text
  pub full_name : Option Text
  pub normalized_full_name : Option Text
  pub created_at : ℕ
  pub updated_at : ℕ

pub record AliasRow : Type 0 where
  pub jid_a : String
  pub jid_b : String
  pub discovered_at : ℕ
  pub source : String

pub record Archive : Type 0 where
  pub chats : List ChatRow
  pub messages : List StoredMessage
  pub contacts : List StoredContact
  pub aliases : List AliasRow

abbrev pub empty_archive : Archive
empty_archive = record { chats = []; messages = []; contacts = []; aliases = [] }

-- `COALESCE(a, b)`
abbrev pub first_of : Option Text → Option Text → Option Text
first_of none b = b
first_of (some a) b = some a
