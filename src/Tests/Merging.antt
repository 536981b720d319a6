-- ===== src/Tests/Merging.antt =====
-- A person under two JIDs and a group, merged and named.
use whatsapp_mcp_plugin.Prelude.{
  ℕ, String, ◌≡◌, ◌↔◌, refl, true, false, none, some, List, [], ◌∷◌, map,
}
use whatsapp_mcp_plugin.Bytes.{to_lower, bytes}
use whatsapp_mcp_plugin.Archive.{ChatRow, StoredMessage, StoredContact, AliasRow, Archive}
use whatsapp_mcp_plugin.Vault.{Unicode}
use whatsapp_mcp_plugin.Vault.Forest.Linked.{Linked}
use whatsapp_mcp_plugin.Vault.Units.{ChatUnit, chat_at, chat_units}
use whatsapp_mcp_plugin.Vault.Units.Linked.{merged}
use whatsapp_mcp_plugin.Vault.Units.Shared.{share_unit, share_unit-Linked}
use whatsapp_mcp_plugin.Vault.Identity.{unit_phone}
use whatsapp_mcp_plugin.Vault.Identity.Phone.{PhoneOf, unit_phone-PhoneOf}
use whatsapp_mcp_plugin.Vault.Plan.{
  VaultEntry, ExportOptions, BuildResult, built, build_export_units,
}
use whatsapp_mcp_plugin.Vault.Plan.Complete.{
  IsBuilt, filenames, files_of, build_export_units-IsBuilt,
}

abbrev pub phone_jid : String
phone_jid = "49170@s.whatsapp.net"

abbrev pub lid_jid : String
lid_jid = "7@lid"

abbrev pub group_jid : String
group_jid = "1@g.us"

abbrev chat : String → String → ℕ → ChatRow
chat jid chat_type time = record {
  jid = jid;
  chat_type = chat_type;
  name = some (bytes "Ada");
  normalized_name = none;
  participants_count = 2;
  created_at = 1;
  updated_at = 1;
  last_message_id = none;
  last_message_time = time;
  last_message_preview = [];
}

abbrev chats : List ChatRow
chats = chat phone_jid "direct" 5 ∷ chat lid_jid "direct" 9 ∷ chat group_jid "group" 7 ∷ []

abbrev edge_of : String → String → AliasRow
edge_of a b = record { jid_a = a; jid_b = b; discovered_at = 1; source = "message" }

-- The second edge is corrupt, and is skipped.
abbrev edges : List AliasRow
edges = edge_of phone_jid lid_jid ∷ edge_of lid_jid group_jid ∷ []

abbrev message_in : String → String → StoredMessage
message_in id jid = record {
  id = id;
  chat_jid = jid;
  sender_jid = jid;
  sender_display = [];
  timestamp = 1000;
  type = bytes "text";
  content_text = bytes "hi";
  content_normalized = bytes "hi";
  is_from_me = false;
  scrubbed_text = bytes "hi";
  scrub_flags = [];
  media = none;
  raw_type = none;
}

-- The last message belongs to no chat.
abbrev messages : List StoredMessage
messages =
    message_in "1" phone_jid
    ∷ message_in "2" lid_jid
    ∷ message_in "3" group_jid
    ∷ message_in "4" "8@lid"
    ∷ []

abbrev contact : StoredContact
contact = record {
  jid = lid_jid;
  phone = some (bytes "7");
  push_name = some (bytes "Ada");
  normalized_name = none;
  full_name = none;
  normalized_full_name = none;
  created_at = 1;
  updated_at = 1;
}

units_run :
    map (λ (u : ChatUnit). u.members) (chat_units chats edges messages)
    ≡ (group_jid ∷ []) ∷ (lid_jid ∷ phone_jid ∷ []) ∷ []
unfolding chat_units bytes
units_run = refl

share_unit-Linked_example :
    share_unit phone_jid lid_jid (chat_units chats edges messages) ≡ true
    ↔ Linked (merged chats edges) phone_jid lid_jid
unfolding bytes chat_at
share_unit-Linked_example = share_unit-Linked chats edges messages phone_jid lid_jid refl refl refl

-- The number of the contact is the user part of the LID, so that no phone is known.
phone_run : unit_phone (contact ∷ []) (lid_jid ∷ []) ≡ []
unfolding unit_phone bytes
phone_run = refl

unit_phone-PhoneOf_example :
    PhoneOf
      (contact ∷ [])
      (lid_jid ∷ phone_jid ∷ [])
      (unit_phone (contact ∷ []) (lid_jid ∷ phone_jid ∷ []))
unit_phone-PhoneOf_example = unit_phone-PhoneOf (contact ∷ []) (lid_jid ∷ phone_jid ∷ [])

-- Texts whose only letters are those of ASCII.
abbrev pub ascii : Unicode
ascii = record { nfc = λ s. s; lower = to_lower }

abbrev pub archive : Archive
archive = record { chats = chats; messages = messages; contacts = contact ∷ []; aliases = edges }

-- A note of the user's that has the person's name.
abbrev note : VaultEntry
note = record { name = bytes "Ada.md"; jid = [] }

abbrev pub everything : ExportOptions
everything = record { include_groups = true; min_messages = 1 }

abbrev result : BuildResult
result = build_export_units ascii everything (note ∷ []) archive

names_run : filenames (files_of result) ≡ bytes "Ada (+49170).md" ∷ bytes "Ada (group).md" ∷ []
unfolding build_export_units bytes
names_run = refl

result-built : result ≡ built (files_of result) 3
unfolding build_export_units bytes
result-built = refl

build_export_units-IsBuilt_example :
    IsBuilt everything (note ∷ []) archive (files_of result) (bytes "Ada.md") phone_jid
build_export_units-IsBuilt_example =
    build_export_units-IsBuilt ascii everything (note ∷ []) archive (files_of result) 3
      (bytes "Ada.md") phone_jid result-built
