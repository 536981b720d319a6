-- ===== src/Tests/Writing.antt =====
-- A chat file, written over one that another program has added a line to, and read again.
use whatsapp_mcp_plugin.Prelude.{
  String, ◌≡◌, refl, false, arith, Option, none, some, List, [], ◌∷◌, ◌++◌,
}
use whatsapp_mcp_plugin.Bytes.{Text, bytes}
use whatsapp_mcp_plugin.Archive.{StoredMessage}
use whatsapp_mcp_plugin.Vault.Units.{ChatUnit}
use whatsapp_mcp_plugin.Vault.File.{read_chat_file_identity, extract_extras}
use whatsapp_mcp_plugin.Vault.Write.{
  Surroundings, WriteResult, wrote, unchanged, empty, unit_messages, export_one_unit,
}
use whatsapp_mcp_plugin.Vault.Write.Header.{IsPlainUnit, identity_of}
use whatsapp_mcp_plugin.Vault.Write.Again.{
  IsDating, export_one_unit-identity, export_one_unit-again,
}
use whatsapp_mcp_plugin.Vault.Write.Extras.{export_one_unit-extras}

abbrev jid : String
jid = "49170@s.whatsapp.net"

abbrev unit_named : Text → ChatUnit
unit_named display = record {
  members = jid ∷ [];
  alias_jids = "7@lid" ∷ [];
  primary = jid;
  chat_type = "direct";
  display = display;
  phone = bytes "49170";
  participants_count = 0;
  last_message_ts = 5000;
  msg_count = 1;
}

abbrev ada : ChatUnit
ada = unit_named (bytes "Ada \"A\"")

abbrev stored : List StoredMessage
stored =
    record {
      id = "1";
      chat_jid = jid;
      sender_jid = jid;
      sender_display = [];
      timestamp = 5000;
      type = bytes "text";
      content_text = bytes "hi";
      content_normalized = bytes "hi";
      is_from_me = false;
      scrubbed_text = bytes "hi";
      scrub_flags = [];
      media = none;
      raw_type = none;
    }
    ∷ []

abbrev env : Surroundings
env = record {
  date_of = λ ts. bytes "1970-01-01";
  clock_of = λ ts. bytes "01:23 AM";
  today = bytes "2026-01-01";
  transcript_of = λ id. [];
}

abbrev before : Option Text
before = some (
    bytes
      "---\ntype: whatsapp-chat\njid: '49170@s.whatsapp.net'\nmood: good\nlast_message_ts: 3\n---\n")

abbrev after : Text
after =
    bytes "---\ntype: whatsapp-chat\ncontact: \"Ada \\\"A\\\"\"\nphone: \"+49170\"\n"
    ++ bytes "jid: \"49170@s.whatsapp.net\"\nalias_jids: [\"7@lid\"]\nchat_type: \"direct\"\n"
    ++ bytes "message_count: 1\nfirst_message: 1970-01-01\nlast_message: 1970-01-01\n"
    ++ bytes "last_message_ts: 5000\nlast_sync: 2026-01-01\nmood: good\n---\n\n"
    ++ bytes "# WhatsApp: Ada \"A\"\n\n## 1970-01-01\n\n**01:23 AM** Ada \"A\": hi\n"

write_run : export_one_unit env stored false ada before ≡ wrote after
unfolding export_one_unit bytes
write_run = refl

ada-IsPlainUnit : IsPlainUnit ada
unfolding bytes
ada-IsPlainUnit = record {
  primary = refl;
  aliases = refl;
  chat_type = refl;
  display = refl;
  phone = refl;
}

env-IsDating : IsDating env
unfolding bytes
env-IsDating = (λ ts. refl, refl)

export_one_unit-identity_example : read_chat_file_identity (some after) ≡ identity_of ada 1
unfolding bytes read_chat_file_identity extract_extras unit_messages
export_one_unit-identity_example =
    export_one_unit-identity env stored false ada before after ada-IsPlainUnit env-IsDating refl
      write_run

export_one_unit-again_example : export_one_unit env [] false ada (some after) ≡ unchanged
unfolding bytes read_chat_file_identity extract_extras unit_messages
export_one_unit-again_example =
    export_one_unit-again env env stored [] false ada before after ada-IsPlainUnit env-IsDating refl
      refl refl (omega arith) write_run

export_one_unit-extras_example : extract_extras (some after) ≡ bytes "mood: good" ∷ []
unfolding bytes read_chat_file_identity extract_extras unit_messages
export_one_unit-extras_example =
    export_one_unit-extras env stored false ada before after ada-IsPlainUnit env-IsDating refl
      write_run

-- A display name with a line feed ends the front matter early: the file that is written has no JID.
abbrev evil : ChatUnit
evil = unit_named (bytes "Ada\n---")

abbrev content_of : WriteResult → Option Text
content_of (wrote content) = some content
content_of unchanged = none
content_of empty = none

evil_run :
    (read_chat_file_identity (content_of (export_one_unit env stored false evil none))).jid ≡ []
unfolding export_one_unit bytes read_chat_file_identity
evil_run = refl
