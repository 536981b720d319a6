-- ===== src/Tests/Archiving.antt =====
-- A message that first fails to decrypt, comes through when it is sent again, and stays.
use whatsapp_mcp_plugin.Prelude.{
  ◌≡◌, refl, sym, ap, Bool, true, false, Option, none, some, List, [], ◌∷◌, any,
}
use whatsapp_mcp_plugin.Bytes.{Text, bytes}
use whatsapp_mcp_plugin.Markers.{Undecryptable}
use whatsapp_mcp_plugin.Archive.{Jid, StoredMessage, Archive, empty_archive}
use whatsapp_mcp_plugin.Archive.Intake.{
  MessageInfo, Decoded, Faults, is_placeholder, has_content, message_row,
}
use whatsapp_mcp_plugin.Archive.Aliases.{resolve_aliases}
use whatsapp_mcp_plugin.Archive.Events.{
  Arrival, message, undecryptable, on_message, arrive_all, find_stored,
}
use whatsapp_mcp_plugin.Archive.Kept.{Readable, Awaited, Filled, arrive_all-Readable, recovered}
use whatsapp_mcp_plugin.Archive.Symmetric.{IsLinked, arrive_all-IsLinked}

abbrev phone_jid : Jid
phone_jid = record {
  text = "49170@s.whatsapp.net";
  user = bytes "49170";
  server = "s.whatsapp.net";
  is_empty = false;
  non_ad = "49170@s.whatsapp.net";
}

abbrev lid_jid : Jid
lid_jid = record {
  text = "7@lid";
  user = bytes "7";
  server = "lid";
  is_empty = false;
  non_ad = "7@lid";
}

abbrev info : MessageInfo
info = record {
  id = "m1";
  chat = phone_jid;
  sender = phone_jid;
  sender_alt = lid_jid;
  recipient_alt = lid_jid;
  push_name = bytes "Ada";
  timestamp = 100;
  is_from_me = false;
  is_group = false;
}

abbrev no_faults : Faults
no_faults = record {
  chat_fails = false;
  message_fails = false;
  contact_fails = false;
  alias_fails = false;
}

abbrev failure : Undecryptable
failure = record { is_unavailable = false; unavailable_type = []; hide = false }

abbrev hello : Decoded
hello = record { content = bytes "hello"; msg_type = bytes "text"; media = none }

abbrev normalize : Text → Text
normalize s = s

abbrev failed : Archive
failed = arrive_all normalize (undecryptable no_faults info failure ∷ []) empty_archive

abbrev later : List Arrival
later = message no_faults info hello ∷ undecryptable no_faults info failure ∷ []

placeholder_stored : any (λ r. is_placeholder r) failed.messages ≡ true
unfolding arrive_all is_placeholder
placeholder_stored = refl

failed-Awaited : Awaited "m1" failed.messages
unfolding arrive_all is_placeholder find_stored
failed-Awaited old found = ap is_placeholder_at (sym found)
  where
    is_placeholder_at : Option StoredMessage → Bool
    is_placeholder_at none = true
    is_placeholder_at (some r) = is_placeholder r

abbrev hello_row : StoredMessage
hello_row = message_row normalize info hello

hello-content : has_content hello_row ≡ true
unfolding has_content message_row
hello-content = refl

hello-real : is_placeholder hello_row ≡ false
unfolding is_placeholder message_row
hello-real = refl

hello-Readable : Readable "m1" hello_row (hello_row ∷ [])
unfolding find_stored message_row
hello-Readable = refl

recovered_example :
    Filled "m1" hello
      (arrive_all normalize later (on_message normalize no_faults info hello failed)).messages
recovered_example =
    recovered normalize no_faults info hello failed failed-Awaited refl hello-content hello-real
      later

arrive_all-Readable_example :
    Readable "m1" hello_row
      (arrive_all normalize later (record empty_archive { messages = hello_row ∷ [] })).messages
arrive_all-Readable_example =
    arrive_all-Readable normalize "m1" hello_row hello-real later
      (record empty_archive { messages = hello_row ∷ [] }) hello-Readable

empty-IsLinked : IsLinked []
empty-IsLinked = record { back = λ a b. refl; distinct = λ a. refl; no_empty = λ a. refl }

failed-IsLinked : IsLinked failed.aliases
failed-IsLinked =
    arrive_all-IsLinked normalize (undecryptable no_faults info failure ∷ []) empty_archive
      empty-IsLinked

arrive_all-IsLinked_example : IsLinked (arrive_all normalize later failed).aliases
arrive_all-IsLinked_example = arrive_all-IsLinked normalize later failed failed-IsLinked

alias_run : resolve_aliases "7@lid" failed.aliases ≡ "7@lid" ∷ "49170@s.whatsapp.net" ∷ []
unfolding arrive_all resolve_aliases
alias_run = refl
