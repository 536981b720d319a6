-- ===== src/Archive/Contacts.antt =====
-- whatsapp-bridge/contacts_sync.go: the user's names for people, and the names of chats; and
-- `UpsertGroupChat` of whatsapp-bridge/groups.go.
use whatsapp_mcp_plugin.Prelude.{
  upsert, update_rows, ℕ, String, Bool, ◌&&◌, ◌||◌, not, Option, none, some, List, [], ◌∷◌, same,
  ltb, ◌==◌, ◌==◌, if◌then◌else◌,
}
use whatsapp_mcp_plugin.Bytes.{is_blank, Text, trim_space}
use whatsapp_mcp_plugin.Archive.{Jid, ChatRow, StoredContact, AliasRow, Archive}
use whatsapp_mcp_plugin.Archive.Aliases.{is_or_alias}

abbrev pub none_if_empty : Text → Option Text
none_if_empty [] = none
none_if_empty (c ∷ s) = some (c ∷ s)

-- `addressBookName`
unfoldable pub address_book_name : Text → Text → Text
unfolding trim_space
address_book_name full_name first_name =
    if not (is_blank (trim_space full_name)) then trim_space full_name else trim_space first_name

abbrev pub normalized_of : (Text → Text) → Option Text → Option Text
normalized_of normalize none = none
normalized_of normalize (some name) = some (normalize name)

-- The first half of `writeContactName`, on the contact's row.
unfoldable pub name_contact :
    (Text → Text) → String → Text → ℕ → List StoredContact → List StoredContact
unfolding upsert
name_contact normalize jid name now =
    upsert (λ r. same r.jid jid)
      (λ r. record r {
        full_name = none_if_empty name;
        normalized_full_name = normalized_of normalize (none_if_empty name);
        updated_at = now;
      })
      (record {
        jid = jid;
        phone = none;
        push_name = none;
        normalized_name = none;
        full_name = none_if_empty name;
        normalized_full_name = normalized_of normalize (none_if_empty name);
        created_at = now;
        updated_at = now;
      })

-- The second half: an empty name sets the chats' names to NULL.
unfoldable pub rename_chats :
    (Text → Text) → String → List AliasRow → Option Text → ℕ → List ChatRow → List ChatRow
unfolding update_rows
rename_chats normalize jid aliases name now =
    update_rows (λ r. not (same r.chat_type "group") && is_or_alias jid aliases r.jid)
      (λ r. record r {
        name = name;
        normalized_name = normalized_of normalize name;
        updated_at = now;
      })

-- `writeContactName`; the chats stay as they were where the first statement fails.
unfoldable pub write_contact_name :
    (Text → Text) → Bool → Bool → String → Text → ℕ → Archive → Archive
unfolding name_contact rename_chats
write_contact_name normalize contact_fails chats_fail jid name now db =
    let named : Archive = record db {
      contacts = name_contact normalize jid name now db.contacts;
    } in
    if contact_fails then db else if chats_fail then named else record named {
      chats = rename_chats normalize jid db.aliases (none_if_empty name) now db.chats;
    }

abbrev pub named_in_book : String → List AliasRow → List StoredContact → Option Text
named_in_book jid aliases [] = none
named_in_book jid aliases (r ∷ rows) = elim r.full_name [
  | none ↦ named_in_book jid aliases rows
  | some name ↦
      (if is_or_alias jid aliases r.jid then some name else named_in_book jid aliases rows)
]

abbrev pub trimmed_or_blank : Option Text → Text
trimmed_or_blank none = []
trimmed_or_blank (some name) = trim_space name

-- `addressBookNameFor`, with the rows in the order of the table
unfoldable pub address_book_name_for : Jid → List AliasRow → List StoredContact → Text
unfolding trim_space
address_book_name_for jid aliases contacts =
    trimmed_or_blank (named_in_book jid.non_ad aliases contacts)

-- `chatNameFromMessage`
unfoldable pub chat_name_from_message : Bool → Bool → Text → Text
unfolding trim_space
chat_name_from_message is_group is_from_me push_name =
    if is_group || is_from_me then [] else trim_space push_name

-- `chatTypeFromJID`
unfoldable pub chat_type_from_jid : Jid → String
chat_type_from_jid j =
    if same j.server "g.us"
    then "group"
    else if same j.server "broadcast" || same j.server "newsletter"
    then "broadcast"
    else "direct"

-- What `UpsertGroupChat` reads of a group.
pub record GroupInfo : Type 0 where
  pub jid : Jid
  pub name : Text
  pub participant_count : ℕ
  pub participants : ℕ

abbrev pub group_count : GroupInfo → ℕ
group_count g = if g.participant_count == 0 then g.participants else g.participant_count

-- `UpsertGroupChat` of groups.go
unfoldable pub upsert_group_chat : (Text → Text) → GroupInfo → ℕ → List ChatRow → List ChatRow
unfolding upsert
upsert_group_chat normalize g now =
    upsert (λ r. same r.jid g.jid.text)
      (λ r. record r {
        name = if not (is_blank g.name) then some g.name else r.name;
        normalized_name =
            if not (is_blank g.name) then some (normalize g.name) else r.normalized_name;
        participants_count = if ltb 0 (group_count g) then group_count g else r.participants_count;
        updated_at = now;
      })
      (record {
        jid = g.jid.text;
        chat_type = "group";
        name = some g.name;
        normalized_name = some (normalize g.name);
        participants_count = group_count g;
        created_at = now;
        updated_at = now;
        last_message_id = none;
        last_message_time = 0;
        last_message_preview = [];
      })
