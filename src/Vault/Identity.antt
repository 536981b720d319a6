-- ===== src/Vault/Identity.antt =====
-- `resolveUnitIdentities` (whatsapp-bridge/export_vault.go): the display name and the phone of a unit.
pub mod Phone
use whatsapp_mcp_plugin.Prelude.{
  ℕ, String, Bool, true, false, ◌&&◌, not, Option, none, some, List, [], ◌∷◌, ◌++◌, map, any,
  where_rows, same, if◌then◌else◌,
}
use whatsapp_mcp_plugin.Bytes.{Text, bytes, equal, has_prefix, is_blank}
use whatsapp_mcp_plugin.Markers.{has_suffix}
use whatsapp_mcp_plugin.Archive.{ChatRow, StoredContact}
use whatsapp_mcp_plugin.Vault.{extract_phone}
use whatsapp_mcp_plugin.Vault.Units.{ChatUnit, chat_at}

-- `COALESCE(column, '')`
abbrev pub or_blank : Option Text → Text
or_blank none = []
or_blank (some s) = s

-- `contacts[jid]`
unfoldable pub contact_at : String → List StoredContact → Option StoredContact
contact_at jid [] = none
contact_at jid (c ∷ contacts) =
    let rest = contact_at jid contacts in if same jid c.jid then some c else rest

-- `contactLite`'s two columns, blank where there is no row
abbrev pub contact_phone : Option StoredContact → Text
contact_phone none = []
contact_phone (some c) = or_blank c.phone

abbrev pub contact_push_name : Option StoredContact → Text
contact_push_name none = []
contact_push_name (some c) = or_blank c.push_name

-- `chats[jid].name`
abbrev pub name_in : Option ChatRow → Text
name_in none = []
name_in (some c) = or_blank c.name

abbrev pub or_else : Text → Text → Text
or_else s t = if is_blank s then t else s

-- The first text of the list that is not blank, as the loops that `break` find it.
abbrev pub first_filled : List Text → Text
first_filled [] = []
first_filled (s ∷ ss) = or_else s (first_filled ss)

unfoldable pub is_lid : String → Bool
unfolding has_suffix bytes
is_lid jid = has_suffix (bytes jid) (bytes "@lid")

unfoldable pub is_phone_jid : String → Bool
unfolding has_suffix bytes
is_phone_jid jid = has_suffix (bytes jid) (bytes "@s.whatsapp.net")

-- `lidDigits`
unfoldable pub lid_digits : List String → List Text
unfolding is_lid extract_phone bytes
lid_digits closure = map (λ jid. extract_phone (bytes jid)) (where_rows is_lid closure)

-- The loop over the JIDs of the phone server, which stops at the first.
unfoldable pub server_phone : List String → Text
unfolding is_phone_jid extract_phone bytes
server_phone [] = []
server_phone (jid ∷ jids) =
    let rest = server_phone jids in if is_phone_jid jid then extract_phone (bytes jid) else rest

-- A contact's phone, unless it is the digits of a LID.
abbrev pub phone_unless : List Text → Text → Text
phone_unless lids phone = if any (equal phone) lids then [] else phone

unfoldable pub unit_phone : List StoredContact → List String → Text
unfolding server_phone lid_digits contact_at equal
unit_phone contacts closure = or_else (server_phone closure) (
    first_filled (
      map (λ jid. phone_unless (lid_digits closure) (contact_phone (contact_at jid contacts)))
        closure))

-- A name that does not start with `+`
unfoldable pub plain_name : Text → Text
unfolding has_prefix
plain_name s = if has_prefix s (b'+' ∷ []) then [] else s

abbrev pub phone_name : Text → Text → Text
phone_name phone primary =
    if not (is_blank phone)
    then b'+' ∷ phone
    else if not (is_blank (extract_phone primary))
    then b'+' ∷ extract_phone primary
    else primary

unfoldable pub direct_display : List ChatRow → List StoredContact → Text → ChatUnit → Text
unfolding plain_name contact_at chat_at extract_phone bytes
direct_display chats contacts phone u =
    or_else
      (first_filled
        (map (λ jid. plain_name (contact_push_name (contact_at jid contacts))) u.members))
      (or_else (first_filled (map (λ jid. plain_name (name_in (chat_at jid chats))) u.members))
        (phone_name phone (bytes u.primary)))

unfoldable pub other_display : List ChatRow → ChatUnit → Text
unfolding chat_at extract_phone bytes
other_display chats u =
    or_else (name_in (chat_at u.primary chats))
      (or_else (extract_phone (bytes u.primary)) (bytes u.primary))

-- One round of the loop over the units
unfoldable pub with_identity : List ChatRow → List StoredContact → ChatUnit → ChatUnit
unfolding unit_phone direct_display other_display
with_identity chats contacts u =
    let phone = unit_phone contacts (u.members ++ u.alias_jids) in
    if same u.chat_type "direct"
    then record u { phone = phone; display = direct_display chats contacts phone u }
    else record u { display = other_display chats u }

-- `resolveUnitIdentities`, of queries that go through
unfoldable pub resolve_unit_identities :
    List ChatRow → List StoredContact → List ChatUnit → List ChatUnit
unfolding with_identity
resolve_unit_identities chats contacts units = map (with_identity chats contacts) units
