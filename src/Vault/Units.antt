-- ===== src/Vault/Units.antt =====
-- The units of the vault export: how `buildExportUnits` (whatsapp-bridge/export_vault.go) merges the
-- chats that `jid_aliases` links into one file each, and which units it keeps.
pub mod Once
pub mod Linked
pub mod Shared
pub mod Counted
pub mod Newest
pub mod Alone
use mathlib.Core.List.{reverse}
use whatsapp_mcp_plugin.Sorting.{jid_less, sort_by}
use whatsapp_mcp_plugin.Prelude.{
  ℕ, zero, suc, ◌+◌, String, Bool, true, false, ◌&&◌, ◌||◌, not, Option, none, some, List, [], ◌∷◌,
  ◌++◌, map, any, where_rows, length, leb, ltb, ◌==◌, same, if◌then◌else◌,
}
use whatsapp_mcp_plugin.Bytes.{Text, bytes}
use whatsapp_mcp_plugin.Markers.{has_suffix}
use whatsapp_mcp_plugin.Archive.{ChatRow, StoredMessage, AliasRow}
use whatsapp_mcp_plugin.Vault.Forest.{Parents, keys, find_all, link_all, Components, collect}

-- `chatTypeFromServerSuffix` of whatsapp-bridge/import_baileys.go
unfoldable pub chat_type_from_server_suffix : String → String
unfolding has_suffix bytes
chat_type_from_server_suffix jid =
    if has_suffix (bytes jid) (bytes "@g.us")
    then "group"
    else if has_suffix (bytes jid) (bytes "@broadcast")
    then "broadcast"
    else if has_suffix (bytes jid) (bytes "@newsletter")
    then "broadcast"
    else "direct"

abbrev pub is_direct : String → Bool
is_direct jid = same (chat_type_from_server_suffix jid) "direct"

-- `chats[jid]`
unfoldable pub chat_at : String → List ChatRow → Option ChatRow
chat_at jid [] = none
chat_at jid (c ∷ chats) = let rest = chat_at jid chats in if same jid c.jid then some c else rest

abbrev pub is_found : Option ChatRow → Bool
is_found none = false
is_found (some c) = true

abbrev pub is_chat : List ChatRow → String → Bool
is_chat chats jid = is_found (chat_at jid chats)

-- `c, ok := chats[a]; ok && c.chatType != "direct"`
abbrev pub is_other : Option ChatRow → Bool
is_other none = false
is_other (some c) = not (same c.chat_type "direct")

-- The edges that the loop does not skip.
unfoldable pub merges : List ChatRow → AliasRow → Bool
unfolding chat_at chat_type_from_server_suffix
merges chats e =
    not (is_other (chat_at e.jid_a chats))
    && not (is_other (chat_at e.jid_b chats))
    && is_direct e.jid_a
    && is_direct e.jid_b

-- No way up is longer than the number of edges.
abbrev pub steps : List AliasRow → ℕ
steps edges = suc (length edges)

abbrev pub jids_of : List ChatRow → List String
jids_of = map (λ (c : ChatRow). c.jid)

-- `parent` after the loop over the edges, and the components of it
unfoldable pub parents : List ChatRow → List AliasRow → Parents
unfolding merges find_all link_all
parents chats edges =
    link_all (merges chats) (steps edges) edges (find_all (steps edges) (jids_of chats) [])

unfoldable pub closures : List ChatRow → List AliasRow → Components
unfolding parents collect
closures chats edges = let p = parents chats edges in collect (steps edges) (keys p) p []

-- `exportUnit`, without its name
pub record ChatUnit : Type 0 where
  pub members : List String
  pub alias_jids : List String
  pub primary : String
  pub chat_type : String
  pub display : Text
  pub phone : Text
  pub participants_count : ℕ
  pub last_message_ts : ℕ
  pub msg_count : ℕ

-- `counts[jid]`
abbrev pub message_count : List StoredMessage → String → ℕ
message_count messages jid =
    length (where_rows (λ (m : StoredMessage). same jid m.chat_jid) messages)

-- `chats[jid].lastMessageTs`, 0 of a missing key
abbrev pub time_in : Option ChatRow → ℕ
time_in none = 0
time_in (some c) = c.last_message_time

abbrev pub time_of : List ChatRow → String → ℕ
time_of chats jid = time_in (chat_at jid chats)

abbrev pub empty_unit : ChatUnit
empty_unit = record {
  members = [];
  alias_jids = [];
  primary = "";
  chat_type = "direct";
  display = [];
  phone = [];
  participants_count = 0;
  last_message_ts = 0;
  msg_count = 0;
}

-- The test that makes `jid` the primary.
abbrev pub is_newer : List ChatRow → String → String → Bool
is_newer chats jid primary =
    same primary ""
    || ltb (time_of chats primary) (time_of chats jid)
    || time_of chats jid == time_of chats primary && jid_less jid primary

-- One round of the loop over the members.
abbrev pub add_member : List ChatRow → List StoredMessage → String → ChatUnit → ChatUnit
add_member chats messages jid u = record u {
  members = u.members ++ jid ∷ [];
  msg_count = u.msg_count + message_count messages jid;
  last_message_ts =
      if ltb u.last_message_ts (time_of chats jid) then time_of chats jid else u.last_message_ts;
  primary = if is_newer chats jid u.primary then jid else u.primary;
}

unfoldable pub add_members : List ChatRow → List StoredMessage → List String → ChatUnit → ChatUnit
unfolding chat_at bytes
add_members chats messages [] u = u
add_members chats messages (jid ∷ jids) u =
    add_members chats messages jids (add_member chats messages jid u)

-- The order of the members: the primary JID, then the others by name.
abbrev pub primary_first : String → String → String → Bool
primary_first primary x y =
    if same x primary then true else if same y primary then false else jid_less x y

abbrev pub is_alias_of : String → String → Bool
is_alias_of primary jid = not (same jid primary) && is_direct jid

-- A direct unit, of its closure and its members
unfoldable pub direct_unit :
    List ChatRow → List StoredMessage → List String → List String → ChatUnit
unfolding add_members sort_by chat_type_from_server_suffix bytes
direct_unit chats messages closure members =
    let u = add_members chats messages members empty_unit in
    record u {
      members = sort_by (primary_first u.primary) u.members;
      alias_jids = sort_by jid_less (where_rows (is_alias_of u.primary) closure);
    }

-- A unit of one chat that is not direct
abbrev pub lone_unit : List StoredMessage → ChatRow → ChatUnit
lone_unit messages c = record {
  members = c.jid ∷ [];
  alias_jids = [];
  primary = c.jid;
  chat_type = c.chat_type;
  display = [];
  phone = [];
  participants_count = c.participants_count;
  last_message_ts = c.last_message_time;
  msg_count = message_count messages c.jid;
}

abbrev pub one_member :
    List ChatRow → List StoredMessage → List String → String → Option ChatRow → ChatUnit
one_member chats messages closure jid none = direct_unit chats messages closure (jid ∷ [])
one_member chats messages closure jid (some c) =
    if same c.chat_type "direct"
    then direct_unit chats messages closure (jid ∷ [])
    else lone_unit messages c

abbrev pub unit_of_members :
    List ChatRow → List StoredMessage → List String → List String → Option ChatUnit
unit_of_members chats messages closure [] = none
unit_of_members chats messages closure (x ∷ []) =
    some (one_member chats messages closure x (chat_at x chats))
unit_of_members chats messages closure (x ∷ y ∷ members) =
    some (direct_unit chats messages closure (x ∷ y ∷ members))

-- The unit of a component, where a chat row is in it
unfoldable pub unit_of : List ChatRow → List StoredMessage → List String → Option ChatUnit
unfolding direct_unit sort_by chat_at bytes
unit_of chats messages component =
    let closure = sort_by jid_less component in
    unit_of_members chats messages closure (where_rows (is_chat chats) closure)

abbrev pub add_unit : Option ChatUnit → List ChatUnit → List ChatUnit
add_unit none us = us
add_unit (some u) us = u ∷ us

unfoldable pub units_of : List ChatRow → List StoredMessage → Components → List ChatUnit
unfolding unit_of
units_of chats messages [] = []
units_of chats messages ((r, c) ∷ cs) =
    add_unit (unit_of chats messages c) (units_of chats messages cs)

-- `units` before the filter
unfoldable pub chat_units : List ChatRow → List AliasRow → List StoredMessage → List ChatUnit
unfolding closures units_of
chat_units chats edges messages = units_of chats messages (closures chats edges)

-- The eligibility filter
unfoldable pub is_eligible : Bool → ℕ → ChatUnit → Bool
is_eligible include_groups min_messages u =
    (include_groups || same u.chat_type "direct") && leb min_messages u.msg_count

unfoldable pub eligible_units :
    Bool → ℕ → List ChatRow → List AliasRow → List StoredMessage → List ChatUnit
unfolding chat_units is_eligible
eligible_units include_groups min_messages chats edges messages =
    where_rows (is_eligible include_groups min_messages) (chat_units chats edges messages)
