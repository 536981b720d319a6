-- ===== src/Vault/Plan.antt =====
-- `buildExportUnits` (whatsapp-bridge/export_vault.go) as a whole: the files of the directory that a run
-- does not manage, and the names that its units get.
pub mod Spared
pub mod Complete
pub mod Kept
use whatsapp_mcp_plugin.Sorting.{sort_by, text_less}
use whatsapp_mcp_plugin.Prelude.{
  ℕ, ◌-◌, String, Bool, true, false, ◌&&◌, ◌||◌, not, Option, none, some, List, [], ◌∷◌, ◌++◌, map,
  any, take, drop, length, ltb, same, if◌then◌else◌,
}
use whatsapp_mcp_plugin.Bytes.{is_blank, Text, bytes, equal, to_lower}
use whatsapp_mcp_plugin.Archive.{ChatRow, StoredMessage, StoredContact, AliasRow, Archive}
use whatsapp_mcp_plugin.Vault.{
  Unicode, ExportUnit, Planned, PlanResult, named, refused, fold_key, unit_name, plan_filenames,
}
use whatsapp_mcp_plugin.Vault.Units.{ChatUnit, eligible_units}
use whatsapp_mcp_plugin.Vault.Identity.{resolve_unit_identities}

-- `vaultEntry`: a file of the directory, with the JID of the chat file that it is
pub record VaultEntry : Type 0 where
  pub name : Text
  pub jid : Text

-- The options of `ExportVault`.
pub record ExportOptions : Type 0 where
  pub include_groups : Bool
  pub min_messages : ℕ

abbrev pub members_of : List ChatUnit → List String
members_of [] = []
members_of (u ∷ us) = u.members ++ members_of us

unfoldable pub is_markdown : Text → Bool
unfolding to_lower equal bytes
is_markdown name =
    not (ltb (length name) 3) && equal (to_lower (drop (length name - 3) name)) (bytes ".md")

-- An entry that this run manages, or whose name it cannot take.
abbrev pub is_ours : List ChatUnit → VaultEntry → Bool
is_ours units e = not (is_blank e.jid) && any (λ jid. equal e.jid (bytes jid)) (members_of units)

-- The keys of `taken`
unfoldable pub obstacles : Unicode → List ChatUnit → List VaultEntry → List Text
unfolding is_markdown fold_key
obstacles unicode units [] = []
obstacles unicode units (e ∷ entries) =
    let rest = obstacles unicode units entries in
    if not (is_markdown e.name)
    then rest
    else if is_ours units e
    then rest
    else fold_key unicode (take (length e.name - 3) e.name) ∷ rest

abbrev pub naming : ChatUnit → ExportUnit
naming u = record {
  primary = bytes u.primary;
  chat_type = bytes u.chat_type;
  display = u.display;
  phone = u.phone;
}

-- A unit with its `filename`
pub record NamedUnit : Type 0 where
  pub unit : ChatUnit
  pub filename : Text

abbrev pub named_units : Unicode → List ChatUnit → List Planned → List NamedUnit
named_units unicode [] ps = []
named_units unicode (u ∷ us) [] = []
named_units unicode (u ∷ us) (p ∷ ps) =
    record { unit = u; filename = unit_name unicode p.unit p.level ++ bytes ".md" }
    ∷ named_units unicode us ps

abbrev pub by_filename : NamedUnit → NamedUnit → Bool
by_filename a b = text_less a.filename b.filename

-- The units and the number of chat rows, or the unit whose name is taken.
pub data BuildResult : Type 0 where
  built : List NamedUnit → ℕ → BuildResult
  collision : Planned → BuildResult

abbrev pub build_result : Unicode → ℕ → List ChatUnit → PlanResult → BuildResult
build_result unicode total units (named ps) =
    built (sort_by by_filename (named_units unicode units ps)) total
build_result unicode total units (refused p) = collision p

-- The units before they are named
unfoldable pub planned_units : ExportOptions → Archive → List ChatUnit
unfolding eligible_units resolve_unit_identities
planned_units options a =
    resolve_unit_identities a.chats a.contacts
      (eligible_units options.include_groups options.min_messages a.chats a.aliases a.messages)

-- `buildExportUnits`, of queries that go through
unfoldable pub build_export_units :
    Unicode → ExportOptions → List VaultEntry → Archive → BuildResult
unfolding planned_units obstacles plan_filenames sort_by
build_export_units unicode options entries a =
    let units = planned_units options a in
    build_result unicode (length a.chats) units
      (plan_filenames unicode (obstacles unicode units entries) (map naming units))
