-- ===== src/Vault/Heal.antt =====
-- `healLegacyFilenames` (whatsapp-bridge/export_vault.go).
use whatsapp_mcp_plugin.Prelude.{
  String, Bool, true, false, ◌&&◌, ◌||◌, not, Option, none, some, List, [], ◌∷◌, if◌then◌else◌,
}
use whatsapp_mcp_plugin.Bytes.{Text, bytes, equal, is_blank}
use whatsapp_mcp_plugin.Vault.Plan.{NamedUnit}
use whatsapp_mcp_plugin.Vault.Directory.{VaultFile, Disk, find_at, find_file}

-- `claimedBy`: the first file that is the chat file of the JID.
abbrev pub claims : String → VaultFile → Bool
claims jid v = not (is_blank v.jid) && equal v.jid (bytes jid)

unfoldable pub claimed_by : String → List VaultFile → Option VaultFile
unfolding equal bytes
claimed_by jid [] = none
claimed_by jid (v ∷ vs) = let rest = claimed_by jid vs in if claims jid v then some v else rest

-- `os.Rename` of that file to a name that no file has
unfoldable pub rename_claimed : String → Text → List VaultFile → List VaultFile
unfolding equal bytes
rename_claimed jid name [] = []
rename_claimed jid name (v ∷ vs) =
    let rest = v ∷ rename_claimed jid name vs in
    if claims jid v then record v { name = name } ∷ vs else rest

-- A unit with `forceRewrite`
pub record HealedUnit : Type 0 where
  pub named : NamedUnit
  pub force_rewrite : Bool

abbrev pub heal_claimed :
    Disk
    → Text
    → String
    → Option VaultFile
    → List VaultFile
    → Bool × List VaultFile
    → Bool × List VaultFile
heal_claimed disk name jid none files rest = rest
heal_claimed disk name jid (some v) files rest =
    if equal v.name name || disk.rename_fails v.name name
    then rest
    else (true, rename_claimed jid name files)

unfoldable pub heal_members : Disk → Text → List String → List VaultFile → Bool × List VaultFile
unfolding claimed_by rename_claimed equal
heal_members disk name [] files = (false, files)
heal_members disk name (jid ∷ jids) files =
    heal_claimed disk name jid (claimed_by jid files) files (heal_members disk name jids files)

abbrev pub heal_unit : Disk → NamedUnit → Option VaultFile → List VaultFile → Bool × List VaultFile
heal_unit disk u (some v) files = (false, files)
heal_unit disk u none files = heal_members disk u.filename u.unit.members files

-- `healLegacyFilenames`
unfoldable pub heal_legacy_filenames :
    Disk → List NamedUnit → List VaultFile → List HealedUnit × List VaultFile
unfolding find_at heal_members
heal_legacy_filenames disk [] files = ([], files)
heal_legacy_filenames disk (u ∷ us) files =
    let (forced, renamed) = heal_unit disk u (find_file disk u.filename files) files in
    let (healed, after) = heal_legacy_filenames disk us renamed in
    (record { named = u; force_rewrite = forced } ∷ healed, after)
