-- ===== src/Vault/Directory.antt =====
-- The directory of an export (whatsapp-bridge/export_vault.go): files that can be listed and read, with the
-- entries of the scan. The file system is a parameter: which names it takes for one file, and which of its
-- calls fail.
use whatsapp_mcp_plugin.Prelude.{Bool, ◌&&◌, Option, none, some, List, [], ◌∷◌, any, if◌then◌else◌}
use whatsapp_mcp_plugin.Bytes.{Text, bytes, equal}
use whatsapp_mcp_plugin.Vault.Units.{ChatUnit}
use whatsapp_mcp_plugin.Vault.File.{ChatFileIdentity, read_chat_file_identity}
use whatsapp_mcp_plugin.Vault.Plan.{VaultEntry, is_markdown}

-- A file of the directory, with the JID that the scan gives its entry. It stands for the inode: a rename
-- and a write keep its place.
pub record VaultFile : Type 0 where
  pub name : Text
  pub jid : Text
  pub content : Text

-- How `os.WriteFile` ends; where it is cut short, with what it leaves in the file.
pub data Write : Type 0 where
  went_through : Write
  not_opened : Write
  cut_short : Text → Write

-- Names are one file when `alike` gives them one key.
pub record Disk : Type 0 where
  pub alike : Text → Text
  pub rename_fails : Text → Text → Bool
  pub write : Text → Write

abbrev pub same_file : Disk → Text → Text → Bool
same_file disk a b = equal (disk.alike a) (disk.alike b)

-- The file with a key, and what a name resolves to.
unfoldable pub find_at : (Text → Text) → Text → List VaultFile → Option VaultFile
unfolding equal
find_at alike key [] = none
find_at alike key (v ∷ vs) =
    let rest = find_at alike key vs in if equal key (alike v.name) then some v else rest

abbrev pub find_file : Disk → Text → List VaultFile → Option VaultFile
find_file disk name = find_at disk.alike (disk.alike name)

-- `os.WriteFile`: the file of that key has the text then, or a new one of that name.
unfoldable pub write_at : (Text → Text) → Text → Text → Text → List VaultFile → List VaultFile
unfolding equal
write_at alike key name text [] = record { name = name; jid = []; content = text } ∷ []
write_at alike key name text (v ∷ vs) =
    let rest = v ∷ write_at alike key name text vs in
    if equal key (alike v.name) then record v { content = text } ∷ vs else rest

abbrev pub write_file : Disk → Text → Text → List VaultFile → List VaultFile
write_file disk name = write_at disk.alike (disk.alike name) name

abbrev pub owner_of : Text → ChatFileIdentity → Text
owner_of name id =
    if is_markdown name && equal id.file_type (bytes "whatsapp-chat") then id.jid else []

-- `scanVaultEntries`
unfoldable pub scan_vault_entries : List (Text × Text) → List VaultFile
unfolding is_markdown read_chat_file_identity equal bytes
scan_vault_entries [] = []
scan_vault_entries ((name, content) ∷ dir) =
    record {
      name = name;
      jid = owner_of name (read_chat_file_identity (some content));
      content = content;
    }
    ∷ scan_vault_entries dir

abbrev pub entry_of : VaultFile → VaultEntry
entry_of v = record { name = v.name; jid = v.jid }

abbrev pub has_member : ChatUnit → Text → Bool
has_member u jid = any (λ j. equal jid (bytes j)) u.members
