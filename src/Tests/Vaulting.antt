-- ===== src/Tests/Vaulting.antt =====
-- An export into a directory with a note of the user's, a chat file under an old name, and a file whose
-- name the file system takes for that of a unit.
use whatsapp_mcp_plugin.Prelude.{ℕ, ◌≡◌, refl, false, some, List, [], ◌∷◌, map, ◌==◌, if◌then◌else◌}
use whatsapp_mcp_plugin.Bytes.{Text, bytes, to_lower}
use whatsapp_mcp_plugin.Vault.Write.{Surroundings}
use whatsapp_mcp_plugin.Vault.Plan.{NamedUnit, build_export_units}
use whatsapp_mcp_plugin.Vault.Plan.Complete.{files_of}
use whatsapp_mcp_plugin.Vault.Directory.{
  VaultFile, Disk, find_file, scan_vault_entries, entry_of, went_through,
}
use whatsapp_mcp_plugin.Vault.Export.{ExportRun, export_vault, files_after, report_of}
use whatsapp_mcp_plugin.Vault.Export.Spared.{export_vault-spared}
use whatsapp_mcp_plugin.Vault.Export.Complete.{IsComplete, export_vault-IsComplete}
use whatsapp_mcp_plugin.Tests.Merging.{ascii, archive, everything}

abbrev env : Surroundings
env = record {
  date_of = λ ts. bytes "1970-01-01";
  clock_of = λ ts. bytes "01:23 AM";
  today = bytes "2026-01-01";
  transcript_of = λ id. [];
}

-- A file system that takes a square bracket for a round one, besides the cases.
abbrev round : ℕ → ℕ
round c = if c == b'[' then b'(' else if c == b']' then b')' else c

abbrev disk : Disk
disk = record {
  alike = λ name. map round (to_lower name);
  rename_fails = λ old new. false;
  write = λ name. went_through;
}

abbrev own_files : List (Text × Text)
own_files =
    (bytes "Ada.md", bytes "a note")
    ∷ (bytes "7.md", bytes "---\ntype: whatsapp-chat\njid: \"7@lid\"\n---\nold")
    ∷ []

abbrev bracketed : Text × Text
bracketed = (bytes "Ada [Group].md", bytes "about us")

abbrev run : ExportRun
run = export_vault ascii env disk everything archive own_files

names_run :
    map (λ (v : VaultFile). v.name) (files_after [] run)
    ≡ bytes "Ada.md" ∷ bytes "Ada (+49170).md" ∷ bytes "Ada (group).md" ∷ []
unfolding export_vault bytes
names_run = refl

report_run :
    report_of run ≡ record { written = 2; skipped_unchanged = 0; skipped_empty = 0; dropped = 0 }
unfolding export_vault bytes
report_run = refl

abbrev units : List NamedUnit
units =
    files_of
      (build_export_units ascii everything (map entry_of (scan_vault_entries own_files)) archive)

export_vault-IsComplete_example : IsComplete disk units run
unfolding export_vault bytes
export_vault-IsComplete_example =
    export_vault-IsComplete ascii env disk everything archive own_files units 3 refl refl

-- The unit whose write would go through the user's file is dropped.
guarded_run :
    report_of (export_vault ascii env disk everything archive (bracketed ∷ own_files))
    ≡ record { written = 1; skipped_unchanged = 0; skipped_empty = 0; dropped = 1 }
unfolding export_vault bytes
guarded_run = refl

abbrev kept : VaultFile
kept = record { name = bytes "Ada [Group].md"; jid = []; content = bytes "about us" }

export_vault-spared_example :
    find_file disk (bytes "Ada [Group].md") (
      files_after
        (scan_vault_entries (bracketed ∷ own_files))
        (export_vault ascii env disk everything archive (bracketed ∷ own_files)))
    ≡ some kept
unfolding export_vault bytes
export_vault-spared_example =
    export_vault-spared ascii env disk everything archive (bracketed ∷ own_files)
      (bytes "Ada [Group].md") kept (refl, (refl, (refl, tt))) refl refl refl
