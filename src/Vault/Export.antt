-- ===== src/Vault/Export.antt =====
-- `ExportVault` (whatsapp-bridge/export_vault.go) as a whole: the scan, the renames, the guard before the
-- writes, the writes in the order of the units, and the sweeps after them.
pub mod Found
pub mod Healed
pub mod Spared
pub mod Held
pub mod Complete
use whatsapp_mcp_plugin.Prelude.{
  ℕ, ◌+◌, String, Bool, true, false, ◌&&◌, ◌||◌, not, Option, none, some, List, [], ◌∷◌, ◌++◌, map,
  any, where_rows, length, leb, if◌then◌else◌,
}
use whatsapp_mcp_plugin.Bytes.{Text, bytes, equal, is_blank}
use whatsapp_mcp_plugin.Archive.{StoredMessage, Archive}
use whatsapp_mcp_plugin.Vault.{Unicode, Planned, times}
use whatsapp_mcp_plugin.Vault.Units.{ChatUnit}
use whatsapp_mcp_plugin.Vault.File.{ChatFileIdentity, read_chat_file_identity}
use whatsapp_mcp_plugin.Vault.Write.{
  Surroundings, WriteResult, wrote, unchanged, empty, export_one_unit,
}
use whatsapp_mcp_plugin.Vault.Plan.{
  VaultEntry, ExportOptions, NamedUnit, BuildResult, built, collision, is_markdown,
  build_export_units,
}
use whatsapp_mcp_plugin.Vault.Directory.{
  VaultFile, Write, Disk, find_at, find_file, write_at, write_file, scan_vault_entries, entry_of,
  has_member, went_through, not_opened, cut_short,
}
use whatsapp_mcp_plugin.Vault.Heal.{HealedUnit, heal_legacy_filenames}
use whatsapp_mcp_plugin.Vault.Sweep.{UnitOutcome, Report, reconcile_writes, failed, ended}

abbrev pub has_entry : Text → List VaultFile → Bool
has_entry name files = any (λ (v : VaultFile). equal v.name name) files

-- The guard before the writes, with what the name resolves to.
abbrev pub would_destroy : List VaultFile → NamedUnit → Option VaultFile → Bool
would_destroy files u none = false
would_destroy files u (some v) = not (has_entry u.filename files) && not (has_member u.unit v.jid)

abbrev pub file_content : Option VaultFile → Option Text
file_content none = none
file_content (some v) = some v.content

abbrev pub put_file : Disk → Text → Text → Write → List VaultFile → UnitOutcome × List VaultFile
put_file disk name text went_through files = (ended (wrote text), write_file disk name text files)
put_file disk name text not_opened files = (failed, files)
put_file disk name text (cut_short left) files = (failed, write_file disk name left files)

abbrev pub put_result : Disk → Text → WriteResult → List VaultFile → UnitOutcome × List VaultFile
put_result disk name (wrote text) files = put_file disk name text (disk.write name) files
put_result disk name unchanged files = (ended unchanged, files)
put_result disk name empty files = (ended empty, files)

-- `exportOneUnit` where the guard lets the unit through
abbrev pub write_unit :
    Disk → List VaultFile → NamedUnit → WriteResult → List VaultFile → UnitOutcome × List VaultFile
write_unit disk before u result files =
    if would_destroy before u (find_file disk u.filename before)
    then (failed, files)
    else put_result disk u.filename result files

-- The writes, one unit after another; `before` is the directory that the guard has seen.
unfoldable pub write_units :
    Surroundings
    → List StoredMessage
    → Disk
    → List VaultFile
    → List HealedUnit
    → List VaultFile
    → List (NamedUnit × UnitOutcome) × List VaultFile
unfolding export_one_unit find_at write_at equal bytes
write_units env stored disk before [] files = ([], files)
write_units env stored disk before (h ∷ hs) files =
    let u = h.named in
    let result =
      export_one_unit env stored h.force_rewrite u.unit
        (file_content (find_file disk u.filename files)) in
    let (outcome, put) = write_unit disk before u result files in
    let (runs, after) = write_units env stored disk before hs put in ((u, outcome) ∷ runs, after)

-- The error of `buildExportUnits`, or the report and the directory.
pub data ExportRun : Type 0 where
  not_planned : Planned → ExportRun
  exported : Report → List (NamedUnit × UnitOutcome) → List VaultFile → ExportRun

abbrev pub run_built :
    Surroundings → List StoredMessage → Disk → List VaultFile → BuildResult → ExportRun
run_built env stored disk files (collision p) = not_planned p
run_built env stored disk files (built us total) =
    let (healed, renamed) = heal_legacy_filenames disk us files in
    let (runs, after) = write_units env stored disk renamed healed renamed in
    exported (reconcile_writes disk after runs) runs after

-- `ExportVault`
unfoldable pub export_vault :
    Unicode → Surroundings → Disk → ExportOptions → Archive → List (Text × Text) → ExportRun
unfolding scan_vault_entries build_export_units heal_legacy_filenames write_units reconcile_writes
export_vault unicode env disk options a dir =
    let files = scan_vault_entries dir in
    run_built env a.messages disk files (build_export_units unicode options (map entry_of files) a)

-- The directory after an export; where nothing was planned, it is as it was before.
abbrev pub files_after : List VaultFile → ExportRun → List VaultFile
files_after files (not_planned p) = files
files_after files (exported report runs after) = after

abbrev pub runs_of : ExportRun → List (NamedUnit × UnitOutcome)
runs_of (not_planned p) = []
runs_of (exported report runs after) = runs

abbrev pub report_of : ExportRun → Report
report_of (not_planned p) = record {
  written = 0;
  skipped_unchanged = 0;
  skipped_empty = 0;
  dropped = 0;
}
report_of (exported report runs after) = report
