-- ===== src/Vault/Sweep.antt =====
-- What `ExportVault` (whatsapp-bridge/export_vault.go) finds after the writes, and its report.
use whatsapp_mcp_plugin.Prelude.{
  ℕ, ◌+◌, Bool, true, false, ◌&&◌, ◌||◌, not, Option, none, some, List, [], ◌∷◌, ◌++◌, map, any,
  where_rows, length, leb, if◌then◌else◌,
}
use whatsapp_mcp_plugin.Bytes.{Text, bytes, equal, is_blank}
use whatsapp_mcp_plugin.Vault.{times}
use whatsapp_mcp_plugin.Vault.Write.{WriteResult, wrote, unchanged, empty}
use whatsapp_mcp_plugin.Vault.Plan.{NamedUnit}
use whatsapp_mcp_plugin.Vault.Directory.{VaultFile, Disk, same_file, find_at, find_file, has_member}

-- `errs[i]`, or `results[i]`
pub data UnitOutcome : Type 0 where
  failed : UnitOutcome
  ended : WriteResult → UnitOutcome

abbrev pub claims_file : UnitOutcome → Bool
claims_file (ended (wrote text)) = true
claims_file (ended unchanged) = true
claims_file _ = false

abbrev pub is_on_disk : Option VaultFile → Bool
is_on_disk none = false
is_on_disk (some v) = true

-- `files`: the units whose file exists
unfoldable pub landed_units :
    Disk → List VaultFile → List (NamedUnit × UnitOutcome) → List (NamedUnit × UnitOutcome)
unfolding find_at
landed_units disk after =
    where_rows (λ r. claims_file (r.1) && is_on_disk (find_file disk (r.0).filename after))

-- The units of `dropped` for themselves: an error, or a result without a file.
abbrev pub is_missing : Disk → List VaultFile → NamedUnit × UnitOutcome → Bool
is_missing disk after (u, failed) = true
is_missing disk after (u, ended empty) = false
is_missing disk after (u, ended r) = not (is_on_disk (find_file disk u.filename after))

-- A unit whose file is that of another
abbrev pub is_aliased : Disk → List (NamedUnit × UnitOutcome) → NamedUnit × UnitOutcome → Bool
is_aliased disk files r = leb 2 (
    times (disk.alike (r.0).filename)
      (map (λ (q : NamedUnit × UnitOutcome). disk.alike (q.0).filename) files))

-- The first unit whose file is that of the entry, where the entry was not its own.
abbrev pub written_through : Disk → VaultFile → List (NamedUnit × UnitOutcome) → List Text
written_through disk v [] = []
written_through disk v ((u, o) ∷ files) =
    let rest = written_through disk v files in
    let hit = if not (is_blank v.jid) && has_member u.unit v.jid then [] else u.filename ∷ [] in
    if same_file disk v.name u.filename then hit else rest

-- The sweep over the entries that are no unit's own name: the names of the units that destroyed one.
unfoldable pub swept :
    Disk
    → List (NamedUnit × UnitOutcome)
    → List (NamedUnit × UnitOutcome)
    → List VaultFile
    → List Text
unfolding equal bytes
swept disk runs files [] = []
swept disk runs files (v ∷ vs) =
    let rest = swept disk runs files vs in
    let here = written_through disk v files in
    if any (λ (r : NamedUnit × UnitOutcome). equal v.name (r.0).filename) runs
    then rest
    else here ++ rest

abbrev pub ended_wrote : NamedUnit × UnitOutcome → Bool
ended_wrote (u, ended (wrote text)) = true
ended_wrote _ = false

abbrev pub ended_empty : NamedUnit × UnitOutcome → Bool
ended_empty (u, ended empty) = true
ended_empty _ = false

-- The counts of the last line of the log; the export fails where `dropped` is not zero.
pub record Report : Type 0 where
  pub written : ℕ
  pub skipped_unchanged : ℕ
  pub skipped_empty : ℕ
  pub dropped : ℕ

-- Everything after the writes
unfoldable pub reconcile_writes : Disk → List VaultFile → List (NamedUnit × UnitOutcome) → Report
unfolding landed_units swept find_at equal
reconcile_writes disk after runs =
    let files = landed_units disk after runs in
    let hits = swept disk runs files after in
    let counted =
      where_rows (λ r. not (is_aliased disk files r || any (equal (r.0).filename) hits)) files in
    record {
      written = length (where_rows ended_wrote counted);
      skipped_unchanged = length (where_rows (λ r. not (ended_wrote r)) counted);
      skipped_empty = length (where_rows ended_empty runs);
      dropped =
          length (where_rows (is_missing disk after) runs)
          + length (where_rows (is_aliased disk files) files)
          + length hits;
    }
