-- ===== src/Vault/Export/Spared.antt =====
-- The files that `ExportVault` (whatsapp-bridge/export_vault.go) leaves alone.
use whatsapp_mcp_plugin.Prelude.{
  ℕ, String, ◌≡◌, refl, ap, sym, ◌∙◌, subst, inl, inr, true, false, ◌&&◌, ◌||◌, not, ◌==◌, some,
  List, [], ◌∷◌, map, any, all, any-append, Bool-cases, arith,
}
use whatsapp_mcp_plugin.Bytes.{Text, bytes, equal, is_blank}
use whatsapp_mcp_plugin.Bytes.Equal.{equal→eq}
use whatsapp_mcp_plugin.Archive.{StoredMessage, Archive}
use whatsapp_mcp_plugin.Vault.{Unicode, times}
use whatsapp_mcp_plugin.Vault.Distinct.{Distinct}
use whatsapp_mcp_plugin.Vault.Units.{ChatUnit}
use whatsapp_mcp_plugin.Vault.Write.{
  Surroundings, WriteResult, wrote, unchanged, empty, export_one_unit,
}
use whatsapp_mcp_plugin.Vault.Plan.{
  ExportOptions, NamedUnit, BuildResult, built, collision, is_markdown, is_ours, members_of,
  planned_units, build_export_units,
}
use whatsapp_mcp_plugin.Vault.Plan.Spared.{is_spared}
use whatsapp_mcp_plugin.Vault.Plan.Complete.{filenames, units_in, build_export_units-IsBuilt}
use whatsapp_mcp_plugin.Vault.Plan.Kept.{build_export_units-IsNamed}
use whatsapp_mcp_plugin.Vault.Directory.{
  VaultFile, Write, Disk, find_at, find_file, scan_vault_entries, entry_of, went_through,
  not_opened, cut_short,
}
use whatsapp_mcp_plugin.Vault.Heal.{HealedUnit, heal_legacy_filenames}
use whatsapp_mcp_plugin.Vault.Export.{
  would_destroy, file_content, put_file, put_result, write_units, run_built, export_vault,
  files_after,
}
use whatsapp_mcp_plugin.Vault.Export.Found.{keys, find-own, find-write, find-entry}
use whatsapp_mcp_plugin.Vault.Export.Healed.{Stays, is_apart, heal_legacy_filenames-Stays}

-- The guard lets through only a name that resolves to another file.
module _ (disk : Disk) (name : Text) (v : VaultFile) (before : List VaultFile)
    (s : Stays disk (disk.alike name) v before) where
  guard-apart :
      (u : NamedUnit)
      → is_apart v u ≡ true
      → would_destroy before u (find_file disk u.filename before) ≡ false
      → equal (disk.alike u.filename) (disk.alike name) ≡ false
  guard-apart u apart passed = elim (Bool-cases (equal (disk.alike u.filename) (disk.alike name))) [
    | inr e ↦ e
    | inl e ↦
        let at : find_file disk u.filename before ≡ some v =
          subst (λ z. find_at disk.alike z before ≡ some v)
            (sym (equal→eq (disk.alike u.filename) (disk.alike name) e)) s.found in
        ground (
          arith,
          apart,
          ap (would_destroy before u) at,
          passed,
          find-own disk.alike u.filename before v s.distinct at,
        )
  ]

  put_file-found :
      (u : NamedUnit) (text : Text) (w : Write) (files : List VaultFile)
      → equal (disk.alike u.filename) (disk.alike name) ≡ false
      → find_file disk name files ≡ some v
      → find_file disk name ((put_file disk u.filename text w files).1) ≡ some v
  put_file-found u text went_through files far at =
      find-write disk.alike (disk.alike name) (disk.alike u.filename) u.filename text files v far
        refl at
  put_file-found u text not_opened files far at = at
  put_file-found u text (cut_short left) files far at =
      find-write disk.alike (disk.alike name) (disk.alike u.filename) u.filename left files v far
        refl at

  put_result-found :
      (u : NamedUnit) (r : WriteResult) (files : List VaultFile)
      → equal (disk.alike u.filename) (disk.alike name) ≡ false
      → find_file disk name files ≡ some v
      → find_file disk name ((put_result disk u.filename r files).1) ≡ some v
  put_result-found u unchanged files far at = at
  put_result-found u empty files far at = at
  put_result-found u (wrote text) files far at =
      put_file-found u text (disk.write u.filename) files far at

  write_units-found :
      (env : Surroundings) (stored : List StoredMessage) (hs : List HealedUnit)
      (files : List VaultFile)
      → all (λ (h : HealedUnit). is_apart v h.named) hs ≡ true
      → find_file disk name files ≡ some v
      → find_file disk name ((write_units env stored disk before hs files).1) ≡ some v
  unfolding write_units
  write_units-found env stored [] files apart at = at
  write_units-found env stored (h ∷ hs) files apart at =
      let u = h.named in
      let r =
        export_one_unit env stored h.force_rewrite u.unit
          (file_content (find_file disk u.filename files)) in
      let rest =
        λ (put : List VaultFile). write_units-found env stored hs put (ground (arith, apart)) in
      elim (Bool-cases (would_destroy before u (find_file disk u.filename before))) [
        | inl e ↦ rw e (rest files at)
        | inr e ↦ rw e (
            rest ((put_result disk u.filename r files).1)
              (put_result-found u r files (guard-apart u (ground (arith, apart)) e) at))
      ]

blank-equal : (z : Text) → equal [] z ≡ is_blank z
unfolding equal
blank-equal [] = refl
blank-equal (c ∷ z) = refl

stranger :
    (x : Text) (jids : List String)
    → (not (is_blank x) && any (λ j. equal x (bytes j)) jids) ≡ false
    → any (λ j. is_blank (bytes j)) jids ≡ false
    → any (λ j. equal x (bytes j)) jids ≡ false
stranger x [] other full = refl
stranger [] (j ∷ jids) other full =
    ground (arith, full, blank-equal (bytes j), stranger [] jids refl)
stranger (c ∷ x) (j ∷ jids) other full = ground (arith, other)

module _ (v : VaultFile) where
  apart-all :
      (fs : List NamedUnit)
      → any (λ j. equal v.jid (bytes j)) (members_of (units_in fs)) ≡ false
      → all is_markdown (filenames fs) ≡ true
      → (not (is_markdown v.name) || times v.name (filenames fs) == 0) ≡ true
      → all (is_apart v) fs ≡ true
  apart-all [] other md free = refl
  apart-all (f ∷ fs) other md free =
      let alike =
        λ (s : equal v.name f.filename ≡ true). ap is_markdown (equal→eq v.name f.filename s) in
      let split =
        any-append (λ j. equal v.jid (bytes j)) f.unit.members (members_of (units_in fs)) in
      ground (arith, alike, split, other, md, free, apart-all fs)

-- Where no two names of the directory are one file, and no chat with an empty JID is exported: a file
-- that is no chat file of the run's units, by the JID in its front matter, is afterwards as it was under
-- the name that it had, whichever names the file system takes for one, and whatever renames and writes
-- fail.
pub export_vault-spared :
    (unicode : Unicode) (env : Surroundings) (disk : Disk) (options : ExportOptions) (a : Archive)
    (dir : List (Text × Text)) (name : Text) (v : VaultFile)
    → Distinct (keys disk.alike (scan_vault_entries dir))
    → any (λ j. is_blank (bytes j)) (members_of (planned_units options a)) ≡ false
    → find_file disk name (scan_vault_entries dir) ≡ some v
    → is_ours (planned_units options a) (entry_of v) ≡ false
    → find_file disk name
        (files_after (scan_vault_entries dir) (export_vault unicode env disk options a dir))
      ≡ some v
unfolding export_vault
export_vault-spared unicode env disk options a dir name v distinct full at other =
    go (build_export_units unicode options (map entry_of files) a) refl
  where
    files : List VaultFile
    files = scan_vault_entries dir

    units : List ChatUnit
    units = planned_units options a

    apart :
        (fs : List NamedUnit) (total : ℕ)
        → build_export_units unicode options (map entry_of files) a ≡ built fs total
        → all (is_apart v) fs ≡ true
    apart fs total e =
        let is = build_export_units-IsNamed unicode options (map entry_of files) a fs total e in
        let safe =
          build_export_units-IsBuilt unicode options (map entry_of files) a fs total [] "" e in
        let free =
          find-entry disk.alike (is_spared units (λ n. times n (filenames fs))) (disk.alike name)
            files v at safe.spared in
        apart-all v fs
          (is.members (λ j. equal v.jid (bytes j)) ∙ stranger v.jid (members_of units) other full)
          is.markdown (ground (arith, other, free))

    go :
        (r : BuildResult)
        → build_export_units unicode options (map entry_of files) a ≡ r
        → find_file disk name (files_after files (run_built env a.messages disk files r)) ≡ some v
    go (collision p) e = at
    go (built fs total) e =
        let start : Stays disk (disk.alike name) v files = record {
          found = at;
          distinct = distinct;
        } in
        let (kept, still) =
          heal_legacy_filenames-Stays disk (disk.alike name) v fs files (apart fs total e) start in
        let (healed, renamed) = heal_legacy_filenames disk fs files in
        write_units-found disk name v renamed kept env a.messages healed renamed still kept.found
