-- ===== src/Vault/Export/Complete.antt =====
-- What the report of `ExportVault` (whatsapp-bridge/export_vault.go) means where no chat is dropped.
use whatsapp_mcp_plugin.Prelude.{
  ℕ, ◌+◌, ◌≡◌, refl, ap, sym, ◌∙◌, subst, Bool, true, false, ◌&&◌, ◌||◌, not, leb, List, [], ◌∷◌,
  map, any, all, length, length-map, where_rows, arith,
}
use whatsapp_mcp_plugin.Bytes.{Text, equal}
use whatsapp_mcp_plugin.Bytes.Equal.{equal_refl}
use whatsapp_mcp_plugin.Archive.{StoredMessage, Archive}
use whatsapp_mcp_plugin.Vault.{Unicode, times}
use whatsapp_mcp_plugin.Vault.Distinct.{Distinct}
use whatsapp_mcp_plugin.Vault.Write.{Surroundings, wrote, unchanged, empty, export_one_unit}
use whatsapp_mcp_plugin.Vault.Plan.{ExportOptions, NamedUnit, built, build_export_units}
use whatsapp_mcp_plugin.Vault.Directory.{VaultFile, Disk, find_file, scan_vault_entries, entry_of}
use whatsapp_mcp_plugin.Vault.Heal.{HealedUnit, heal_unit, heal_legacy_filenames}
use whatsapp_mcp_plugin.Vault.Sweep.{
  claims_file, is_on_disk, landed_units, is_missing, is_aliased, swept, ended_wrote, ended_empty,
  Report, reconcile_writes, failed, ended,
}
use whatsapp_mcp_plugin.Vault.Export.{
  file_content, write_unit, write_units, ExportRun, run_built, export_vault, files_after, runs_of,
  report_of,
}
use whatsapp_mcp_plugin.Vault.Export.Held.{
  Run, run_key, run_keys, is_run, is_held, write_units-held,
}

has_no_rows :
    (p : Run → Bool) (rs : List Run) → length (where_rows p rs) ≡ 0 → all (λ r. not (p r)) rs ≡ true
has_no_rows p [] e = refl
has_no_rows p (r ∷ rs) e = ground (arith, e, has_no_rows p rs)

fewer-times :
    (j : Text) (ks xs : List Text)
    → all (λ k. not (leb 2 (times k (j ∷ ks)))) xs ≡ true
    → all (λ k. not (leb 2 (times k ks))) xs ≡ true
fewer-times j ks [] h = refl
fewer-times j ks (x ∷ xs) h = ground (arith, h, fewer-times j ks xs)

absent-times : (k : Text) (ks : List Text) → times k ks ≡ 0 → any (equal k) ks ≡ false
absent-times k [] e = refl
absent-times k (j ∷ ks) e = ground (arith, e, absent-times k ks)

Distinct-times : (ks : List Text) → all (λ k. not (leb 2 (times k ks))) ks ≡ true → Distinct ks
Distinct-times [] h = tt
Distinct-times (k ∷ ks) h = (
  absent-times k ks (ground (arith, equal_refl k, h)),
  Distinct-times ks (fewer-times k ks ks (ground (arith, h))),
)

all-map :
    (disk : Disk) (p : Text → Bool) (rs : List Run)
    → all p (map (run_key disk) rs) ≡ all (λ r. p (run_key disk r)) rs
all-map disk p [] = refl
all-map disk p (r ∷ rs) = ap (λ b. p (run_key disk r) && b) (all-map disk p rs)

counted-all :
    (p : Run → Bool) (hits : List Text) (rs : List Run)
    → length hits ≡ 0
    → all (λ r. not (p r)) rs ≡ true
    → where_rows (λ r. not (p r || any (equal (r.0).filename) hits)) rs ≡ rs
counted-all p (t ∷ hits) rs e h = ground (arith, e)
counted-all p [] [] e h = refl
counted-all p [] (r ∷ rs) e h = ground (arith, h, counted-all p [] rs e)

-- One run that is not missing
module _ (disk : Disk) (after : List VaultFile) where
  found-run :
      (r : Run)
      → is_missing disk after r ≡ false
      → (is_run r ≡ true)
        × ((claims_file (r.1) && is_on_disk (find_file disk (r.0).filename after))
            ≡ claims_file (r.1))
  found-run (u, failed) h = ground (arith, h)
  found-run (u, ended empty) h = (refl, refl)
  found-run (u, ended unchanged) h = (refl, ground (arith, h))
  found-run (u, ended (wrote text)) h = (refl, ground (arith, h))

  all-run :
      (rs : List Run) → all (λ r. not (is_missing disk after r)) rs ≡ true → all is_run rs ≡ true
  all-run [] h = refl
  all-run (r ∷ rs) h =
      let here = (found-run r (ground (arith, h))).0 in ground (arith, here, h, all-run rs)

  landed-run :
      (rs : List Run)
      → all (λ r. not (is_missing disk after r)) rs ≡ true
      → landed_units disk after rs ≡ where_rows (λ r. claims_file (r.1)) rs
  unfolding landed_units
  landed-run [] h = refl
  landed-run (r ∷ rs) h =
      let here = (found-run r (ground (arith, h))).1 in ground (arith, here, h, landed-run rs)

  counted-run :
      (rs : List Run)
      → all is_run rs ≡ true
      → length (where_rows ended_wrote (where_rows (λ r. claims_file (r.1)) rs))
          + length (where_rows (λ r. not (ended_wrote r)) (where_rows (λ r. claims_file (r.1)) rs))
          + length (where_rows ended_empty rs)
        ≡ length rs
  counted-run [] h = refl
  counted-run ((u, failed) ∷ rs) h = ground (arith, h)
  counted-run ((u, ended empty) ∷ rs) h = omega (arith, counted-run rs h)
  counted-run ((u, ended unchanged) ∷ rs) h = omega (arith, counted-run rs h)
  counted-run ((u, ended (wrote text)) ∷ rs) h = omega (arith, counted-run rs h)

  -- What a report without a dropped chat says of the runs.
  record IsClean (rs : List Run) (report : Report) : Type 0 where
    clean_runs : all (λ r. not (is_missing disk after r)) rs ≡ true
    clean_keys : Distinct (run_keys disk rs)
    clean_counts : report.written + report.skipped_unchanged + report.skipped_empty ≡ length rs

  reconcile_writes-IsClean :
      (rs : List Run)
      → (reconcile_writes disk after rs).dropped ≡ 0
      → IsClean rs (reconcile_writes disk after rs)
  unfolding reconcile_writes
  reconcile_writes-IsClean rs none_dropped =
      let files = landed_units disk after rs in
      let hits = swept disk rs files after in
      let here = has_no_rows (is_missing disk after) rs (omega (arith, none_dropped)) in
      let alone = has_no_rows (is_aliased disk files) files (omega (arith, none_dropped)) in
      let at = landed-run rs here in
      let keep =
        counted-all (is_aliased disk files) hits files (omega (arith, none_dropped)) alone in
      record {
        clean_runs = here;
        clean_keys =
            subst (λ fs. Distinct (map (run_key disk) fs)) at
              (Distinct-times (map (run_key disk) files) (
                all-map disk (λ k. not (leb 2 (times k (map (run_key disk) files)))) files
                ∙ alone));
        clean_counts =
            subst
              (λ fs.
                length (where_rows ended_wrote fs)
                  + length (where_rows (λ r. not (ended_wrote r)) fs)
                  + length (where_rows ended_empty rs)
                ≡ length rs)
              (sym (keep ∙ at)) (counted-run rs (all-run rs here));
      }

module _ (disk : Disk) where
  healed-named :
      (us : List NamedUnit) (files : List VaultFile)
      → map (λ (h : HealedUnit). h.named) ((heal_legacy_filenames disk us files).0) ≡ us
  unfolding heal_legacy_filenames
  healed-named [] files = refl
  healed-named (u ∷ us) files =
      ap (λ vs. u ∷ vs)
        (healed-named us ((heal_unit disk u (find_file disk u.filename files) files).1))

  runs-named :
      (env : Surroundings) (stored : List StoredMessage) (before : List VaultFile)
      (hs : List HealedUnit) (files : List VaultFile)
      → map (λ (r : Run). r.0) ((write_units env stored disk before hs files).0)
        ≡ map (λ (h : HealedUnit). h.named) hs
  unfolding write_units
  runs-named env stored before [] files = refl
  runs-named env stored before (h ∷ hs) files =
      ap (λ vs. h.named ∷ vs)
        (runs-named env stored before hs (
          (write_unit disk before h.named
            (export_one_unit env stored h.force_rewrite h.named.unit
              (file_content (find_file disk h.named.filename files)))
            files).1))

-- What holds of the directory after an export of these units.
pub record IsComplete (disk : Disk) (us : List NamedUnit) (run : ExportRun) : Type 0 where
  pub every : map (λ (r : Run). r.0) (runs_of run) ≡ us
  pub held :
      all
        (λ (r : Run). is_held (r.1) (find_file disk (r.0).filename (files_after [] run)))
        (runs_of run)
      ≡ true
  pub counted :
      (report_of run).written + (report_of run).skipped_unchanged + (report_of run).skipped_empty
      ≡ length us

-- Where `buildExportUnits` names units and the export reports no dropped chat: there is an outcome for each
-- named unit, in their order; each is that the unit has nothing to write, or its name leads to a file
-- afterwards, and where a text was written for the unit, that is the content of the file. The three other
-- counts of the report add up to the number of units.
pub export_vault-IsComplete :
    (unicode : Unicode) (env : Surroundings) (disk : Disk) (options : ExportOptions) (a : Archive)
    (dir : List (Text × Text)) (us : List NamedUnit) (total : ℕ)
    → build_export_units unicode options (map entry_of (scan_vault_entries dir)) a ≡ built us total
    → (report_of (export_vault unicode env disk options a dir)).dropped ≡ 0
    → IsComplete disk us (export_vault unicode env disk options a dir)
unfolding export_vault
export_vault-IsComplete unicode env disk options a dir us total e none_dropped =
    rw e (of_units (rw e at none_dropped))
  where
    files : List VaultFile
    files = scan_vault_entries dir

    of_units :
        (report_of (run_built env a.messages disk files (built us total))).dropped ≡ 0
        → IsComplete disk us (run_built env a.messages disk files (built us total))
    of_units clear =
        let (healed, renamed) = heal_legacy_filenames disk us files in
        let (runs, after) = write_units env a.messages disk renamed healed renamed in
        let clean = reconcile_writes-IsClean disk after runs clear in
        let named =
          runs-named disk env a.messages renamed healed renamed ∙ healed-named disk us files in
        record {
          every = named;
          held =
              write_units-held env a.messages disk renamed healed renamed after refl
                (all-run disk after runs clean.clean_runs) clean.clean_runs clean.clean_keys;
          counted = clean.clean_counts ∙ sym (length-map (λ (r : Run). r.0) runs) ∙ ap length named;
        }
