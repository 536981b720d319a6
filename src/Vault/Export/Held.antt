-- ===== src/Vault/Export/Held.antt =====
-- The files that the runs of `exportOneUnit` leave where they do not fail and no two have one file
-- (`ExportVault`, whatsapp-bridge/export_vault.go).
use whatsapp_mcp_plugin.Prelude.{
  ◌≡◌, refl, ap, subst, inl, inr, Bool, true, false, not, Option, none, some, List, [], ◌∷◌, map,
  any, all, where_rows, if-cases, Option-cases, arith,
}
use whatsapp_mcp_plugin.Bytes.{Text, equal}
use whatsapp_mcp_plugin.Bytes.Equal.{equal_sym, equal_refl}
use whatsapp_mcp_plugin.Archive.{StoredMessage}
use whatsapp_mcp_plugin.Vault.Distinct.{Distinct}
use whatsapp_mcp_plugin.Vault.Write.{
  Surroundings, WriteResult, wrote, unchanged, empty, export_one_unit,
}
use whatsapp_mcp_plugin.Vault.Plan.{NamedUnit}
use whatsapp_mcp_plugin.Vault.Directory.{
  VaultFile, Write, Disk, find_at, find_file, write_at, went_through, not_opened, cut_short,
}
use whatsapp_mcp_plugin.Vault.Heal.{HealedUnit}
use whatsapp_mcp_plugin.Vault.Sweep.{
  UnitOutcome, claims_file, is_on_disk, is_missing, ended_wrote, failed, ended,
}
use whatsapp_mcp_plugin.Vault.Export.{
  would_destroy, file_content, put_file, put_result, write_unit, write_units,
}
use whatsapp_mcp_plugin.Vault.Export.Found.{find-write}

abbrev pub Run : Type 0
Run = NamedUnit × UnitOutcome

-- What the file of a unit holds, by the outcome.
abbrev pub is_held : UnitOutcome → Option VaultFile → Bool
is_held failed file = false
is_held (ended empty) file = true
is_held (ended r) none = false
is_held (ended unchanged) (some v) = true
is_held (ended (wrote text)) (some v) = equal v.content text

abbrev pub run_key : Disk → Run → Text
run_key disk r = disk.alike (r.0).filename

find-written :
    (alike : Text → Text) (name text : Text) (files : List VaultFile)
    → is_held
        (ended (wrote text))
        (find_at alike (alike name) (write_at alike (alike name) name text files))
      ≡ true
unfolding find_at write_at
find-written alike name text [] = ground (arith, equal_refl (alike name), equal_refl text)
find-written alike name text (v ∷ vs) =
    ground (arith, equal_refl text, find-written alike name text vs)

-- The keys of the units that have a file
abbrev pub run_keys : Disk → List Run → List Text
run_keys disk rs = map (run_key disk) (where_rows (λ r. claims_file (r.1)) rs)

abbrev pub is_run : Run → Bool
is_run (u, failed) = false
is_run _ = true

module _ (disk : Disk) where
  -- A run that does not fail, and a file that it has not the key of
  abbrev Leaves : Text → VaultFile → NamedUnit → UnitOutcome × List VaultFile → Type 0
  Leaves key v u (o, files) =
      is_run (u, o) ≡ true
      → any (equal key) (run_keys disk ((u, o) ∷ [])) ≡ false
      → find_at disk.alike key files ≡ some v

  put_file-Leaves :
      (key : Text) (v : VaultFile) (u : NamedUnit) (text : Text) (w : Write)
      (files : List VaultFile)
      → find_at disk.alike key files ≡ some v
      → Leaves key v u (put_file disk u.filename text w files)
  put_file-Leaves key v u text went_through files at ran far =
      find-write disk.alike key (disk.alike u.filename) u.filename text files v
        (ground (arith, far, equal_sym (disk.alike u.filename) key)) refl at
  put_file-Leaves key v u text not_opened files at ran far = at
  put_file-Leaves key v u text (cut_short left) files at ran far = ground (arith, ran)

  put_result-Leaves :
      (key : Text) (v : VaultFile) (u : NamedUnit) (r : WriteResult) (files : List VaultFile)
      → find_at disk.alike key files ≡ some v
      → Leaves key v u (put_result disk u.filename r files)
  put_result-Leaves key v u (wrote text) files at ran far =
      put_file-Leaves key v u text (disk.write u.filename) files at ran far
  put_result-Leaves key v u unchanged files at ran far = at
  put_result-Leaves key v u empty files at ran far = at

  write_unit-Leaves :
      (key : Text) (v : VaultFile) (before : List VaultFile) (u : NamedUnit) (r : WriteResult)
      (files : List VaultFile)
      → find_at disk.alike key files ≡ some v
      → Leaves key v u (write_unit disk before u r files)
  write_unit-Leaves key v before u r files at =
      if-cases (Leaves key v u) (would_destroy before u (find_file disk u.filename before))
        (failed, files) (put_result disk u.filename r files) (λ _ ran far. ground (arith, ran))
        (λ _. put_result-Leaves key v u r files at)

  -- A run that writes holds its text.
  abbrev Writes : NamedUnit → UnitOutcome × List VaultFile → Type 0
  Writes u (o, files) =
      ended_wrote (u, o) ≡ true → is_held o (find_file disk u.filename files) ≡ true

  put_file-Writes :
      (u : NamedUnit) (text : Text) (w : Write) (files : List VaultFile)
      → Writes u (put_file disk u.filename text w files)
  put_file-Writes u text went_through files h = find-written disk.alike u.filename text files
  put_file-Writes u text not_opened files h = ground (arith, h)
  put_file-Writes u text (cut_short left) files h = ground (arith, h)

  write_unit-Writes :
      (before : List VaultFile) (u : NamedUnit) (r : WriteResult) (files : List VaultFile)
      → Writes u (write_unit disk before u r files)
  write_unit-Writes before u r files =
      if-cases (Writes u) (would_destroy before u (find_file disk u.filename before))
        (failed, files) (put_result disk u.filename r files) (λ _ h. ground (arith, h))
        (λ _. of_result r)
    where
      of_result : (r : WriteResult) → Writes u (put_result disk u.filename r files)
      of_result (wrote text) h = put_file-Writes u text (disk.write u.filename) files h
      of_result unchanged h = ground (arith, h)
      of_result empty h = ground (arith, h)

  -- What a run leaves is held afterwards, where the file stays as it is and the sweep finds it.
  held-after :
      (u : NamedUnit) (o : UnitOutcome) (put after : List VaultFile)
      → is_missing disk after (u, o) ≡ false
      → Writes u (o, put)
      → (claims_file o ≡ true
          → (v : VaultFile) → find_file disk u.filename put ≡ some v
          → find_file disk u.filename after ≡ some v)
      → is_held o (find_file disk u.filename after) ≡ true
  held-after u failed put after here wr keep = ground (arith, here)
  held-after u (ended empty) put after here wr keep = refl
  held-after u (ended unchanged) put after here wr keep =
      elim (Option-cases (find_file disk u.filename after)) [
        | inl e ↦ ground (arith, ap is_on_disk e, here)
        | inr (v, e) ↦ rw e refl
      ]
  held-after u (ended (wrote text)) put after here wr keep =
      elim (Option-cases (find_file disk u.filename put)) [
        | inl e ↦ ground (arith, ap (is_held (ended (wrote text))) e, wr refl)
        | inr (v, e) ↦
            rw (keep refl v e) (ground (arith, ap (is_held (ended (wrote text))) e, wr refl))
      ]

  Distinct-run :
      (u : NamedUnit) (o : UnitOutcome) (rs : List Run)
      → Distinct (run_keys disk ((u, o) ∷ rs))
      → (claims_file o ≡ true → any (equal (disk.alike u.filename)) (run_keys disk rs) ≡ false)
        × Distinct (run_keys disk rs)
  Distinct-run u failed rs d = ((λ h. ground (arith, h)), d)
  Distinct-run u (ended empty) rs d = ((λ h. ground (arith, h)), d)
  Distinct-run u (ended unchanged) rs (new, d) = ((λ h. new), d)
  Distinct-run u (ended (wrote text)) rs (new, d) = ((λ h. new), d)

module _ (env : Surroundings) (stored : List StoredMessage) (disk : Disk)
    (before : List VaultFile) where
  abbrev unit_result : HealedUnit → List VaultFile → WriteResult
  unit_result h files =
      export_one_unit env stored h.force_rewrite h.named.unit
        (file_content (find_file disk h.named.filename files))

  write_units-other :
      (key : Text) (v : VaultFile) (hs : List HealedUnit) (files : List VaultFile)
      → all is_run ((write_units env stored disk before hs files).0) ≡ true
      → any (equal key) (run_keys disk ((write_units env stored disk before hs files).0)) ≡ false
      → find_at disk.alike key files ≡ some v
      → find_at disk.alike key ((write_units env stored disk before hs files).1) ≡ some v
  unfolding write_units
  write_units-other key v [] files ran far at = at
  write_units-other key v (h ∷ hs) files ran far at =
      let put = write_unit disk before h.named (unit_result h files) files in
      let here : find_at disk.alike key (put.1) ≡ some v =
        write_unit-Leaves disk key v before h.named (unit_result h files) files at
          (ground (arith, ran)) (ground (arith, far)) in
      write_units-other key v hs (put.1) (ground (arith, ran)) (ground (arith, far)) here

  -- Where no run fails and no two have one key, each file holds what its run left.
  pub write_units-held :
      (hs : List HealedUnit) (files : List VaultFile) (after : List VaultFile)
      → (write_units env stored disk before hs files).1 ≡ after
      → all is_run ((write_units env stored disk before hs files).0) ≡ true
      → all (λ r. not (is_missing disk after r)) ((write_units env stored disk before hs files).0)
        ≡ true
      → Distinct (run_keys disk ((write_units env stored disk before hs files).0))
      → all
          (λ r. is_held (r.1) (find_file disk (r.0).filename after))
          ((write_units env stored disk before hs files).0)
        ≡ true
  unfolding write_units
  write_units-held [] files after end ran here d = refl
  write_units-held (h ∷ hs) files after end ran here d =
      let u = h.named in
      let put = write_unit disk before u (unit_result h files) files in
      let (new, rest) =
        Distinct-run disk u (put.0) ((write_units env stored disk before hs (put.1)).0) d in
      let keep =
        λ (c : claims_file (put.0) ≡ true) (v : VaultFile)
            (e : find_file disk u.filename (put.1) ≡ some v).
          subst (λ z. find_file disk u.filename z ≡ some v) end
            (write_units-other (disk.alike u.filename) v hs (put.1) (ground (arith, ran)) (new c)
              e) in
      ground (
        arith,
        held-after disk u (put.0) (put.1) after (ground (arith, here))
            (write_unit-Writes disk before u (unit_result h files) files) keep,
        write_units-held hs (put.1) after end (ground (arith, ran)) (ground (arith, here)) rest,
      )
