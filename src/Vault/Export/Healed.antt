-- ===== src/Vault/Export/Healed.antt =====
-- `healLegacyFilenames` (whatsapp-bridge/export_vault.go) and a file that is no chat file of the units.
use whatsapp_mcp_plugin.Prelude.{
  String, ◌≡◌, refl, sym, subst, inl, inr, Bool, true, false, ◌&&◌, ◌||◌, not, none, some, List, [],
  ◌∷◌, any, all, if-cases, Option-cases, arith,
}
use whatsapp_mcp_plugin.Bytes.{Text, bytes, equal}
use whatsapp_mcp_plugin.Bytes.Equal.{equal_sym, equal→eq}
use whatsapp_mcp_plugin.Vault.Distinct.{Distinct}
use whatsapp_mcp_plugin.Vault.Plan.{NamedUnit}
use whatsapp_mcp_plugin.Vault.Directory.{VaultFile, Disk, find_at, find_file, has_member}
use whatsapp_mcp_plugin.Vault.Heal.{
  claims, claimed_by, rename_claimed, HealedUnit, heal_members, heal_unit, heal_legacy_filenames,
}
use whatsapp_mcp_plugin.Vault.Export.Found.{keys, find-absent}

module _ (disk : Disk) where
  find-rename :
      (key name : Text) (jid : String) (files : List VaultFile) (v : VaultFile)
      → find_at disk.alike key files ≡ some v
      → find_file disk name files ≡ none
      → claims jid v ≡ false
      → find_at disk.alike key (rename_claimed jid name files) ≡ some v
  unfolding find_at rename_claimed
  find-rename key name jid [] v e free other = ground (arith, e)
  find-rename key name jid (w ∷ ws) v e free other =
      let clash = λ (s : equal key (disk.alike name) ≡ true).
        subst (λ z. find_at disk.alike z (w ∷ ws) ≡ none) (sym (equal→eq key (disk.alike name) s))
          free in
      ground (arith, clash, e, free, other, find-rename key name jid ws v)

  absent-rename :
      (key name : Text) (jid : String) (files : List VaultFile)
      → any (equal key) (keys disk.alike files) ≡ false
      → equal key (disk.alike name) ≡ false
      → any (equal key) (keys disk.alike (rename_claimed jid name files)) ≡ false
  unfolding rename_claimed
  absent-rename key name jid [] new far = refl
  absent-rename key name jid (w ∷ ws) new far =
      ground (arith, new, far, absent-rename key name jid ws)

  Distinct-rename :
      (name : Text) (jid : String) (files : List VaultFile)
      → Distinct (keys disk.alike files)
      → find_file disk name files ≡ none
      → Distinct (keys disk.alike (rename_claimed jid name files))
  unfolding find_at rename_claimed
  Distinct-rename name jid [] d free = tt
  Distinct-rename name jid (w ∷ ws) (new, d) free =
      let far : find_at disk.alike (disk.alike name) ws ≡ none = ground (arith, free) in
      let apart : equal (disk.alike w.name) (disk.alike name) ≡ false =
        ground (arith, free, equal_sym (disk.alike w.name) (disk.alike name)) in
      if-cases (λ vs. Distinct (keys disk.alike vs)) (claims jid w) (record w { name = name } ∷ ws)
        (w ∷ rename_claimed jid name ws) (λ _. (find-absent disk.alike (disk.alike name) ws far, d))
        (λ _. (
          absent-rename (disk.alike w.name) name jid ws new apart,
          Distinct-rename name jid ws d far,
        ))

-- A file that a key finds in a directory where no two names are one file.
pub record Stays (disk : Disk) (key : Text) (v : VaultFile) (files : List VaultFile) : Type 0 where
  pub found : find_at disk.alike key files ≡ some v
  pub distinct : Distinct (keys disk.alike files)

-- A unit of which the file is no member's, and whose name is not the file's.
abbrev pub is_apart : VaultFile → NamedUnit → Bool
is_apart v u = not (equal v.name u.filename) && not (has_member u.unit v.jid)

module _ (disk : Disk) (key : Text) (v : VaultFile) where
  heal_members-Stays :
      (name : Text) (jids : List String) (files : List VaultFile)
      → find_file disk name files ≡ none
      → any (λ j. equal v.jid (bytes j)) jids ≡ false
      → Stays disk key v files
      → Stays disk key v ((heal_members disk name jids files).1)
  unfolding heal_members
  heal_members-Stays name [] files free other s = s
  heal_members-Stays name (jid ∷ jids) files free other s =
      let rest = heal_members-Stays name jids files free (ground (arith, other)) s in
      let renamed : Stays disk key v (rename_claimed jid name files) = record {
        found = find-rename disk key name jid files v s.found free (ground (arith, other));
        distinct = Distinct-rename disk name jid files s.distinct free;
      } in
      elim (Option-cases (claimed_by jid files)) [
        | inl e ↦ rw e rest
        | inr (w, e) ↦ rw e (
            if-cases (λ r. Stays disk key v (r.1))
              (equal w.name name || disk.rename_fails w.name name)
              (heal_members disk name jids files) (true, rename_claimed jid name files) (λ _. rest)
              (λ _. renamed))
      ]

  heal_unit-Stays :
      (u : NamedUnit) (files : List VaultFile)
      → is_apart v u ≡ true
      → Stays disk key v files
      → Stays disk key v ((heal_unit disk u (find_file disk u.filename files) files).1)
  heal_unit-Stays u files apart s = elim (Option-cases (find_file disk u.filename files)) [
    | inl e ↦ rw e (heal_members-Stays u.filename u.unit.members files e (ground (arith, apart)) s)
    | inr (w, e) ↦ rw e s
  ]

  -- The renames keep the file, and the names of the units.
  pub heal_legacy_filenames-Stays :
      (us : List NamedUnit) (files : List VaultFile)
      → all (is_apart v) us ≡ true
      → Stays disk key v files
      → Stays disk key v ((heal_legacy_filenames disk us files).1)
        × (all (λ (h : HealedUnit). is_apart v h.named) ((heal_legacy_filenames disk us files).0)
            ≡ true)
  unfolding heal_legacy_filenames
  heal_legacy_filenames-Stays [] files apart s = (s, refl)
  heal_legacy_filenames-Stays (u ∷ us) files apart s =
      let (here, rest) =
        heal_legacy_filenames-Stays us
          ((heal_unit disk u (find_file disk u.filename files) files).1) (ground (arith, apart))
          (heal_unit-Stays u files (ground (arith, apart)) s) in
      (here, ground (arith, apart, rest))
