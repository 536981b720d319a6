-- ===== src/Vault/Export/Found.antt =====
-- The files of a directory by their names (whatsapp-bridge/export_vault.go), where no two names are one file.
use whatsapp_mcp_plugin.Prelude.{
  ◌≡◌, refl, Bool, sym, subst, true, false, none, some, List, [], ◌∷◌, map, any, all, arith,
}
use whatsapp_mcp_plugin.Bytes.{Text, equal}
use whatsapp_mcp_plugin.Bytes.Equal.{equal_sym, equal→eq, equal_refl}
use whatsapp_mcp_plugin.Vault.Distinct.{Distinct}
use whatsapp_mcp_plugin.Vault.Plan.{VaultEntry}
use whatsapp_mcp_plugin.Vault.Directory.{VaultFile, find_at, write_at, entry_of}
use whatsapp_mcp_plugin.Vault.Export.{has_entry}

module _ (alike : Text → Text) where
  abbrev pub keys : List VaultFile → List Text
  keys = map (λ (v : VaultFile). alike v.name)

  pub find-absent :
      (key : Text) (files : List VaultFile)
      → find_at alike key files ≡ none
      → any (equal key) (keys files) ≡ false
  unfolding find_at
  find-absent key [] e = refl
  find-absent key (v ∷ vs) e = ground (arith, e, find-absent key vs)

  pub find-entry :
      (p : VaultEntry → Bool) (key : Text) (files : List VaultFile) (v : VaultFile)
      → find_at alike key files ≡ some v
      → all p (map entry_of files) ≡ true
      → p (entry_of v) ≡ true
  unfolding find_at
  find-entry p key [] v e h = ground (arith, e)
  find-entry p key (w ∷ ws) v e h = ground (arith, e, h, find-entry p key ws v)

  same-key : (a b : Text) → equal a b ≡ true → equal (alike b) (alike a) ≡ true
  same-key a b s =
      subst (λ z. equal (alike b) (alike z) ≡ true) (sym (equal→eq a b s)) (equal_refl (alike b))

  entry-key :
      (name : Text) (files : List VaultFile)
      → has_entry name files ≡ true
      → any (equal (alike name)) (keys files) ≡ true
  entry-key name [] h = ground (arith, h)
  entry-key name (v ∷ vs) h = ground (arith, same-key v.name name, h, entry-key name vs)

  -- Where a name stands in the directory, it resolves to its own file.
  pub find-own :
      (name : Text) (files : List VaultFile) (v : VaultFile)
      → Distinct (keys files)
      → find_at alike (alike name) files ≡ some v
      → has_entry name files ≡ true
      → equal v.name name ≡ true
  unfolding find_at
  find-own name [] v d e h = ground (arith, e)
  find-own name (w ∷ ws) v (new, d) e h =
      let clash = λ (s : equal (alike name) (alike w.name) ≡ true).
        subst (λ z. any (equal z) (keys ws) ≡ false) (sym (equal→eq (alike name) (alike w.name) s))
          new in
      ground (arith, same-key w.name name, clash, e, h, entry-key name ws, find-own name ws v d)

  pub find-write :
      (key other name text : Text) (files : List VaultFile) (v : VaultFile)
      → equal other key ≡ false
      → alike name ≡ other
      → find_at alike key files ≡ some v
      → find_at alike key (write_at alike other name text files) ≡ some v
  unfolding find_at write_at
  find-write key other name text [] v far at e = ground (arith, e)
  find-write key other name text (w ∷ ws) v far at e =
      let alone = λ (s : equal other (alike w.name) ≡ true).
        subst (λ z. equal z key ≡ false) (equal→eq other (alike w.name) s) far in
      ground
        (arith, alone, equal_sym key (alike w.name), e, find-write key other name text ws v far at)
