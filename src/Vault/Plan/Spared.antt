-- ===== src/Vault/Plan/Spared.antt =====
-- The files of the directory that a run does not manage (`buildExportUnits`,
-- whatsapp-bridge/export_vault.go): no unit takes their names.
use whatsapp_mcp_plugin.Prelude.{
  ℕ, ◌-◌, ◌≡◌, refl, subst, inl, inr, Bool, true, ◌||◌, not, ◌==◌, all, List, [], ◌∷◌, map, any,
  take, length, if◌then◌else◌, Bool-cases, arith,
}
use whatsapp_mcp_plugin.Bytes.{Text, equal}
use whatsapp_mcp_plugin.Bytes.Equal.{equal→eq, equal_refl}
use whatsapp_mcp_plugin.Vault.{Unicode, fold_key, times}
use whatsapp_mcp_plugin.Vault.Distinct.{Free}
use whatsapp_mcp_plugin.Vault.Units.{ChatUnit}
use whatsapp_mcp_plugin.Vault.Plan.{VaultEntry, is_markdown, is_ours, obstacles}

-- `name[:len(name)-3]`
abbrev pub stem : Text → Text
stem name = take (length name - 3) name

module _ (unicode : Unicode) where
  abbrev pub file_key : Text → Text
  file_key name = fold_key unicode (stem name)

  free-away :
      (k : Text) (fs taken : List Text)
      → Free unicode taken (map file_key fs)
      → any (equal (file_key k)) taken ≡ true
      → times k fs ≡ 0
  free-away k [] taken free blocked = refl
  free-away k (f ∷ fs) taken (here, free) blocked =
      let alike = λ (s : equal k f ≡ true).
        subst (λ z. any (equal (file_key z)) taken ≡ true) (equal→eq k f s) blocked in
      ground (arith, alike, here, free-away k fs taken free blocked)

  Free-rest :
      (t : Text) (taken ks : List Text) → Free unicode (t ∷ taken) ks → Free unicode taken ks
  Free-rest t taken [] free = tt
  Free-rest t taken (k ∷ ks) (here, free) = (ground (arith, here), Free-rest t taken ks free)

-- A markdown file that is not the run's own, and a count of the names that are given.
abbrev pub is_spared : List ChatUnit → (Text → ℕ) → VaultEntry → Bool
is_spared units given e = is_ours units e || not (is_markdown e.name) || given e.name == 0

module _ (unicode : Unicode) (units : List ChatUnit) (fs : List Text) where
  abbrev unmanaged : VaultEntry → List Text → List Text
  unmanaged e rest =
      if not (is_markdown e.name)
      then rest
      else if is_ours units e
      then rest
      else fold_key unicode (stem e.name) ∷ rest

  free-entry :
      (e : VaultEntry) (rest : List Text)
      → Free unicode (unmanaged e rest) (map (file_key unicode) fs)
      → (is_spared units (λ k. times k fs) e ≡ true) × Free unicode rest (map (file_key unicode) fs)
  free-entry e rest free = elim (Bool-cases (is_markdown e.name)) [
    | inr m ↦ (ground (arith, m), rw m at free)
    | inl m ↦ elim (Bool-cases (is_ours units e)) [
      | inl o ↦ (ground (arith, o), rw (m, o) at free)
      | inr o ↦
          let blocked = rw (m, o) at free in
          (
            ground (
              arith,
              free-away unicode e.name fs (file_key unicode e.name ∷ rest) blocked
                  (ground (arith, equal_refl (file_key unicode e.name))),
            ),
            Free-rest unicode (file_key unicode e.name) rest (map (file_key unicode) fs) blocked,
          )
    ]
  ]

  pub spared-all :
      (entries : List VaultEntry)
      → Free unicode (obstacles unicode units entries) (map (file_key unicode) fs)
      → all (is_spared units (λ k. times k fs)) entries ≡ true
  unfolding obstacles
  spared-all [] free = refl
  spared-all (e ∷ entries) free =
      let (here, rest) = free-entry e (obstacles unicode units entries) free in
      ground (arith, here, spared-all entries rest)

pub all-given :
    (units : List ChatUnit) (f g : Text → ℕ) (entries : List VaultEntry)
    → ((k : Text) → f k ≡ g k)
    → all (is_spared units f) entries ≡ true
    → all (is_spared units g) entries ≡ true
all-given units f g [] alike e = refl
all-given units f g (x ∷ entries) alike e =
    ground (arith, alike x.name, e, all-given units f g entries alike)
