-- ===== src/Vault/Plan/Complete.antt =====
-- What `buildExportUnits` (whatsapp-bridge/export_vault.go) promises of the files that it names.
use whatsapp_mcp_plugin.Vault.Forest.Collected.{count}
use whatsapp_mcp_plugin.Sorting.{fold-sort_by, sort_by}
use whatsapp_mcp_plugin.Prelude.{
  ◌+◌, if◌then◌else◌, suc, take-append, length-map, ℕ, suc, ◌≤◌, String, ◌≡◌, refl, ap, sym, ◌∙◌,
  subst, true, false, all, List, [], ◌∷◌, ◌++◌, map, any, take, length, length-append, arith,
}
use whatsapp_mcp_plugin.Bytes.{Text, bytes, equal}
use whatsapp_mcp_plugin.Bytes.Equal.{equal→eq, equal_refl}
use whatsapp_mcp_plugin.Archive.{Archive}
use whatsapp_mcp_plugin.Vault.{
  Unicode, Planned, PlanResult, named, refused, fold_key, unit_name, key_of, times, plan_filenames,
}
use whatsapp_mcp_plugin.Vault.Distinct.{Distinct, Free, PlanOf, plan_filenames-PlanOf}
use whatsapp_mcp_plugin.Vault.Units.{ChatUnit}
use whatsapp_mcp_plugin.Vault.Units.Once.{count_units}
use whatsapp_mcp_plugin.Vault.Plan.{
  VaultEntry, ExportOptions, obstacles, naming, NamedUnit, named_units, by_filename, BuildResult,
  built, collision, build_result, planned_units, build_export_units,
}
use whatsapp_mcp_plugin.Vault.Plan.Spared.{stem, file_key, is_spared, spared-all, all-given}

abbrev pub filenames : List NamedUnit → List Text
filenames = map (λ (f : NamedUnit). f.filename)

abbrev pub units_in : List NamedUnit → List ChatUnit
units_in = map (λ (f : NamedUnit). f.unit)

stem-filename : (s : Text) → stem (s ++ bytes ".md") ≡ s
unfolding bytes
stem-filename s =
    subst (λ n. take n (s ++ bytes ".md") ≡ s) (sym (omega (arith, length-append s (bytes ".md"))))
      (take-append s (bytes ".md"))

times-sort_by :
    (k : Text) (fs : List NamedUnit)
    → times k (filenames (sort_by by_filename fs)) ≡ times k (filenames fs)
times-sort_by k fs =
    fold-sort_by (λ gs. times k (filenames gs)) (λ f n. if equal k f.filename then suc n else n)
      (λ f gs. refl) (λ f g n. ground arith) by_filename fs

units-sort_by :
    (x : String) (fs : List NamedUnit)
    → count_units x (units_in (sort_by by_filename fs)) ≡ count_units x (units_in fs)
units-sort_by x fs =
    fold-sort_by (λ gs. count_units x (units_in gs)) (λ f n. count x f.unit.members + n)
      (λ f gs. refl) (λ f g n. omega arith) by_filename fs

-- Names whose keys differ are distinct.
module _ (g : Text → Text) where
  times-absent : (k : Text) (fs : List Text) → any (equal (g k)) (map g fs) ≡ false → times k fs ≡ 0
  times-absent k [] new = refl
  times-absent k (f ∷ fs) new =
      let alike = λ (s : equal k f ≡ true).
        subst (λ z. equal (g k) (g z) ≡ true) (equal→eq k f s) (equal_refl (g k)) in
      ground (arith, alike, new, times-absent k fs)

  times-distinct : (k : Text) (fs : List Text) → Distinct (map g fs) → times k fs ≤ 1
  times-distinct k [] d = omega arith
  times-distinct k (f ∷ fs) (new, d) =
      let absent = λ (s : equal k f ≡ true).
        subst (λ z. times z fs ≡ 0) (sym (equal→eq k f s)) (times-absent f fs new) in
      ground (arith, absent, times-distinct k fs d)

module _ (unicode : Unicode) where
  file_keys :
      (us : List ChatUnit) (ps : List Planned)
      → length ps ≡ length us
      → map (file_key unicode) (filenames (named_units unicode us ps)) ≡ map (key_of unicode) ps
  unfolding key_of
  file_keys [] [] n = refl
  file_keys [] (p ∷ ps) n = ground (arith, n)
  file_keys (u ∷ us) [] n = ground (arith, n)
  file_keys (u ∷ us) (p ∷ ps) n =
      let k = ap (fold_key unicode) (stem-filename (unit_name unicode p.unit p.level)) in
      subst
        (λ z.
          z ∷ map (file_key unicode) (filenames (named_units unicode us ps))
          ≡ key_of unicode p ∷ map (key_of unicode) ps)
        (sym k) (ap (λ ks. key_of unicode p ∷ ks) (file_keys us ps (omega (arith, n))))

  pub named-units :
      (us : List ChatUnit) (ps : List Planned)
      → length ps ≡ length us
      → units_in (named_units unicode us ps) ≡ us
  named-units [] ps n = refl
  named-units (u ∷ us) [] n = ground (arith, n)
  named-units (u ∷ us) (p ∷ ps) n = ap (λ vs. u ∷ vs) (named-units us ps (omega (arith, n)))

-- What holds of the files, of a name and of a JID.
pub record IsBuilt (options : ExportOptions) (entries : List VaultEntry) (a : Archive)
    (fs : List NamedUnit) (k : Text) (x : String) : Type 0 where
  pub distinct : times k (filenames fs) ≤ 1
  pub complete : count_units x (units_in fs) ≡ count_units x (planned_units options a)
  pub spared :
      all (is_spared (planned_units options a) (λ n. times n (filenames fs))) entries ≡ true

abbrev pub files_of : BuildResult → List NamedUnit
files_of (built fs total) = fs
files_of (collision p) = []

-- Where `buildExportUnits` does not refuse, no two units have one file name, each JID is a member of the
-- named units as often as of the planned ones, and no name is that of a markdown file of the directory
-- that is no chat file of one of the units.
pub build_export_units-IsBuilt :
    (unicode : Unicode) (options : ExportOptions) (entries : List VaultEntry) (a : Archive)
    (fs : List NamedUnit) (total : ℕ) (k : Text) (x : String)
    → build_export_units unicode options entries a ≡ built fs total
    → IsBuilt options entries a fs k x
unfolding build_export_units
build_export_units-IsBuilt unicode options entries a fs total k x e =
    go (plan_filenames unicode taken (map naming us))
      (plan_filenames-PlanOf unicode taken (map naming us)) e
  where
    us : List ChatUnit
    us = planned_units options a

    taken : List Text
    taken = obstacles unicode us entries

    of_list :
        (ps : List Planned)
        → PlanOf unicode taken (map naming us) (named ps)
        → IsBuilt options entries a (sort_by by_filename (named_units unicode us ps)) k x
    of_list ps (units, distinct, free) =
        let n =
          sym (length-map (λ (p : Planned). p.unit) ps) ∙ ap length units ∙ length-map naming us in
        let names = filenames (named_units unicode us ps) in
        let keys = file_keys unicode us ps n in
        record {
          distinct =
              subst (λ m. m ≤ 1) (sym (times-sort_by k (named_units unicode us ps)))
                (times-distinct (file_key unicode) k names (subst Distinct (sym keys) distinct));
          complete =
              units-sort_by x (named_units unicode us ps)
              ∙ ap (count_units x) (named-units unicode us ps n);
          spared =
              all-given us (λ z. times z names)
                (λ z. times z (filenames (sort_by by_filename (named_units unicode us ps)))) entries
                (λ z. sym (times-sort_by z (named_units unicode us ps)))
                (spared-all unicode us names entries (subst (Free unicode taken) (sym keys) free));
        }

    go :
        (r : PlanResult)
        → PlanOf unicode taken (map naming us) r
        → build_result unicode (length a.chats) us r ≡ built fs total
        → IsBuilt options entries a fs k x
    go (named ps) plan at =
        subst (λ gs. IsBuilt options entries a gs k x) (ap files_of at) (of_list ps plan)
    go (refused p) plan at = ground (arith, at)
