-- ===== src/Vault/Plan/Kept.antt =====
-- What `buildExportUnits` (whatsapp-bridge/export_vault.go) keeps of the planned units where it names them,
-- and what their names end in.
use whatsapp_mcp_plugin.Sorting.{fold-sort_by, sort_by}
use whatsapp_mcp_plugin.Prelude.{
  ℕ, ◌-◌, String, ◌≡◌, refl, ap, sym, ◌∙◌, subst, Bool, true, false, ◌&&◌, ◌||◌, List, [], ◌∷◌,
  ◌++◌, map, any, all, drop, length, ltb, length-append, drop-append, length-map, any-append, arith,
}
use whatsapp_mcp_plugin.Bytes.{to_lower, Text, bytes, equal}
use whatsapp_mcp_plugin.Archive.{Archive}
use whatsapp_mcp_plugin.Vault.{
  Unicode, Planned, PlanResult, named, refused, unit_name, plan_filenames,
}
use whatsapp_mcp_plugin.Vault.Distinct.{PlanOf, plan_filenames-PlanOf}
use whatsapp_mcp_plugin.Vault.Units.{ChatUnit}
use whatsapp_mcp_plugin.Vault.Plan.{
  VaultEntry, ExportOptions, NamedUnit, named_units, by_filename, built, is_markdown, members_of,
  naming, obstacles, build_result, planned_units, build_export_units,
}
use whatsapp_mcp_plugin.Vault.Plan.Complete.{filenames, files_of, units_in, named-units}

is_markdown-md : (s : Text) → is_markdown (s ++ bytes ".md") ≡ true
unfolding is_markdown bytes to_lower equal
is_markdown-md s =
    let at : length (s ++ bytes ".md") - 3 ≡ length s =
      omega (arith, length-append s (bytes ".md")) in
    let end = ap (λ n. drop n (s ++ bytes ".md")) at ∙ drop-append s (bytes ".md") in
    let long : ltb (length (s ++ bytes ".md")) 3 ≡ false =
      ground (arith, length-append s (bytes ".md")) in
    rw (long, end) refl

module _ (unicode : Unicode) where
  named-markdown :
      (us : List ChatUnit) (ps : List Planned)
      → all is_markdown (filenames (named_units unicode us ps)) ≡ true
  named-markdown [] ps = refl
  named-markdown (u ∷ us) [] = refl
  named-markdown (u ∷ us) (p ∷ ps) =
      ground (arith, is_markdown-md (unit_name unicode p.unit p.level), named-markdown us ps)

members-sort_by :
    (q : String → Bool) (fs : List NamedUnit)
    → any q (members_of (units_in (sort_by by_filename fs))) ≡ any q (members_of (units_in fs))
members-sort_by q fs =
    fold-sort_by (λ gs. any q (members_of (units_in gs))) (λ f b. any q f.unit.members || b)
      (λ f gs. any-append q f.unit.members (members_of (units_in gs))) (λ f g b. ground arith)
      by_filename fs

markdown-sort_by :
    (fs : List NamedUnit)
    → all is_markdown (filenames (sort_by by_filename fs)) ≡ all is_markdown (filenames fs)
markdown-sort_by fs =
    fold-sort_by (λ gs. all is_markdown (filenames gs)) (λ f b. is_markdown f.filename && b)
      (λ f gs. refl) (λ f g b. ground arith) by_filename fs

-- The names are those of markdown files, and the members those of the planned units.
pub record IsNamed (us : List ChatUnit) (fs : List NamedUnit) : Type 0 where
  pub markdown : all is_markdown (filenames fs) ≡ true
  pub members : (q : String → Bool) → any q (members_of (units_in fs)) ≡ any q (members_of us)

pub build_export_units-IsNamed :
    (unicode : Unicode) (options : ExportOptions) (entries : List VaultEntry) (a : Archive)
    (fs : List NamedUnit) (total : ℕ)
    → build_export_units unicode options entries a ≡ built fs total
    → IsNamed (planned_units options a) fs
unfolding build_export_units
build_export_units-IsNamed unicode options entries a fs total e =
    go (plan_filenames unicode taken (map naming us))
      (plan_filenames-PlanOf unicode taken (map naming us)) e
  where
    us : List ChatUnit
    us = planned_units options a

    taken : List Text
    taken = obstacles unicode us entries

    go :
        (r : PlanResult)
        → PlanOf unicode taken (map naming us) r
        → build_result unicode (length a.chats) us r ≡ built fs total
        → IsNamed us fs
    go (named ps) (units, distinct, free) at =
        let n =
          sym (length-map (λ (p : Planned). p.unit) ps) ∙ ap length units ∙ length-map naming us in
        let gs = named_units unicode us ps in
        subst (IsNamed us) (ap files_of at) (record {
          markdown = markdown-sort_by gs ∙ named-markdown unicode us ps;
          members = λ q.
              members-sort_by q gs ∙ ap (λ vs. any q (members_of vs)) (named-units unicode us ps n);
        })
    go (refused p) plan at = ground (arith, at)
