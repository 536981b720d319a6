-- ===== src/Vault/Distinct.antt =====
-- What `buildExportUnits` (whatsapp-bridge/export_vault.go) lets through, and what it refuses.
use whatsapp_mcp_plugin.Prelude.{
  ℕ, zero, suc, ◌+◌, ◌*◌, ◌≤◌, ◌≡◌, refl, ap, ◌∙◌, subst, inl, inr, true, false, ◌||◌, Option, none,
  some, List, [], ◌∷◌, All, map, any, length, if◌then◌else◌, if-cases, Bool-cases, arith,
}
use whatsapp_mcp_plugin.Bytes.{Text, equal}
use whatsapp_mcp_plugin.Bytes.Equal.{equal→eq, equal_refl}
use whatsapp_mcp_plugin.Vault.{
  Unicode, ExportUnit, Planned, max_level, key_of, times, collides, escalates, escalated,
  settle_names, at_level_0, assign_filenames, first_collision, PlanResult, named, refused,
  plan_result, plan_filenames,
}
use whatsapp_mcp_plugin.Vault.Settled.{assign_filenames-IsSettled}

-- No text of the list stands in it twice.
abbrev pub Distinct : List Text → Type 0
Distinct [] = Unit
Distinct (k ∷ ks) = (any (equal k) ks ≡ false) × Distinct ks

module _ (unicode : Unicode) (taken : List Text) where
  abbrev pub Free : List Text → Type 0
  Free = All (λ k. any (equal k) taken ≡ false)

  -- The units are those that were asked for, in their order.
  units-escalated :
      (keys : List Text) (ps : List Planned)
      → map (λ (p : Planned). p.unit) (map (escalated unicode taken keys) ps)
        ≡ map (λ (p : Planned). p.unit) ps
  units-escalated keys [] = refl
  units-escalated keys (p ∷ ps) = elim (Bool-cases (escalates unicode taken keys p)) [
    | inl e ↦ rw e (ap (λ us. p.unit ∷ us) (units-escalated keys ps))
    | inr e ↦ rw e (ap (λ us. p.unit ∷ us) (units-escalated keys ps))
  ]

  units-settle :
      (fuel : ℕ) (ps : List Planned)
      → map (λ (p : Planned). p.unit) (settle_names unicode taken fuel ps)
        ≡ map (λ (p : Planned). p.unit) ps
  unfolding settle_names
  units-settle zero ps = refl
  units-settle (suc fuel) ps =
      let keys = map (key_of unicode) ps in
      let next = map (escalated unicode taken keys) ps in
      if-cases (λ qs. map (λ (p : Planned). p.unit) qs ≡ map (λ (p : Planned). p.unit) ps)
        (any (escalates unicode taken keys) ps) (settle_names unicode taken fuel next) ps
        (λ e. units-settle fuel next ∙ units-escalated keys ps) (λ e. refl)

  units-start :
      (units : List ExportUnit) → map (λ (p : Planned). p.unit) (map at_level_0 units) ≡ units
  units-start [] = refl
  units-start (u ∷ units) = ap (λ us. u ∷ us) (units-start units)

  units-assign :
      (units : List ExportUnit)
      → map (λ (p : Planned). p.unit) (assign_filenames unicode taken units) ≡ units
  unfolding assign_filenames
  units-assign units =
      units-settle (max_level * length units) (map at_level_0 units) ∙ units-start units

  -- A unit that passes, and the rest of the check.
  pass :
      (seen : List Text) (p : Planned) (ps : List Planned)
      → first_collision unicode taken seen (p ∷ ps) ≡ none
      → (any (equal (key_of unicode p)) seen ≡ false)
        × (any (equal (key_of unicode p)) taken ≡ false)
        × (first_collision unicode taken (key_of unicode p ∷ seen) ps ≡ none)
  unfolding first_collision
  pass seen p ps h = (ground (arith, h), ground (arith, h), ground (arith, h))

  -- A key seen before is none of those that pass after it.
  seen_before :
      (k : Text) (seen : List Text) (ps : List Planned)
      → first_collision unicode taken seen ps ≡ none
      → any (equal k) seen ≡ true
      → any (equal k) (map (key_of unicode) ps) ≡ false
  seen_before k seen [] h e = refl
  seen_before k seen (p ∷ ps) h e =
      let (new, free, rest) = pass seen p ps h in
      let other = λ (same_key : equal k (key_of unicode p) ≡ true).
        ap (λ t. any (equal t) seen) (equal→eq k (key_of unicode p) same_key) in
      ground (arith, e, new, other, seen_before k (key_of unicode p ∷ seen) ps rest)

  passed :
      (seen : List Text) (ps : List Planned)
      → first_collision unicode taken seen ps ≡ none
      → Distinct (map (key_of unicode) ps) × Free (map (key_of unicode) ps)
  passed seen [] h = (tt, tt)
  passed seen (p ∷ ps) h =
      let k = key_of unicode p in
      let (new, free, rest) = pass seen p ps h in
      let (distinct, others) = passed (k ∷ seen) ps rest in
      ((seen_before k (k ∷ seen) ps rest (ground (arith, equal_refl k)), distinct), (free, others))

  times-seen : (k : Text) (ks : List Text) → any (equal k) ks ≡ true → 1 ≤ times k ks
  times-seen k [] h = ground (arith, h)
  times-seen k (j ∷ ks) h = ground (arith, h, times-seen k ks)

  collides_seen :
      (k : Text) (keys seen rest : List Text)
      → times k seen + times k (k ∷ rest) ≤ times k keys
      → (any (equal k) seen || any (equal k) taken) ≡ true
      → collides taken keys k ≡ true
  collides_seen k keys seen rest counts h =
      let twice =
        subst (λ b. times k seen + (if b then suc (times k rest) else times k rest) ≤ times k keys)
          (equal_refl k) counts in
      ground (arith, h, twice, times-seen k seen)

  moved :
      (k : Text) (keys seen rest : List Text)
      → ((j : Text) → times j seen + times j (k ∷ rest) ≤ times j keys)
      → (j : Text) → times j (k ∷ seen) + times j rest ≤ times j keys
  moved k keys seen rest counts j = ground (arith, counts j)

  -- The unit that is refused collides, and has no level left.
  abbrev pub Refused : List Text → Planned → Type 0
  Refused keys p = (max_level ≤ p.level) × (collides taken keys (key_of unicode p) ≡ true)

  abbrev OfFound : List Text → Option Planned → Type 0
  OfFound keys none = Unit
  OfFound keys (some p) = Refused keys p

  stopped :
      (keys seen : List Text) (ps : List Planned) (p : Planned)
      → ((k : Text) → times k seen + times k (map (key_of unicode) ps) ≤ times k keys)
      → any (escalates unicode taken keys) ps ≡ false
      → first_collision unicode taken seen ps ≡ some p
      → Refused keys p
  unfolding first_collision
  stopped keys seen [] p counts settled h = ground (arith, h)
  stopped keys seen (q ∷ ps) p counts settled h =
      let k = key_of unicode q in
      let later = first_collision unicode taken (k ∷ seen) ps in
      elim (Bool-cases (any (equal k) seen || any (equal k) taken)) [
        | inl e ↦
            let q_collides = collides_seen k keys seen (map (key_of unicode) ps) (counts k) e in
            subst (OfFound keys) (subst (λ b. (if b then some q else later) ≡ some p) e h)
              (ground (arith, settled, q_collides), q_collides)
        | inr e ↦
            stopped keys (k ∷ seen) ps p (moved k keys seen (map (key_of unicode) ps) counts)
              (ground (arith, settled)) (subst (λ b. (if b then some q else later) ≡ some p) e h)
      ]

  -- What the plan comes to.
  abbrev pub PlanOf : List ExportUnit → PlanResult → Type 0
  PlanOf units (named ps) =
      (map (λ (p : Planned). p.unit) ps ≡ units)
      × Distinct (map (key_of unicode) ps)
      × Free (map (key_of unicode) ps)
  PlanOf units (refused p) = Refused (map (key_of unicode) (assign_filenames unicode taken units)) p

  -- Whatever `norm.NFC` and `strings.ToLower` do to a text: either every unit is named, in order, and no
  -- two names become one text under both, nor does one become that of a file that is not managed; or the
  -- export is refused for a unit whose name is still taken with its full JID in it.
  pub plan_filenames-PlanOf :
      (units : List ExportUnit) → PlanOf units (plan_filenames unicode taken units)
  unfolding plan_filenames
  plan_filenames-PlanOf units = go (first_collision unicode taken [] ps) refl
    where
      ps : List Planned
      ps = assign_filenames unicode taken units

      go :
          (o : Option Planned)
          → first_collision unicode taken [] ps ≡ o
          → PlanOf units (plan_result ps o)
      go none e = let (distinct, free) = passed [] ps e in (units-assign units, distinct, free)
      go (some p) e =
          stopped (map (key_of unicode) ps) [] ps p (λ k. omega arith)
            (assign_filenames-IsSettled unicode taken units) e
