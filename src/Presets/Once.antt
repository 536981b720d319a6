-- ===== src/Presets/Once.antt =====
-- A preset is used once (prospect-api/presets.go, presets_byid.go).
use whatsapp_mcp_plugin.Prelude.{
  any-append, ℕ, suc, ◌≤◌, ◌≡◌, refl, sym, ap, ◌∙◌, subst, ◌⊎◌, inl, inr, String, Bool, true, false,
  ◌&&◌, ◌||◌, not, Option, none, some, List, [], ◌∷◌, ◌++◌, All, any, same, same→eq, if-cases,
  Bool-cases, update_rows, arith, eq_iff,
}
use whatsapp_mcp_plugin.Bytes.{Text}
use whatsapp_mcp_plugin.Presets.{
  PresetRow, Preset, PresetError, preset_error, preset_row, create_preset, insert_preset, has_id,
  Created, created, refused, statement_failed,
}
use whatsapp_mcp_plugin.Presets.Lookup.{
  is_unconsumed, is_live, newest, answers, asks, preset_query, mark_consumed, checked, check_preset,
  consume_preset_by_id, PresetOp, create_op, check_op, consume_op, vouched, Checked, lookup_failed,
  preset_op, counted, vouches,
}
use whatsapp_mcp_plugin.Presets.Newest.{NewestOf, newest-NewestOf}

abbrev present : String → List PresetRow → Bool
present id = any (has_id id)

abbrev available : String → List PresetRow → Bool
available id = any (λ r. has_id id r && is_unconsumed r)

-- The preset is there, and used.
abbrev pub IsSpent : String → List PresetRow → Type 0
IsSpent id rows = (available id rows ≡ false) × (present id rows ≡ true)

available-mark :
    (now : ℕ) (consumer : Text) (j id : String) (rows : List PresetRow)
    → available id (mark_consumed now consumer j rows) ≡ (not (same j id) && available id rows)
unfolding mark_consumed update_rows
available-mark now consumer j id [] = ground arith
available-mark now consumer j id (r ∷ rows) = ground (
  arith,
  eq_iff r.preset_id j,
  eq_iff r.preset_id id,
  eq_iff j id,
  available-mark now consumer j id rows,
)

present-mark :
    (now : ℕ) (consumer : Text) (j id : String) (rows : List PresetRow)
    → present id (mark_consumed now consumer j rows) ≡ present id rows
unfolding mark_consumed update_rows
present-mark now consumer j id [] = refl
present-mark now consumer j id (r ∷ rows) = ground (arith, present-mark now consumer j id rows)

-- What one call does to a preset: how often it vouches, and whether it is spent then.
pub record UseStep (id : String) (rows : List PresetRow) (r : List PresetRow × Option String)
    : Type 0 where
  -- A spent preset stays spent, and does not vouch.
  pub spent : IsSpent id rows → IsSpent id r.0 × ((n : ℕ) → counted id r.1 n ≡ n)
  -- Where it vouches, it is spent.
  pub once :
      ((n : ℕ) → counted id r.1 n ≡ n) ⊎ (IsSpent id r.0 × ((n : ℕ) → counted id r.1 n ≡ suc n))

-- The statement that marks the preset goes through.
abbrev pub Marks : PresetOp → Type 0
Marks (check_op now query_fails update_fails email phone consumer) = update_fails ≡ false
Marks _ = Unit

module _ (id : String) (rows : List PresetRow) where
  unchanged : UseStep id rows (rows, none)
  unchanged = record { spent = λ s. (s, λ n. refl); once = inl (λ n. refl) }

  marked-IsSpent :
      (now : ℕ) (consumer : Text) (j : String)
      → IsSpent id rows
      → IsSpent id (mark_consumed now consumer j rows)
  marked-IsSpent now consumer j (used, there) = (
    available-mark now consumer j id rows ∙ ground (arith, used),
    present-mark now consumer j id rows ∙ there,
  )

  marked :
      (now : ℕ) (consumer : Text) (j : String)
      → UseStep id rows (mark_consumed now consumer j rows, none)
  marked now consumer j = record {
    spent = λ s. (marked-IsSpent now consumer j s, λ n. refl);
    once = inl (λ n. refl);
  }

  consume-UseStep :
      (now : ℕ) (update_fails select_fails : Bool) (j : String) (consumer : Text)
      → UseStep id rows
          ((consume_preset_by_id now update_fails select_fails j consumer rows).0, none)
  unfolding consume_preset_by_id
  consume-UseStep now update_fails select_fails j consumer = elim (Bool-cases (same j "")) [
    | inl e ↦ rw e unchanged
    | inr e ↦ elim (Bool-cases update_fails) [
      | inl f ↦ rw (e, f) unchanged
      | inr f ↦ elim (Bool-cases select_fails) [
        | inl g ↦ rw (e, f, g) (marked now consumer j)
        | inr g ↦ rw (e, f, g) (marked now consumer j)
      ]
    ]
  ]

  added :
      (j : String) (now : ℕ) (p : Preset) (fails : Bool)
      → (fails || present j rows) ≡ false
      → UseStep id rows (rows ++ preset_row j now p ∷ [], none)
  unfolding preset_row
  added j now p fails new =
      let there = λ (e : same j id ≡ true). ap (λ t. present t rows) (same→eq j id e) in
      record {
        spent = λ s. (
          (
            any-append (λ r. has_id id r && is_unconsumed r) rows (preset_row j now p ∷ [])
                ∙ ground (arith, s.0, s.1, new, there),
            any-append (has_id id) rows (preset_row j now p ∷ []) ∙ ground (arith, s.1),
          ),
          λ n. refl,
        );
        once = inl (λ n. refl);
      }

  insert-UseStep :
      (j : String) (now : ℕ) (fails : Bool) (p : Preset) (e : Option PresetError)
      → UseStep id rows ((insert_preset j now fails p rows e).0, none)
  unfolding insert_preset
  insert-UseStep j now fails p (some e) = unchanged
  insert-UseStep j now fails p none =
      if-cases (λ (r : List PresetRow × Created). UseStep id rows (r.0, none))
        (fails || any (has_id j) rows) (rows, refused statement_failed)
        (rows ++ preset_row j now p ∷ [], created j) (λ e. unchanged) (added j now p fails)

  checked-UseStep :
      (now : ℕ) (consumer : Text) (chosen : PresetRow → Bool) (o : Option PresetRow)
      → NewestOf (λ r. chosen r && is_live now r) rows o
      → UseStep id rows
          ((checked now false consumer rows o).0, vouched (checked now false consumer rows o).1)
  unfolding checked
  checked-UseStep now consumer chosen none h = unchanged
  checked-UseStep now consumer chosen (some r) h =
      let here = λ (e : same r.preset_id id ≡ true).
        h.member (λ q. has_id id q && is_unconsumed q) (ground (arith, e, h.is_chosen)) in
      record {
        spent = λ s. (marked-IsSpent now consumer r.preset_id s, λ n. ground (arith, s.0, here));
        once = elim (Bool-cases (same r.preset_id id)) [
          | inl e ↦ inr (
            (
              available-mark now consumer r.preset_id id rows ∙ rw e refl,
              present-mark now consumer r.preset_id id rows ∙ h.member (has_id id) e,
            ),
            λ n. rw e refl,
          )
          | inr e ↦ inl (λ n. rw e refl)
        ];
      }

  check-UseStep :
      (now : ℕ) (query_fails : Bool) (email phone consumer : Text)
      → UseStep id rows (preset_op (check_op now query_fails false email phone consumer) rows)
  unfolding preset_op check_preset
  check-UseStep now query_fails email phone consumer =
      if-cases (λ (r : List PresetRow × Checked). UseStep id rows (r.0, vouched r.1))
        (asks (preset_query email phone) && query_fails) (rows, lookup_failed)
        (checked now false consumer rows
          (newest (λ r. answers (preset_query email phone) r && is_live now r) rows))
        (λ e. unchanged)
        (λ e.
          checked-UseStep now consumer (answers (preset_query email phone))
            (newest (λ r. answers (preset_query email phone) r && is_live now r) rows)
            (newest-NewestOf (λ r. answers (preset_query email phone) r && is_live now r) rows))

  preset_op-UseStep : (op : PresetOp) → Marks op → UseStep id rows (preset_op op rows)
  unfolding preset_op create_preset
  preset_op-UseStep (create_op j now max_allowed fails p) marks =
      insert-UseStep j now fails p (preset_error now max_allowed p)
  preset_op-UseStep (check_op now query_fails update_fails email phone consumer) marks =
      subst
        (λ b. UseStep id rows (preset_op (check_op now query_fails b email phone consumer) rows))
        (sym marks) (check-UseStep now query_fails email phone consumer)
  preset_op-UseStep (consume_op now update_fails select_fails j consumer) marks =
      consume-UseStep now update_fails select_fails j consumer

vouches-spent :
    (id : String) (ops : List PresetOp) (rows : List PresetRow)
    → All Marks ops
    → IsSpent id rows
    → vouches id ops rows ≡ 0
unfolding vouches
vouches-spent id [] rows marks s = refl
vouches-spent id (op ∷ ops) rows (first, rest) s =
    let (kept, same_count) = (preset_op-UseStep id rows op first).spent s in
    same_count (vouches id ops (preset_op op rows).0)
    ∙ vouches-spent id ops (preset_op op rows).0 rest kept

-- Over any sequence of calls in which the statement that marks a preset goes through, each preset
-- vouches for at most one guest.
pub vouches_once :
    (id : String) (ops : List PresetOp) (rows : List PresetRow)
    → All Marks ops
    → vouches id ops rows ≤ 1
unfolding vouches
vouches_once id [] rows marks = omega arith
vouches_once id (op ∷ ops) rows (first, rest) =
    let r = preset_op op rows in
    elim (preset_op-UseStep id rows op first).once [
      | inl same_count ↦
          subst (λ n. n ≤ 1) (sym (same_count (vouches id ops r.0))) (vouches_once id ops r.0 rest)
      | inr (spent, more) ↦
          subst (λ n. n ≤ 1)
            (sym (more (vouches id ops r.0) ∙ ap suc (vouches-spent id ops r.0 rest spent)))
            (omega arith)
    ]
