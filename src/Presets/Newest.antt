-- ===== src/Presets/Newest.antt =====
-- `ORDER BY created_at DESC LIMIT 1` in the queries of prospect-api/presets.go.
use whatsapp_mcp_plugin.Prelude.{
  length, leb, if◌then◌else◌, ℕ, ◌≡◌, refl, Bool, true, false, ◌&&◌, Option, none, some, List, [],
  ◌∷◌, any, ltb, if-cases, arith,
}
use whatsapp_mcp_plugin.Presets.{PresetRow, normalize_email}
use whatsapp_mcp_plugin.Presets.Lookup.{
  has_email, has_phone, phone_tail, is_unconsumed, newer, newest, Checked, no_match, match,
  lookup_failed,
}
use whatsapp_mcp_plugin.Bytes.{Text, is_blank, digits_only}

-- A row of the table that is chosen, with no chosen row after it in time.
pub record IsNewest (chosen : PresetRow → Bool) (rows : List PresetRow) (r : PresetRow)
    : Type 0 where
  pub is_chosen : chosen r ≡ true
  pub member : (p : PresetRow → Bool) → p r ≡ true → any p rows ≡ true
  pub top : any (λ q. chosen q && ltb r.created_at q.created_at) rows ≡ false

abbrev pub NewestOf : (PresetRow → Bool) → List PresetRow → Option PresetRow → Type 0
NewestOf chosen rows none = any chosen rows ≡ false
NewestOf chosen rows (some r) = IsNewest chosen rows r

module _ (chosen : PresetRow → Bool) where
  none_later :
      (t u : ℕ) (rows : List PresetRow)
      → ltb u t ≡ false
      → any (λ q. chosen q && ltb t q.created_at) rows ≡ false
      → any (λ q. chosen q && ltb u q.created_at) rows ≡ false
  none_later t u [] le h = refl
  none_later t u (q ∷ rows) le h = ground (arith, le, h, none_later t u rows le)

  none_chosen :
      (t : ℕ) (rows : List PresetRow)
      → any chosen rows ≡ false
      → any (λ q. chosen q && ltb t q.created_at) rows ≡ false
  none_chosen t [] h = refl
  none_chosen t (q ∷ rows) h = ground (arith, h, none_chosen t rows)

  passed :
      (r : PresetRow) (rows : List PresetRow) (o : Option PresetRow)
      → chosen r ≡ false
      → NewestOf chosen rows o
      → NewestOf chosen (r ∷ rows) o
  passed r rows none e h = rw e h
  passed r rows (some s) e h = record {
    is_chosen = h.is_chosen;
    member = λ p hp. ground (arith, h.member p hp);
    top = rw e h.top;
  }

  added :
      (r : PresetRow) (rows : List PresetRow) (o : Option PresetRow)
      → chosen r ≡ true
      → NewestOf chosen rows o
      → NewestOf chosen (r ∷ rows) (newer r o)
  added r rows none e h = record {
    is_chosen = e;
    member = λ p hp. ground (arith, hp);
    top = ground (arith, none_chosen r.created_at rows h);
  }
  added r rows (some s) e h =
      if-cases (NewestOf chosen (r ∷ rows)) (ltb r.created_at s.created_at) (some s) (some r)
        (λ later. record {
          is_chosen = h.is_chosen;
          member = λ p hp. ground (arith, h.member p hp);
          top = ground (arith, later, h.top);
        })
        (λ earlier. record {
          is_chosen = e;
          member = λ p hp. ground (arith, hp);
          top = ground (arith, none_later s.created_at r.created_at rows earlier h.top);
        })

  -- What the query returns: the chosen row of the greatest creation time, and none only where no row is
  -- chosen.
  pub newest-NewestOf : (rows : List PresetRow) → NewestOf chosen rows (newest chosen rows)
  unfolding newest
  newest-NewestOf [] = refl
  newest-NewestOf (r ∷ rows) =
      if-cases (NewestOf chosen (r ∷ rows)) (chosen r) (newer r (newest chosen rows))
        (newest chosen rows) (λ e. added r rows (newest chosen rows) e (newest-NewestOf rows))
        (λ e. passed r rows (newest chosen rows) e (newest-NewestOf rows))

-- An unexpired and unused preset whose email address is the guest's or, where none is given and the
-- guest's phone number has seven digits or more, whose number holds its last ten digits.
abbrev pub asked_for : ℕ → Text → Text → PresetRow → Bool
asked_for now email phone r =
    (if is_blank (normalize_email email)
      then leb 7 (length (digits_only phone)) && has_phone (phone_tail (digits_only phone)) r
      else has_email (normalize_email email) r)
    && ltb now r.expires_at
    && is_unconsumed r

-- The row behind a match: the newest of those asked for, returned with the time of its use.
pub record Matched (chosen : PresetRow → Bool) (now : ℕ) (rows : List PresetRow) (r : PresetRow)
    : Type 0 where
  pub row : PresetRow
  pub is_newest : IsNewest chosen rows row
  pub same_row : r ≡ record row { consumed_at = some now }

abbrev pub CheckedOf : (PresetRow → Bool) → ℕ → Bool → List PresetRow → Checked → Type 0
CheckedOf chosen now query_fails rows no_match = any chosen rows ≡ false
CheckedOf chosen now query_fails rows (match r) = Matched chosen now rows r
CheckedOf chosen now query_fails rows lookup_failed = query_fails ≡ true
