-- ===== src/Presets/Lookup.antt =====
-- `CheckPreset` of prospect-api/presets.go, and `GetPresetByID` and `ConsumePresetByID` of
-- prospect-api/presets_byid.go.
use whatsapp_mcp_plugin.Prelude.{
  ℕ, suc, ◌-◌, String, Bool, true, false, ◌&&◌, not, Option, none, some, List, [], ◌∷◌, update_rows,
  same, leb, ltb, length, drop, if◌then◌else◌,
}
use whatsapp_mcp_plugin.Bytes.{is_blank, Text, digits_only, equal, contains}
use whatsapp_mcp_plugin.Presets.{
  PresetRow, PresetError, preset_id_required, statement_failed, normalize_email, has_id, Preset,
  create_preset,
}

abbrev pub is_unconsumed : PresetRow → Bool
is_unconsumed r = elim r.consumed_at [ none ↦ true | some at ↦ false ]

-- `expires_at > ? AND consumed_at IS NULL`
abbrev pub is_live : ℕ → PresetRow → Bool
is_live now r = ltb now r.expires_at && is_unconsumed r

-- `guest_email = ?` and `guest_phone LIKE '%' || ? || '%'`, which NULL is not
abbrev pub has_email : Text → PresetRow → Bool
has_email e r = elim r.guest_email [ none ↦ false | some email ↦ equal email e ]

abbrev pub has_phone : Text → PresetRow → Bool
has_phone tail r = elim r.guest_phone [ none ↦ false | some phone ↦ contains phone tail ]

-- The last ten digits.
abbrev pub phone_tail : Text → Text
phone_tail p = if ltb 10 (length p) then drop (length p - 10) p else p

abbrev pub newer : PresetRow → Option PresetRow → Option PresetRow
newer r none = some r
newer r (some s) = if ltb r.created_at s.created_at then some s else some r

-- `ORDER BY created_at DESC LIMIT 1`; of equal times the first in the table
unfoldable pub newest : (PresetRow → Bool) → List PresetRow → Option PresetRow
newest chosen [] = none
newest chosen (r ∷ rows) = let rest = newest chosen rows in if chosen r then newer r rest else rest

abbrev pub consumed : ℕ → Text → PresetRow → PresetRow
consumed now consumer r = record r { consumed_at = some now; consumed_by = some consumer }

-- `UPDATE presets SET consumed_at = ?, consumed_by = ? WHERE preset_id = ? AND consumed_at IS NULL`
unfoldable pub mark_consumed : ℕ → Text → String → List PresetRow → List PresetRow
unfolding update_rows
mark_consumed now consumer id =
    update_rows (λ r. has_id id r && is_unconsumed r) (consumed now consumer)

pub data Checked : Type 0 where
  no_match : Checked
  match : PresetRow → Checked
  lookup_failed : Checked

-- What `CheckPreset` asks for: the email address where there is one, else a phone number of seven digits.
pub data PresetQuery : Type 0 where
  by_email : Text → PresetQuery
  by_phone : Text → PresetQuery
  no_query : PresetQuery

unfoldable pub preset_query : Text → Text → PresetQuery
unfolding normalize_email digits_only
preset_query email phone =
    let p = digits_only phone in
    if not (is_blank (normalize_email email))
    then by_email (normalize_email email)
    else if leb 7 (length p)
    then by_phone (phone_tail p)
    else no_query

abbrev pub asks : PresetQuery → Bool
asks no_query = false
asks _ = true

unfoldable pub answers : PresetQuery → PresetRow → Bool
unfolding equal contains
answers (by_email e) r = has_email e r
answers (by_phone tail) r = has_phone tail r
answers no_query r = false

-- The row that is found is marked and returned; the error of the UPDATE is not looked at.
unfoldable pub checked :
    ℕ → Bool → Text → List PresetRow → Option PresetRow → List PresetRow × Checked
unfolding mark_consumed
checked now update_fails consumer rows none = (rows, no_match)
checked now update_fails consumer rows (some r) = (
  if update_fails then rows else mark_consumed now consumer r.preset_id rows,
  match (record r { consumed_at = some now }),
)

-- `CheckPreset`
unfoldable pub check_preset :
    ℕ → Bool → Bool → Text → Text → Text → List PresetRow → List PresetRow × Checked
unfolding preset_query answers newest checked
check_preset now query_fails update_fails email phone consumer rows =
    let found = newest (λ r. answers (preset_query email phone) r && is_live now r) rows in
    if asks (preset_query email phone) && query_fails
    then (rows, lookup_failed)
    else checked now update_fails consumer rows found

pub data Fetched : Type 0 where
  fetched : Option PresetRow → Fetched
  not_fetched : PresetError → Fetched

-- `GetPresetByID`
unfoldable pub get_preset_by_id : ℕ → Bool → String → List PresetRow → Fetched
unfolding newest
get_preset_by_id now fails id rows =
    if same id ""
    then not_fetched preset_id_required
    else if fails
    then not_fetched statement_failed
    else fetched (newest (λ r. has_id id r && is_live now r) rows)

-- `SELECT COALESCE(consumed_at, 0) FROM presets WHERE preset_id = ?`, and 0 where there is no row
abbrev pub or_zero : Option ℕ → ℕ
or_zero none = 0
or_zero (some t) = t

unfoldable pub consumed_at_of : String → List PresetRow → ℕ
consumed_at_of id [] = 0
consumed_at_of id (r ∷ rows) =
    let rest = consumed_at_of id rows in if has_id id r then or_zero r.consumed_at else rest

pub data Consumed : Type 0 where
  consumed_time : ℕ → Consumed
  not_consumed : PresetError → Consumed

-- `ConsumePresetByID`
unfoldable pub consume_preset_by_id :
    ℕ → Bool → Bool → String → Text → List PresetRow → List PresetRow × Consumed
unfolding mark_consumed consumed_at_of
consume_preset_by_id now update_fails select_fails id consumer rows =
    let marked = mark_consumed now consumer id rows in
    if same id ""
    then (rows, not_consumed preset_id_required)
    else if update_fails
    then (rows, not_consumed statement_failed)
    else if select_fails
    then (marked, not_consumed statement_failed)
    else (marked, consumed_time (consumed_at_of id marked))

-- The calls of the three, and of `CreatePreset`, in sequence.
pub data PresetOp : Type 0 where
  create_op : String → ℕ → ℕ → Bool → Preset → PresetOp
  check_op : ℕ → Bool → Bool → Text → Text → Text → PresetOp
  consume_op : ℕ → Bool → Bool → String → Text → PresetOp

-- The preset that `CheckPreset` vouches with.
abbrev pub vouched : Checked → Option String
vouched no_match = none
vouched (match r) = some r.preset_id
vouched lookup_failed = none

unfoldable pub preset_op : PresetOp → List PresetRow → List PresetRow × Option String
unfolding create_preset check_preset consume_preset_by_id
preset_op (create_op id now max_allowed fails p) rows =
    ((create_preset id now max_allowed fails p rows).0, none)
preset_op (check_op now query_fails update_fails email phone consumer) rows =
    let r = check_preset now query_fails update_fails email phone consumer rows in
    (r.0, vouched r.1)
preset_op (consume_op now update_fails select_fails id consumer) rows =
    ((consume_preset_by_id now update_fails select_fails id consumer rows).0, none)

-- How often the preset `id` vouches for a guest.
abbrev pub counted : String → Option String → ℕ → ℕ
counted id none n = n
counted id (some j) n = if same j id then suc n else n

unfoldable pub vouches : String → List PresetOp → List PresetRow → ℕ
unfolding preset_op
vouches id [] rows = 0
vouches id (op ∷ ops) rows = let r = preset_op op rows in counted id r.1 (vouches id ops r.0)
