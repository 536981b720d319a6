-- ===== src/Presets.antt =====
-- The presets of prospect-api (presets.go, presets_byid.go): records that vouch for a guest and are used
-- once. The clock, the new id and the failures of statements are arguments.
pub mod Lookup
pub mod Once
pub mod Newest
use whatsapp_mcp_plugin.Prelude.{
  ℕ, ◌-◌, String, Bool, true, false, ◌&&◌, ◌||◌, not, Option, none, some, List, [], ◌∷◌, ◌++◌, any,
  update_rows, same, leb, ltb, length, drop, if◌then◌else◌,
}
use whatsapp_mcp_plugin.Bytes.{
  is_blank, Text, bytes, digits_only, equal, contains, to_lower, trim_space,
}

-- A row of the table `presets`.
pub record PresetRow : Type 0 where
  pub preset_id : String
  pub guest_email : Option Text
  pub guest_phone : Option Text
  pub guest_name : Text
  pub context : Text
  pub relationship : Text
  pub created_at : ℕ
  pub expires_at : ℕ
  pub consumed_at : Option ℕ
  pub consumed_by : Option Text

-- The fields of `Preset` that `CreatePreset` reads.
pub record Preset : Type 0 where
  pub guest_email : Text
  pub guest_phone : Text
  pub guest_name : Text
  pub context : Text
  pub relationship : Text
  pub expires_at : ℕ

pub data PresetError : Type 0 where
  guest_name_required : PresetError
  contact_required : PresetError
  context_required : PresetError
  context_too_long : PresetError
  unknown_relationship : PresetError
  not_in_future : PresetError
  too_far : PresetError
  preset_id_required : PresetError
  statement_failed : PresetError

-- `NormalizeEmail`
unfoldable pub normalize_email : Text → Text
unfolding to_lower trim_space
normalize_email s = to_lower (trim_space s)

-- `nullIfEmpty`
abbrev pub null_if_empty : Text → Option Text
null_if_empty [] = none
null_if_empty (c ∷ s) = some (c ∷ s)

abbrev pub context_max_len : ℕ
context_max_len = 500

-- The keys of `validRelationships`.
abbrev pub valid_relationships : List Text
valid_relationships =
    bytes "personal"
    ∷ bytes "professional"
    ∷ bytes "investor"
    ∷ bytes "media"
    ∷ bytes "press"
    ∷ bytes "speaking"
    ∷ []

unfoldable pub is_valid_relationship : Text → Bool
unfolding equal to_lower bytes
is_valid_relationship s = any (equal (to_lower s)) valid_relationships

-- The checks of `CreatePreset`, in order; `max_allowed` is thirty days from `now`.
unfoldable pub preset_error : ℕ → ℕ → Preset → Option PresetError
unfolding is_valid_relationship
preset_error now max_allowed p =
    if is_blank p.guest_name
    then some guest_name_required
    else if is_blank p.guest_email && is_blank p.guest_phone
    then some contact_required
    else if is_blank p.context
    then some context_required
    else if ltb context_max_len (length p.context)
    then some context_too_long
    else if not (is_valid_relationship p.relationship)
    then some unknown_relationship
    else if leb p.expires_at now
    then some not_in_future
    else if ltb max_allowed p.expires_at
    then some too_far
    else none

unfoldable pub preset_row : String → ℕ → Preset → PresetRow
unfolding normalize_email digits_only to_lower
preset_row id now p = record {
  preset_id = id;
  guest_email = null_if_empty (normalize_email p.guest_email);
  guest_phone = null_if_empty (digits_only p.guest_phone);
  guest_name = p.guest_name;
  context = p.context;
  relationship = to_lower p.relationship;
  created_at = now;
  expires_at = p.expires_at;
  consumed_at = none;
  consumed_by = none;
}

pub data Created : Type 0 where
  created : String → Created
  refused : PresetError → Created

abbrev pub has_id : String → PresetRow → Bool
has_id id r = same r.preset_id id

-- The INSERT, where there is no error; the primary key refuses an id that is there.
unfoldable pub insert_preset :
    String → ℕ → Bool → Preset → List PresetRow → Option PresetError → List PresetRow × Created
unfolding preset_row
insert_preset id now fails p rows (some e) = (rows, refused e)
insert_preset id now fails p rows none =
    if fails || any (has_id id) rows
    then (rows, refused statement_failed)
    else (rows ++ preset_row id now p ∷ [], created id)

-- `CreatePreset`
unfoldable pub create_preset :
    String → ℕ → ℕ → Bool → Preset → List PresetRow → List PresetRow × Created
unfolding preset_error insert_preset
create_preset id now max_allowed fails p rows =
    insert_preset id now fails p rows (preset_error now max_allowed p)
