-- ===== src/Tests/Vouching.antt =====
-- A preset for a guest that arrives twice.
use whatsapp_mcp_plugin.Prelude.{◌≤◌, ◌≡◌, refl, false, some, List, [], ◌∷◌}
use whatsapp_mcp_plugin.Bytes.{bytes}
use whatsapp_mcp_plugin.Presets.{Preset, PresetRow, preset_error, create_preset, too_far}
use whatsapp_mcp_plugin.Presets.Lookup.{PresetOp, create_op, check_op, consume_op, vouches}
use whatsapp_mcp_plugin.Presets.Once.{vouches_once}

abbrev ada : Preset
ada = record {
  guest_email = bytes " Ada@Example.org";
  guest_phone = bytes "+49 170 1234567";
  guest_name = bytes "Ada";
  context = bytes "met at the fair";
  relationship = bytes "Media";
  expires_at = 2000;
}

abbrev ops : List PresetOp
ops =
    create_op "p1" 1000 90000 false ada
    ∷ check_op 1001 false false [] (bytes "0170 1234567") (bytes "10.0.0.1")
    ∷ check_op 1002 false false (bytes "ada@example.org") [] (bytes "10.0.0.1")
    ∷ consume_op 1003 false false "p1" (bytes "10.0.0.1")
    ∷ []

abbrev ops_by_email : List PresetOp
ops_by_email =
    create_op "p1" 1000 90000 false ada
    ∷ check_op 1002 false false (bytes "ada@example.org") [] (bytes "10.0.0.1")
    ∷ check_op 1002 false false (bytes "ada@example.org") [] (bytes "10.0.0.1")
    ∷ []

by_email_run : vouches "p1" ops_by_email [] ≡ 1
unfolding vouches
by_email_run = refl

ada_too_far : preset_error 1000 1500 ada ≡ some too_far
unfolding preset_error
ada_too_far = refl

abbrev rows : List PresetRow
rows = (create_preset "p1" 1000 90000 false ada []).0

vouches_once_example : vouches "p1" ops [] ≤ 1
vouches_once_example = vouches_once "p1" ops [] (tt, (refl, (refl, (tt, tt))))
