-- ===== src/Tests/Exporting.antt =====
-- Two chats of one name, beside a file of the user's.
use whatsapp_mcp_plugin.Prelude.{◌≡◌, refl, false, List, [], ◌∷◌, map}
use whatsapp_mcp_plugin.Bytes.{to_lower, Text, bytes}
use whatsapp_mcp_plugin.Vault.{
  Unicode, ExportUnit, Planned, sanitize_filename, is_windows_reserved_name, assign_filenames,
  plan_filenames, unit_name,
}
use whatsapp_mcp_plugin.Vault.Safe.{IsSafe, sanitize_filename-IsSafe}
use whatsapp_mcp_plugin.Vault.Distinct.{PlanOf, plan_filenames-PlanOf}

-- Texts whose only letters are those of ASCII.
abbrev ascii : Unicode
ascii = record { nfc = λ s. s; lower = to_lower }

abbrev first : ExportUnit
first = record {
  primary = bytes "49170@s.whatsapp.net";
  chat_type = bytes "direct";
  display = bytes "Ada";
  phone = bytes "49170";
}

abbrev second : ExportUnit
second = record {
  primary = bytes "7@lid";
  chat_type = bytes "direct";
  display = bytes "ada";
  phone = [];
}

abbrev units : List ExportUnit
units = first ∷ second ∷ []

-- The notes "ada.md" and "Ada (7).md" are in the way.
abbrev taken : List Text
taken = bytes "ada" ∷ bytes "ada (7)" ∷ []

names_run :
    map (λ (p : Planned). unit_name ascii p.unit p.level) (assign_filenames ascii taken units)
    ≡ bytes "Ada (+49170)" ∷ bytes "ada (7@lid)" ∷ []
unfolding assign_filenames unit_name bytes to_lower
names_run = refl

-- The stem of a name with a dot in it is not looked at.
dotted_device : is_windows_reserved_name (bytes "NUL.x") ≡ false
unfolding is_windows_reserved_name bytes
dotted_device = refl

sanitize_run : sanitize_filename ascii (bytes "../com1. ") ≡ bytes "..-com1"
unfolding sanitize_filename bytes
sanitize_run = refl

sanitize_filename-IsSafe_example : IsSafe (sanitize_filename ascii (bytes "com1. "))
sanitize_filename-IsSafe_example = sanitize_filename-IsSafe ascii (bytes "com1. ")

plan_filenames-PlanOf_example : PlanOf ascii taken units (plan_filenames ascii taken units)
plan_filenames-PlanOf_example = plan_filenames-PlanOf ascii taken units
