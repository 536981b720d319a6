-- ===== src/Tests/Calling.antt =====
-- Calls that are declined, and one whose reason is new.
use whatsapp_mcp_plugin.Prelude.{◌≡◌, refl, true, false, some, List, []}
use whatsapp_mcp_plugin.Bytes.{bytes}
use whatsapp_mcp_plugin.Calls.{
  CallRow, call_result_from_wire_reason, on_call_offer, on_call_terminate,
}
use whatsapp_mcp_plugin.Calls.Outcome.{Recorded, on_call_terminate-Recorded}

declined_is_rejected :
    call_result_from_wire_reason (bytes " Decline ") ≡ (bytes "rejected", some (bytes " Decline "))
unfolding call_result_from_wire_reason bytes
declined_is_rejected = refl

busy_is_unknown :
    call_result_from_wire_reason (bytes "busy") ≡ (bytes "unknown", some (bytes "busy"))
unfolding call_result_from_wire_reason bytes
busy_is_unknown = refl

abbrev calls : List CallRow
calls = on_call_offer true false "c0" "1@s.whatsapp.net" 5 []

on_call_terminate-Recorded_example :
    Recorded "c1" (bytes "busy") (on_call_offer true false "c1" "49170@s.whatsapp.net" 10 calls) (
      on_call_terminate true false "c1"
        (bytes "busy")
        (on_call_offer true false "c1" "49170@s.whatsapp.net" 10 calls))
on_call_terminate-Recorded_example =
    on_call_terminate-Recorded "c1" "49170@s.whatsapp.net" 10 (bytes "busy") calls
