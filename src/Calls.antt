-- ===== src/Calls.antt =====
-- The table of calls: `onCallOffer` and `onCallTerminate` of whatsapp-bridge/bridge.go and
-- whatsapp-bridge/call_result.go. The columns that are constants are left out.
pub mod Outcome
use whatsapp_mcp_plugin.Prelude.{
  ℕ, String, Bool, true, false, not, ◌||◌, Option, none, some, List, [], ◌∷◌, ◌++◌, any,
  update_rows, same, if◌then◌else◌,
}
use whatsapp_mcp_plugin.Bytes.{is_blank, Text, bytes, equal, to_lower, trim_space}

pub record CallRow : Type 0 where
  pub id : String
  pub chat_jid : String
  pub caller_jid : String
  pub timestamp : ℕ
  pub result : Text
  pub result_raw : Option Text

-- The values of `callResultOffered` and its kin, which the CHECK of the column allows.
unfoldable pub call_results : List Text
unfolding bytes
call_results =
    bytes "offered"
    ∷ bytes "answered"
    ∷ bytes "missed"
    ∷ bytes "rejected"
    ∷ bytes "ended"
    ∷ bytes "failed"
    ∷ bytes "unknown"
    ∷ []

unfoldable pub is_call_result : Text → Bool
unfolding call_results equal
is_call_result result = any (equal result) call_results

-- `wireReasonToResult`
unfoldable pub wire_reason_to_result : List (Text × Text)
unfolding bytes
wire_reason_to_result =
    (bytes "timeout", bytes "missed")
    ∷ (bytes "reject", bytes "rejected")
    ∷ (bytes "rejected", bytes "rejected")
    ∷ (bytes "decline", bytes "rejected")
    ∷ (bytes "declined", bytes "rejected")
    ∷ (bytes "accept", bytes "answered")
    ∷ (bytes "accepted", bytes "answered")
    ∷ (bytes "answered", bytes "answered")
    ∷ (bytes "hangup", bytes "ended")
    ∷ (bytes "bye", bytes "ended")
    ∷ (bytes "end", bytes "ended")
    ∷ (bytes "ended", bytes "ended")
    ∷ (bytes "connection-lost", bytes "failed")
    ∷ (bytes "connection_lost", bytes "failed")
    ∷ (bytes "failed", bytes "failed")
    ∷ (bytes "error", bytes "failed")
    ∷ []

-- The result of the reason, or `callResultUnknown`.
unfoldable pub result_of : Text → List (Text × Text) → Text
unfolding equal bytes
result_of reason [] = bytes "unknown"
result_of reason ((wire, result) ∷ table) =
    let rest = result_of reason table in if equal wire reason then result else rest

-- `callResultFromWireReason`
unfoldable pub call_result_from_wire_reason : Text → Text × Option Text
unfolding trim_space to_lower result_of wire_reason_to_result bytes
call_result_from_wire_reason reason =
    if is_blank (trim_space reason)
    then (bytes "ended", none)
    else (result_of (to_lower (trim_space reason)) wire_reason_to_result, some reason)

abbrev pub has_id : String → CallRow → Bool
has_id id r = same r.id id

-- `INSERT ... ON CONFLICT(id) DO NOTHING`, which the CHECK may refuse
unfoldable pub insert_call : CallRow → List CallRow → List CallRow
unfolding is_call_result
insert_call row rows =
    if not (is_call_result row.result) || any (has_id row.id) rows then rows else rows ++ row ∷ []

-- `onCallOffer`
unfoldable pub on_call_offer : Bool → Bool → String → String → ℕ → List CallRow → List CallRow
unfolding insert_call bytes
on_call_offer capture fails id creator ts rows =
    let row : CallRow = record {
      id = id;
      chat_jid = creator;
      caller_jid = creator;
      timestamp = ts;
      result = bytes "offered";
      result_raw = none;
    } in
    if not capture || fails then rows else insert_call row rows

-- `UPDATE calls SET result = ?, result_raw = ? WHERE id = ?`, which the CHECK may refuse
unfoldable pub update_call : String → Text × Option Text → List CallRow → List CallRow
unfolding is_call_result update_rows
update_call id (result, raw) rows =
    if is_call_result result
    then update_rows (has_id id) (λ r. record r { result = result; result_raw = raw }) rows
    else rows

-- `onCallTerminate`
unfoldable pub on_call_terminate : Bool → Bool → String → Text → List CallRow → List CallRow
unfolding update_call call_result_from_wire_reason
on_call_terminate capture fails id reason rows =
    if not capture || fails then rows else update_call id (call_result_from_wire_reason reason) rows

unfoldable pub find_call : String → List CallRow → Option CallRow
find_call id [] = none
find_call id (r ∷ rows) = let rest = find_call id rows in if has_id id r then some r else rest
