-- ===== src/Calls/Outcome.antt =====
-- The outcome of a call (whatsapp-bridge/bridge.go, whatsapp-bridge/call_result.go).
use whatsapp_mcp_plugin.Prelude.{
  ℕ, ◌≡◌, refl, map, sym, ap, ◌∙◌, inl, inr, String, Bool, true, false, Option, none, some, List,
  [], ◌∷◌, ◌++◌, any, update_rows, same_refl, if◌then◌else◌, if-cases, Bool-cases, arith,
}
use whatsapp_mcp_plugin.Bytes.{is_blank, Text, bytes, equal, to_lower, trim_space}
use whatsapp_mcp_plugin.Calls.{
  CallRow, is_call_result, wire_reason_to_result, result_of, call_result_from_wire_reason, has_id,
  insert_call, on_call_offer, update_call, on_call_terminate, find_call,
}

-- Every result in the table is one that the column allows.
abbrev AllAllowed : List (Text × Text) → Type 0
AllAllowed [] = Unit
AllAllowed ((wire, result) ∷ table) = (is_call_result result ≡ true) × AllAllowed table

table-AllAllowed : AllAllowed wire_reason_to_result
unfolding wire_reason_to_result is_call_result equal
table-AllAllowed = (
  refl,
  (
    refl,
    (
      refl,
      (
        refl,
        (
          refl,
          (
            refl,
            (refl, (refl, (refl, (refl, (refl, (refl, (refl, (refl, (refl, (refl, tt)))))))))),
          ),
        ),
      ),
    ),
  ),
)

unknown-allowed : is_call_result (bytes "unknown") ≡ true
unfolding is_call_result bytes equal
unknown-allowed = refl

ended-allowed : is_call_result (bytes "ended") ≡ true
unfolding is_call_result bytes equal
ended-allowed = refl

offered-allowed : is_call_result (bytes "offered") ≡ true
unfolding is_call_result bytes equal
offered-allowed = refl

result_of-allowed :
    (reason : Text) (table : List (Text × Text))
    → AllAllowed table
    → is_call_result (result_of reason table) ≡ true
unfolding result_of
result_of-allowed reason [] h = unknown-allowed
result_of-allowed reason ((wire, result) ∷ table) (here, rest) =
    if-cases (λ t. is_call_result t ≡ true) (equal wire reason) result (result_of reason table)
      (λ e. here) (λ e. result_of-allowed reason table rest)

wire_reason-allowed :
    (reason : Text) → is_call_result (call_result_from_wire_reason reason).0 ≡ true
unfolding call_result_from_wire_reason
wire_reason-allowed reason = elim (Bool-cases (is_blank (trim_space reason))) [
  | inl e ↦ rw e ended-allowed
  | inr e ↦
      rw e (result_of-allowed (to_lower (trim_space reason)) wire_reason_to_result table-AllAllowed)
]

abbrev changed : Text → Option Text → Option CallRow → Option CallRow
changed result raw none = none
changed result raw (some r) = some (record r { result = result; result_raw = raw })

first_is :
    (id : String) (q : CallRow) (rows : List CallRow)
    → has_id id q ≡ true
    → find_call id (q ∷ rows) ≡ some q
unfolding find_call
first_is id q rows e = rw e refl

find_call-update_rows :
    (id : String) (result : Text) (raw : Option Text) (rows : List CallRow) (r : CallRow)
    → find_call id rows ≡ some r
    → find_call id
        (update_rows (has_id id) (λ q. record q { result = result; result_raw = raw }) rows)
      ≡ some (record r { result = result; result_raw = raw })
unfolding find_call update_rows
find_call-update_rows id result raw [] r h = ground (arith, h)
find_call-update_rows id result raw (q ∷ rows) r h = elim (Bool-cases (has_id id q)) [
  | inl e ↦ rw e (rw e (ap (changed result raw) (sym (first_is id q rows e) ∙ h)))
  | inr e ↦ rw e (rw e (find_call-update_rows id result raw rows r (ground (arith, h, e))))
]

abbrev pub is_one_of : Text → List String → Bool
is_one_of word words = any (λ (w : String). equal (bytes w) word) words

-- What a word that WhatsApp gives as the reason says of the call, in lower case and without spaces around it.
abbrev pub meaning : Text → Text
meaning word =
    if is_one_of word ("timeout" ∷ [])
    then bytes "missed"
    else if is_one_of word ("reject" ∷ "rejected" ∷ "decline" ∷ "declined" ∷ [])
    then bytes "rejected"
    else if is_one_of word ("accept" ∷ "accepted" ∷ "answered" ∷ [])
    then bytes "answered"
    else if is_one_of word ("hangup" ∷ "bye" ∷ "end" ∷ "ended" ∷ [])
    then bytes "ended"
    else if is_one_of word ("connection-lost" ∷ "connection_lost" ∷ "failed" ∷ "error" ∷ [])
    then bytes "failed"
    else bytes "unknown"

module _ (word : Text) where
  -- The part of the table that gives one result
  result_of-group :
      (words : List String) (result : Text) (table : List (Text × Text))
      → result_of word (map (λ (w : String). (bytes w, result)) words ++ table)
        ≡ (if is_one_of word words then result else result_of word table)
  unfolding result_of
  result_of-group [] result table = refl
  result_of-group (w ∷ words) result table = ground (arith, result_of-group words result table)

  abbrev entries : List String → Text → List (Text × Text)
  entries words result = map (λ (w : String). (bytes w, result)) words

  result_of-meaning : result_of word wire_reason_to_result ≡ meaning word
  unfolding wire_reason_to_result result_of
  result_of-meaning =
      let m = "timeout" ∷ [] in
      let r = "reject" ∷ "rejected" ∷ "decline" ∷ "declined" ∷ [] in
      let a = "accept" ∷ "accepted" ∷ "answered" ∷ [] in
      let e = "hangup" ∷ "bye" ∷ "end" ∷ "ended" ∷ [] in
      let f = "connection-lost" ∷ "connection_lost" ∷ "failed" ∷ "error" ∷ [] in
      let failing = entries f (bytes "failed") ++ [] in
      let ending = entries e (bytes "ended") ++ failing in
      let answering = entries a (bytes "answered") ++ ending in
      let rejecting = entries r (bytes "rejected") ++ answering in
      let failing_at = result_of-group f (bytes "failed") [] in
      let ending_at =
        result_of-group e (bytes "ended") failing
        ∙ ap (λ t. if is_one_of word e then bytes "ended" else t) failing_at in
      let answering_at =
        result_of-group a (bytes "answered") ending
        ∙ ap (λ t. if is_one_of word a then bytes "answered" else t) ending_at in
      let rejecting_at =
        result_of-group r (bytes "rejected") answering
        ∙ ap (λ t. if is_one_of word r then bytes "rejected" else t) answering_at in
      result_of-group m (bytes "missed") rejecting
      ∙ ap (λ t. if is_one_of word m then bytes "missed" else t) rejecting_at

-- A row with the outcome of a call: what the reason says and the reason as it came, or for a blank reason
-- 'ended' and no reason.
abbrev pub with_outcome : Text → CallRow → CallRow
with_outcome reason r =
    if is_blank (trim_space reason)
    then record r { result = bytes "ended"; result_raw = none }
    else record r { result = meaning (to_lower (trim_space reason)); result_raw = some reason }

outcome-row :
    (reason : Text) (r : CallRow)
    → record r {
      result = (call_result_from_wire_reason reason).0;
      result_raw = (call_result_from_wire_reason reason).1;
    }
      ≡ with_outcome reason r
unfolding call_result_from_wire_reason
outcome-row reason r = elim (Bool-cases (is_blank (trim_space reason))) [
  | inl e ↦ rw e refl
  | inr e ↦ rw e (
      ap (λ t. record r { result = t; result_raw = some reason })
        (result_of-meaning (to_lower (trim_space reason))))
]

-- The row of the call.
pub record Found (id : String) (rows : List CallRow) : Type 0 where
  pub row : CallRow
  pub found : find_call id rows ≡ some row

find_call-known : (id : String) (rows : List CallRow) → any (has_id id) rows ≡ true → Found id rows
unfolding find_call
find_call-known id [] h = record {
  row = record {
    id = id;
    chat_jid = "";
    caller_jid = "";
    timestamp = 0;
    result = [];
    result_raw = none;
  };
  found = ground (arith, h);
}
find_call-known id (r ∷ rows) h = elim (Bool-cases (has_id id r)) [
  | inl e ↦ record { row = r; found = rw e refl }
  | inr e ↦
      let later = find_call-known id rows (ground (arith, h, e)) in
      record { row = later.row; found = rw e later.found }
]

find_call-new :
    (row : CallRow) (rows : List CallRow)
    → any (has_id row.id) rows ≡ false
    → find_call row.id (rows ++ row ∷ []) ≡ some row
unfolding find_call
find_call-new row [] h = rw (same_refl row.id) refl
find_call-new row (r ∷ rows) h = ground (arith, h, find_call-new row rows)

insert_call-Found :
    (row : CallRow) (rows : List CallRow)
    → is_call_result row.result ≡ true
    → Found row.id (insert_call row rows)
unfolding insert_call
insert_call-Found row rows allowed = elim (Bool-cases (any (has_id row.id) rows)) [
  | inl e ↦ rw (allowed, e) (find_call-known row.id rows e)
  | inr e ↦ rw (allowed, e) (record { row = row; found = find_call-new row rows e })
]

on_call_offer-Found :
    (id creator : String) (ts : ℕ) (rows : List CallRow)
    → Found id (on_call_offer true false id creator ts rows)
unfolding on_call_offer
on_call_offer-Found id creator ts rows =
    insert_call-Found
      (record {
        id = id;
        chat_jid = creator;
        caller_jid = creator;
        timestamp = ts;
        result = bytes "offered";
        result_raw = none;
      })
      rows offered-allowed

-- A call that is offered and then terminated, with its two statements going through.
pub record Recorded (id : String) (reason : Text) (offered ended : List CallRow) : Type 0 where
  pub row : CallRow
  pub is_offered : find_call id offered ≡ some row
  pub is_ended : find_call id ended ≡ some (with_outcome reason row)

-- Whatever reason WhatsApp names, the CHECK of the column refuses neither statement: after the offer
-- of a call it has a row, and after its end that row has the result that the reason says, by `meaning`, and
-- the reason as it came; where the reason is blank it has the result 'ended' and no reason.
pub on_call_terminate-Recorded :
    (id creator : String) (ts : ℕ) (reason : Text) (rows : List CallRow)
    → Recorded id reason
        (on_call_offer true false id creator ts rows)
        (on_call_terminate true false id reason (on_call_offer true false id creator ts rows))
unfolding on_call_terminate update_call
on_call_terminate-Recorded id creator ts reason rows =
    let offered = on_call_offer true false id creator ts rows in
    let there = on_call_offer-Found id creator ts rows in
    let outcome = call_result_from_wire_reason reason in
    let ended =
      update_rows (has_id id) (λ q. record q { result = outcome.0; result_raw = outcome.1 })
        offered in
    record {
      row = there.row;
      is_offered = there.found;
      is_ended =
          ap (λ b. find_call id (if b then ended else offered)) (wire_reason-allowed reason)
          ∙ find_call-update_rows id outcome.0 outcome.1 offered there.row there.found
          ∙ ap some (outcome-row reason there.row);
    }
