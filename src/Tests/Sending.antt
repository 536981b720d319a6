-- ===== src/Tests/Sending.antt =====
-- A text draft, its confirm, and an interrupted one, on a concrete machine.
use whatsapp_mcp_plugin.Prelude.{◌≤◌, ◌≡◌, refl, ◌⊎◌, inr, true, false, Option, none, some, [], ◌∷◌}
use whatsapp_mcp_plugin.Sends.{
  Send, World, conversation, draft, confirmed, ok, rejected, delivered, find_send,
}
use whatsapp_mcp_plugin.Sends.Media.{Host, DraftRequest}
use whatsapp_mcp_plugin.Sends.Draft.{DraftEnv, create_draft, validate, new_row, no_file, preview}
use whatsapp_mcp_plugin.Sends.Draft.Laws.{shown, Refused, Accepted, create_draft_cases}
use whatsapp_mcp_plugin.Sends.Confirm.{
  ConfirmEnv, confirm_send, load_draft, build_message, extract_content, archived, attempt, claim,
  try_claim,
}
use whatsapp_mcp_plugin.Sends.Confirm.Laws.{Declined, Expired, Delivered, confirm_send_cases}
use whatsapp_mcp_plugin.Sends.Approved.{build_message-approved}
use whatsapp_mcp_plugin.Sends.Reconcile.{ReconcileEnv, reconcile}
use whatsapp_mcp_plugin.Sends.Reconcile.Laws.{settle_confirmed, reconcile-map}
use whatsapp_mcp_plugin.Sends.System.{
  Flight, flying, System, Reach, here, next, create, start, move, start_state, empty_world, loaded,
  built, claimed, advance,
}
use whatsapp_mcp_plugin.Sends.System.Once.{attempts_of, sent_at_most_once}

abbrev host : Host
host = record {
  stat = λ _. none;
  read_file = λ _. none;
  decode_base64 = λ _. none;
  fetch = λ _ _. none;
  detect_content_type = λ _. "application/octet-stream";
  type_by_extension = λ _. "";
  extension_by_type = λ _. "";
  clean = λ s. s;
  base = λ s. s;
  ext = λ _. "";
  join = λ d f. f;
  lower = λ s. s;
  trim = λ s. s;
  outbound_dir = "outbound";
  makes_dir = true;
  writes = λ _. true;
  transcode = λ _. none;
  upload = λ _ _. none;
}

abbrev request : DraftRequest
request = record {
  send_type = "text";
  recipient_jid = "34600@s.whatsapp.net";
  text = "hola";
  quoted_message_id = "";
  reaction_emoji = "";
  reaction_target = "";
  file_path = "";
  file_base64 = "";
  file_url = "";
  filename = "";
  media_mime = "";
  caption = "";
  as_document = false;
  voice_note = false;
}

abbrev draft_env : DraftEnv
draft_env = record {
  draft_id = "d1";
  now = 1000;
  contacts_fail = false;
  insert_fails = false;
  remove_fails = false;
}

abbrev confirm_env : ConfirmEnv
confirm_env = record {
  connected = true;
  lookup_fails = false;
  now = 1100;
  now_ms = 1100000;
  claimed_at = 1101;
  sent_at = 1102;
  parses_jid = λ _. true;
  own_jid = none;
  push_name = "";
  normalize = λ s. s;
  expire_fails = false;
  message_lookup_fails = false;
  claim_fails = false;
  send = λ _. inr "wamid1";
  mark_failed_fails = false;
  mark_sent_fails = false;
  persist_fails = false;
  remove_fails = false;
}

abbrev row : Send
row = record {
  draft_id = "d1";
  recipient_jid = "34600@s.whatsapp.net";
  recipient_display = "34600@s.whatsapp.net";
  send_type = "text";
  content_text = "hola";
  content_file_path = none;
  content_media_mime = none;
  media_filename = none;
  media_as_document = false;
  media_voice_note = false;
  quoted_message_id = none;
  reaction_emoji = none;
  status = draft;
  created_at = 1000;
  confirmed_at = none;
  sent_at = none;
  whatsapp_message_id = none;
  error_message = none;
}

abbrev drafted_world : World
drafted_world = record empty_world { sends = row ∷ [] }

abbrev request_body : Option DraftRequest
request_body = some request

drafted_run : (create_draft host draft_env request_body empty_world).1 ≡ drafted_world
unfolding create_draft
drafted_run = refl

delivered_run : (confirm_send host confirm_env "d1" drafted_world).0 ≡ delivered "d1" "wamid1" 1102
unfolding confirm_send find_send
delivered_run = refl

-- The same draft cannot be confirmed again.
twice_run :
    (confirm_send host confirm_env "d1" (confirm_send host confirm_env "d1" drafted_world).1).0
    ≡ rejected 409 "draft already in another state"
unfolding confirm_send find_send
twice_run = refl

create_draft_cases_example :
    Refused empty_world (create_draft host draft_env request_body empty_world)
    ⊎ Accepted host draft_env request_body empty_world
        (create_draft host draft_env request_body empty_world)
create_draft_cases_example = create_draft_cases host draft_env request_body empty_world

confirm_send_cases_example :
    Declined drafted_world (confirm_send host confirm_env "d1" drafted_world)
    ⊎ Expired confirm_env "d1" drafted_world (confirm_send host confirm_env "d1" drafted_world)
    ⊎ Delivered host confirm_env "d1" drafted_world
        (confirm_send host confirm_env "d1" drafted_world)
confirm_send_cases_example = confirm_send_cases host confirm_env "d1" drafted_world

request-valid : validate request_body ≡ ok request
unfolding validate
request-valid = refl

request-built :
    build_message host confirm_env (new_row draft_env request "Ana" no_file) []
    ≡ ok (conversation "hola")
unfolding build_message new_row
request-built = refl

build_message-approved_example :
    ((extract_content (conversation "hola")).0 ≡ "hola")
    × (preview host request no_file
        ≡ shown host request no_file (extract_content (conversation "hola")).0)
    × ((archived confirm_env
          (new_row draft_env request "Ana" no_file)
          (conversation "hola")
          "wamid1").content_text
        ≡ "hola")
build_message-approved_example =
    build_message-approved host draft_env confirm_env request_body request "Ana" no_file []
      (conversation "hola") "wamid1" request-valid refl request-built

abbrev stuck_world : World
stuck_world = record empty_world { sends = record row { status = confirmed } ∷ row ∷ [] }

abbrev clean_start : ReconcileEnv
clean_start = record { query_fails = false; update_fails = λ _. false; remove_fails = λ _. false }

reconcile-map_example :
    ((reconcile clean_start stuck_world).0 ≡ inr 1)
    × ((reconcile clean_start stuck_world).1.sends
        ≡ settle_confirmed (record row { status = confirmed }) ∷ row ∷ [])
    × ((reconcile clean_start stuck_world).1.attempts ≡ [])
reconcile-map_example = reconcile-map clean_start stuck_world refl (λ _. refl)

-- The draft is created, read, built, claimed and handed to WhatsApp.
abbrev moved : Flight → System → System
moved f s = record {
  world = (advance host confirm_env f s.world).1;
  flights = flying (advance host confirm_env f s.world).0 [];
}

abbrev drafted_system : System
drafted_system = record { world = drafted_world; flights = [] }

abbrev read_system : System
read_system = record { world = drafted_world; flights = loaded row ∷ [] }

abbrev sent_system : System
sent_system =
    moved (claimed row (conversation "hola"))
      (moved (built row (conversation "hola")) (moved (loaded row) read_system))

drafted_system-Reach : Reach start_state drafted_system
unfolding create_draft
drafted_system-Reach = next here (create host draft_env request_body refl)

read_system-Reach : Reach start_state read_system
unfolding load_draft find_send
read_system-Reach = next drafted_system-Reach (start confirm_env "d1" row refl refl)

sent_system-Reach : Reach start_state sent_system
unfolding advance build_message try_claim
sent_system-Reach =
    next
      (next (next read_system-Reach (move host confirm_env [] (loaded row) [] refl refl))
        (move host confirm_env [] (built row (conversation "hola")) [] refl refl))
      (move host confirm_env [] (claimed row (conversation "hola")) [] refl refl)

sent_system_attempts : attempts_of "d1" sent_system.world.attempts ≡ 1
unfolding attempts_of advance attempt try_claim build_message claim
sent_system_attempts = refl

sent_at_most_once_example : attempts_of "d1" sent_system.world.attempts ≤ 1
sent_at_most_once_example = sent_at_most_once "d1" sent_system-Reach
