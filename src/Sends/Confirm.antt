-- ===== src/Sends/Confirm.antt =====
-- whatsapp-bridge/sends.go: `handleConfirmSend`, in the phases between which other requests run.
-- ParseJID and SendMessage of whatsmeow, the clock and the database's failures are fields of `ConfirmEnv`;
-- `Normalize` stands for golang.org/x/text behind it.
pub mod Laws
use whatsapp_mcp_plugin.Prelude.{
  ℕ, ◌+◌, String, Bool, true, false, ◌&&◌, ◌||◌, not, Option, none, some, List, [], ◌∷◌, ◌⊎◌, inl,
  inr, same, ltb, if◌then◌else◌,
}
use whatsapp_mcp_plugin.Bytes.{Text, bytes}
use whatsapp_mcp_plugin.Scrub.{scrub}
use whatsapp_mcp_plugin.Sends.{
  Status, draft, confirmed, sent, failed, expired, is_draft, Send, World, MessageRow, Attempt,
  Outbound, conversation, extended_text, reaction, image, video, audio, document, UploadResult,
  Reply, rejected, delivered, Result, ok, err, ◌>>=◌, ◌>>◌, refuse_if, null_string, coalesce,
  find_send, update_send, affects, insert_message, remove_outbound_file,
}
use whatsapp_mcp_plugin.Sends.Media.{
  Host, MediaMessageOpts, MediaResult, done, fail, build_media_message,
}
use whatsapp_mcp_plugin.Sends.Draft.{draft_ttl_seconds, is_file_type}

pub record ConfirmEnv : Type 0 where
  pub connected : Bool
  pub lookup_fails : Bool
  -- `time.Now()` at the TTL check, at the reaction, at the claim and after the send
  pub now : ℕ
  pub now_ms : ℕ
  pub claimed_at : ℕ
  pub sent_at : ℕ
  pub parses_jid : String → Bool
  pub own_jid : Option String
  pub push_name : String
  pub normalize : String → String
  pub expire_fails : Bool
  -- the queries for the message that is quoted or reacted to
  pub message_lookup_fails : Bool
  pub claim_fails : Bool
  -- `SendMessage`: an error text, or the id that WhatsApp gave
  pub send : Outbound → String ⊎ String
  pub mark_failed_fails : Bool
  pub mark_sent_fails : Bool
  pub persist_fails : Bool
  pub remove_fails : Bool

-- What the SELECT and the checks after it come to.
pub data Checked : Type 0 where
  refuse : ℕ → String → Checked
  stale : Send → Checked
  ready : Send → Checked

abbrev pub check_row : ℕ → Send → Checked
check_row now r =
    if not (is_draft r.status)
    then refuse 409 "draft already in another state"
    else if ltb (r.created_at + draft_ttl_seconds) now
    then stale r
    else ready r

unfoldable pub load_draft : ConfirmEnv → String → List Send → Checked
load_draft env id sends =
    if same id ""
    then refuse 400 "draft_id required"
    else if not env.connected
    then refuse 503 "bridge not connected to WhatsApp"
    else if env.lookup_fails
    then refuse 500 "draft lookup failed"
    else elim (find_send id sends) [
      | none ↦ refuse 404 "draft not found"
      | some r ↦ check_row env.now r
    ]

-- `UPDATE sends SET status='expired' WHERE draft_id=?`, whose error is not looked at, and the bytes go.
unfoldable pub expire_draft : ConfirmEnv → Send → World → World
unfolding update_send remove_outbound_file
expire_draft env r w = record w {
  sends =
      if env.expire_fails
      then w.sends
      else update_send r.draft_id (λ _. true) (λ q. record q { status = expired }) w.sends;
  files = remove_outbound_file env.remove_fails (coalesce r.content_file_path) w.files;
}

unfoldable pub find_message : String → List MessageRow → Option MessageRow
find_message id [] = none
find_message id (m ∷ ms) = if same m.id id then some m else find_message id ms

-- The sender of a quoted message: this device, if the message is our own and the device has an
-- identity; a message that is not stored has the empty sender.
abbrev pub quoted_sender : Option String → Option MessageRow → String
quoted_sender own none = ""
quoted_sender none (some m) = m.sender_jid
quoted_sender (some jid) (some m) = if m.is_from_me then jid else m.sender_jid

abbrev pub from_me : Option MessageRow → Bool
from_me none = false
from_me (some m) = m.is_from_me

-- What the query finds; where it fails, its error is not looked at and the variables stay empty.
unfoldable pub looked_up : ConfirmEnv → String → List MessageRow → Option MessageRow
unfolding find_message
looked_up env id messages = if env.message_lookup_fails then none else find_message id messages

abbrev pub media_opts : Send → MediaMessageOpts
media_opts r = record {
  send_type = r.send_type;
  path = coalesce r.content_file_path;
  mime = coalesce r.content_media_mime;
  filename = coalesce r.media_filename;
  caption = r.content_text;
  as_document = r.media_as_document;
  voice_note = r.media_voice_note;
}

-- The switch over the stored `send_type`.
unfoldable pub build_message : Host → ConfirmEnv → Send → List MessageRow → Result Outbound
unfolding looked_up
build_message host env r messages =
    let quoted = coalesce r.quoted_message_id in
    if not (env.parses_jid r.recipient_jid)
    then err 400 "invalid recipient JID"
    else if same r.send_type "text"
    then ok (conversation r.content_text)
    else if same r.send_type "reply_quote"
    then ok (
        extended_text r.content_text quoted
          (quoted_sender env.own_jid (looked_up env quoted messages)))
    else if same r.send_type "reaction"
    then ok (
        reaction r.recipient_jid (from_me (looked_up env quoted messages)) quoted
          (coalesce r.reaction_emoji) env.now_ms)
    else if is_file_type r.send_type
    then elim (build_media_message host (media_opts r)) [
      | done m ↦ ok m
      | fail e ↦ err 502 "media upload failed"
    ]
    else err 500 "unsupported send_type reached confirm"

-- `UPDATE sends SET status='confirmed', confirmed_at=? WHERE draft_id=? AND status='draft'`
unfoldable pub claim : ConfirmEnv → String → World → World
unfolding update_send
claim env id w = record w {
  sends =
      update_send id (λ q. is_draft q.status)
        (λ q. record q { status = confirmed; confirmed_at = some env.claimed_at }) w.sends;
}

-- Whether the claim goes through: the error, the lost race, or the row.
unfoldable pub try_claim : ConfirmEnv → String → World → Result (Unit {0})
unfolding affects
try_claim env id w = do
  refuse_if env.claim_fails 500 "confirm update failed"
  refuse_if (not (affects id (λ q. is_draft q.status) w.sends)) 409
      "race: draft changed state during confirm"

unfoldable pub attempt : Send → Outbound → World → World
attempt r msg w = record w {
  attempts =
      record { draft_id = r.draft_id; recipient = r.recipient_jid; message = msg } ∷ w.attempts;
}

-- The cases of `extractContentFromProto` that the handler's own messages meet: text and type.
unfoldable pub extract_content : Outbound → String × String
extract_content (conversation text) =
    if same text "" then ("[unsupported: conversation]", "system") else (text, "text")
extract_content (extended_text text stanza participant) = (text, "text")
extract_content (reaction remote me id text ts) = (text, "reaction")
extract_content (image caption mime up) = (coalesce caption, "image")
extract_content (video caption mime up) = (coalesce caption, "video")
extract_content (audio mime ptt up) = ("", if ptt then "voice" else "audio")
extract_content (document caption name mime up) = (coalesce caption, "document")

-- `extractDownloadableFieldsFromProto`: the MIME type and the upload result.
unfoldable pub media_fields : Outbound → Option (String × UploadResult)
media_fields (image caption mime up) = some (mime, up)
media_fields (video caption mime up) = some (mime, up)
media_fields (audio mime ptt up) = some (mime, up)
media_fields (document caption name mime up) = some (mime, up)
media_fields _ = none

unfoldable pub archived : ConfirmEnv → Send → Outbound → String → MessageRow
unfolding extract_content media_fields
archived env r msg whatsapp_id =
    let (text, kind) = extract_content msg in
    let (scrubbed, flags) = scrub (bytes text) in
    record {
      id = whatsapp_id;
      chat_jid = r.recipient_jid;
      sender_jid = coalesce env.own_jid;
      sender_display = null_string env.push_name;
      timestamp = env.sent_at;
      type = kind;
      content_text = text;
      content_normalized = env.normalize text;
      is_from_me = true;
      scrubbed_text = scrubbed;
      scrub_flags = flags;
      media = media_fields msg;
    }

-- The writes after a send that failed, `UPDATE … SET status='failed'`.
unfoldable pub record_failed : ConfirmEnv → String → String → World → World
unfolding update_send
record_failed env id message w = if env.mark_failed_fails then w else record w {
  sends =
      update_send id (λ _. true) (λ q. record q { status = failed; error_message = some message })
        w.sends;
}

abbrev pub mark_sent : ConfirmEnv → String → String → List Send → List Send
mark_sent env id whatsapp_id sends =
    if env.mark_sent_fails
    then sends
    else update_send id (λ _. true)
        (λ q. record q {
          status = sent;
          sent_at = some env.sent_at;
          whatsapp_message_id = some whatsapp_id;
        })
        sends

-- The writes after a send that went through: the row, the archive, the bytes.
unfoldable pub record_sent : ConfirmEnv → Send → Outbound → String → World → World
unfolding update_send insert_message remove_outbound_file archived
record_sent env r msg whatsapp_id w = record w {
  sends = mark_sent env r.draft_id whatsapp_id w.sends;
  messages =
      if env.persist_fails
      then w.messages
      else insert_message (archived env r msg whatsapp_id) w.messages;
  files = remove_outbound_file env.remove_fails (coalesce r.content_file_path) w.files;
}

-- From the claim on: the send, and what is written of it.
unfoldable pub deliver : ConfirmEnv → Send → Outbound → World → Reply × World
unfolding attempt record_failed record_sent
deliver env r msg w = elim (env.send msg) [
  | inl message ↦
      (rejected 502 "send failed", record_failed env r.draft_id message (attempt r msg w))
  | inr whatsapp_id ↦ (
    delivered r.draft_id whatsapp_id env.sent_at,
    record_sent env r msg whatsapp_id (attempt r msg w),
  )
]

unfoldable pub confirm_ready : Host → ConfirmEnv → Send → World → Reply × World
unfolding build_message claim try_claim deliver
confirm_ready host env r w = elim (build_message host env r w.messages) [
  | err code message ↦ (rejected code message, w)
  | ok msg ↦ elim (try_claim env r.draft_id w) [
    | err code message ↦ (rejected code message, w)
    | ok _ ↦ deliver env r msg (claim env r.draft_id w)
  ]
]

-- `handleConfirmSend` with no other request between its phases.
unfoldable pub confirm_send : Host → ConfirmEnv → String → World → Reply × World
unfolding load_draft expire_draft confirm_ready
confirm_send host env id w = elim (load_draft env id w.sends) [
  | refuse code message ↦ (rejected code message, w)
  | stale r ↦ (rejected 410 "draft expired", expire_draft env r w)
  | ready r ↦ confirm_ready host env r w
]
