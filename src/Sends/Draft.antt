-- ===== src/Sends/Draft.antt =====
-- whatsapp-bridge/sends.go: `handleCreateDraft` and `resolveRecipient`.
pub mod Laws
pub mod Kinds
use Prim.Native.String.{◌++◌ as str_append}
use whatsapp_mcp_plugin.Bytes.{Text, bytes}
use whatsapp_mcp_plugin.Prelude.{
  ℕ, ◌+◌, String, Bool, true, false, ◌&&◌, ◌||◌, not, Option, none, some, List, [], ◌∷◌, ◌++◌,
  length, take, same, any, leb, ltb, ◌==◌, if◌then◌else◌,
}
use whatsapp_mcp_plugin.Sends.{
  Status, draft, Send, World, Contact, Reply, rejected, drafted, Result, ok, err, ◌>>=◌, ◌>>◌,
  refuse_if, null_string, insert_send, remove_outbound_file,
}
use whatsapp_mcp_plugin.Sends.Media.{
  Host, DraftRequest, OutboundFile, MediaResult, done, fail, file_source_count,
  materialize_outbound_file,
}

abbrev pub draft_ttl_seconds : ℕ
draft_ttl_seconds = 3600

abbrev pub is_file_type : String → Bool
is_file_type send_type = same send_type "file" || same send_type "audio"

-- The cases of the switch over `send_type`.
unfoldable pub validate_type : String → DraftRequest → Result (Unit {0})
unfolding file_source_count
validate_type send_type req =
    if same send_type "text"
    then refuse_if (same req.text "") 400 "text required for send_type=text"
    else if same send_type "reply_quote"
    then (do
      refuse_if (same req.text "") 400 "text required for send_type=reply_quote"
      refuse_if (same req.quoted_message_id "") 400
          "quoted_message_id required for send_type=reply_quote")
    else if same send_type "reaction"
    then (do
      refuse_if (same req.reaction_emoji "") 400 "reaction_emoji required for send_type=reaction"
      refuse_if (same req.reaction_target "") 400 "reaction_target required for send_type=reaction")
    else if is_file_type send_type
    then (do
      refuse_if (file_source_count req == 0) 400 "file_path, file_base64 or file_url required"
      refuse_if (ltb 1 (file_source_count req)) 400
          "pass exactly one of file_path, file_base64 or file_url"
      refuse_if (same send_type "audio" && req.as_document) 400
          "as_document is not valid for send_type=audio"
      refuse_if (same send_type "file" && req.voice_note) 400
          "voice_note is only valid for send_type=audio")
    else err 400 "send_type not supported"

-- The checks before anything is read or written; an empty `send_type` becomes "text".
unfoldable pub validate : Option DraftRequest → Result DraftRequest
unfolding validate_type
validate none = err 400 "invalid JSON body"
validate (some req) = do
  refuse_if (same req.recipient_jid "") 400 "recipient_jid required"
  let send_type = if same req.send_type "" then "text" else req.send_type
  validate_type send_type req
  ok (record req { send_type = send_type })

-- `jid = ? OR jid IN (SELECT jid_b FROM jid_aliases WHERE jid_a = ?)`
abbrev pub names_jid : String → List (String × String) → Contact → Bool
names_jid jid aliases c =
    same c.jid jid || any (λ (a : String × String). same a.0 jid && same a.1 c.jid) aliases

-- `ORDER BY (jid = ?) DESC, updated_at DESC`: whether `d` stands before `c`.
abbrev pub comes_first : String → Contact → Contact → Bool
comes_first jid d c =
    if same d.jid jid
    then not (same c.jid jid) || ltb c.updated_at d.updated_at
    else not (same c.jid jid) && ltb c.updated_at d.updated_at

abbrev pub prefer : String → Contact → Option Contact → Option Contact
prefer jid c none = some c
prefer jid c (some d) = if comes_first jid d c then some d else some c

-- The row that `LIMIT 1` leaves.
unfoldable pub best_contact : String → List (String × String) → List Contact → Option Contact
best_contact jid aliases [] = none
best_contact jid aliases (c ∷ cs) =
    let rest = best_contact jid aliases cs in
    if names_jid jid aliases c then prefer jid c rest else rest

-- The first name that is there: the user's own, the verified one, the contact's own, the number.
abbrev pub if_filled : Option String → String → String
if_filled none other = other
if_filled (some s) other = if same s "" then other else s

abbrev pub phone_label : Option String → String → String
phone_label none jid = jid
phone_label (some s) jid = if same s "" then jid else str_append "+" s

abbrev pub display_name : String → Contact → String
display_name jid c =
    if_filled c.full_name
      (if_filled c.verified_name (if_filled c.push_name (phone_label c.phone jid)))

unfoldable pub resolve_recipient : Bool → String → World → String × Bool
unfolding best_contact
resolve_recipient query_fails jid w =
    if query_fails then (jid, false) else elim (best_contact jid w.aliases w.contacts) [
      | none ↦ (jid, false)
      | some c ↦ (display_name jid c, true)
    ]

-- What the request meets: the clock, a new id, and whether the queries fail.
pub record DraftEnv : Type 0 where
  pub draft_id : String
  pub now : ℕ
  pub contacts_fail : Bool
  pub insert_fails : Bool
  pub remove_fails : Bool

-- `truncate` of bridge.go
abbrev pub truncate : Text → ℕ → Text
truncate s n = if leb (length s) n then s else take n s ++ bytes "..."

abbrev pub no_file : OutboundFile
no_file = record { path = ""; mime = ""; filename = "" }

module _ (host : Host) where
  -- The bytes come to disk only for the media types, and a refusal leaves no row and no file.
  unfoldable pub materialize : DraftEnv → DraftRequest → Result OutboundFile
  materialize env req =
      if is_file_type req.send_type
      then elim (materialize_outbound_file host env.draft_id req) [
        | done (file, content) ↦ ok file
        | fail e ↦ err 400 "media rejected"
      ]
      else ok no_file

  unfoldable pub preview : DraftRequest → OutboundFile → Text
  unfolding bytes
  preview req media =
      if same req.send_type "reaction"
      then bytes "Reaction "
        ++ (bytes req.reaction_emoji
            ++ (bytes " to message " ++ truncate (bytes req.reaction_target) 32))
      else if is_file_type req.send_type
      then bytes kind ++ (bytes ", " ++ (bytes shown ++ caption))
      else truncate (bytes req.text) 200
    where
      kind : String
      kind =
          if same req.send_type "audio" && req.voice_note
          then str_append "voice note (" (str_append media.mime ")")
          else if req.as_document
          then str_append "document (" (str_append media.mime ")")
          else media.mime

      shown : String
      shown =
          if same media.filename "" || same media.filename "."
          then host.base media.path
          else media.filename

      caption : Text
      caption = if same req.caption "" then [] else bytes " — " ++ truncate (bytes req.caption) 120

-- The columns of the new row.
unfoldable pub new_row : DraftEnv → DraftRequest → String → OutboundFile → Send
new_row env req display media = record {
  draft_id = env.draft_id;
  recipient_jid = req.recipient_jid;
  recipient_display = display;
  send_type = req.send_type;
  content_text =
      if is_file_type req.send_type
      then req.caption
      else if same req.send_type "reaction"
      then req.reaction_emoji
      else req.text;
  content_file_path = null_string media.path;
  content_media_mime = null_string media.mime;
  media_filename = null_string media.filename;
  media_as_document = req.as_document;
  media_voice_note = req.voice_note;
  quoted_message_id =
      null_string
        (if same req.send_type "reaction" then req.reaction_target else req.quoted_message_id);
  reaction_emoji = null_string req.reaction_emoji;
  status = draft;
  created_at = env.now;
  confirmed_at = none;
  sent_at = none;
  whatsapp_message_id = none;
  error_message = none;
}

abbrev pub add_file : String → List String → List String
add_file path files = if same path "" then files else path ∷ files

-- The INSERT and its cleanup: without a row the bytes go too.
unfoldable pub store_draft : DraftEnv → Reply → Send → OutboundFile → World → Reply × World
unfolding insert_send remove_outbound_file
store_draft env reply row media w =
    let files = add_file media.path w.files in
    let refused : Reply × World = (
      rejected 500 "draft insert failed",
      record w { files = remove_outbound_file env.remove_fails media.path files },
    ) in
    if env.insert_fails then refused else elim (insert_send row w.sends) [
      | none ↦ refused
      | some rows ↦ (reply, record w { sends = rows; files = files })
    ]

unfoldable pub draft_with_media :
    Host → DraftEnv → DraftRequest → OutboundFile → World → Reply × World
unfolding preview new_row store_draft resolve_recipient
draft_with_media host env req media w =
    let found = resolve_recipient env.contacts_fail req.recipient_jid w in
    store_draft env
      (drafted env.draft_id req.recipient_jid found.0 (preview host req media)
        (env.now + draft_ttl_seconds) found.1)
      (new_row env req found.0 media) media w

unfoldable pub draft_request : Host → DraftEnv → DraftRequest → World → Reply × World
unfolding materialize draft_with_media
draft_request host env req w = elim (materialize host env req) [
  | err code message ↦ (rejected code message, w)
  | ok media ↦ draft_with_media host env req media w
]

-- `handleCreateDraft`
unfoldable pub create_draft : Host → DraftEnv → Option DraftRequest → World → Reply × World
unfolding validate draft_request
create_draft host env body w = elim (validate body) [
  | err code message ↦ (rejected code message, w)
  | ok req ↦ draft_request host env req w
]
