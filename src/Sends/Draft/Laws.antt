-- ===== src/Sends/Draft/Laws.antt =====
-- What a draft request does on each of its branches.
use Prim.Native.String.{◌++◌ as str_append}
use whatsapp_mcp_plugin.Bytes.{Text, bytes}
use whatsapp_mcp_plugin.Sends.Draft.Kinds.{
  Kind, text, reply_quote, reaction, file, audio_file, validate-Kind,
}
use whatsapp_mcp_plugin.Prelude.{
  if◌then◌else◌, same, ◌||◌, ◌&&◌, [], ◌++◌, none, subst, ap, ◌∙◌, ℕ, ◌+◌, ◌≡◌, refl, ◌⊎◌, inl, inr,
  String, Option, some, Bool-cases, Option-cases,
}
use whatsapp_mcp_plugin.Sends.{
  draft, Send, World, Reply, Result, ok, err, rejected, drafted, insert_send,
}
use whatsapp_mcp_plugin.Sends.Media.{Host, DraftRequest, OutboundFile}
use whatsapp_mcp_plugin.Sends.Draft.{
  truncate, DraftEnv, validate, materialize, new_row, preview, store_draft, resolve_recipient,
  draft_request, draft_with_media, create_draft, draft_ttl_seconds,
}

pub Result-cases {ℓ} :
    {A : Type ℓ} (r : Result A)
    → ((a : A) × (r ≡ ok a)) ⊎ ((code : ℕ) × (message : String) × (r ≡ err code message))
Result-cases (ok a) = inl (a, refl)
Result-cases (err code message) = inr (code, message, refl)

-- Nothing that the database or WhatsApp holds has changed.
abbrev pub SameRecords : World → World → Type 0
SameRecords v w = (v.sends ≡ w.sends) × (v.messages ≡ w.messages) × (v.attempts ≡ w.attempts)

-- One row more, and nothing else of it.
abbrev pub Inserted : Send → World → World → Type 0
Inserted row v w =
    (insert_send row w.sends ≡ some v.sends) × (v.messages ≡ w.messages) × (v.attempts ≡ w.attempts)

store_draft_cases :
    (env : DraftEnv) (reply : Reply) (row : Send) (media : OutboundFile) (w : World)
    → ((store_draft env reply row media w).0 ≡ rejected 500 "draft insert failed")
        × SameRecords (store_draft env reply row media w).1 w
      ⊎ ((store_draft env reply row media w).0 ≡ reply)
        × Inserted row (store_draft env reply row media w).1 w
unfolding store_draft
store_draft_cases env reply row media w = elim (Bool-cases env.insert_fails) [
  | inl e ↦ rw e (inl (refl, (refl, refl, refl)))
  | inr e ↦ elim (Option-cases (insert_send row w.sends)) [
    | inl n ↦ rw (e, n) (inl (refl, (refl, refl, refl)))
    | inr (rows, n) ↦ rw (e, n) (inr (refl, (refl, refl, refl)))
  ]
]

abbrev pub Refused : World → Reply × World → Type 0
Refused w (reply, v) =
    (code : ℕ) × (message : String) × (reply ≡ rejected code message) × SameRecords v w

-- The text that the user gives: the emoji of a reaction, the caption of a file, and else the text.
abbrev pub approved_text : DraftRequest → String
approved_text req =
    if same req.send_type "reaction"
    then req.reaction_emoji
    else if same req.send_type "file" || same req.send_type "audio"
    then req.caption
    else req.text

-- The row of a draft: the recipient, the text and the file as they were asked for, 'draft' since now, and
-- nothing of a send.
abbrev pub draft_row : DraftEnv → DraftRequest → String → OutboundFile → Send
draft_row env req display media = record {
  draft_id = env.draft_id;
  recipient_jid = req.recipient_jid;
  recipient_display = display;
  send_type = req.send_type;
  content_text = approved_text req;
  content_file_path = if same media.path "" then none else some media.path;
  content_media_mime = if same media.mime "" then none else some media.mime;
  media_filename = if same media.filename "" then none else some media.filename;
  media_as_document = req.as_document;
  media_voice_note = req.voice_note;
  quoted_message_id =
      if same req.send_type "reaction"
      then (if same req.reaction_target "" then none else some req.reaction_target)
      else (if same req.quoted_message_id "" then none else some req.quoted_message_id);
  reaction_emoji = if same req.reaction_emoji "" then none else some req.reaction_emoji;
  status = draft;
  created_at = env.now;
  confirmed_at = none;
  sent_at = none;
  whatsapp_message_id = none;
  error_message = none;
}

-- What a file is shown as: its type, or that it goes as a voice note or as a document.
abbrev pub shown_kind : DraftRequest → String → String
shown_kind req mime =
    if same req.send_type "audio" && req.voice_note
    then str_append "voice note (" (str_append mime ")")
    else if req.as_document
    then str_append "document (" (str_append mime ")")
    else mime

abbrev pub shown_name : Host → OutboundFile → String
shown_name host media =
    if same media.filename "" || same media.filename "."
    then host.base media.path
    else media.filename

-- The preview of a message with this text: the text, cut at 200 bytes; the emoji and what it reacts to; or
-- the file and the text, cut at 120.
abbrev pub shown : Host → DraftRequest → OutboundFile → String → Text
shown host req media t =
    if same req.send_type "reaction"
    then bytes "Reaction "
      ++ (bytes t ++ (bytes " to message " ++ truncate (bytes req.reaction_target) 32))
    else if same req.send_type "file" || same req.send_type "audio"
    then bytes (shown_kind req media.mime)
      ++ (bytes ", "
          ++ (bytes (shown_name host media)
              ++ (if same t "" then [] else bytes " — " ++ truncate (bytes t) 120)))
    else truncate (bytes t) 200

module _ (host : Host) (req : DraftRequest) (media : OutboundFile) where
  pub preview-shown : Kind req → preview host req media ≡ shown host req media (approved_text req)
  unfolding preview
  preview-shown (text e f) = rw e refl
  preview-shown (reply_quote e) = rw e refl
  preview-shown (reaction e) = rw e refl
  preview-shown (file e) = rw e refl
  preview-shown (audio_file e) = rw e refl

  new_row-draft_row :
      (env : DraftEnv) (display : String)
      → Kind req
      → new_row env req display media ≡ draft_row env req display media
  unfolding new_row
  new_row-draft_row env display (text e f) = rw e refl
  new_row-draft_row env display (reply_quote e) = rw e refl
  new_row-draft_row env display (reaction e) = rw e refl
  new_row-draft_row env display (file e) = rw e refl
  new_row-draft_row env display (audio_file e) = rw e refl

-- The request was valid and its media are on disk; the reply shows what the stored row says.
abbrev pub Accepted : Host → DraftEnv → Option DraftRequest → World → Reply × World → Type 0
Accepted host env body w (reply, v) =
    (req : DraftRequest) × (media : OutboundFile) × (validate body ≡ ok req)
    × (materialize host env req ≡ ok media)
    × (reply
        ≡ drafted env.draft_id req.recipient_jid
            (resolve_recipient env.contacts_fail req.recipient_jid w).0
            (shown host req media (approved_text req)) (env.now + 3600)
            (resolve_recipient env.contacts_fail req.recipient_jid w).1)
    × Inserted (draft_row env req (resolve_recipient env.contacts_fail req.recipient_jid w).0 media)
        v w

module _ (host : Host) (env : DraftEnv) (body : Option DraftRequest) (w : World) where
  draft_request_cases :
      (req : DraftRequest)
      → validate body ≡ ok req
      → Refused w (draft_request host env req w)
        ⊎ Accepted host env body w (draft_request host env req w)
  unfolding draft_request draft_with_media
  draft_request_cases req v = elim (Result-cases (materialize host env req)) [
    | inl (media, m) ↦
        rw (m, draft_request)
          (elim (store_draft_cases env
            (drafted env.draft_id req.recipient_jid
              (resolve_recipient env.contacts_fail req.recipient_jid w).0 (preview host req media)
              (env.now + draft_ttl_seconds)
              (resolve_recipient env.contacts_fail req.recipient_jid w).1)
            (new_row env req (resolve_recipient env.contacts_fail req.recipient_jid w).0 media)
            media w) [
              | inl (e, s) ↦ inl (500, "draft insert failed", e, s)
              | inr (e, s) ↦
                  let kind = validate-Kind body req v in
                  let found = resolve_recipient env.contacts_fail req.recipient_jid w in
                  inr (
                    req,
                    media,
                    v,
                    m,
                    e
                        ∙ ap
                            (λ p.
                              drafted env.draft_id req.recipient_jid found.0 p (env.now + 3600)
                                found.1)
                            (preview-shown host req media kind),
                    subst
                        (λ r.
                          Inserted r
                            (store_draft env
                              (drafted env.draft_id req.recipient_jid found.0
                                (preview host req media) (env.now + draft_ttl_seconds) found.1)
                              (new_row env req found.0 media) media w).1
                            w)
                        (new_row-draft_row host req media env found.0 kind) s,
                  )
            ])
    | inr (code, message, m) ↦ rw (m, draft_request) (inl (code, message, refl, (refl, refl, refl)))
  ]

  create_draft-valid :
      (req : DraftRequest)
      → validate body ≡ ok req
      → create_draft host env body w ≡ draft_request host env req w
  unfolding create_draft
  create_draft-valid req v = rw (v, create_draft)

  create_draft-invalid :
      (code : ℕ) (message : String)
      → validate body ≡ err code message
      → create_draft host env body w ≡ (rejected code message, w)
  unfolding create_draft
  create_draft-invalid code message v = rw (v, create_draft)

  -- A draft request is refused and changes no record, or it was valid and exactly one record is added: the
  -- row `draft_row`, a draft with the text and the file that were asked for. The reply then shows the
  -- recipient as in the row, the preview `shown` of that text and file, and an end 3600 seconds after the
  -- time of the row. On neither branch is anything sent.
  pub create_draft_cases :
      Refused w (create_draft host env body w)
      ⊎ Accepted host env body w (create_draft host env body w)
  create_draft_cases = elim (Result-cases (validate body)) [
    | inl (req, v) ↦ rw (create_draft-valid req v) (draft_request_cases req v)
    | inr (code, message, v) ↦
        rw (create_draft-invalid code message v) (inl (code, message, refl, (refl, refl, refl)))
  ]
