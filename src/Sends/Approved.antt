-- ===== src/Sends/Approved.antt =====
-- The text of a draft, of its message and of the archive: whatsapp-bridge/sends.go.
use whatsapp_mcp_plugin.Prelude.{
  ◌≡◌, refl, ap, sym, ◌∙◌, String, Bool, true, false, Option, none, some, List, same, eq_iff, arith,
  if◌then◌else◌,
}
use whatsapp_mcp_plugin.Bytes.{Text}
use whatsapp_mcp_plugin.Sends.{Outbound, UploadResult, MessageRow, Send, ok, coalesce, null_string}
use whatsapp_mcp_plugin.Sends.Media.{
  Host, DraftRequest, OutboundFile, MediaMessageOpts, MediaResult, MediaType, media_image,
  media_video, media_audio, media_document, done, fail, media_message, pick_media_type, voice_file,
  ◌>>=◌, or_fail, unreadable, upload_failed, build_media_message,
}
use whatsapp_mcp_plugin.Sends.Draft.Kinds.{
  Kind, text, reply_quote, reaction, file, audio_file, validate-Kind,
}
use whatsapp_mcp_plugin.Sends.Draft.{DraftEnv, validate, new_row, preview}
use whatsapp_mcp_plugin.Sends.Draft.Laws.{approved_text, shown, preview-shown}
use whatsapp_mcp_plugin.Sends.Confirm.{
  ConfirmEnv, media_opts, build_message, extract_content, archived,
}

coalesce-null_string : (s : String) → coalesce (null_string s) ≡ s
coalesce-null_string s = ground (arith, eq_iff s "")

media_message-text :
    (k : MediaType) (mime name caption : String) (ptt : Bool) (up : UploadResult)
    → (extract_content (media_message k mime name caption ptt up)).0
      ≡ elim k [ media_audio ↦ "" | _ ↦ caption ]
unfolding media_message extract_content
media_message-text media_image mime name caption ptt up = coalesce-null_string caption
media_message-text media_video mime name caption ptt up = coalesce-null_string caption
media_message-text media_audio mime name caption ptt up = refl
media_message-text media_document mime name caption ptt up = coalesce-null_string caption

pick_media_type-text :
    (send_type mime caption : String) (as_document : Bool)
    → ◌≡◌ {A = String}
        (elim (pick_media_type send_type mime as_document) [ media_audio ↦ "" | _ ↦ caption ])
        (if same send_type "audio" then "" else caption)
unfolding pick_media_type
pick_media_type-text send_type mime caption as_document = ground arith

module _ (host : Host) (o : MediaMessageOpts) (m : Outbound) where
  uploaded-text :
      (kind : MediaType) (mime name : String) (up : Option UploadResult)
      → (or_fail up upload_failed >>= λ u.
          done (media_message kind mime name o.caption o.voice_note u))
        ≡ done m
      → ◌≡◌ {A = String} (extract_content m).0 (elim kind [ media_audio ↦ "" | _ ↦ o.caption ])
  uploaded-text kind mime name none e = cc
  uploaded-text kind mime name (some u) e =
      cc (media_message-text kind mime name o.caption o.voice_note u)

  read-text :
      (mime : String) (content : Option Text)
      → (or_fail content unreadable >>= λ c.
          let kind = pick_media_type o.send_type mime o.as_document in
          or_fail (host.upload c kind) upload_failed >>= λ u.
          let name = if same o.filename "" then host.base o.path else o.filename in
          done (media_message kind mime name o.caption o.voice_note u))
        ≡ done m
      → (extract_content m).0 ≡ (if same o.send_type "audio" then "" else o.caption)
  read-text mime none e = cc
  read-text mime (some c) e =
      uploaded-text (pick_media_type o.send_type mime o.as_document) mime
        (if same o.filename "" then host.base o.path else o.filename)
        (host.upload c (pick_media_type o.send_type mime o.as_document)) e
      ∙ pick_media_type-text o.send_type mime o.caption o.as_document

  voice-text :
      (v : MediaResult (String × String))
      → (v >>= λ f. or_fail (host.read_file f.0) unreadable >>= λ c.
          let kind = pick_media_type o.send_type f.1 o.as_document in
          or_fail (host.upload c kind) upload_failed >>= λ u.
          let name = if same o.filename "" then host.base o.path else o.filename in
          done (media_message kind f.1 name o.caption o.voice_note u))
        ≡ done m
      → (extract_content m).0 ≡ (if same o.send_type "audio" then "" else o.caption)
  voice-text (done f) e = read-text f.1 (host.read_file f.0) e
  voice-text (fail x) e = cc

  build_media_message-text :
      build_media_message host o ≡ done m
      → (extract_content m).0 ≡ (if same o.send_type "audio" then "" else o.caption)
  unfolding build_media_message
  build_media_message-text e = voice-text (voice_file host o) e

abbrev sent_text : Send → String
sent_text r =
    if same r.send_type "text"
    then r.content_text
    else if same r.send_type "reply_quote"
    then r.content_text
    else if same r.send_type "reaction"
    then coalesce r.reaction_emoji
    else if same r.send_type "audio"
    then ""
    else r.content_text

build_message-text :
    (host : Host) (env : ConfirmEnv) (r : Send) (messages : List MessageRow) (msg : Outbound)
    → (same r.send_type "text" ≡ true → same r.content_text "" ≡ false)
    → build_message host env r messages ≡ ok msg
    → (extract_content msg).0 ≡ sent_text r
unfolding build_message extract_content
build_message-text host env r messages msg t e =
    ground (arith, build_media_message-text host (media_opts r) msg)

module _ (denv : DraftEnv) (req : DraftRequest) (display : String) (media : OutboundFile) where
  new_row-text :
      Kind req
      → same req.send_type "audio" ≡ false
      → sent_text (new_row denv req display media) ≡ approved_text req
  unfolding new_row
  new_row-text (text e f) n = rw e
  new_row-text (reply_quote e) n = rw e
  new_row-text (reaction e) n = rw e (coalesce-null_string req.reaction_emoji)
  new_row-text (file e) n = rw e
  new_row-text (audio_file e) n = absurd (cc (rw e at n))

  filled_row :
      Kind req
      → same (new_row denv req display media).send_type "text" ≡ true
      → same (new_row denv req display media).content_text "" ≡ false
  unfolding new_row
  filled_row (text e f) t = rw e f
  filled_row (reply_quote e) t = absurd (cc (rw e at t))
  filled_row (reaction e) t = absurd (cc (rw e at t))
  filled_row (file e) t = absurd (cc (rw e at t))
  filled_row (audio_file e) t = absurd (cc (rw e at t))

-- What the user approved in a valid draft that is no audio message: the text of the message that its
-- confirm builds is the one that was asked for, `approved_text`; it is the text that the preview was made
-- of, and the text that the sent message is archived under.
pub build_message-approved :
    (host : Host) (denv : DraftEnv) (env : ConfirmEnv) (body : Option DraftRequest)
    (req : DraftRequest) (display : String) (media : OutboundFile) (messages : List MessageRow)
    (msg : Outbound) (wid : String)
    → validate body ≡ ok req
    → same req.send_type "audio" ≡ false
    → build_message host env (new_row denv req display media) messages ≡ ok msg
    → ((extract_content msg).0 ≡ approved_text req)
      × (preview host req media ≡ shown host req media (extract_content msg).0)
      × ((archived env (new_row denv req display media) msg wid).content_text ≡ approved_text req)
unfolding archived new_row
build_message-approved host denv env body req display media messages msg wid v n b =
    let kind = validate-Kind body req v in
    let e =
      build_message-text host env (new_row denv req display media) messages msg
        (filled_row denv req display media kind) b
      ∙ new_row-text denv req display media kind n in
    (e, preview-shown host req media kind ∙ ap (shown host req media) (sym e), e)
