-- ===== src/Sends/Media.antt =====
-- whatsapp-bridge/sends_media.go: how the bytes of a draft come to disk, and the message that the
-- confirm builds from them. The file system, the MIME tables, base64, ffmpeg and the upload are fields
-- of `Host`; the download of a URL is `fetchRemoteFile`, whose model is the module Fetch.
use Prim.Native.String.{◌++◌}
use text.Mathlib.Text.{starts_with}
use whatsapp_mcp_plugin.Prelude.{
  ℕ, ◌+◌, ◌*◌, ◌^◌, String, Bool, true, false, ◌&&◌, ◌||◌, not, Option, none, some, List, [], ◌∷◌,
  length, refl, ◌≡◌, same, ltb, ◌==◌, if◌then◌else◌,
}
use whatsapp_mcp_plugin.Bytes.{Text}
use whatsapp_mcp_plugin.Sends.{Outbound, audio, image, video, document, UploadResult, null_string}

abbrev pub max_image_bytes : ℕ
max_image_bytes = 16 * 2 ^ 20

abbrev pub max_audio_bytes : ℕ
max_audio_bytes = 16 * 2 ^ 20

abbrev pub max_document_bytes : ℕ
max_document_bytes = 100 * 2 ^ 20

pub data MediaError : Type 0 where
  several_sources no_source missing_file is_directory unreadable bad_base64 : MediaError
  fetch_failed empty_file too_large no_outbound_dir write_failed : MediaError
  transcode_failed upload_failed : MediaError

pub data MediaResult {ℓ} (A : Type ℓ) : Type ℓ where
  done : A → MediaResult A
  fail : MediaError → MediaResult A

infixl 5 ◌>>=◌ ◌>>◌
abbrev pub ◌>>=◌ {ℓ κ} :
    {A : Type ℓ} {B : Type κ} → MediaResult A → (A → MediaResult B) → MediaResult B
done a >>= f = f a
fail e >>= f = fail e

abbrev pub ◌>>◌ {ℓ} : {B : Type ℓ} → MediaResult (Unit {0}) → MediaResult B → MediaResult B
m >> k = m >>= λ _. k

-- A chain of steps that succeeds, step by step.
pub >>=-eq-done {ℓ κ} :
    {A : Type ℓ} {B : Type κ} (m : MediaResult A) (f : A → MediaResult B) {b : B}
    → (m >>= f) ≡ done b
    → (a : A) × (m ≡ done a) × (f a ≡ done b)
>>=-eq-done (done a) f h = (a, refl, h)
>>=-eq-done (fail e) f h = cc

abbrev pub fail_if : Bool → MediaError → MediaResult (Unit {0})
fail_if true e = fail e
fail_if false e = done tt

abbrev pub or_fail {ℓ} : {A : Type ℓ} → Option A → MediaError → MediaResult A
or_fail none e = fail e
or_fail (some a) e = done a

-- `whatsmeow.MediaType`
pub data MediaType : Type 0 where
  media_image media_video media_audio media_document : MediaType

-- What the bridge asks of the machine and of the libraries.
pub record Host : Type 0 where
  -- `os.Stat`: missing, or whether it is a directory
  pub stat : String → Option Bool
  pub read_file : String → Option Text
  pub decode_base64 : String → Option Text
  -- `fetchRemoteFile` with a ceiling in bytes: the bytes and a name
  pub fetch : String → ℕ → Option (Text × String)
  pub detect_content_type : Text → String
  pub type_by_extension : String → String
  -- the first of `mime.ExtensionsByType`, or the empty string
  pub extension_by_type : String → String
  -- `filepath.Clean`, `Base`, `Ext`, `Join`; `strings.ToLower`, `TrimSpace`
  pub clean : String → String
  pub base : String → String
  pub ext : String → String
  pub join : String → String → String
  pub lower : String → String
  pub trim : String → String
  pub outbound_dir : String
  pub makes_dir : Bool
  pub writes : String → Bool
  -- ffmpeg: the path of the converted file
  pub transcode : String → Option String
  pub upload : Text → MediaType → Option UploadResult

-- The fields of `createDraftRequest`.
pub record DraftRequest : Type 0 where
  pub send_type : String
  pub recipient_jid : String
  pub text : String
  pub quoted_message_id : String
  pub reaction_emoji : String
  pub reaction_target : String
  pub file_path : String
  pub file_base64 : String
  pub file_url : String
  pub filename : String
  pub media_mime : String
  pub caption : String
  pub as_document : Bool
  pub voice_note : Bool

pub record OutboundFile : Type 0 where
  pub path : String
  pub mime : String
  pub filename : String

abbrev count_filled : List String → ℕ
count_filled [] = 0
count_filled (s ∷ rest) = (if same s "" then 0 else 1) + count_filled rest

unfoldable pub file_source_count : DraftRequest → ℕ
file_source_count req = count_filled (req.file_path ∷ req.file_base64 ∷ req.file_url ∷ [])

unfoldable pub fetch_ceiling : String → ℕ
fetch_ceiling send_type = if same send_type "audio" then max_audio_bytes else max_document_bytes

module _ (host : Host) where
  open host use {
    stat, read_file, decode_base64, fetch, detect_content_type, type_by_extension, clean, base, ext,
    lower, trim,
  }

  unfoldable pub resolve_mime : String → String → Text → String
  resolve_mime explicit name_hint content =
      let by_ext = type_by_extension (ext name_hint) in
      if not (same explicit "")
      then lower (trim explicit)
      else if not (same (ext name_hint) "") && not (same by_ext "")
      then lower by_ext
      else lower (detect_content_type content)

  -- The bytes and the name hint of the one source in use.
  unfoldable pub read_source : DraftRequest → MediaResult (Text × String)
  unfolding file_source_count fetch_ceiling
  read_source req =
      if ltb 1 (file_source_count req)
      then fail several_sources
      else if not (same req.file_path "")
      then (do
        dir ← or_fail (stat (clean req.file_path)) missing_file
        fail_if dir is_directory
        content ← or_fail (read_file (clean req.file_path)) unreadable
        done (content, base (clean req.file_path)))
      else if not (same req.file_base64 "")
      then (do
        content ← or_fail (decode_base64 req.file_base64) bad_base64
        done (content, req.filename))
      else if not (same req.file_url "")
      then or_fail (fetch req.file_url (fetch_ceiling req.send_type)) fetch_failed
      else fail no_source

unfoldable pub size_limit : String → String → ℕ
size_limit send_type mime =
    if same send_type "audio"
    then max_audio_bytes
    else if starts_with mime "image/"
    then max_image_bytes
    else max_document_bytes

unfoldable pub check_size_limit : String → String → ℕ → MediaResult (Unit {0})
unfolding size_limit
check_size_limit send_type mime size = fail_if (ltb (size_limit send_type mime) size) too_large

module _ (host : Host) where
  open host use {extension_by_type, ext, join, outbound_dir, makes_dir, writes}

  -- The path comes back with the bytes that were written there.
  unfoldable pub materialize_outbound_file :
      String → DraftRequest → MediaResult (OutboundFile × Text)
  unfolding read_source resolve_mime check_size_limit
  materialize_outbound_file draft_id req = do
    (content, hint) ← read_source host req
    fail_if (length content == 0) empty_file
    let name_hint = if same req.filename "" then hint else req.filename
    let mime = resolve_mime host req.media_mime name_hint content
    check_size_limit req.send_type mime (length content)
    fail_if (not makes_dir) no_outbound_dir
    let own = ext name_hint
    let suffix = if same own "" then extension_by_type mime else own
    let out = join outbound_dir (draft_id ++ suffix)
    fail_if (not (writes out)) write_failed
    done (record { path = out; mime = mime; filename = name_hint }, content)

unfoldable pub pick_media_type : String → String → Bool → MediaType
pick_media_type send_type mime as_document =
    if same send_type "audio"
    then media_audio
    else if as_document
    then media_document
    else if starts_with mime "image/"
    then media_image
    else if starts_with mime "video/"
    then media_video
    else media_document

pub record MediaMessageOpts : Type 0 where
  pub send_type : String
  pub path : String
  pub mime : String
  pub filename : String
  pub caption : String
  pub as_document : Bool
  pub voice_note : Bool

abbrev pub is_opus_ogg : String → Bool
is_opus_ogg mime =
    same mime "audio/ogg" || same mime "audio/ogg; codecs=opus" || same mime "audio/opus"

-- The message of each upload kind; `nonEmpty` leaves an empty caption out.
unfoldable pub media_message : MediaType → String → String → String → Bool → UploadResult → Outbound
media_message media_image mime name caption ptt up = image (null_string caption) mime up
media_message media_video mime name caption ptt up = video (null_string caption) mime up
media_message media_audio mime name caption ptt up = audio mime ptt up
media_message media_document mime name caption ptt up = document (null_string caption) name mime up

module _ (host : Host) where
  open host use {read_file, base, transcode, upload}

  unfoldable pub voice_file : MediaMessageOpts → MediaResult (String × String)
  voice_file o =
      if same o.send_type "audio" && o.voice_note && not (is_opus_ogg o.mime)
      then (do
        converted ← or_fail (transcode o.path) transcode_failed
        done (converted, "audio/ogg; codecs=opus"))
      else done (o.path, o.mime)

  unfoldable pub build_media_message : MediaMessageOpts → MediaResult Outbound
  unfolding voice_file pick_media_type media_message
  build_media_message o = do
    (path, mime) ← voice_file o
    content ← or_fail (read_file path) unreadable
    let kind = pick_media_type o.send_type mime o.as_document
    up ← or_fail (upload content kind) upload_failed
    let name = if same o.filename "" then base o.path else o.filename
    done (media_message kind mime name o.caption o.voice_note up)
