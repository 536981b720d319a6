-- ===== src/Sends.antt =====
-- whatsapp-bridge/sends.go: the `sends` table, the messages that a confirm builds, and what the
-- two handlers read and write. The handlers are in Sends.Draft and Sends.Confirm.
pub mod Media
pub mod Draft
pub mod Confirm
pub mod Reconcile
pub mod System
pub mod Rows
pub mod Approved
use whatsapp_mcp_plugin.Prelude.{
  ℕ, String, Bool, true, false, ◌&&◌, Option, none, some, List, [], ◌∷◌, same, if◌then◌else◌, any,
}
use whatsapp_mcp_plugin.Bytes.{Text}

-- `sends.status`; the CHECK constraint of the table names these five values.
pub data Status : Type 0 where
  draft confirmed sent failed expired : Status

abbrev pub is_draft : Status → Bool
is_draft draft = true
is_draft _ = false

abbrev pub is_confirmed : Status → Bool
is_confirmed confirmed = true
is_confirmed _ = false

-- One row of `sends`; a nullable column is an `Option`.
pub record Send : Type 0 where
  pub draft_id : String
  pub recipient_jid : String
  pub recipient_display : String
  pub send_type : String
  pub content_text : String
  pub content_file_path : Option String
  pub content_media_mime : Option String
  pub media_filename : Option String
  pub media_as_document : Bool
  pub media_voice_note : Bool
  pub quoted_message_id : Option String
  pub reaction_emoji : Option String
  pub status : Status
  pub created_at : ℕ
  pub confirmed_at : Option ℕ
  pub sent_at : Option ℕ
  pub whatsapp_message_id : Option String
  pub error_message : Option String

-- What `Upload` of whatsmeow returns.
pub record UploadResult : Type 0 where
  pub url : String
  pub direct_path : String
  pub media_key : String
  pub file_enc_sha256 : String
  pub file_sha256 : String
  pub file_length : ℕ

-- The `waE2E.Message` values that the confirm handler builds.
pub data Outbound : Type 0 where
  conversation : String → Outbound
  -- text, stanza id, participant
  extended_text : String → String → String → Outbound
  -- remote JID, from me, message id, emoji, sender timestamp in ms
  reaction : String → Bool → String → String → ℕ → Outbound
  -- caption, MIME type
  image video : Option String → String → UploadResult → Outbound
  -- MIME type, push-to-talk
  audio : String → Bool → UploadResult → Outbound
  -- caption, file name, MIME type
  document : Option String → String → String → UploadResult → Outbound

-- One row of `messages`, with the columns that a confirm writes.
pub record MessageRow : Type 0 where
  pub id : String
  pub chat_jid : String
  pub sender_jid : String
  pub sender_display : Option String
  pub timestamp : ℕ
  pub type : String
  pub content_text : String
  pub content_normalized : String
  pub is_from_me : Bool
  pub scrubbed_text : Text
  pub scrub_flags : List Text
  pub media : Option (String × UploadResult)

-- A call of `SendMessage` of the WhatsApp client.
pub record Attempt : Type 0 where
  pub draft_id : String
  pub recipient : String
  pub message : Outbound

-- One row of `contacts`, with the columns that name a recipient.
pub record Contact : Type 0 where
  pub jid : String
  pub full_name : Option String
  pub push_name : Option String
  pub verified_name : Option String
  pub phone : Option String
  pub updated_at : ℕ

-- The database, the outbound files on disk, and the calls made to WhatsApp, newest first.
-- `aliases` holds the pairs (`jid_a`, `jid_b`) of `jid_aliases`.
pub record World : Type 0 where
  pub contacts : List Contact
  pub aliases : List (String × String)
  pub sends : List Send
  pub messages : List MessageRow
  pub files : List String
  pub attempts : List Attempt

-- `nullString`: the empty string is stored as NULL, and read back by `COALESCE(c, '')`.
abbrev pub null_string : String → Option String
null_string s = if same s "" then none else some s

abbrev pub coalesce : Option String → String
coalesce none = ""
coalesce (some s) = s

-- `SELECT … FROM sends WHERE draft_id = ?`
unfoldable pub find_send : String → List Send → Option Send
find_send id [] = none
find_send id (r ∷ rs) = if same r.draft_id id then some r else find_send id rs

-- `INSERT INTO sends …`; `draft_id` is the PRIMARY KEY, so a second row of one id is refused.
unfoldable pub insert_send : Send → List Send → Option (List Send)
insert_send r rs = if any (λ q. same q.draft_id r.draft_id) rs then none else some (r ∷ rs)

-- `UPDATE sends SET … WHERE draft_id = ? AND p`
unfoldable pub update_send : String → (Send → Bool) → (Send → Send) → List Send → List Send
update_send id p f [] = []
update_send id p f (r ∷ rs) = (if same r.draft_id id && p r then f r else r) ∷ update_send id p f rs

-- `RowsAffected` of such an update, as far as the code asks: whether it is zero.
unfoldable pub affects : String → (Send → Bool) → List Send → Bool
affects id p rs = any (λ r. same r.draft_id id && p r) rs

-- `INSERT INTO messages … ON CONFLICT(id) DO NOTHING`
unfoldable pub insert_message : MessageRow → List MessageRow → List MessageRow
insert_message m ms = if any (λ q. same q.id m.id) ms then ms else m ∷ ms

abbrev drop_file : String → List String → List String
drop_file p [] = []
drop_file p (f ∷ fs) = let rest = drop_file p fs in if same f p then rest else f ∷ rest

-- `removeOutboundFile`; the flag says that `os.Remove` fails for another reason than a missing file,
-- which the callers log.
unfoldable pub remove_outbound_file : Bool → String → List String → List String
remove_outbound_file fails path files =
    if same path "" then files else if fails then files else drop_file path files

-- The answer of a handler: an error with its status code, or one of the two successes.
pub data Reply : Type 0 where
  rejected : ℕ → String → Reply
  drafted : String → String → String → Text → ℕ → Bool → Reply
  delivered : String → String → ℕ → Reply

-- A status code and a message, or a value.
pub data Result {ℓ} (A : Type ℓ) : Type ℓ where
  ok : A → Result A
  err : ℕ → String → Result A

infixl 5 ◌>>=◌ ◌>>◌
abbrev pub ◌>>=◌ {ℓ κ} : {A : Type ℓ} {B : Type κ} → Result A → (A → Result B) → Result B
ok a >>= f = f a
err code message >>= f = err code message

abbrev pub ◌>>◌ {ℓ} : {B : Type ℓ} → Result (Unit {0}) → Result B → Result B
m >> k = m >>= λ _. k

-- `if bad { writeJSON(code, error); return }`
abbrev pub refuse_if : Bool → ℕ → String → Result (Unit {0})
refuse_if true code message = err code message
refuse_if false code message = ok tt
