-- ===== src/Vault/Write/Header.antt =====
-- What `readChatFileIdentity` (whatsapp-bridge/export_vault.go) reads from the lines that
-- `exportOneUnit` writes.
use whatsapp_mcp_plugin.Prelude.{
  ℕ, zero, suc, String, ◌≡◌, refl, ap, ◌∙◌, true, false, ◌&&◌, Option, none, some, List, [], ◌∷◌,
  ◌++◌, all, map, length, take, drop, same, if-cases, arith,
}
use whatsapp_mcp_plugin.Bytes.{join_texts, Text, bytes, index, trim_space}
use whatsapp_mcp_plugin.Archive.{StoredMessage}
use whatsapp_mcp_plugin.Vault.Units.{ChatUnit}
use whatsapp_mcp_plugin.Vault.File.{
  decimal, ChatFileIdentity, no_identity, read_field, field_at, read_line, read_lines, trim_quotes,
  scan_decimal, read_array, is_extra, is_extra_key, is_canonical,
}
use whatsapp_mcp_plugin.Vault.File.Lines.{is_line}
use whatsapp_mcp_plugin.Vault.File.Values.{
  is_plain, trim_space-ends, trim_quotes-quoted, scan_decimal-decimal, trim_space-decimal,
  read_array-text,
}
use whatsapp_mcp_plugin.Vault.Render.{escape_yaml}
use whatsapp_mcp_plugin.Vault.Write.{
  quoted, alias_line, phone_line, participants, group_line, header_lines,
}

pub read_lines-append :
    (ls ks : List Text) (id : ChatFileIdentity)
    → read_lines (ls ++ ks) id ≡ read_lines ks (read_lines ls id)
unfolding read_lines
read_lines-append [] ks id = refl
read_lines-append (l ∷ ls) ks id = read_lines-append ls ks (read_line l id)

read-type :
    (id : ChatFileIdentity)
    → read_line (bytes "type: whatsapp-chat") id ≡ record id { file_type = bytes "whatsapp-chat" }
unfolding read_line
read-type id = refl

read-contact : (id : ChatFileIdentity) (s : Text) → read_line (bytes "contact: " ++ s) id ≡ id
unfolding read_line
read-contact id s = refl

read-jid :
    (id : ChatFileIdentity) (s : Text)
    → all is_plain s ≡ true
    → read_line (bytes "jid: " ++ quoted s) id ≡ record id { jid = s }
unfolding read_line
read-jid id s plain =
    ap (λ z. record id { jid = z })
      (ap trim_quotes (trim_space-ends b'"' b'"' s refl refl) ∙ trim_quotes-quoted s plain)

read-chat_type :
    (id : ChatFileIdentity) (s : Text)
    → all is_plain s ≡ true
    → read_line (bytes "chat_type: " ++ quoted s) id ≡ record id { chat_type = s }
unfolding read_line
read-chat_type id s plain =
    ap (λ z. record id { chat_type = z })
      (ap trim_quotes (trim_space-ends b'"' b'"' s refl refl) ∙ trim_quotes-quoted s plain)

read-message_count :
    (id : ChatFileIdentity) (n : ℕ)
    → read_line (bytes "message_count: " ++ decimal n) id ≡ record id { message_count = n }
unfolding read_line
read-message_count id n =
    ap (λ z. record id { message_count = z })
      (ap (scan_decimal id.message_count) (trim_space-decimal n)
        ∙ scan_decimal-decimal id.message_count n)

read-last_message_ts :
    (id : ChatFileIdentity) (n : ℕ)
    → read_line (bytes "last_message_ts: " ++ decimal n) id ≡ record id { last_ts = n }
unfolding read_line
read-last_message_ts id n =
    ap (λ z. record id { last_ts = z })
      (ap (scan_decimal id.last_ts) (trim_space-decimal n) ∙ scan_decimal-decimal id.last_ts n)

escape-plain : (s : Text) → all is_plain s ≡ true → escape_yaml s ≡ s
unfolding escape_yaml
escape-plain [] plain = refl
escape-plain (c ∷ s) plain = ground (arith, escape-plain s, plain)

escape-jids :
    (jids : List String)
    → all (λ j. all is_plain (bytes j)) jids ≡ true
    → map (λ j. quoted (escape_yaml (bytes j))) jids ≡ map quoted (map bytes jids)
escape-jids [] plain = refl
escape-jids (j ∷ jids) plain =
    ap (λ z. quoted z ∷ map (λ i. quoted (escape_yaml (bytes i))) jids)
      (escape-plain (bytes j) (ground (arith, plain)))
    ∙ ap (λ zs. quoted (bytes j) ∷ zs) (escape-jids jids (ground (arith, plain)))

all-bytes :
    (jids : List String)
    → all (all is_plain) (map bytes jids) ≡ all (λ j. all is_plain (bytes j)) jids
all-bytes [] = refl
all-bytes (j ∷ jids) = ap (λ b. all is_plain (bytes j) && b) (all-bytes jids)

read-alias_line :
    (id : ChatFileIdentity) (jids : List String)
    → id.alias_jids ≡ []
    → all (λ j. all is_plain (bytes j)) jids ≡ true
    → read_lines (alias_line jids) id ≡ record id { alias_jids = map bytes jids }
unfolding read_lines read_line alias_line
read-alias_line id [] none_yet plain = ap (λ z. record id { alias_jids = z }) none_yet
read-alias_line id (j ∷ jids) none_yet plain =
    let parts = join_texts (bytes ", ") (map (λ i. quoted (escape_yaml (bytes i))) (j ∷ jids)) in
    ap (λ z. record id { alias_jids = z })
      (ap (read_array id.alias_jids) (trim_space-ends b'[' b']' parts refl refl)
        ∙ ap (λ zs. read_array id.alias_jids (b'[' ∷ (join_texts (bytes ", ") zs ++ (b']' ∷ []))))
            (escape-jids (j ∷ jids) plain)
        ∙ read_array-text id.alias_jids (bytes j) (map bytes jids) (all-bytes (j ∷ jids) ∙ plain))

read-phone_line : (id : ChatFileIdentity) (phone : Text) → read_lines (phone_line phone) id ≡ id
unfolding read_lines read_line
read-phone_line id [] = refl
read-phone_line id (c ∷ phone) = refl

read-group_line :
    (id : ChatFileIdentity) (u : ChatUnit) (messages : List StoredMessage)
    → read_lines (group_line u messages) id ≡ id
unfolding read_lines read_line
read-group_line id u messages =
    if-cases (λ ls. read_lines ls id ≡ id) (same u.chat_type "group")
      ((bytes "participants_count: " ++ decimal (participants u messages)) ∷ []) [] (λ _. refl)
      (λ _. refl)

abbrev pub in_front : ChatFileIdentity
in_front = record no_identity { exists = true }

-- A unit whose JIDs and whose type are plain.
pub record IsPlainUnit (u : ChatUnit) : Type 0 where
  pub primary : all is_plain (bytes u.primary) ≡ true
  pub aliases : all (λ j. all is_plain (bytes j)) u.alias_jids ≡ true
  pub chat_type : all is_plain (bytes u.chat_type) ≡ true
  pub display : is_line u.display ≡ true
  pub phone : is_line u.phone ≡ true

-- What the file says of the unit.
abbrev pub identity_of : ChatUnit → ℕ → ChatFileIdentity
identity_of u count = record {
  exists = true;
  file_type = bytes "whatsapp-chat";
  jid = bytes u.primary;
  alias_jids = map bytes u.alias_jids;
  chat_type = bytes u.chat_type;
  last_ts = u.last_message_ts;
  message_count = count;
}

pub read-header_lines :
    (today first last : Text) (u : ChatUnit) (messages : List StoredMessage)
    → IsPlainUnit u
    → read_lines (header_lines today u messages first last) in_front
      ≡ identity_of u (length messages)
unfolding header_lines read_lines read_line
read-header_lines today first last u messages h =
    let id1 : ChatFileIdentity = record in_front { file_type = bytes "whatsapp-chat" } in
    let id2 : ChatFileIdentity = record id1 { jid = bytes u.primary } in
    let id3 : ChatFileIdentity = record id2 { alias_jids = map bytes u.alias_jids } in
    let id4 : ChatFileIdentity = record id3 { chat_type = bytes u.chat_type } in
    let id5 : ChatFileIdentity = record id4 { message_count = length messages } in
    let group = group_line u messages in
    let from_ts =
      (bytes "last_message_ts: " ++ decimal u.last_message_ts)
      ∷ (bytes "last_sync: " ++ today)
      ∷ group in
    let from_count =
      (bytes "message_count: " ++ decimal (length messages))
      ∷ (bytes "first_message: " ++ first)
      ∷ (bytes "last_message: " ++ last)
      ∷ from_ts in
    let from_type = (bytes "chat_type: " ++ quoted (bytes u.chat_type)) ∷ from_count in
    let from_alias = alias_line u.alias_jids ++ from_type in
    let from_jid = (bytes "jid: " ++ quoted (bytes u.primary)) ∷ from_alias in
    read_lines-append (phone_line u.phone) from_jid id1
    ∙ ap (read_lines from_jid) (read-phone_line id1 u.phone)
    ∙ ap (read_lines from_alias) (read-jid id1 (bytes u.primary) h.primary)
    ∙ read_lines-append (alias_line u.alias_jids) from_type id2
    ∙ ap (read_lines from_type) (read-alias_line id2 u.alias_jids refl h.aliases)
    ∙ ap (read_lines from_count) (read-chat_type id3 (bytes u.chat_type) h.chat_type)
    ∙ ap
        (λ z. read_lines from_ts (
          read_line (bytes "last_message: " ++ last)
            (read_line (bytes "first_message: " ++ first) z)))
        (read-message_count id4 (length messages))
    ∙ ap (λ z. read_lines group (read_line (bytes "last_sync: " ++ today) z))
        (read-last_message_ts id5 u.last_message_ts)
    ∙ read-group_line (identity_of u (length messages)) u messages

other-field :
    (key val : Text) (id : ChatFileIdentity) → is_canonical key ≡ false → read_field key val id ≡ id
unfolding read_field is_canonical
other-field key val id h = ground (arith, h)

-- A line that the exporter does not own leaves the identity as it is.
extra-field :
    (line : Text) (o : Option ℕ) (id : ChatFileIdentity)
    → is_extra_key line o ≡ true
    → field_at line o id ≡ id
extra-field line none id h = refl
extra-field line (some zero) id h = refl
extra-field line (some (suc i)) id h =
    other-field (trim_space (take (suc i) line)) (trim_space (drop (suc (suc i)) line)) id
      (ground (arith, h))

pub read-extras :
    (ls : List Text) (id : ChatFileIdentity) → all is_extra ls ≡ true → read_lines ls id ≡ id
unfolding read_lines read_line is_extra
read-extras [] id h = refl
read-extras (l ∷ ls) id h =
    ap (read_lines ls) (extra-field l (index l (b':' ∷ [])) id (ground (arith, h)))
    ∙ read-extras ls id (ground (arith, h))
