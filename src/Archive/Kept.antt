-- ===== src/Archive/Kept.antt =====
-- What becomes of a message's row: the upserts of `onMessage` (whatsapp-bridge/bridge.go) and
-- `onUndecryptableMessage` (whatsapp-bridge/undecryptable.go) on one id.
use whatsapp_mcp_plugin.Prelude.{
  upsert, ◌≡◌, refl, sym, ◌∙◌, subst, inl, inr, String, true, false, ◌||◌, Option, none, some, List,
  [], ◌∷◌, ◌++◌, same, same_refl, if◌then◌else◌, if-cases, Bool-cases, arith, eq_iff,
}
use whatsapp_mcp_plugin.Bytes.{Text}
use whatsapp_mcp_plugin.Markers.{Undecryptable, raw_type_nullable}
use whatsapp_mcp_plugin.Archive.{StoredMessage, Archive}
use whatsapp_mcp_plugin.Archive.Intake.{
  MessageInfo, Decoded, Faults, is_placeholder, has_content, upgrade, upgraded, message_row,
  store_message,
}
use whatsapp_mcp_plugin.Archive.Events.{
  Arrival, message, undecryptable, on_message, on_undecryptable_message, placeholder_row, is_stored,
  store_placeholder, message_alias, arrive, arrive_all, find_stored,
}

abbrev or_upgraded : StoredMessage → Option StoredMessage → StoredMessage
or_upgraded row none = row
or_upgraded row (some old) = upgrade row old

abbrev or_placed : StoredMessage → Option StoredMessage → StoredMessage
or_placed row none = row
or_placed row (some old) = old

upgrade_id : (row old : StoredMessage) → (upgrade row old).id ≡ old.id
upgrade_id row old = ground arith

find_stored-store_message :
    (id : String) (row : StoredMessage) (rows : List StoredMessage)
    → find_stored id (store_message row rows) ≡ (
        if same row.id id
        then some (or_upgraded row (find_stored id rows))
        else find_stored id rows)
unfolding find_stored store_message upsert
find_stored-store_message id row [] = refl
find_stored-store_message id row (r ∷ rows) = ground (
  arith,
  upgrade_id row r,
  eq_iff r.id row.id,
  eq_iff r.id id,
  eq_iff row.id id,
  find_stored-store_message id row rows,
)

find_stored-append :
    (id : String) (row : StoredMessage) (rows : List StoredMessage)
    → find_stored id (rows ++ row ∷ [])
      ≡ (if same row.id id then some (or_placed row (find_stored id rows)) else find_stored id rows)
unfolding find_stored
find_stored-append id row [] = refl
find_stored-append id row (r ∷ rows) =
    ground (arith, eq_iff r.id id, eq_iff row.id id, find_stored-append id row rows)

is_stored-find :
    (id : String) (rows : List StoredMessage) (r : StoredMessage)
    → find_stored id rows ≡ some r
    → is_stored id rows ≡ true
unfolding find_stored
is_stored-find id [] r h = ground (arith, h)
is_stored-find id (q ∷ rows) r h = ground (arith, h, is_stored-find id rows r)

-- What a row that is read must have to stay.
abbrev pub Readable : String → StoredMessage → List StoredMessage → Type 0
Readable id r rows = find_stored id rows ≡ some r

module _ (id : String) (r : StoredMessage) (readable : is_placeholder r ≡ false) where
  store_message-Readable :
      (row : StoredMessage) (rows : List StoredMessage)
      → Readable id r rows
      → Readable id r (store_message row rows)
  store_message-Readable row rows h =
      find_stored-store_message id row rows ∙ ground (arith, h, readable)

  store_placeholder-Readable :
      (row : StoredMessage) (rows : List StoredMessage)
      → Readable id r rows
      → Readable id r (store_placeholder row rows)
  unfolding store_placeholder
  store_placeholder-Readable row rows h =
      if-cases (Readable id r) (is_stored row.id rows) rows (rows ++ row ∷ []) (λ e. h)
        (λ e. find_stored-append id row rows ∙ ground (arith, h))

on_message-messages :
    (normalize : Text → Text) (f : Faults) (info : MessageInfo) (d : Decoded) (db : Archive)
    → (on_message normalize f info d db).messages ≡ (
        if f.message_fails
        then db.messages
        else store_message (message_row normalize info d) db.messages)
unfolding on_message message_alias
on_message-messages normalize f info d db = elim (Bool-cases info.is_group) [
  | inl e ↦ rw e refl
  | inr e ↦ rw e refl
]

on_undecryptable_message-messages :
    (normalize : Text → Text) (f : Faults) (info : MessageInfo) (failure : Undecryptable)
    (db : Archive)
    → (on_undecryptable_message normalize f info failure db).messages ≡ (
        if same info.id "" || f.message_fails
        then db.messages
        else store_placeholder (placeholder_row normalize info failure) db.messages)
unfolding on_undecryptable_message
on_undecryptable_message-messages normalize f info failure db = ground arith

module _ (normalize : Text → Text) (id : String) (r : StoredMessage)
    (readable : is_placeholder r ≡ false) where
  arrive-Readable :
      (a : Arrival) (db : Archive)
      → Readable id r db.messages
      → Readable id r (arrive normalize a db).messages
  unfolding arrive
  arrive-Readable (message f info d) db h =
      let row = message_row normalize info d in
      subst (Readable id r) (sym (on_message-messages normalize f info d db)) (
        if-cases (Readable id r) f.message_fails db.messages (store_message row db.messages)
          (λ e. h) (λ e. store_message-Readable id r readable row db.messages h))
  arrive-Readable (undecryptable f info failure) db h =
      let row = placeholder_row normalize info failure in
      subst (Readable id r) (sym (on_undecryptable_message-messages normalize f info failure db)) (
        if-cases (Readable id r) (same info.id "" || f.message_fails) db.messages
          (store_placeholder row db.messages) (λ e. h)
          (λ e. store_placeholder-Readable id r readable row db.messages h))

  -- A row that is found and is no placeholder stays exactly as it is, whatever arrives after it: other
  -- messages, the same one again, or its failure to decrypt, with any statements failing.
  pub arrive_all-Readable :
      (arrivals : List Arrival) (db : Archive)
      → Readable id r db.messages
      → Readable id r (arrive_all normalize arrivals db).messages
  unfolding arrive_all
  arrive_all-Readable [] db h = h
  arrive_all-Readable (a ∷ rest) db h =
      arrive_all-Readable rest (arrive normalize a db) (arrive-Readable a db h)

-- The row is absent or waits for its content.
abbrev pub Awaited : String → List StoredMessage → Type 0
Awaited id rows = (old : StoredMessage) → find_stored id rows ≡ some old → is_placeholder old ≡ true

-- The row of this id is one that the message has filled in.
pub record Filled (id : String) (d : Decoded) (rows : List StoredMessage) : Type 0 where
  pub row : StoredMessage
  pub found : find_stored id rows ≡ some row
  pub readable : is_placeholder row ≡ false
  pub same_text : row.content_text ≡ d.content
  pub same_type : row.type ≡ d.msg_type
  pub same_raw : row.raw_type ≡ raw_type_nullable d.msg_type d.content

module _ (normalize : Text → Text) (f : Faults) (info : MessageInfo) (d : Decoded) (db : Archive)
    (awaited : Awaited info.id db.messages) (stored : f.message_fails ≡ false)
    (content : has_content (message_row normalize info d) ≡ true)
    (real : is_placeholder (message_row normalize info d) ≡ false) where
  store_message-Filled : Filled info.id d (store_message (message_row normalize info d) db.messages)
  unfolding message_row is_placeholder
  store_message-Filled = go (find_stored info.id db.messages) refl
    where
      new : StoredMessage
      new = message_row normalize info d

      go :
          (old : Option StoredMessage)
          → find_stored info.id db.messages ≡ old
          → Filled info.id d (store_message new db.messages)
      go none e = record {
        row = new;
        found = find_stored-store_message info.id new db.messages ∙ rw (same_refl info.id, e) refl;
        readable = real;
        same_text = refl;
        same_type = refl;
        same_raw = refl;
      }
      go (some old) e = record {
        row = upgraded new old;
        found =
            find_stored-store_message info.id new db.messages
            ∙ rw (same_refl info.id, e, awaited old e, content) refl;
        readable = real;
        same_text = refl;
        same_type = refl;
        same_raw = refl;
      }

  -- A message that is stored when its row is absent, or is the placeholder of an earlier failure to
  -- decrypt, is read back with its own text, type and raw type after any later arrivals, provided that
  -- it has content and does not itself look like a placeholder.
  pub recovered :
      (later : List Arrival)
      → Filled info.id d (arrive_all normalize later (on_message normalize f info d db)).messages
  recovered later =
      let filled =
        subst (Filled info.id d) (sym (on_message-messages normalize f info d db ∙ rw stored refl))
          store_message-Filled in
      record {
        row = filled.row;
        found =
            arrive_all-Readable normalize info.id filled.row filled.readable later
              (on_message normalize f info d db) filled.found;
        readable = filled.readable;
        same_text = filled.same_text;
        same_type = filled.same_type;
        same_raw = filled.same_raw;
      }
