-- ===== src/Vault/Write/Again.antt =====
-- A chat file that `exportOneUnit` (whatsapp-bridge/export_vault.go) wrote, read by the next run.
use whatsapp_mcp_plugin.Sorting.{sort_by}
use whatsapp_mcp_plugin.Prelude.{
  ℕ, ◌<◌, String, ◌≡◌, refl, ap, sym, ◌∙◌, subst, Bool, true, false, Option, some, List, [], ◌∷◌,
  ◌++◌, any, all, map, length, same, same→eq, ◌==◌, if◌then◌else◌, if-cases, arith,
}
use whatsapp_mcp_plugin.Bytes.{join_texts, Text, bytes, equal, is_blank}
use whatsapp_mcp_plugin.Bytes.Equal.{equal_refl}
use whatsapp_mcp_plugin.Archive.{StoredMessage}
use whatsapp_mcp_plugin.Vault.Units.{ChatUnit}
use whatsapp_mcp_plugin.Vault.File.{
  split_lines, front_matter, read_lines, identity_in, read_chat_file_identity, is_extra,
  extract_extras,
}
use whatsapp_mcp_plugin.Vault.File.Lines.{is_line, is_dashed, nl, split_lines-join_texts}
use whatsapp_mcp_plugin.Vault.Write.{
  Surroundings, unit_messages, Days, by_date, earlier_day, header_lines, last_date, chat_file,
  WriteResult, wrote, unchanged, empty, file_is_ours, closure_text, is_unchanged, written_file,
  export_one_unit,
}
use whatsapp_mcp_plugin.Vault.Write.Header.{
  IsPlainUnit, in_front, identity_of, read-header_lines, read_lines-append, read-extras,
}
use whatsapp_mcp_plugin.Vault.Write.Body.{IsBody-append, header_lines-IsBody}
use whatsapp_mcp_plugin.Vault.Write.Front.{
  chat_file-front, extras-extracted, dated, dated-by_date, dated-sort_by, dated-last,
}

-- The lines that the new file takes over.
abbrev pub kept_extras : ChatUnit → Option Text → List Text
kept_extras u file =
    if file_is_ours u (read_chat_file_identity file) then extract_extras file else []

-- No date holds a line feed.
abbrev pub IsDating : Surroundings → Type 0
IsDating env = ((ts : ℕ) → is_line (env.date_of ts) ≡ true) × (is_line env.today ≡ true)

module _ (env : Surroundings) (stored : List StoredMessage) (u : ChatUnit)
    (file : Option Text) where
  abbrev messages : List StoredMessage
  messages = unit_messages stored u.members

  -- The content is that of a header and of the lines that are kept.
  pub record Holds (content : Text) : Type 0 where
    pub first : Text
    pub last : Text
    pub days : Days
    pub first_line : is_line first ≡ true
    pub last_line : is_line last ≡ true
    pub shape :
        content
        ≡ chat_file
            (header_lines env.today u messages first last)
            (kept_extras u file)
            u.display
            days

  content_of : WriteResult → Text
  content_of (wrote content) = content
  content_of unchanged = []
  content_of empty = []

  written_file-Holds :
      (days : Days) (content : Text)
      → dated days ≡ true
      → written_file env u messages (kept_extras u file) days ≡ wrote content
      → Holds content
  unfolding content_of
  written_file-Holds [] content h e = ground (arith, e)
  written_file-Holds ((d, ls) ∷ days) content h e = record {
    first = d;
    last = last_date ((d, ls) ∷ days);
    days = (d, ls) ∷ days;
    first_line = ground (arith, h);
    last_line = dated-last d ls days h;
    shape = sym (ap content_of e);
  }

  write_only :
      (b c : Bool) (w : WriteResult) (content : Text)
      → (if b then unchanged else if c then empty else w) ≡ wrote content
      → w ≡ wrote content
  write_only b c w content e = ground (arith, e)

  pub export_one_unit-Holds :
      (force : Bool) (content : Text)
      → ((ts : ℕ) → is_line (env.date_of ts) ≡ true)
      → export_one_unit env stored force u file ≡ wrote content
      → Holds content
  unfolding export_one_unit
  export_one_unit-Holds force content dates e =
      let days = sort_by earlier_day (by_date env u.display messages []) in
      written_file-Holds days content
        (dated-sort_by (by_date env u.display messages [])
          ∙ dated-by_date env u.display messages [] dates refl)
        (write_only (is_unchanged force u (read_chat_file_identity file)) (length messages == 0)
          (written_file env u messages (kept_extras u file) days) content e)

  pub kept-extras :
      (all is_extra (kept_extras u file) ≡ true) × (all is_line (kept_extras u file) ≡ true)
  kept-extras =
      if-cases (λ ls. (all is_extra ls ≡ true) × (all is_line ls ≡ true))
        (file_is_ours u (read_chat_file_identity file)) (extract_extras file) []
        (λ _. extras-extracted file) (λ _. (refl, refl))

  module _ (plain : IsPlainUnit u) (today : is_line env.today ≡ true)
      (tidy : any is_dashed (kept_extras u file) ≡ false) where
    pub Holds-front :
        (content : Text) (h : Holds content)
        → front_matter content
          ≡ some (
              join_texts nl
                (header_lines env.today u messages h.first h.last ++ kept_extras u file))
    unfolding header_lines bytes
    Holds-front content h =
        let header = header_lines env.today u messages h.first h.last in
        ap front_matter h.shape
        ∙ chat_file-front _ _ (kept_extras u file) u.display h.days (
            IsBody-append header (kept_extras u file)
              (header_lines-IsBody env.today h.first h.last u messages plain today h.first_line
                h.last_line)
              (record { lines = kept-extras.1; plain = tidy }))

    pub Holds-lines :
        (content : Text) (h : Holds content)
        → split_lines
            (join_texts nl (header_lines env.today u messages h.first h.last ++ kept_extras u file))
          ≡ header_lines env.today u messages h.first h.last ++ kept_extras u file
    unfolding header_lines bytes
    Holds-lines content h =
        let header = header_lines env.today u messages h.first h.last in
        split_lines-join_texts _ _
          (IsBody-append header (kept_extras u file)
            (header_lines-IsBody env.today h.first h.last u messages plain today h.first_line
              h.last_line)
            (record { lines = kept-extras.1; plain = tidy })).lines

    Holds-identity :
        (content : Text)
        → Holds content
        → read_chat_file_identity (some content) ≡ identity_of u (length messages)
    unfolding read_chat_file_identity
    Holds-identity content h =
        let header = header_lines env.today u messages h.first h.last in
        ap identity_in (Holds-front content h)
        ∙ ap (λ ls. read_lines ls in_front) (Holds-lines content h)
        ∙ read_lines-append header (kept_extras u file) in_front
        ∙ ap (read_lines (kept_extras u file))
            (read-header_lines env.today h.first h.last u messages plain)
        ∙ read-extras (kept_extras u file) (identity_of u (length messages)) kept-extras.0

-- What `readChatFileIdentity` reads from a file that `exportOneUnit` wrote is the unit's primary JID, its
-- other JIDs, its type, its last timestamp and the number of its messages, where the JIDs and the type
-- hold no quote, backslash or control byte, the display name, the phone and the dates no line feed, and no
-- line that was kept starts with three dashes.
pub export_one_unit-identity :
    (env : Surroundings) (stored : List StoredMessage) (force : Bool) (u : ChatUnit)
    (file : Option Text) (content : Text)
    → IsPlainUnit u
    → IsDating env
    → any is_dashed (kept_extras u file) ≡ false
    → export_one_unit env stored force u file ≡ wrote content
    → read_chat_file_identity (some content)
      ≡ identity_of u (length (unit_messages stored u.members))
export_one_unit-identity env stored force u file content plain (dates, today) tidy e =
    Holds-identity env stored u file plain today tidy content
      (export_one_unit-Holds env stored u file force content dates e)

-- Two runs.
member-bytes :
    (x : String) (xs : List String)
    → any (same x) xs ≡ true
    → any (λ j. equal (bytes x) (bytes j)) xs ≡ true
member-bytes x [] h = ground (arith, h)
member-bytes x (y ∷ xs) h =
    let alike = λ (s : same x y ≡ true).
      subst (λ z. equal (bytes x) (bytes z) ≡ true) (same→eq x y s) (equal_refl (bytes x)) in
    ground (arith, alike, h, member-bytes x xs)

own-unchanged :
    (u : ChatUnit) (count : ℕ)
    → any (same u.primary) u.members ≡ true
    → is_blank (bytes u.primary) ≡ false
    → 0 < u.last_message_ts
    → is_unchanged false u (identity_of u count) ≡ true
unfolding is_unchanged
own-unchanged u count member named later = ground (
  arith,
  member-bytes u.primary u.members member,
  equal_refl (bytes "whatsapp-chat"),
  named,
  later,
  equal_refl (closure_text (bytes u.primary ∷ map bytes u.alias_jids)),
)

-- Once `exportOneUnit` has written the file of a unit, a run for the same unit that is not forced leaves
-- that file as it is, whatever the tables hold then. The last timestamp is not 0, the primary JID is one of
-- the members and not empty, the JIDs and the type hold no quote, backslash or control byte, the display
-- name, the phone and the dates no line feed, and no line that was kept starts with three dashes.
pub export_one_unit-again :
    (env env2 : Surroundings) (stored stored2 : List StoredMessage) (force : Bool) (u : ChatUnit)
    (file : Option Text) (content : Text)
    → IsPlainUnit u
    → IsDating env
    → any is_dashed (kept_extras u file) ≡ false
    → any (same u.primary) u.members ≡ true
    → is_blank (bytes u.primary) ≡ false
    → 0 < u.last_message_ts
    → export_one_unit env stored force u file ≡ wrote content
    → export_one_unit env2 stored2 false u (some content) ≡ unchanged
unfolding export_one_unit
export_one_unit-again env env2 stored stored2 force u file content plain dating tidy member named
      later e =
    let skip =
      subst (λ id. is_unchanged false u id ≡ true)
        (sym (export_one_unit-identity env stored force u file content plain dating tidy e))
        (own-unchanged u (length (unit_messages stored u.members)) member named later) in
    rw skip refl
