-- ===== src/Vault/Write/Extras.antt =====
-- The lines of other programs in a chat file, over a run of `exportOneUnit`
-- (whatsapp-bridge/export_vault.go).
use whatsapp_mcp_plugin.Prelude.{
  where_rows-append, where_rows-all, String, ◌≡◌, refl, ap, ◌∙◌, Bool, false, Option, some, List,
  [], ◌∷◌, ◌++◌, any, length, where_rows, same, if-cases, arith,
}
use whatsapp_mcp_plugin.Bytes.{Text, bytes, equal, index, has_prefix, trim_space}
use whatsapp_mcp_plugin.Archive.{StoredMessage}
use whatsapp_mcp_plugin.Vault.Units.{ChatUnit}
use whatsapp_mcp_plugin.Vault.File.{
  is_extra, is_extra_key, is_canonical, decimal, extras_in, extract_extras,
}
use whatsapp_mcp_plugin.Vault.File.Lines.{is_dashed}
use whatsapp_mcp_plugin.Vault.Write.{
  Surroundings, unit_messages, quoted, phone_line, alias_line, group_line, participants,
  header_lines, wrote, export_one_unit,
}
use whatsapp_mcp_plugin.Vault.Write.Header.{IsPlainUnit}
use whatsapp_mcp_plugin.Vault.Write.Again.{
  kept_extras, IsDating, export_one_unit-Holds, Holds-front, Holds-lines, kept-extras,
}

-- Lines of which none is another program's.
record AreOwn (ls : List Text) : Type 0 where
  none_kept : where_rows is_extra ls ≡ []

AreOwn-none : AreOwn []
AreOwn-none = record { none_kept = refl }

AreOwn-cons :
    (l : Text) (ls : List Text)
    → is_extra_key l (index l (b':' ∷ [])) ≡ false
    → AreOwn ls
    → AreOwn (l ∷ ls)
unfolding is_extra
AreOwn-cons l ls own h = record { none_kept = ground (arith, own, h.none_kept) }

AreOwn-append : (ls ks : List Text) → AreOwn ls → AreOwn ks → AreOwn (ls ++ ks)
AreOwn-append ls ks a b = record {
  none_kept =
      where_rows-append is_extra ls ks
      ∙ ap (λ z. z ++ where_rows is_extra ks) a.none_kept
      ∙ b.none_kept;
}

phone_line-AreOwn : (phone : Text) → AreOwn (phone_line phone)
unfolding bytes index has_prefix is_canonical trim_space equal
phone_line-AreOwn [] = AreOwn-none
phone_line-AreOwn (c ∷ phone) = AreOwn-cons _ _ refl AreOwn-none

alias_line-AreOwn : (jids : List String) → AreOwn (alias_line jids)
unfolding alias_line bytes index has_prefix is_canonical trim_space equal
alias_line-AreOwn [] = AreOwn-none
alias_line-AreOwn (j ∷ jids) = AreOwn-cons _ _ refl AreOwn-none

group_line-AreOwn : (u : ChatUnit) (rows : List StoredMessage) → AreOwn (group_line u rows)
unfolding bytes index has_prefix is_canonical trim_space equal
group_line-AreOwn u rows =
    if-cases AreOwn (same u.chat_type "group")
      ((bytes "participants_count: " ++ decimal (participants u rows)) ∷ []) []
      (λ _. AreOwn-cons _ _ refl AreOwn-none) (λ _. AreOwn-none)

-- The exporter's own lines are not among those that it keeps.
header_lines-AreOwn :
    (today first last : Text) (u : ChatUnit) (rows : List StoredMessage)
    → AreOwn (header_lines today u rows first last)
unfolding header_lines bytes index has_prefix is_canonical trim_space equal
header_lines-AreOwn today first last u rows =
    let dates = AreOwn-cons (bytes "first_message: " ++ first) _ refl (
      AreOwn-cons (bytes "last_message: " ++ last) _ refl (
        AreOwn-cons (bytes "last_message_ts: " ++ decimal u.last_message_ts) _ refl
          (AreOwn-cons (bytes "last_sync: " ++ today) _ refl (group_line-AreOwn u rows)))) in
    let counts =
      AreOwn-cons (bytes "chat_type: " ++ quoted (bytes u.chat_type)) _ refl
        (AreOwn-cons (bytes "message_count: " ++ decimal (length rows)) _ refl dates) in
    let jids =
      AreOwn-cons (bytes "jid: " ++ quoted (bytes u.primary)) _ refl
        (AreOwn-append (alias_line u.alias_jids) _ (alias_line-AreOwn u.alias_jids) counts) in
    AreOwn-cons _ _ refl
      (AreOwn-cons _ _ refl (AreOwn-append (phone_line u.phone) _ (phone_line-AreOwn u.phone) jids))

-- The lines of other programs that a new file takes over from the unit's own old one, none from a file that is not
-- its own, are those that the next run reads from it, where the JIDs and the type hold no quote, backslash
-- or control byte, the display name, the phone and the dates no line feed, and none of these lines starts
-- with three dashes.
pub export_one_unit-extras :
    (env : Surroundings) (stored : List StoredMessage) (force : Bool) (u : ChatUnit)
    (file : Option Text) (content : Text)
    → IsPlainUnit u
    → IsDating env
    → any is_dashed (kept_extras u file) ≡ false
    → export_one_unit env stored force u file ≡ wrote content
    → extract_extras (some content) ≡ kept_extras u file
unfolding extract_extras
export_one_unit-extras env stored force u file content plain (dates, today) tidy e =
    let h = export_one_unit-Holds env stored u file force content dates e in
    let header = header_lines env.today u (unit_messages stored u.members) h.first h.last in
    ap extras_in (Holds-front env stored u file plain today tidy content h)
    ∙ ap (where_rows is_extra) (Holds-lines env stored u file plain today tidy content h)
    ∙ where_rows-append is_extra header (kept_extras u file)
    ∙ ap (λ ls. ls ++ where_rows is_extra (kept_extras u file))
        (header_lines-AreOwn env.today h.first h.last u (unit_messages stored u.members)).none_kept
    ∙ where_rows-all is_extra (kept_extras u file) (kept-extras env stored u file).0
