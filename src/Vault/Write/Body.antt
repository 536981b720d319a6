-- ===== src/Vault/Write/Body.antt =====
-- The lines of the front matter that `exportOneUnit` (whatsapp-bridge/export_vault.go) writes: none holds a
-- line feed, and none ends the front matter.
use whatsapp_mcp_plugin.Prelude.{
  all-append, ℕ, suc, String, ◌≡◌, refl, true, false, not, List, [], ◌∷◌, ◌++◌, any, all, map,
  length, same, ◌==◌, if-cases, arith,
}
use whatsapp_mcp_plugin.Bytes.{join_texts, Text, bytes, has_prefix, is_digit}
use whatsapp_mcp_plugin.Archive.{StoredMessage}
use whatsapp_mcp_plugin.Vault.Units.{ChatUnit}
use whatsapp_mcp_plugin.Vault.File.{decimal}
use whatsapp_mcp_plugin.Vault.File.Lines.{is_line, is_dashed}
use whatsapp_mcp_plugin.Vault.File.Values.{is_plain, digits-all}
use whatsapp_mcp_plugin.Vault.Render.{escape_yaml}
use whatsapp_mcp_plugin.Vault.Write.{
  quoted, alias_line, phone_line, participants, group_line, header_lines,
}
use whatsapp_mcp_plugin.Vault.Write.Header.{IsPlainUnit}

pub record IsBody (ls : List Text) : Type 0 where
  pub lines : all is_line ls ≡ true
  pub plain : any is_dashed ls ≡ false

IsBody-none : IsBody []
IsBody-none = record { lines = refl; plain = refl }

IsBody-cons :
    (l : Text) (ls : List Text)
    → is_line l ≡ true
    → is_dashed l ≡ false
    → IsBody ls
    → IsBody (l ∷ ls)
IsBody-cons l ls line plain h = record {
  lines = ground (arith, line, h.lines);
  plain = ground (arith, plain, h.plain);
}

pub IsBody-append : (ls ks : List Text) → IsBody ls → IsBody ks → IsBody (ls ++ ks)
IsBody-append [] ks a b = b
IsBody-append (l ∷ ls) ks a b =
    IsBody-cons l (ls ++ ks) (ground (arith, a.lines)) (ground (arith, a.plain)) (
      IsBody-append ls ks
        (record { lines = ground (arith, a.lines); plain = ground (arith, a.plain) }) b)

line-append : (s t : Text) → is_line s ≡ true → is_line t ≡ true → is_line (s ++ t) ≡ true
line-append s t a b = ground (arith, all-append (λ c. not (c == b'\n')) s t, a, b)

line-plain : (s : Text) → all is_plain s ≡ true → is_line s ≡ true
line-plain [] h = refl
line-plain (c ∷ s) h = ground (arith, line-plain s, h)

line-digits : (s : Text) → all is_digit s ≡ true → is_line s ≡ true
line-digits [] h = refl
line-digits (c ∷ s) h = ground (arith, line-digits s, h)

line-decimal : (n : ℕ) → is_line (decimal n) ≡ true
unfolding decimal
line-decimal n = line-digits (decimal n) (digits-all (suc n) n)

line-escape : (s : Text) → is_line s ≡ true → is_line (escape_yaml s) ≡ true
unfolding escape_yaml
line-escape [] h = refl
line-escape (c ∷ s) h = ground (arith, line-escape s, h)

line-quoted : (s : Text) → is_line s ≡ true → is_line (quoted s) ≡ true
unfolding bytes
line-quoted s h = line-append s (b'"' ∷ []) h refl

line-values :
    (jids : List String)
    → all (λ j. all is_plain (bytes j)) jids ≡ true
    → is_line (join_texts (bytes ", ") (map (λ j. quoted (escape_yaml (bytes j))) jids)) ≡ true
unfolding join_texts bytes
line-values [] h = refl
line-values (j ∷ []) h =
    line-quoted (escape_yaml (bytes j))
      (line-escape (bytes j) (line-plain (bytes j) (ground (arith, h))))
line-values (j ∷ k ∷ jids) h =
    line-append (quoted (escape_yaml (bytes j)))
      (b',' ∷ b' ' ∷ join_texts (bytes ", ") (map (λ i. quoted (escape_yaml (bytes i))) (k ∷ jids)))
      (line-quoted (escape_yaml (bytes j))
        (line-escape (bytes j) (line-plain (bytes j) (ground (arith, h)))))
      (line-values (k ∷ jids) (ground (arith, h)))

phone_line-IsBody : (phone : Text) → is_line phone ≡ true → IsBody (phone_line phone)
unfolding bytes has_prefix
phone_line-IsBody [] h = IsBody-none
phone_line-IsBody (c ∷ phone) h =
    IsBody-cons (bytes "phone: " ++ quoted (b'+' ∷ c ∷ phone)) [] (line-quoted (b'+' ∷ c ∷ phone) h)
      refl IsBody-none

alias_line-IsBody :
    (jids : List String) → all (λ j. all is_plain (bytes j)) jids ≡ true → IsBody (alias_line jids)
unfolding alias_line bytes has_prefix
alias_line-IsBody [] h = IsBody-none
alias_line-IsBody (j ∷ jids) h =
    let parts = join_texts (bytes ", ") (map (λ i. quoted (escape_yaml (bytes i))) (j ∷ jids)) in
    IsBody-cons (bytes "alias_jids: [" ++ (parts ++ bytes "]")) []
      (line-append parts (bytes "]") (line-values (j ∷ jids) h) refl) refl IsBody-none

group_line-IsBody : (u : ChatUnit) (messages : List StoredMessage) → IsBody (group_line u messages)
unfolding bytes has_prefix
group_line-IsBody u messages =
    let line = bytes "participants_count: " ++ decimal (participants u messages) in
    if-cases IsBody (same u.chat_type "group") (line ∷ []) []
      (λ _. IsBody-cons line [] (line-decimal (participants u messages)) refl IsBody-none)
      (λ _. IsBody-none)

pub header_lines-IsBody :
    (today first last : Text) (u : ChatUnit) (messages : List StoredMessage)
    → IsPlainUnit u
    → is_line today ≡ true
    → is_line first ≡ true
    → is_line last ≡ true
    → IsBody (header_lines today u messages first last)
unfolding header_lines bytes has_prefix
header_lines-IsBody today first last u messages h line_today line_first line_last =
    IsBody-cons _ _ refl refl (
      IsBody-cons _ _ (line-quoted (escape_yaml u.display) (line-escape u.display h.display)) refl (
        IsBody-append (phone_line u.phone) _ (phone_line-IsBody u.phone h.phone) (
          IsBody-cons _ _ (line-quoted (bytes u.primary) (line-plain (bytes u.primary) h.primary))
            refl
            (IsBody-append (alias_line u.alias_jids) _ (alias_line-IsBody u.alias_jids h.aliases) (
              IsBody-cons _ _
                (line-quoted (bytes u.chat_type) (line-plain (bytes u.chat_type) h.chat_type)) refl
                (IsBody-cons _ _ (line-decimal (length messages)) refl (
                  IsBody-cons _ _ line_first refl (
                    IsBody-cons _ _ line_last refl (
                      IsBody-cons _ _ (line-decimal u.last_message_ts) refl
                        (IsBody-cons _ _ line_today refl (group_line-IsBody u messages)))))))))))
