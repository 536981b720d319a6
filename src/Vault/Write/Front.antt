-- ===== src/Vault/Write/Front.antt =====
-- The front matter of a file that `exportOneUnit` (whatsapp-bridge/export_vault.go) writes, the lines that it
-- keeps of the file before, and the dates of its days.
use whatsapp_mcp_plugin.Sorting.{fold-sort_by, sort_by}
use whatsapp_mcp_plugin.Prelude.{
  all-where_rows, ℕ, ◌≡◌, refl, ap, sym, ◌∙◌, Bool, true, false, ◌&&◌, Option, none, some, List, [],
  ◌∷◌, ◌++◌, all, where_rows, ◌==◌, if-cases, arith,
}
use mathlib.Core.List.{append_assoc}
use whatsapp_mcp_plugin.Bytes.{join_texts, Text, bytes}
use whatsapp_mcp_plugin.Archive.{StoredMessage}
use whatsapp_mcp_plugin.Vault.File.{
  onto_first, split_lines, front_matter, is_extra, extras_in, extract_extras,
}
use whatsapp_mcp_plugin.Vault.File.Lines.{is_line, nl, front_matter-lines}
use whatsapp_mcp_plugin.Vault.Write.{
  Surroundings, Days, add_line, by_date, message_line, is_written, earlier_day, day_lines,
  last_date, chat_file,
}
use whatsapp_mcp_plugin.Vault.Write.Body.{IsBody}

join_texts-append :
    (x : Text) (xs : List Text) (y : Text) (ys : List Text)
    → join_texts nl ((x ∷ xs) ++ (y ∷ ys))
      ≡ join_texts nl (x ∷ xs) ++ (nl ++ join_texts nl (y ∷ ys))
unfolding join_texts
join_texts-append x [] y ys = refl
join_texts-append x (z ∷ xs) y ys =
    ap (λ s. x ++ (nl ++ s)) (join_texts-append z xs y ys)
    ∙ sym (append_assoc x (nl ++ join_texts nl (z ∷ xs)) (nl ++ join_texts nl (y ∷ ys)))

-- The front matter of a file is the lines that were put there.
pub chat_file-front :
    (h : Text) (hs extras : List Text) (display : Text) (days : Days)
    → IsBody (h ∷ (hs ++ extras))
    → front_matter (chat_file (h ∷ hs) extras display days)
      ≡ some (join_texts nl (h ∷ (hs ++ extras)))
unfolding chat_file bytes join_texts
chat_file-front h hs extras display days body =
    let tail = [] ∷ (bytes "# WhatsApp: " ++ display) ∷ [] ∷ day_lines days in
    ap (λ s. front_matter (bytes "---\n" ++ s))
      (join_texts-append h (hs ++ extras) (bytes "---") tail)
    ∙ front_matter-lines h (hs ++ extras) (nl ++ join_texts nl tail) body.lines
        (ground (arith, body.plain))

all-extra : (ls : List Text) → all is_extra (where_rows is_extra ls) ≡ true
all-extra [] = refl
all-extra (l ∷ ls) = ground (arith, all-extra ls)

all-onto_first :
    (c : ℕ) (ls : List Text)
    → c == b'\n' ≡ false
    → all is_line ls ≡ true
    → all is_line (onto_first c ls) ≡ true
all-onto_first c [] e h = ground (arith, e)
all-onto_first c (l ∷ ls) e h = ground (arith, e, h)

all-split_lines : (s : Text) → all is_line (split_lines s) ≡ true
unfolding split_lines
all-split_lines [] = refl
all-split_lines (c ∷ s) =
    if-cases (λ ls. all is_line ls ≡ true) (c == b'\n') ([] ∷ split_lines s)
      (onto_first c (split_lines s)) (λ _. all-split_lines s)
      (λ e. all-onto_first c (split_lines s) e (all-split_lines s))

-- The lines that are kept of a file.
extras-in :
    (o : Option Text) → (all is_extra (extras_in o) ≡ true) × (all is_line (extras_in o) ≡ true)
extras-in none = (refl, refl)
extras-in (some fm) = (
  all-extra (split_lines fm),
  all-where_rows is_line is_extra (split_lines fm) (all-split_lines fm),
)

pub extras-extracted :
    (o : Option Text)
    → (all is_extra (extract_extras o) ≡ true) × (all is_line (extract_extras o) ≡ true)
unfolding extract_extras
extras-extracted none = (refl, refl)
extras-extracted (some content) = extras-in (front_matter content)

-- The dates of the days.
abbrev pub dated : Days → Bool
dated [] = true
dated ((d, ls) ∷ days) = is_line d && dated days

dated-add_line :
    (date line : Text) (days : Days)
    → is_line date ≡ true
    → dated days ≡ true
    → dated (add_line date line days) ≡ true
dated-add_line date line [] e h = ground (arith, e)
dated-add_line date line ((d, ls) ∷ days) e h = ground (arith, dated-add_line date line days e, h)

pub dated-by_date :
    (env : Surroundings) (display : Text) (messages : List StoredMessage) (days : Days)
    → ((ts : ℕ) → is_line (env.date_of ts) ≡ true)
    → dated days ≡ true
    → dated (by_date env display messages days) ≡ true
unfolding by_date
dated-by_date env display [] days e h = h
dated-by_date env display (m ∷ messages) days e h =
    let longer = add_line (env.date_of m.timestamp) (message_line env display m) days in
    if-cases (λ ds. dated (by_date env display messages ds) ≡ true) (is_written env m) longer days
      (λ _. dated-by_date env display messages longer e (
        dated-add_line (env.date_of m.timestamp) (message_line env display m) days (e m.timestamp)
          h))
      (λ _. dated-by_date env display messages days e h)

pub dated-sort_by : (days : Days) → dated (sort_by earlier_day days) ≡ dated days
dated-sort_by days =
    fold-sort_by dated (λ day b. is_line day.0 && b) (λ day ds. refl) (λ x y b. ground arith)
      earlier_day days

pub dated-last :
    (d : Text) (ls : List Text) (days : Days)
    → dated ((d, ls) ∷ days) ≡ true
    → is_line (last_date ((d, ls) ∷ days)) ≡ true
dated-last d ls [] h = ground (arith, h)
dated-last d ls ((e, ks) ∷ days) h = dated-last e ks days (ground (arith, h))
