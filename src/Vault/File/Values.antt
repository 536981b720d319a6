-- ===== src/Vault/File/Values.antt =====
-- The values of the front matter are read as they were written: quoted texts, numbers and lists.
use mathlib.Core.List.{reverse, reverse-append, reverse-reverse, append_assoc, append-nil}
use whatsapp_mcp_plugin.Prelude.{
  all-append, ℕ, zero, suc, ◌+◌, ◌-◌, ◌*◌, ◌/◌, ◌%◌, ◌≤◌, ◌≡◌, refl, ap, sym, ◌∙◌, subst, Bool,
  true, false, ◌&&◌, not, List, [], ◌∷◌, ◌++◌, all, map, ltb, ◌==◌, if◌then◌else◌, if-cases, arith,
}
use whatsapp_mcp_plugin.Bytes.{join_texts, Text, bytes, is_digit, is_space, drop_spaces, trim_space}
use whatsapp_mcp_plugin.Vault.File.{
  is_quote, drop_quotes, trim_quotes, digits, decimal, read_digits, scan_decimal, opened, inside,
  after, finished, json_step, json_run, finished_with, read_array,
}
use whatsapp_mcp_plugin.Vault.Write.{quoted}

-- A byte of a JID or of a chat type: no quote, backslash or control byte.
abbrev pub is_plain : ℕ → Bool
is_plain c = not (is_quote c) && not (c == b'\\') && not (ltb c 0x20)

abbrev head_is : (ℕ → Bool) → Text → Bool
head_is p [] = false
head_is p (c ∷ s) = p c

drop_spaces-head : (s : Text) → head_is (λ c. not (is_space c)) s ≡ true → drop_spaces s ≡ s
drop_spaces-head [] h = ground arith
drop_spaces-head (c ∷ s) h = ground (arith, h)

-- The space after the colon goes, and nothing else.
trim_space-value :
    (s : Text)
    → head_is (λ c. not (is_space c)) s ≡ true
    → head_is (λ c. not (is_space c)) (reverse s) ≡ true
    → trim_space (b' ' ∷ s) ≡ s
unfolding trim_space is_space
trim_space-value s first last =
    ap (λ z. reverse (drop_spaces (reverse z))) (drop_spaces-head s first)
    ∙ ap reverse (drop_spaces-head (reverse s) last)
    ∙ reverse-reverse s

pub trim_space-ends :
    (c d : ℕ) (s : Text)
    → is_space c ≡ false
    → is_space d ≡ false
    → trim_space (b' ' ∷ c ∷ (s ++ d ∷ [])) ≡ c ∷ (s ++ d ∷ [])
trim_space-ends c d s first last = trim_space-value (c ∷ (s ++ d ∷ [])) (ground (arith, first)) (
    subst (λ z. head_is (λ b. not (is_space b)) z ≡ true) (sym (reverse-append (c ∷ s) (d ∷ [])))
      (ground (arith, last)))

drop_quotes-plain : (s : Text) → all is_plain s ≡ true → drop_quotes s ≡ s
drop_quotes-plain [] h = refl
drop_quotes-plain (c ∷ s) h = ground (arith, h)

all-reverse : (p : ℕ → Bool) (s : Text) → all p (reverse s) ≡ all p s
all-reverse p [] = refl
all-reverse p (c ∷ s) =
    ap (all p) (reverse-append (c ∷ []) s)
    ∙ all-append p (reverse s) (c ∷ [])
    ∙ ground (arith, all-reverse p s)

drop_quotes-after :
    (s : Text)
    → all is_plain s ≡ true
    → reverse (drop_quotes (reverse (drop_quotes (s ++ b'"' ∷ [])))) ≡ s
drop_quotes-after [] plain = refl
drop_quotes-after (c ∷ s) plain =
    ap (λ z. reverse (drop_quotes (reverse z)))
      (drop_quotes-first c (s ++ b'"' ∷ []) (ground (arith, plain)))
    ∙ ap (λ z. reverse (drop_quotes z)) (reverse-append (c ∷ s) (b'"' ∷ []))
    ∙ ap reverse (drop_quotes-plain (reverse (c ∷ s)) (all-reverse is_plain (c ∷ s) ∙ plain))
    ∙ reverse-reverse (c ∷ s)
  where
    drop_quotes-first : (a : ℕ) (t : Text) → is_quote a ≡ false → drop_quotes (a ∷ t) ≡ a ∷ t
    drop_quotes-first a t h = ground (arith, h)

-- `strings.Trim` takes the quotes off a plain text.
pub trim_quotes-quoted : (s : Text) → all is_plain s ≡ true → trim_quotes (quoted s) ≡ s
unfolding trim_quotes bytes
trim_quotes-quoted s plain = drop_quotes-after s plain

-- Numbers.
pub digits-all : (fuel n : ℕ) → all is_digit (digits fuel n) ≡ true
digits-all zero n = refl
digits-all (suc fuel) n =
    let last : is_digit (b'0' + n % 10) ≡ true = ground arith in
    if-cases (λ s. all is_digit (s ++ (b'0' + n % 10) ∷ []) ≡ true) (ltb n 10) []
      (digits fuel (n / 10)) (λ _. ground (arith, last))
      (λ _.
        all-append is_digit (digits fuel (n / 10)) ((b'0' + n % 10) ∷ [])
        ∙ ground (arith, digits-all fuel (n / 10), last))

read-append :
    (acc : ℕ) (s : Text) (d : ℕ)
    → all is_digit s ≡ true
    → is_digit d ≡ true
    → read_digits acc (s ++ d ∷ []) ≡ read_digits acc s * 10 + (d - b'0')
read-append acc [] d h e = ground (arith, e)
read-append acc (c ∷ s) d h e = ground (arith, read-append (acc * 10 + (c - b'0')) s d, h, e)

abbrev last_digit : ℕ → ℕ
last_digit n = b'0' + n % 10

last_digit-is_digit : (n : ℕ) → is_digit (last_digit n) ≡ true
last_digit-is_digit n = ground arith

read-digits : (fuel n : ℕ) → n ≤ fuel → read_digits 0 (digits (suc fuel) n) ≡ n
read-digits zero n le = ground (arith, le)
read-digits (suc fuel) n le =
    if-cases (λ s. read_digits 0 (s ++ last_digit n ∷ []) ≡ n) (ltb n 10) []
      (digits (suc fuel) (n / 10)) (λ e. ground (arith, last_digit-is_digit n, e))
      (λ e.
        read-append 0 (digits (suc fuel) (n / 10)) (last_digit n) (digits-all (suc fuel) (n / 10))
          (last_digit-is_digit n)
        ∙ ground (arith, read-digits fuel (n / 10) (ground (arith, le, e)), e))

head-append :
    (s : Text) (d : ℕ)
    → all is_digit s ≡ true
    → is_digit d ≡ true
    → head_is is_digit (s ++ d ∷ []) ≡ true
head-append [] d h e = e
head-append (c ∷ s) d h e = ground (arith, h)

decimal-head : (n : ℕ) → head_is is_digit (decimal n) ≡ true
unfolding decimal
decimal-head n =
    if-cases (λ s. head_is is_digit (s ++ last_digit n ∷ []) ≡ true) (ltb n 10) []
      (digits n (n / 10)) (λ _. last_digit-is_digit n)
      (λ _.
        head-append (digits n (n / 10)) (last_digit n) (digits-all n (n / 10))
          (last_digit-is_digit n))

scan_decimal-head :
    (old : ℕ) (s : Text) → head_is is_digit s ≡ true → scan_decimal old s ≡ read_digits 0 s
unfolding scan_decimal
scan_decimal-head old [] h = ground arith
scan_decimal-head old (c ∷ s) h = ground (arith, h)

pub scan_decimal-decimal : (old n : ℕ) → scan_decimal old (decimal n) ≡ n
unfolding decimal
scan_decimal-decimal old n =
    scan_decimal-head old (decimal n) (decimal-head n) ∙ read-digits n n (omega arith)

digit-space : (s : Text) → head_is is_digit s ≡ true → head_is (λ c. not (is_space c)) s ≡ true
unfolding is_space
digit-space [] h = h
digit-space (c ∷ s) h = ground (arith, h)

pub trim_space-decimal : (n : ℕ) → trim_space (b' ' ∷ decimal n) ≡ decimal n
unfolding decimal
trim_space-decimal n = trim_space-value (decimal n) (digit-space (decimal n) (decimal-head n)) (
    subst (λ z. head_is (λ c. not (is_space c)) z ≡ true)
      (sym (reverse-append (if ltb n 10 then [] else digits n (n / 10)) (last_digit n ∷ [])))
      (digit-space (last_digit n ∷ []) (last_digit-is_digit n)))

-- Lists of JIDs.
json-inside :
    (out : List Text) (s t rest : Text)
    → all is_plain t ≡ true
    → json_run (inside out s) (t ++ (b'"' ∷ rest)) ≡ json_run (after (out ++ (s ++ t) ∷ [])) rest
unfolding json_run
json-inside out s [] rest plain =
    ap (λ z. json_run (after (out ++ z ∷ [])) rest) (sym (append-nil s))
json-inside out s (c ∷ t) rest plain =
    ap (λ z. json_run z (t ++ (b'"' ∷ rest))) (step c (ground (arith, plain)))
    ∙ json-inside out (s ++ c ∷ []) t rest (ground (arith, plain))
    ∙ ap (λ z. json_run (after (out ++ z ∷ [])) rest) (append_assoc s (c ∷ []) t)
  where
    step : (a : ℕ) → is_plain a ≡ true → json_step a (inside out s) ≡ inside out (s ++ a ∷ [])
    step a h = ground (arith, h)

-- The values that are still to come, from the first quote on.
abbrev values : Text → List Text → Text
values l [] = l ++ (b'"' ∷ b']' ∷ [])
values l (k ∷ ls) = l ++ (b'"' ∷ b',' ∷ b' ' ∷ b'"' ∷ values k ls)

json-values :
    (out : List Text) (l : Text) (ls : List Text)
    → all (all is_plain) (l ∷ ls) ≡ true
    → json_run (inside out []) (values l ls) ≡ finished (out ++ l ∷ ls)
unfolding json_run is_space
json-values out l [] plain = json-inside out [] l (b']' ∷ []) (ground (arith, plain))
json-values out l (k ∷ ls) plain =
    json-inside out [] l (b',' ∷ b' ' ∷ b'"' ∷ values k ls) (ground (arith, plain))
    ∙ json-values (out ++ l ∷ []) k ls (ground (arith, plain))
    ∙ ap finished (append_assoc out (l ∷ []) (k ∷ ls))

values-join_texts :
    (l : Text) (ls : List Text)
    → join_texts (bytes ", ") (map quoted (l ∷ ls)) ++ (b']' ∷ []) ≡ b'"' ∷ values l ls
unfolding join_texts bytes
values-join_texts l [] = ap (λ z. b'"' ∷ z) (append_assoc l (b'"' ∷ []) (b']' ∷ []))
values-join_texts l (k ∷ ls) =
    let rest = b',' ∷ b' ' ∷ join_texts (bytes ", ") (map quoted (k ∷ ls)) in
    ap (λ z. b'"' ∷ z)
      (append_assoc (l ++ b'"' ∷ []) rest (b']' ∷ [])
        ∙ append_assoc l (b'"' ∷ []) (rest ++ (b']' ∷ []))
        ∙ ap (λ z. l ++ (b'"' ∷ b',' ∷ b' ' ∷ z)) (values-join_texts k ls))

-- The value of `alias_jids`.
abbrev pub array_text : List Text → Text
array_text ls = b'[' ∷ (join_texts (bytes ", ") (map quoted ls) ++ (b']' ∷ []))

pub read_array-text :
    (old : List Text) (l : Text) (ls : List Text)
    → all (all is_plain) (l ∷ ls) ≡ true
    → read_array old (array_text (l ∷ ls)) ≡ l ∷ ls
unfolding read_array json_run is_space
read_array-text old l ls plain =
    ap (λ z. finished_with old (json_run opened z)) (values-join_texts l ls)
    ∙ ap (finished_with old) (json-values [] l ls plain)
