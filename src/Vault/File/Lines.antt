-- ===== src/Vault/File/Lines.antt =====
-- Lines that are joined into the front matter of a chat file are split again.
use mathlib.Core.List.{append_assoc}
use whatsapp_mcp_plugin.Prelude.{
  take-append, ℕ, suc, ◌+◌, ◌≡◌, refl, ap, sym, ◌∙◌, subst, Bool, true, false, not, some, List, [],
  ◌∷◌, ◌++◌, any, all, length, length-append, ◌==◌, arith,
}
use whatsapp_mcp_plugin.Bytes.{join_texts, Text, bytes, has_prefix, index}
use whatsapp_mcp_plugin.Bytes.Search.{has_prefix-wall}
use whatsapp_mcp_plugin.Vault.File.{split_lines, up_to, front_matter}

abbrev pub is_line : Text → Bool
is_line s = all (λ c. not (c == b'\n')) s

-- A line that does not end the front matter.
abbrev pub is_dashed : Text → Bool
is_dashed s = has_prefix s (b'-' ∷ b'-' ∷ b'-' ∷ [])

abbrev pub nl : Text
nl = b'\n' ∷ []

split-line : (l s : Text) → is_line l ≡ true → split_lines (l ++ b'\n' ∷ s) ≡ l ∷ split_lines s
unfolding split_lines
split-line [] s h = refl
split-line (c ∷ l) s h = ground (arith, split-line l s, h)

split-last : (l : Text) → is_line l ≡ true → split_lines l ≡ l ∷ []
unfolding split_lines
split-last [] h = refl
split-last (c ∷ l) h = ground (arith, split-last l, h)

pub split_lines-join_texts :
    (l : Text) (ls : List Text)
    → all is_line (l ∷ ls) ≡ true
    → split_lines (join_texts nl (l ∷ ls)) ≡ l ∷ ls
unfolding join_texts split_lines
split_lines-join_texts l [] h = split-last l (ground (arith, h))
split_lines-join_texts l (k ∷ ls) h =
    split-line l (join_texts nl (k ∷ ls)) (ground (arith, h))
    ∙ ap (λ z. l ∷ z) (split_lines-join_texts k ls (ground (arith, h)))

-- The end of the front matter, in the rest of one line.
abbrev mark : Text
mark = b'\n' ∷ b'-' ∷ b'-' ∷ b'-' ∷ []

index-line :
    (l v : Text) (i : ℕ)
    → is_line l ≡ true
    → index v mark ≡ some i
    → index (l ++ v) mark ≡ some (length l + i)
unfolding index has_prefix
index-line [] v i h at = at ∙ ap some (omega arith)
index-line (c ∷ l) v i h at = ground (arith, index-line l v i, h, at)

index-mark : (v : Text) → index (mark ++ v) mark ≡ some 0
unfolding index has_prefix
index-mark v = refl

index-skip :
    (k v : Text) (i : ℕ)
    → is_dashed k ≡ false
    → index (k ++ (b'\n' ∷ v)) mark ≡ some i
    → index (b'\n' ∷ (k ++ (b'\n' ∷ v))) mark ≡ some (suc i)
unfolding index has_prefix
index-skip k v i plain at =
    ground (arith, has_prefix-wall b'\n' k v (b'-' ∷ b'-' ∷ b'-' ∷ []) refl, plain, at)

-- What follows the first line is a line feed.
next-line :
    (k : Text) (ls : List Text) (v : Text)
    → (w : Text) × (join_texts nl (k ∷ ls) ++ (mark ++ v) ≡ k ++ (b'\n' ∷ w))
unfolding join_texts
next-line k [] v = (b'-' ∷ b'-' ∷ b'-' ∷ v, refl)
next-line k (l ∷ ls) v = (
  join_texts nl (l ∷ ls) ++ (mark ++ v),
  append_assoc k (nl ++ join_texts nl (l ∷ ls)) (mark ++ v),
)

index-after :
    (l : Text) (ls : List Text) (v : Text)
    → all is_line (l ∷ ls) ≡ true
    → any is_dashed ls ≡ false
    → index (join_texts nl (l ∷ ls) ++ (mark ++ v)) mark ≡ some (length (join_texts nl (l ∷ ls)))
unfolding join_texts
index-after l [] v lines plain =
    index-line l (mark ++ v) 0 (ground (arith, lines)) (index-mark v) ∙ ap some (omega arith)
index-after l (k ∷ ls) v lines plain =
    let rest = join_texts nl (k ∷ ls) in
    let one = index-after k ls v (ground (arith, lines)) (ground (arith, plain)) in
    let (w, shape) = next-line k ls v in
    let skip =
      subst (λ s. index (b'\n' ∷ s) mark ≡ some (suc (length rest))) (sym shape)
        (index-skip k w (length rest) (ground (arith, plain))
          (subst (λ s. index s mark ≡ some (length rest)) shape one)) in
    ap (λ s. index s mark) (append_assoc l (nl ++ rest) (mark ++ v))
    ∙ index-line l ((nl ++ rest) ++ (mark ++ v)) (suc (length rest)) (ground (arith, lines)) skip
    ∙ ap some (sym (length-append l (nl ++ rest)))

-- The front matter of a file that starts with its lines between two dashed ones.
pub front_matter-lines :
    (l : Text) (ls : List Text) (v : Text)
    → all is_line (l ∷ ls) ≡ true
    → any is_dashed ls ≡ false
    → front_matter (bytes "---\n" ++ (join_texts nl (l ∷ ls) ++ (bytes "\n---" ++ v)))
      ≡ some (join_texts nl (l ∷ ls))
unfolding front_matter bytes has_prefix
front_matter-lines l ls v lines plain =
    let fm = join_texts nl (l ∷ ls) in
    ap (up_to (fm ++ (mark ++ v))) (index-after l ls v lines plain)
    ∙ ap some (take-append fm (mark ++ v))
