-- ===== src/Sorting.antt =====
-- `sort.Strings` and `sort.Slice` as an insertion sort, and `<` on strings.
use whatsapp_mcp_plugin.Prelude.{
  String, ◌≡◌, refl, ap, sym, ◌∙◌, Bool, true, false, ◌&&◌, ◌||◌, List, [], ◌∷◌, ltb, ◌==◌,
  if◌then◌else◌, if-cases,
}
use whatsapp_mcp_plugin.Bytes.{Text, bytes}

-- `<` on strings
abbrev pub text_less : Text → Text → Bool
text_less s [] = false
text_less [] (b ∷ t) = true
text_less (a ∷ s) (b ∷ t) = ltb a b || a == b && text_less s t

abbrev pub jid_less : String → String → Bool
jid_less x y = text_less (bytes x) (bytes y)

abbrev pub insert_by {ℓ} : {A : Type ℓ} → (A → A → Bool) → A → List A → List A
insert_by less x [] = x ∷ []
insert_by less x (y ∷ ys) =
    let rest = y ∷ insert_by less x ys in if less y x then rest else x ∷ y ∷ ys

unfoldable pub sort_by {ℓ} : {A : Type ℓ} → (A → A → Bool) → List A → List A
sort_by less [] = []
sort_by less (x ∷ xs) = insert_by less x (sort_by less xs)

-- What is folded from a list element by element, in any order, is so from the sorted list.
module _ {ℓ κ} {A : Type ℓ} {B : Type κ} (fold : List A → B) (add : A → B → B)
    (step : (x : A) (xs : List A) → fold (x ∷ xs) ≡ add x (fold xs))
    (swap : (x y : A) (b : B) → add x (add y b) ≡ add y (add x b)) (less : A → A → Bool) where
  fold-insert_by : (x : A) (xs : List A) → fold (insert_by less x xs) ≡ fold (x ∷ xs)
  fold-insert_by x [] = refl
  fold-insert_by x (y ∷ ys) =
      if-cases (λ zs. fold zs ≡ fold (x ∷ y ∷ ys)) (less y x) (y ∷ insert_by less x ys) (x ∷ y ∷ ys)
        (λ _.
          step y (insert_by less x ys)
          ∙ ap (add y) (fold-insert_by x ys ∙ step x ys)
          ∙ swap y x (fold ys)
          ∙ sym (step x (y ∷ ys) ∙ ap (add x) (step y ys)))
        (λ _. refl)

  pub fold-sort_by : (xs : List A) → fold (sort_by less xs) ≡ fold xs
  unfolding sort_by
  fold-sort_by [] = refl
  fold-sort_by (x ∷ xs) =
      fold-insert_by x (sort_by less xs)
      ∙ step x (sort_by less xs)
      ∙ ap (add x) (fold-sort_by xs)
      ∙ sym (step x xs)
