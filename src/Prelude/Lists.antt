-- ===== src/Prelude/Lists.antt =====
-- Lists measured by native numbers, under the library's names.
use Prim.Native.Nat.{ℕ, zero, suc, ◌+◌, ◌≤◌}
use mathlib.Core.Path.{◌≡◌, refl, ap}
use mathlib.Core.Bool.{Bool, true, false, ◌&&◌, ◌||◌}
use mathlib.Core.List.{List, [], ◌∷◌, ◌++◌, map}
use native.Mathlib.Omega.{arith}
use whatsapp_mcp_plugin.Prelude.Tests.{if◌then◌else◌}

module _ {ℓ} {A : Type ℓ} where
  abbrev pub length : List A → ℕ
  length [] = 0
  length (x ∷ xs) = suc (length xs)

  -- `xs[:n]` and `xs[n:]`.
  abbrev pub take : ℕ → List A → List A
  take zero xs = []
  take (suc n) [] = []
  take (suc n) (x ∷ xs) = x ∷ take n xs

  abbrev pub drop : ℕ → List A → List A
  drop zero xs = xs
  drop (suc n) [] = []
  drop (suc n) (x ∷ xs) = drop n xs

  -- The rows that a `WHERE` clause keeps.
  abbrev pub where_rows : (A → Bool) → List A → List A
  where_rows p [] = []
  where_rows p (x ∷ xs) = let rest = where_rows p xs in if p x then x ∷ rest else rest

  abbrev pub any : (A → Bool) → List A → Bool
  any p [] = false
  any p (x ∷ xs) = p x || any p xs

  abbrev pub all : (A → Bool) → List A → Bool
  all p [] = true
  all p (x ∷ xs) = p x && all p xs

  pub length-append : (xs ys : List A) → length (xs ++ ys) ≡ length xs + length ys
  length-append [] ys = omega arith
  length-append (x ∷ xs) ys = omega (arith, length-append xs ys)

  pub length-where_rows-le : (p : A → Bool) (xs : List A) → length (where_rows p xs) ≤ length xs
  length-where_rows-le p [] = omega arith
  length-where_rows-le p (x ∷ xs) = ground (arith, length-where_rows-le p xs)

module _ {ℓ} {A : Type ℓ} where
  pub take-append : (xs ys : List A) → take (length xs) (xs ++ ys) ≡ xs
  take-append [] ys = refl
  take-append (x ∷ xs) ys = ap (λ zs. x ∷ zs) (take-append xs ys)

  pub drop-append : (xs ys : List A) → drop (length xs) (xs ++ ys) ≡ ys
  drop-append [] ys = refl
  drop-append (x ∷ xs) ys = drop-append xs ys

  module _ (p : A → Bool) where
    pub all-append : (xs ys : List A) → all p (xs ++ ys) ≡ (all p xs && all p ys)
    all-append [] ys = refl
    all-append (x ∷ xs) ys = ground (arith, all-append xs ys)

    pub any-append : (xs ys : List A) → any p (xs ++ ys) ≡ (any p xs || any p ys)
    any-append [] ys = refl
    any-append (x ∷ xs) ys = ground (arith, any-append xs ys)

    pub where_rows-append :
        (xs ys : List A) → where_rows p (xs ++ ys) ≡ where_rows p xs ++ where_rows p ys
    where_rows-append [] ys = refl
    where_rows-append (x ∷ xs) ys = ground (arith, where_rows-append xs ys)

    pub where_rows-all : (xs : List A) → all p xs ≡ true → where_rows p xs ≡ xs
    where_rows-all [] h = refl
    where_rows-all (x ∷ xs) h = ground (arith, where_rows-all xs, h)

    pub all-where_rows :
        (q : A → Bool) (xs : List A) → all p xs ≡ true → all p (where_rows q xs) ≡ true
    all-where_rows q [] h = refl
    all-where_rows q (x ∷ xs) h = ground (arith, all-where_rows q xs, h)

pub length-map {ℓ κ} :
    {A : Type ℓ} {B : Type κ} (f : A → B) (xs : List A) → length (map f xs) ≡ length xs
length-map f [] = refl
length-map f (x ∷ xs) = ap suc (length-map f xs)

module _ {ℓ κ} {A : Type ℓ} (P : A → Type κ) where
  abbrev pub All : List A → Type κ
  All [] = Unit
  All (x ∷ xs) = P x × All xs
