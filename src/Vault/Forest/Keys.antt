-- ===== src/Vault/Forest/Keys.antt =====
-- The keys of the map of parents: none is lost, none stands twice, and each JID asked for is one.
use whatsapp_mcp_plugin.Prelude.{
  ℕ, zero, suc, String, ◌≡◌, refl, sym, subst, Bool, true, false, ◌||◌, Option, none, some, List,
  [], ◌∷◌, any, same, same→eq, same_refl, inl, inr, Bool-cases, lookup, insert, lookup-insert,
  Unique, Unique-insert, if◌then◌else◌, if-cases, arith, eq_iff,
}
use whatsapp_mcp_plugin.Archive.{AliasRow}
use whatsapp_mcp_plugin.Vault.Forest.{
  Parents, parent_of, stops, find, union, find_all, link_all, keys,
}
use whatsapp_mcp_plugin.Vault.Forest.Collected.{count}

abbrev pub is_some : Option String → Bool
is_some none = false
is_some (some v) = true

abbrev pub has : String → Parents → Bool
has x p = is_some (lookup x p)

pub count-keys :
    (x : String) (p : Parents) → Unique p → count x (keys p) ≡ (if has x p then 1 else 0)
count-keys x [] u = refl
count-keys x ((y, v) ∷ p) (new, u) = ground (arith, count-keys x p u, eq_iff x y, eq_iff y x, new)

pub record Grows (p q : Parents) : Type 0 where
  pub kept : (x : String) → has x p ≡ true → has x q ≡ true
  pub unique : Unique p → Unique q

Grows-refl : (p : Parents) → Grows p p
Grows-refl p = record { kept = λ x e. e; unique = λ u. u }

pub Grows-trans : {p q s : Parents} → Grows p q → Grows q s → Grows p s
Grows-trans f g = record {
  kept = λ x e. g.kept x (f.kept x e);
  unique = λ u. g.unique (f.unique u);
}

has-insert : (x v y : String) (p : Parents) → has y (insert x v p) ≡ (same x y || has y p)
has-insert x v y p = ground (arith, lookup-insert x y v p)

Grows-insert : (x v : String) (p : Parents) → Grows p (insert x v p)
Grows-insert x v p = record {
  kept = λ y e. ground (arith, has-insert x v y p, e);
  unique = Unique-insert x v p;
}

find-Grows : (fuel : ℕ) (x : String) (p : Parents) → Grows p (find fuel x p).1
unfolding find
find-Grows zero x p = Grows-refl p
find-Grows (suc fuel) x p =
    if-cases (λ (o : String × Parents). Grows p o.1) (stops x (parent_of x p)) (x, insert x x p)
      (let (r, q) = find fuel (parent_of x p) p in (r, insert x r q)) (λ _. Grows-insert x x p)
      (λ _.
        let (r, q) = find fuel (parent_of x p) p in
        Grows-trans (find-Grows fuel (parent_of x p) p) (Grows-insert x r q))

find-has : (fuel : ℕ) (x : String) (p : Parents) → has x (find (suc fuel) x p).1 ≡ true
unfolding find
find-has fuel x p =
    if-cases (λ (o : String × Parents). has x o.1 ≡ true) (stops x (parent_of x p))
      (x, insert x x p) (let (r, q) = find fuel (parent_of x p) p in (r, insert x r q))
      (λ _. ground (arith, has-insert x x x p, same_refl x))
      (λ _.
        let (r, q) = find fuel (parent_of x p) p in ground (arith, has-insert x r x q, same_refl x))

union-Grows : (fuel : ℕ) (a b : String) (p : Parents) → Grows p (union fuel a b p)
unfolding union
union-Grows fuel a b p =
    let (ra, q) = find fuel a p in
    let (rb, s) = find fuel b q in
    let before = Grows-trans (find-Grows fuel a p) (find-Grows fuel b q) in
    if-cases (Grows p) (same ra rb) s (insert ra rb s) (λ _. before)
      (λ _. Grows-trans before (Grows-insert ra rb s))

pub link_all-Grows :
    (merges : AliasRow → Bool) (fuel : ℕ) (es : List AliasRow) (p : Parents)
    → Grows p (link_all merges fuel es p)
unfolding link_all
link_all-Grows merges fuel [] p = Grows-refl p
link_all-Grows merges fuel (e ∷ es) p =
    let q = union fuel e.jid_a e.jid_b p in
    if-cases (λ s. Grows p (link_all merges fuel es s)) (merges e) q p
      (λ _. Grows-trans (union-Grows fuel e.jid_a e.jid_b p) (link_all-Grows merges fuel es q))
      (λ _. link_all-Grows merges fuel es p)

pub find_all-Grows : (fuel : ℕ) (xs : List String) (p : Parents) → Grows p (find_all fuel xs p)
unfolding find_all
find_all-Grows fuel [] p = Grows-refl p
find_all-Grows fuel (x ∷ xs) p =
    let q = (find fuel x p).1 in Grows-trans (find-Grows fuel x p) (find_all-Grows fuel xs q)

-- Each JID that `find` was asked for is a key.
pub find_all-has :
    (fuel : ℕ) (y : String) (xs : List String) (p : Parents)
    → any (same y) xs ≡ true
    → has y (find_all (suc fuel) xs p) ≡ true
unfolding find_all
find_all-has fuel y [] p there = ground arith
find_all-has fuel y (x ∷ xs) p there =
    let q = (find (suc fuel) x p).1 in
    elim (Bool-cases (same y x)) [
      | inl e ↦
          (find_all-Grows (suc fuel) xs q).kept y
            (subst (λ z. has z q ≡ true) (sym (same→eq y x e)) (find-has fuel x p))
      | inr e ↦ find_all-has fuel y xs q (ground (arith, there, e))
    ]
