-- ===== src/Vault/Forest/Collected.antt =====
-- The components hold each JID of the map once, with those of the same root.
use whatsapp_mcp_plugin.Prelude.{
  ℕ, suc, ◌+◌, ◌<◌, String, ◌≡◌, refl, sym, subst, inl, inr, none, some, List, [], ◌∷◌, ◌++◌, All,
  same, same→eq, lookup, insert, delete, Unique, Unique-insert, if◌then◌else◌, if-cases, Bool-cases,
  arith,
}
use whatsapp_mcp_plugin.Vault.Forest.{Parents, find, Components, or_none, component, collect}
use whatsapp_mcp_plugin.Vault.Forest.Roots.{IsRooting, Entries, find-root}

abbrev pub count : String → List String → ℕ
count x [] = 0
count x (y ∷ ys) = let rest = count x ys in if same x y then suc rest else rest

pub count-append : (x : String) (xs ys : List String) → count x (xs ++ ys) ≡ count x xs + count x ys
count-append x [] ys = omega arith
count-append x (y ∷ xs) ys = ground (arith, count-append x xs ys)

-- How often a JID stands in the components.
abbrev pub total : String → Components → ℕ
total x [] = 0
total x ((r, c) ∷ cs) = count x c + total x cs

delete-absent :
    (x r : String) (cs : Components) → lookup r cs ≡ none → total x (delete r cs) ≡ total x cs
delete-absent x r [] absent = refl
delete-absent x r ((s, c) ∷ cs) absent = ground (arith, delete-absent x r cs, absent)

total-delete :
    (x r : String) (cs : Components)
    → Unique cs
    → total x cs ≡ count x (component r cs) + total x (delete r cs)
total-delete x r [] u = omega arith
total-delete x r ((s, c) ∷ cs) (new, u) = elim (Bool-cases (same s r)) [
  | inl e ↦
      ground (arith, delete-absent x r cs (subst (λ z. lookup z cs ≡ none) (same→eq s r e) new), e)
  | inr e ↦ ground (arith, total-delete x r cs u, e)
]

total-insert :
    (x y r : String) (cs : Components)
    → Unique cs
    → total x (insert r (component r cs ++ y ∷ []) cs) ≡ total x cs + count x (y ∷ [])
total-insert x y r cs u =
    omega (arith, total-delete x r cs u, count-append x (component r cs) (y ∷ []))

-- All of a component have its root.
abbrev pub IsRooted : (String → String) → String × List String → Type 0
IsRooted root (r, c) = All (λ x. root x ≡ r) c

module _ (root : String → String) where
  rooted-component :
      (r : String) (cs : Components)
      → All (IsRooted root) cs
      → All (λ x. root x ≡ r) (component r cs)
  rooted-component r [] all_rooted = tt
  rooted-component r ((s, c) ∷ cs) (first, rest) =
      if-cases (λ o. All (λ x. root x ≡ r) (or_none o)) (same s r) (some c) (lookup r cs)
        (λ e. subst (λ z. All (λ x. root x ≡ z) c) (same→eq s r e) first)
        (λ e. rooted-component r cs rest)

  IsRooted-delete :
      (r : String) (cs : Components) → All (IsRooted root) cs → All (IsRooted root) (delete r cs)
  IsRooted-delete r [] all_rooted = tt
  IsRooted-delete r ((s, c) ∷ cs) (first, rest) =
      if-cases (All (IsRooted root)) (same s r) (delete r cs) ((s, c) ∷ delete r cs)
        (λ e. IsRooted-delete r cs rest) (λ e. (first, IsRooted-delete r cs rest))

  rooted-append :
      (r y : String) (c : List String)
      → All (λ x. root x ≡ r) c
      → root y ≡ r
      → All (λ x. root x ≡ r) (c ++ y ∷ [])
  rooted-append r y [] all_rooted at = (at, tt)
  rooted-append r y (x ∷ c) (first, rest) at = (first, rooted-append r y c rest at)

-- What `components` is after the loop.
pub record Collects (root : String → String) (xs : List String) (cs : Components) : Type 0 where
  pub unique : Unique cs
  pub rooted : All (IsRooted root) cs
  pub once : (x : String) → total x cs ≡ count x xs

module _ {Rel : String → String → Type 0} {root : String → String} {depth : String → ℕ} {k : ℕ}
    (h : IsRooting Rel root depth k) (fuel : ℕ) (enough : k < fuel) where
  collect-adds :
      (xs : List String) (p : Parents) (cs : Components)
      → Entries root depth p
      → Unique cs
      → All (IsRooted root) cs
      → Unique (collect fuel xs p cs)
        × All (IsRooted root) (collect fuel xs p cs)
        × ((x : String) → total x (collect fuel xs p cs) ≡ total x cs + count x xs)
  unfolding collect
  collect-adds [] p cs ok u g = (u, g, λ x. omega arith)
  collect-adds (y ∷ xs) p cs ok u g =
      let (at, kept) = find-root h fuel y p ok (omega (arith, h.bound y, enough)) in
      let r = (find fuel y p).0 in
      let longer = component r cs ++ y ∷ [] in
      let (u2, g2, n2) =
        collect-adds xs (find fuel y p).1 (insert r longer cs) kept (Unique-insert r longer cs u) (
          rooted-append root r y (component r cs) (rooted-component root r cs g) (sym at),
          IsRooted-delete root r cs g,
        ) in
      (u2, g2, λ x. ground (arith, n2 x, total-insert x y r cs u))

  pub collect-Collects :
      (xs : List String) (p : Parents)
      → Entries root depth p
      → Collects root xs (collect fuel xs p [])
  collect-Collects xs p ok =
      let (u, g, n) = collect-adds xs p [] ok tt tt in
      record { unique = u; rooted = g; once = λ x. omega (arith, n x) }
