-- ===== src/Vault/Forest.antt =====
-- The union-find of `buildExportUnits` (whatsapp-bridge/export_vault.go): `parent`, `find`, `union`, and
-- the components that its last loop collects.
pub mod Roots
pub mod Keys
pub mod Linked
pub mod Collected
use whatsapp_mcp_plugin.Prelude.{
  ℕ, zero, suc, String, Bool, ◌||◌, Option, none, some, List, [], ◌∷◌, ◌++◌, same, lookup, insert,
  if◌then◌else◌,
}
use whatsapp_mcp_plugin.Archive.{AliasRow}

-- `parent`, a map of JIDs.
abbrev pub Parents : Type 0
Parents = List (String × String)

abbrev pub keys : Parents → List String
keys [] = []
keys ((x, v) ∷ p) = x ∷ keys p

-- The zero value of a missing key.
abbrev pub or_empty : Option String → String
or_empty none = ""
or_empty (some y) = y

abbrev pub parent_of : String → Parents → String
parent_of x p = or_empty (lookup x p)

-- The test of `find` on a key and its entry.
abbrev pub stops : String → String → Bool
stops x v = same v "" || same v x

-- `find`, on fuel, with the map after it: it writes the root into every entry that it passes.
unfoldable pub find : ℕ → String → Parents → String × Parents
find zero x p = (x, p)
find (suc fuel) x p =
    let (r, q) = find fuel (parent_of x p) p in
    if stops x (parent_of x p) then (x, insert x x p) else (r, insert x r q)

-- `union`
unfoldable pub union : ℕ → String → String → Parents → Parents
unfolding find
union fuel a b p =
    let (ra, q) = find fuel a p in
    let (rb, s) = find fuel b q in if same ra rb then s else insert ra rb s

unfoldable pub find_all : ℕ → List String → Parents → Parents
unfolding find
find_all fuel [] p = p
find_all fuel (x ∷ xs) p = let (r, q) = find fuel x p in find_all fuel xs q

-- The loop over `jid_aliases`: an edge that `merges` lets through is united.
unfoldable pub link_all : (AliasRow → Bool) → ℕ → List AliasRow → Parents → Parents
unfolding union
link_all merges fuel [] p = p
link_all merges fuel (e ∷ es) p =
    link_all merges fuel es (if merges e then union fuel e.jid_a e.jid_b p else p)

-- `components`, by the root
abbrev pub Components : Type 0
Components = List (String × List String)

abbrev pub or_none : Option (List String) → List String
or_none none = []
or_none (some xs) = xs

abbrev pub component : String → Components → List String
component r cs = or_none (lookup r cs)

-- `for jid := range parent`
unfoldable pub collect : ℕ → List String → Parents → Components → Components
unfolding find
collect fuel [] p cs = cs
collect fuel (x ∷ xs) p cs =
    let (r, q) = find fuel x p in collect fuel xs q (insert r (component r cs ++ x ∷ []) cs)
