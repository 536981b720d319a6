-- ===== src/Prelude/Maps.antt =====
-- A Go map with string keys, as a list of pairs: `m[k]`, `m[k] = v` and `delete(m, k)`.
use mathlib.Core.Path.{◌≡◌}
use mathlib.Core.Option.{Option, none, some}
use mathlib.Core.List.{List, [], ◌∷◌}
use Prim.Native.String.{String}
use native.Mathlib.Omega.{arith}
use mathlib.Core.Logic.{inl, inr}
use text.Mathlib.TextEquality.{eq_iff}
use whatsapp_mcp_plugin.Prelude.Tests.{same, if◌then◌else◌, Bool-cases}

module _ {ℓ} {V : Type ℓ} where
  abbrev pub lookup : String → List (String × V) → Option V
  lookup k [] = none
  lookup k ((j, v) ∷ m) = let rest = lookup k m in if same j k then some v else rest

  abbrev pub delete : String → List (String × V) → List (String × V)
  delete k [] = []
  delete k ((j, v) ∷ m) = let rest = delete k m in if same j k then rest else (j, v) ∷ rest

  abbrev pub insert : String → V → List (String × V) → List (String × V)
  insert k v m = (k, v) ∷ delete k m

  pub lookup-delete :
      (k j : String) (m : List (String × V))
      → lookup j (delete k m) ≡ (if same k j then none else lookup j m)
  lookup-delete k j [] = ground arith
  lookup-delete k j ((i, w) ∷ m) =
      ground (arith, eq_iff k j, eq_iff i k, eq_iff i j, lookup-delete k j m)

  pub lookup-insert :
      (k j : String) (v : V) (m : List (String × V))
      → lookup j (insert k v m) ≡ (if same k j then some v else lookup j m)
  lookup-insert k j v m = ground (arith, lookup-delete k j m)

  -- No key stands in the list twice.
  abbrev pub Unique : List (String × V) → Type ℓ
  Unique [] = Unit
  Unique ((k, v) ∷ m) = (lookup k m ≡ none) × Unique m

  pub Unique-delete : (k : String) (m : List (String × V)) → Unique m → Unique (delete k m)
  Unique-delete k [] u = tt
  Unique-delete k ((j, v) ∷ m) (new, u) = elim (Bool-cases (same j k)) [
    | inl e ↦ rw e (Unique-delete k m u)
    | inr e ↦
        rw e (ground (arith, lookup-delete k j m, eq_iff j k, eq_iff k j, new), Unique-delete k m u)
  ]

  pub Unique-insert :
      (k : String) (v : V) (m : List (String × V)) → Unique m → Unique (insert k v m)
  Unique-insert k v m u = (ground (arith, lookup-delete k k m, eq_iff k k), Unique-delete k m u)
