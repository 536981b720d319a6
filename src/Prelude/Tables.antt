-- ===== src/Prelude/Tables.antt =====
-- Tables of SQLite as lists of rows: the statements that both programs share.
use mathlib.Core.Bool.{Bool}
use mathlib.Core.List.{List, [], ◌∷◌}
use whatsapp_mcp_plugin.Prelude.Tests.{if◌then◌else◌}

-- An upsert: a row with the key of `row` is changed by `on_conflict`, and `row` is added where there is
-- none.
unfoldable pub upsert {ℓ} : {R : Type ℓ} → (R → Bool) → (R → R) → R → List R → List R
upsert is_key on_conflict row [] = row ∷ []
upsert is_key on_conflict row (r ∷ rows) =
    let rest = r ∷ upsert is_key on_conflict row rows in
    if is_key r then on_conflict r ∷ rows else rest

-- An UPDATE of the rows that `chosen` names.
unfoldable pub update_rows {ℓ} : {R : Type ℓ} → (R → Bool) → (R → R) → List R → List R
update_rows chosen change [] = []
update_rows chosen change (r ∷ rows) =
    let rest = update_rows chosen change rows in (if chosen r then change r else r) ∷ rest
