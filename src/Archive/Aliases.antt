-- ===== src/Archive/Aliases.antt =====
-- whatsapp-bridge/aliases.go: the edges between the two JIDs of one person.
use whatsapp_mcp_plugin.Prelude.{
  ℕ, String, Bool, ◌&&◌, ◌||◌, List, [], ◌∷◌, ◌++◌, any, same, if◌then◌else◌,
}
use whatsapp_mcp_plugin.Archive.{Jid, AliasRow}

abbrev pub is_edge : String → String → AliasRow → Bool
is_edge a b r = same r.jid_a a && same r.jid_b b

-- `INSERT ... ON CONFLICT(jid_a, jid_b) DO NOTHING` of one row
unfoldable pub insert_alias : AliasRow → List AliasRow → List AliasRow
insert_alias row rows = if any (is_edge row.jid_a row.jid_b) rows then rows else rows ++ row ∷ []

-- `recordJIDAlias`; `fails` where the statement does.
unfoldable pub record_jid_alias : Bool → Jid → Jid → String → ℕ → List AliasRow → List AliasRow
unfolding insert_alias
record_jid_alias fails a b source ts rows =
    let there : AliasRow = record {
      jid_a = a.text;
      jid_b = b.text;
      discovered_at = ts;
      source = source;
    } in
    let back : AliasRow = record {
      jid_a = b.text;
      jid_b = a.text;
      discovered_at = ts;
      source = source;
    } in
    if a.is_empty || b.is_empty
    then rows
    else if same a.text "" || same b.text "" || same a.text b.text
    then rows
    else if fails
    then rows
    else insert_alias back (insert_alias there rows)

-- The loop of `resolveAliases`: what is not seen yet is appended.
abbrev pub add_unseen : List String → List AliasRow → List String
add_unseen out [] = out
add_unseen out (r ∷ rows) =
    add_unseen (if any (same r.jid_b) out then out else out ++ r.jid_b ∷ []) rows

abbrev pub edges_from : String → List AliasRow → List AliasRow
edges_from jid [] = []
edges_from jid (r ∷ rows) =
    let rest = edges_from jid rows in if same r.jid_a jid then r ∷ rest else rest

-- `resolveAliases`, of a query that goes through
unfoldable pub resolve_aliases : String → List AliasRow → List String
resolve_aliases jid rows = if same jid "" then [] else add_unseen (jid ∷ []) (edges_from jid rows)

-- `jid = ? OR jid IN (SELECT jid_b FROM jid_aliases WHERE jid_a = ?)`
abbrev pub is_or_alias : String → List AliasRow → String → Bool
is_or_alias jid rows other = same other jid || any (is_edge jid other) rows
