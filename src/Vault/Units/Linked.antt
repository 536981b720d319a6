-- ===== src/Vault/Units/Linked.antt =====
-- Which JIDs the components of `buildExportUnits` hold together.
use whatsapp_mcp_plugin.Prelude.{
  ℕ, ◌<◌, String, ◌≡◌, refl, sym, ◌∙◌, Bool, true, not, all, if-cases, List, [], ◌∷◌, any, All,
  length, where_rows, same, same_refl, arith, eq_iff,
}
use whatsapp_mcp_plugin.Archive.{ChatRow, AliasRow}
use whatsapp_mcp_plugin.Archive.Aliases.{is_edge}
use whatsapp_mcp_plugin.Vault.Forest.{Parents, keys, find, find_all}
use whatsapp_mcp_plugin.Vault.Forest.Roots.{IsRooting, Entries, find-root}
use whatsapp_mcp_plugin.Vault.Forest.Linked.{
  Linked, itself, edge, back, chain, IsFit, link_all-Spans,
}
use whatsapp_mcp_plugin.Vault.Forest.Collected.{count, Collects, collect-Collects}
use whatsapp_mcp_plugin.Vault.Forest.Keys.{count-keys, find_all-has, find_all-Grows, link_all-Grows}
use whatsapp_mcp_plugin.Vault.Units.{is_chat, chat_at, jids_of, steps, merges, parents, closures}

Start : (rows : List AliasRow) → IsRooting (Linked rows) (λ x. x) (λ _. 0) 0
Start rows = record {
  idem = λ x. refl;
  flat = λ x. refl;
  deep = λ x e. refl;
  filled = λ x e. e;
  bound = λ x. omega arith;
  sound = itself;
}

Entries-start : Entries (λ x. x) (λ _. 0) []
Entries-start x = record {
  top = λ e. refl;
  up = λ e. ground (arith, e);
  lower = λ e. ground (arith, e);
}

find_all-Entries :
    (rows : List AliasRow) (fuel : ℕ) (xs : List String) (p : Parents)
    → 0 < fuel
    → Entries (λ x. x) (λ _. 0) p
    → Entries (λ x. x) (λ _. 0) (find_all fuel xs p)
unfolding find_all
find_all-Entries rows fuel [] p enough ok = ok
find_all-Entries rows fuel (x ∷ xs) p enough ok =
    find_all-Entries rows fuel xs (find fuel x p).1 enough
      (find-root (Start rows) fuel x p ok enough).1

-- The second end of each edge is a JID.
abbrev pub all_named : List AliasRow → Bool
all_named edges = all (λ (e : AliasRow). not (same e.jid_b "")) edges

edges-IsFit :
    (rows : List AliasRow) (m : AliasRow → Bool) (es : List AliasRow)
    → ((a b : String) → any (is_edge a b) (where_rows m es) ≡ true → any (is_edge a b) rows ≡ true)
    → all_named es ≡ true
    → All (IsFit rows m) es
edges-IsFit rows m [] sub named = tt
edges-IsFit rows m (e ∷ es) sub named = (
  (
    λ at. sub e.jid_a e.jid_b (ground (arith, at, same_refl e.jid_a, same_refl e.jid_b)),
    λ _ blank. ground (arith, named, eq_iff e.jid_b "", blank),
  ),
  edges-IsFit rows m es
      (λ a b there. sub a b (
        if-cases (λ r. any (is_edge a b) r ≡ true) (m e) (e ∷ where_rows m es) (where_rows m es)
          (λ _. ground (arith, there)) (λ _. there)))
      (ground (arith, named)),
)

abbrev pub merged : List ChatRow → List AliasRow → List AliasRow
merged chats edges = where_rows (merges chats) edges

-- What the components are, of a table whose edges have two ends.
pub record Classes (chats : List ChatRow) (edges : List AliasRow) : Type 0 where
  pub root : String → String
  pub sound : (x : String) → Linked (merged chats edges) x (root x)
  pub joined : (a b : String) → any (is_edge a b) (merged chats edges) ≡ true → root a ≡ root b
  pub collects : Collects root (keys (parents chats edges)) (closures chats edges)

pub closures-Classes :
    (chats : List ChatRow) (edges : List AliasRow) → all_named edges ≡ true → Classes chats edges
unfolding parents closures
closures-Classes chats edges named =
    let rows = merged chats edges in
    let first = find_all (steps edges) (jids_of chats) [] in
    let (j, one) =
      link_all-Spans rows (merges chats) (steps edges) edges 0 first
        (edges-IsFit rows (merges chats) edges (λ a b there. there) named) (omega arith)
        (Start rows)
        (find_all-Entries rows (steps edges) (jids_of chats) [] (omega arith) Entries-start) in
    record {
      root = j.root;
      sound = j.rooting.sound;
      joined = one;
      collects =
          collect-Collects j.rooting (steps edges) (omega arith) (keys (parents chats edges))
            (parents chats edges) j.entries;
    }

-- Linked JIDs have one root.
pub Linked-root :
    (rows : List AliasRow) (root : String → String)
    → ((a b : String) → any (is_edge a b) rows ≡ true → root a ≡ root b)
    → (x y : String) → Linked rows x y
    → root x ≡ root y
Linked-root rows root joined x y (itself z) = refl
Linked-root rows root joined x y (edge a b there) = joined a b there
Linked-root rows root joined x y (back {x = z} {y = w} l) = sym (Linked-root rows root joined z w l)
Linked-root rows root joined x y (chain {x = u} {y = v} {z = w} l m) =
    Linked-root rows root joined u v l ∙ Linked-root rows root joined v w m

-- A chat row is a key of the map, once.
chat-found :
    (x : String) (chats : List ChatRow)
    → is_chat chats x ≡ true
    → any (same x) (jids_of chats) ≡ true
unfolding chat_at
chat-found x [] there = ground arith
chat-found x (c ∷ chats) there = ground (arith, chat-found x chats, there)

pub chat-once :
    (x : String) (chats : List ChatRow) (edges : List AliasRow)
    → is_chat chats x ≡ true
    → count x (keys (parents chats edges)) ≡ 1
unfolding parents
chat-once x chats edges there =
    let first = find_all (steps edges) (jids_of chats) [] in
    let grows = link_all-Grows (merges chats) (steps edges) edges first in
    let is_key =
      grows.kept x (find_all-has (length edges) x (jids_of chats) [] (chat-found x chats there)) in
    let unique = grows.unique ((find_all-Grows (steps edges) (jids_of chats) []).unique tt) in
    ground (arith, count-keys x (parents chats edges) unique, is_key)
