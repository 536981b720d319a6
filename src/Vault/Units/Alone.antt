-- ===== src/Vault/Units/Alone.antt =====
-- The chats of `buildExportUnits` that are merged with no other.
use whatsapp_mcp_plugin.Prelude.{
  String, ◌≡◌, ◌⊎◌, refl, sym, subst, inl, inr, Bool, true, false, ◌&&◌, not, List, [], ◌∷◌, any,
  same, arith, eq_iff,
}
use whatsapp_mcp_plugin.Archive.{ChatRow, StoredMessage, AliasRow}
use whatsapp_mcp_plugin.Archive.Aliases.{is_edge}
use whatsapp_mcp_plugin.Vault.Forest.Linked.{Linked, itself, edge, back, chain}
use whatsapp_mcp_plugin.Vault.Units.{chat_at, is_chat, is_other, is_direct, merges, chat_units}
use whatsapp_mcp_plugin.Vault.Units.Linked.{all_named, merged}
use whatsapp_mcp_plugin.Vault.Units.Shared.{share_unit, share_unit-Linked}

-- A JID that an edge can merge: its row, if it has one, is direct, and so is its server.
unfoldable pub is_mergeable : List ChatRow → String → Bool
is_mergeable chats jid = not (is_other (chat_at jid chats)) && is_direct jid

all_four : (a b c d : Bool) → (a && b && c && d) ≡ true → (a && c) ≡ true × (b && d) ≡ true
all_four a b c d h = (ground (arith, h), ground (arith, h))

module _ (chats : List ChatRow) where
  merges-mergeable :
      (e : AliasRow)
      → merges chats e ≡ true
      → (is_mergeable chats e.jid_a ≡ true) × (is_mergeable chats e.jid_b ≡ true)
  unfolding merges is_mergeable
  merges-mergeable e h =
      all_four (not (is_other (chat_at e.jid_a chats))) (not (is_other (chat_at e.jid_b chats)))
        (is_direct e.jid_a) (is_direct e.jid_b) h

  edge-mergeable :
      (edges : List AliasRow) (a b : String)
      → any (is_edge a b) (merged chats edges) ≡ true
      → (is_mergeable chats a ≡ true) × (is_mergeable chats b ≡ true)
  edge-mergeable [] a b there = ground arith
  edge-mergeable (e ∷ edges) a b there =
      let ih = λ (s : any (is_edge a b) (merged chats edges) ≡ true). edge-mergeable edges a b s in
      let here = merges-mergeable e in
      ground (arith, here, ih, eq_iff e.jid_a a, eq_iff e.jid_b b, there)

  linked-mergeable :
      (edges : List AliasRow) (x y : String)
      → Linked (merged chats edges) x y
      → (x ≡ y) ⊎ (is_mergeable chats x ≡ true) × (is_mergeable chats y ≡ true)
  linked-mergeable edges x y (itself z) = inl refl
  linked-mergeable edges x y (edge a b there) = inr (edge-mergeable edges a b there)
  linked-mergeable edges x y (back {x = z} {y = w} l) = elim (linked-mergeable edges z w l) [
    | inl e ↦ inl (sym e)
    | inr (left, right) ↦ inr (right, left)
  ]
  linked-mergeable edges x y (chain {x = u} {y = v} {z = w} l m) =
      ground (arith, linked-mergeable edges u v l, linked-mergeable edges v w m)

-- Where the second JID of each alias edge is not empty: a JID with a chat row that is not direct, or whose
-- server is not a person's, is in one unit with no JID of another chat row.
pub share_unit-alone :
    (chats : List ChatRow) (edges : List AliasRow) (messages : List StoredMessage) (x y : String)
    → all_named edges ≡ true
    → is_chat chats x ≡ true
    → is_chat chats y ≡ true
    → is_mergeable chats x ≡ false
    → share_unit x y (chat_units chats edges messages) ≡ same x y
share_unit-alone chats edges messages x y named x_there y_there other =
    let (to_link, from_link) = share_unit-Linked chats edges messages x y named x_there y_there in
    let shared = λ (s : share_unit x y (chat_units chats edges messages) ≡ true).
      linked-mergeable chats edges x y (to_link s) in
    let alike = λ (e : x ≡ y). from_link (subst (Linked (merged chats edges) x) e (itself x)) in
    not_merged (share_unit x y (chat_units chats edges messages)) shared alike
  where
    not_merged :
        (b : Bool)
        → (b ≡ true → (x ≡ y) ⊎ (is_mergeable chats x ≡ true) × (is_mergeable chats y ≡ true))
        → (x ≡ y → b ≡ true)
        → b ≡ same x y
    not_merged b f g = ground (arith, f, g, other, eq_iff x y)
