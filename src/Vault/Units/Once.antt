-- ===== src/Vault/Units/Once.antt =====
-- Each chat row is a member of one unit, and each message is counted in one.
use whatsapp_mcp_plugin.Sorting.{fold-sort_by, sort_by, jid_less}
use whatsapp_mcp_plugin.Prelude.{
  suc, ℕ, ◌+◌, String, ◌≡◌, refl, ap, inl, inr, Bool, true, Option, none, some, List, [], ◌∷◌,
  where_rows, same, same→eq, if◌then◌else◌, if-cases, Bool-cases, arith, eq_iff,
}
use whatsapp_mcp_plugin.Archive.{ChatRow, StoredMessage, AliasRow}
use whatsapp_mcp_plugin.Vault.Forest.{Components}
use whatsapp_mcp_plugin.Vault.Forest.Collected.{count, count-append, total}
use whatsapp_mcp_plugin.Vault.Units.Linked.{all_named, closures-Classes, chat-once}
use whatsapp_mcp_plugin.Vault.Units.{
  chat_at, is_chat, ChatUnit, add_member, add_members, empty_unit, primary_first, direct_unit,
  lone_unit, one_member, unit_of_members, unit_of, add_unit, units_of, closures, chat_units,
}

pub count-sort_by :
    (less : String → String → Bool) (x : String) (xs : List String)
    → count x (sort_by less xs) ≡ count x xs
count-sort_by less x xs =
    fold-sort_by (count x) (λ y n. if same x y then suc n else n) (λ y ys. refl)
      (λ y z n. ground arith) less xs

pub count-where_rows :
    (p : String → Bool) (x : String) (xs : List String)
    → count x (where_rows p xs) ≡ (if p x then count x xs else 0)
count-where_rows p x [] = ground arith
count-where_rows p x (y ∷ xs) = elim (Bool-cases (same x y)) [
  | inl e ↦ ground (arith, count-where_rows p x xs, ap p (same→eq x y e), e)
  | inr e ↦ ground (arith, count-where_rows p x xs, e)
]

pub chat_at-jid :
    (jid : String) (chats : List ChatRow) (c : ChatRow) → chat_at jid chats ≡ some c → c.jid ≡ jid
unfolding chat_at
chat_at-jid jid [] c at = ground arith
chat_at-jid jid (d ∷ chats) c at = elim (Bool-cases (same jid d.jid)) [
  | inl e ↦ ground (arith, at, e, eq_iff jid d.jid)
  | inr e ↦ chat_at-jid jid chats c (ground (arith, at, e))
]

-- How often a JID is a member of the units.
abbrev pub count_units : String → List ChatUnit → ℕ
count_units z [] = 0
count_units z (u ∷ us) = count z u.members + count_units z us

module _ (chats : List ChatRow) (messages : List StoredMessage) where
  count-add_members :
      (z : String) (xs : List String) (u : ChatUnit)
      → count z (add_members chats messages xs u).members ≡ count z u.members + count z xs
  unfolding add_members
  count-add_members z [] u = omega arith
  count-add_members z (x ∷ xs) u =
      let u2 = add_member chats messages x u in
      ground (arith, count-add_members z xs u2, count-append z u.members (x ∷ []))

  pub count-direct_unit :
      (x : String) (closure xs : List String)
      → count x (direct_unit chats messages closure xs).members ≡ count x xs
  unfolding direct_unit
  count-direct_unit x closure xs =
      let u = add_members chats messages xs empty_unit in
      omega (
        arith,
        count-sort_by (primary_first u.primary) x u.members,
        count-add_members x xs empty_unit,
      )

  pub count-one_member :
      (z x : String) (closure : List String) (o : Option ChatRow)
      → chat_at x chats ≡ o
      → count z (one_member chats messages closure x o).members ≡ count z (x ∷ [])
  count-one_member z x closure none at = count-direct_unit z closure (x ∷ [])
  count-one_member z x closure (some c) at =
      if-cases (λ (u : ChatUnit). count z u.members ≡ count z (x ∷ [])) (same c.chat_type "direct")
        (direct_unit chats messages closure (x ∷ [])) (lone_unit messages c)
        (λ _. count-direct_unit z closure (x ∷ []))
        (λ _. ap (λ j. count z (j ∷ [])) (chat_at-jid x chats c at))

  count-unit_of_members :
      (z : String) (closure xs : List String) (us : List ChatUnit)
      → count_units z (add_unit (unit_of_members chats messages closure xs) us)
        ≡ count z xs + count_units z us
  count-unit_of_members z closure [] us = omega arith
  count-unit_of_members z closure (x ∷ []) us =
      omega (arith, count-one_member z x closure (chat_at x chats) refl)
  count-unit_of_members z closure (x ∷ y ∷ xs) us =
      omega (arith, count-direct_unit z closure (x ∷ y ∷ xs))

  count-units_of :
      (z : String) (cs : Components)
      → count_units z (units_of chats messages cs) ≡ (if is_chat chats z then total z cs else 0)
  unfolding units_of unit_of
  count-units_of z [] = ground arith
  count-units_of z ((r, c) ∷ cs) =
      let closure = sort_by jid_less c in
      ground (
        arith,
        count-unit_of_members z closure (where_rows (is_chat chats) closure)
            (units_of chats messages cs),
        count-where_rows (is_chat chats) z closure,
        count-sort_by jid_less z c,
        count-units_of z cs,
      )

-- Where the second JID of each alias edge is not empty: a JID with a chat row is a member of the units
-- exactly once, and any other never is.
pub chat_units-once :
    (chats : List ChatRow) (edges : List AliasRow) (messages : List StoredMessage) (x : String)
    → all_named edges ≡ true
    → count_units x (chat_units chats edges messages) ≡ (if is_chat chats x then 1 else 0)
unfolding chat_units
chat_units-once chats edges messages x named =
    let classes = closures-Classes chats edges named in
    ground (
      arith,
      count-units_of chats messages x (closures chats edges),
      classes.collects.once x,
      chat-once x chats edges,
    )
