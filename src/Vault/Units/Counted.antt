-- ===== src/Vault/Units/Counted.antt =====
-- The messages that the units count are those of the chats.
use whatsapp_mcp_plugin.Sorting.{fold-sort_by, sort_by, jid_less}
use whatsapp_mcp_plugin.Prelude.{
  ℕ, ◌+◌, String, ◌≡◌, refl, sym, ◌∙◌, Bool, true, Option, none, some, List, [], ◌∷◌, ◌++◌, length,
  where_rows, same, if◌then◌else◌, if-cases, arith, eq_iff,
}
use whatsapp_mcp_plugin.Archive.{ChatRow, StoredMessage, AliasRow}
use whatsapp_mcp_plugin.Vault.Forest.{Components}
use whatsapp_mcp_plugin.Vault.Forest.Collected.{count}
use whatsapp_mcp_plugin.Vault.Units.{
  chat_at, is_chat, ChatUnit, message_count, add_member, add_members, empty_unit, primary_first,
  direct_unit, lone_unit, one_member, unit_of_members, unit_of, add_unit, units_of, closures,
  chat_units,
}
use whatsapp_mcp_plugin.Vault.Units.Linked.{all_named}
use whatsapp_mcp_plugin.Vault.Units.Once.{count_units, chat_units-once}

-- The messages of the JIDs, one after the other.
abbrev sum_counts : List StoredMessage → List String → ℕ
sum_counts messages [] = 0
sum_counts messages (x ∷ xs) = message_count messages x + sum_counts messages xs

abbrev sum_units : List StoredMessage → List ChatUnit → ℕ
sum_units messages [] = 0
sum_units messages (u ∷ us) = sum_counts messages u.members + sum_units messages us

-- What the units say that they hold.
abbrev pub counted : List ChatUnit → ℕ
counted [] = 0
counted (u ∷ us) = u.msg_count + counted us

module _ (messages : List StoredMessage) where
  sum-append :
      (xs : List String) (y : String)
      → sum_counts messages (xs ++ y ∷ []) ≡ sum_counts messages xs + message_count messages y
  sum-append [] y = omega arith
  sum-append (x ∷ xs) y = omega (arith, sum-append xs y)

  sum-sort_by :
      (less : String → String → Bool) (xs : List String)
      → sum_counts messages (sort_by less xs) ≡ sum_counts messages xs
  sum-sort_by less xs =
      fold-sort_by (sum_counts messages) (λ x n. message_count messages x + n) (λ x ys. refl)
        (λ x y n. omega arith) less xs

  module _ (chats : List ChatRow) where
    -- A unit's count is that of its members.
    abbrev Tallied : ChatUnit → Type 0
    Tallied u = u.msg_count ≡ sum_counts messages u.members

    add_members-Tallied :
        (xs : List String) (u : ChatUnit) → Tallied u → Tallied (add_members chats messages xs u)
    unfolding add_members
    add_members-Tallied [] u tallied = tallied
    add_members-Tallied (x ∷ xs) u tallied =
        add_members-Tallied xs (add_member chats messages x u)
          (omega (arith, sum-append u.members x, tallied))

    direct_unit-Tallied :
        (closure xs : List String) → Tallied (direct_unit chats messages closure xs)
    unfolding direct_unit
    direct_unit-Tallied closure xs =
        let u = add_members chats messages xs empty_unit in
        add_members-Tallied xs empty_unit refl
        ∙ sym (sum-sort_by (primary_first u.primary) u.members)

    one_member-Tallied :
        (closure : List String) (x : String) (o : Option ChatRow)
        → Tallied (one_member chats messages closure x o)
    one_member-Tallied closure x none = direct_unit-Tallied closure (x ∷ [])
    one_member-Tallied closure x (some c) =
        if-cases Tallied (same c.chat_type "direct") (direct_unit chats messages closure (x ∷ []))
          (lone_unit messages c) (λ _. direct_unit-Tallied closure (x ∷ [])) (λ _. omega arith)

    counted-unit_of_members :
        (closure xs : List String) (us : List ChatUnit)
        → counted us ≡ sum_units messages us
        → counted (add_unit (unit_of_members chats messages closure xs) us)
          ≡ sum_units messages (add_unit (unit_of_members chats messages closure xs) us)
    counted-unit_of_members closure [] us ih = ih
    counted-unit_of_members closure (x ∷ []) us ih =
        omega (arith, one_member-Tallied closure x (chat_at x chats), ih)
    counted-unit_of_members closure (x ∷ y ∷ xs) us ih =
        omega (arith, direct_unit-Tallied closure (x ∷ y ∷ xs), ih)

    counted-units_of :
        (cs : Components)
        → counted (units_of chats messages cs) ≡ sum_units messages (units_of chats messages cs)
    unfolding units_of unit_of
    counted-units_of [] = refl
    counted-units_of ((r, c) ∷ cs) =
        let closure = sort_by jid_less c in
        counted-unit_of_members closure (where_rows (is_chat chats) closure)
          (units_of chats messages cs) (counted-units_of cs)

-- One more message is counted once for each time that its chat is a member.
sum-message :
    (m : StoredMessage) (messages : List StoredMessage) (xs : List String)
    → sum_counts (m ∷ messages) xs ≡ count m.chat_jid xs + sum_counts messages xs
sum-message m messages [] = omega arith
sum-message m messages (x ∷ xs) =
    ground (arith, sum-message m messages xs, eq_iff x m.chat_jid, eq_iff m.chat_jid x)

sum_units-message :
    (m : StoredMessage) (messages : List StoredMessage) (us : List ChatUnit)
    → sum_units (m ∷ messages) us ≡ count_units m.chat_jid us + sum_units messages us
sum_units-message m messages [] = omega arith
sum_units-message m messages (u ∷ us) =
    omega (arith, sum-message m messages u.members, sum_units-message m messages us)

sum_counts-none : (xs : List String) → sum_counts [] xs ≡ 0
sum_counts-none [] = refl
sum_counts-none (x ∷ xs) = omega (arith, sum_counts-none xs)

sum_units-none : (us : List ChatUnit) → sum_units [] us ≡ 0
sum_units-none [] = refl
sum_units-none (u ∷ us) = omega (arith, sum_counts-none u.members, sum_units-none us)

module _ (chats : List ChatRow) (us : List ChatUnit) where
  sum_units-once :
      (messages : List StoredMessage)
      → ((x : String) → count_units x us ≡ (if is_chat chats x then 1 else 0))
      → sum_units messages us
        ≡ length (where_rows (λ (m : StoredMessage). is_chat chats m.chat_jid) messages)
  sum_units-once [] once = sum_units-none us
  sum_units-once (m ∷ messages) once =
      ground (arith, sum_units-message m messages us, once m.chat_jid, sum_units-once messages once)

-- Where the second JID of each alias edge is not empty, the counts of the units add up to the number of
-- messages whose chat has a row.
pub chat_units-counted :
    (chats : List ChatRow) (edges : List AliasRow) (messages : List StoredMessage)
    → all_named edges ≡ true
    → counted (chat_units chats edges messages)
      ≡ length (where_rows (λ (m : StoredMessage). is_chat chats m.chat_jid) messages)
unfolding chat_units
chat_units-counted chats edges messages named =
    counted-units_of messages chats (closures chats edges)
    ∙ sum_units-once chats (units_of chats messages (closures chats edges)) messages
        (λ x. chat_units-once chats edges messages x named)
