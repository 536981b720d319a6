-- ===== src/Vault/Units/Shared.antt =====
-- Which chats of `buildExportUnits` share one unit.
use whatsapp_mcp_plugin.Sorting.{sort_by, jid_less}
use whatsapp_mcp_plugin.Prelude.{
  ◌≤◌, String, ◌≡◌, ◌↔◌, refl, ap, sym, ◌∙◌, subst, inl, inr, Bool, true, false, ◌&&◌, ◌||◌, none,
  List, [], ◌∷◌, any, All, where_rows, same, same→eq, leb, lookup, Bool-cases, arith, eq_iff,
  Unique,
}
use whatsapp_mcp_plugin.Archive.{ChatRow, StoredMessage, AliasRow}
use whatsapp_mcp_plugin.Vault.Forest.{Components}
use whatsapp_mcp_plugin.Vault.Forest.Linked.{Linked, back, chain}
use whatsapp_mcp_plugin.Vault.Forest.Collected.{count, total, IsRooted}
use whatsapp_mcp_plugin.Vault.Units.{
  chat_at, is_chat, ChatUnit, direct_unit, one_member, unit_of_members, unit_of, add_unit, units_of,
  closures, chat_units,
}
use whatsapp_mcp_plugin.Vault.Units.Once.{
  count-sort_by, count-where_rows, count-direct_unit, count-one_member,
}
use whatsapp_mcp_plugin.Vault.Units.Linked.{
  all_named, merged, closures-Classes, chat-once, Linked-root,
}

-- Both are among the JIDs.
abbrev pub both : String → String → List String → Bool
both x y xs = any (same x) xs && any (same y) xs

abbrev pub share_unit : String → String → List ChatUnit → Bool
share_unit x y us = any (λ (u : ChatUnit). both x y u.members) us

abbrev together : String → String → Components → Bool
together x y [] = false
together x y ((r, c) ∷ cs) = both x y c || together x y cs

any-count : (x : String) (xs : List String) → any (same x) xs ≡ leb 1 (count x xs)
any-count x [] = ground arith
any-count x (y ∷ xs) = ground (arith, any-count x xs)

-- Lists with the same JIDs.
both-count :
    (x y : String) (xs ys : List String)
    → ((z : String) → count z xs ≡ count z ys)
    → both x y xs ≡ both x y ys
both-count x y xs ys e =
    ground (arith, any-count x xs, any-count x ys, any-count y xs, any-count y ys, e x, e y)

module _ (chats : List ChatRow) (messages : List StoredMessage) (x y : String) where
  share-unit_of_members :
      (closure xs : List String) (us : List ChatUnit)
      → share_unit x y (add_unit (unit_of_members chats messages closure xs) us)
        ≡ (both x y xs || share_unit x y us)
  share-unit_of_members closure [] us = refl
  share-unit_of_members closure (z ∷ []) us =
      ap (λ b. b || share_unit x y us)
        (both-count x y (one_member chats messages closure z (chat_at z chats)).members (z ∷ [])
          (λ w. count-one_member chats messages w z closure (chat_at z chats) refl))
  share-unit_of_members closure (z ∷ w ∷ xs) us =
      ap (λ b. b || share_unit x y us)
        (both-count x y (direct_unit chats messages closure (z ∷ w ∷ xs)).members (z ∷ w ∷ xs)
          (λ v. count-direct_unit chats messages v closure (z ∷ w ∷ xs)))

  module _ (x_there : is_chat chats x ≡ true) (y_there : is_chat chats y ≡ true) where
    both-members :
        (c : List String) → both x y (where_rows (is_chat chats) (sort_by jid_less c)) ≡ both x y c
    both-members c =
        let closure = sort_by jid_less c in
        let members = where_rows (is_chat chats) closure in
        ground (
          arith,
          any-count x members,
          any-count y members,
          any-count x c,
          any-count y c,
          count-where_rows (is_chat chats) x closure,
          count-where_rows (is_chat chats) y closure,
          count-sort_by jid_less x c,
          count-sort_by jid_less y c,
          x_there,
          y_there,
        )

    share-units_of :
        (cs : Components) → share_unit x y (units_of chats messages cs) ≡ together x y cs
    unfolding units_of unit_of
    share-units_of [] = refl
    share-units_of ((r, c) ∷ cs) =
        let members = where_rows (is_chat chats) (sort_by jid_less c) in
        ground (
          arith,
          share-unit_of_members (sort_by jid_less c) members (units_of chats messages cs),
          both-members c,
          share-units_of cs,
        )

module _ (root : String → String) where
  rooted-any :
      (x r : String) (c : List String)
      → All (λ z. root z ≡ r) c
      → any (same x) c ≡ true
      → root x ≡ r
  rooted-any x r [] g there = ground arith
  rooted-any x r (z ∷ c) (first, rest) there = elim (Bool-cases (same x z)) [
    | inl e ↦ ap root (same→eq x z e) ∙ first
    | inr e ↦ rooted-any x r c rest (ground (arith, there, e))
  ]

  -- A JID whose root has no entry is in no component.
  absent-total :
      (x : String) (cs : Components)
      → All (IsRooted root) cs
      → lookup (root x) cs ≡ none
      → total x cs ≡ 0
  absent-total x [] g absent = refl
  absent-total x ((r, c) ∷ cs) (first, rest) absent =
      let at = λ (s : any (same x) c ≡ true). rooted-any x r c first s in
      ground (arith, at, any-count x c, eq_iff r (root x), absent, absent-total x cs rest)

  together-root :
      (x y : String) (cs : Components)
      → All (IsRooted root) cs
      → together x y cs ≡ true
      → root x ≡ root y
  together-root x y [] g there = ground arith
  together-root x y ((r, c) ∷ cs) (first, rest) there = elim (Bool-cases (both x y c)) [
    | inl e ↦
        rooted-any x r c first (ground (arith, e))
        ∙ sym (rooted-any y r c first (ground (arith, e)))
    | inr e ↦ together-root x y cs rest (ground (arith, there, e))
  ]

  root-together :
      (x y : String) (cs : Components)
      → Unique cs
      → All (IsRooted root) cs
      → root x ≡ root y
      → 1 ≤ total x cs
      → 1 ≤ total y cs
      → together x y cs ≡ true
  root-together x y [] u g one some_x some_y = ground arith
  root-together x y ((r, c) ∷ cs) (new, u) (first, rest) one some_x some_y =
      let at_x = λ (s : any (same x) c ≡ true). rooted-any x r c first s in
      let at_y = λ (s : any (same y) c ≡ true). rooted-any y r c first s in
      let none_x =
        λ (e : root x ≡ r). absent-total x cs rest (subst (λ z. lookup z cs ≡ none) (sym e) new) in
      let none_y =
        λ (e : root y ≡ r). absent-total y cs rest (subst (λ z. lookup z cs ≡ none) (sym e) new) in
      ground (
        arith,
        at_x,
        at_y,
        none_x,
        none_y,
        any-count x c,
        any-count y c,
        one,
        some_x,
        some_y,
        root-together x y cs u rest one,
      )

-- Where the second JID of each alias edge is not empty: two JIDs with a chat row are members of one unit if
-- and only if a chain of the edges that are not skipped joins them, each edge in either direction.
pub share_unit-Linked :
    (chats : List ChatRow) (edges : List AliasRow) (messages : List StoredMessage) (x y : String)
    → all_named edges ≡ true
    → is_chat chats x ≡ true
    → is_chat chats y ≡ true
    → share_unit x y (chat_units chats edges messages) ≡ true ↔ Linked (merged chats edges) x y
unfolding chat_units
share_unit-Linked chats edges messages x y named x_there y_there =
    let classes = closures-Classes chats edges named in
    let root = classes.root in
    let cs = closures chats edges in
    let same_units = share-units_of chats messages x y x_there y_there cs in
    let n_x = classes.collects.once x ∙ chat-once x chats edges x_there in
    let n_y = classes.collects.once y ∙ chat-once y chats edges y_there in
    (
      λ shared.
          let one = together-root root x y cs classes.collects.rooted (sym same_units ∙ shared) in
          chain (classes.sound x)
            (subst (λ z. Linked (merged chats edges) z y) (sym one) (back (classes.sound y))),
      λ linked.
          same_units
          ∙ root-together root x y cs classes.collects.unique classes.collects.rooted
              (Linked-root (merged chats edges) root classes.joined x y linked) (omega (arith, n_x))
              (omega (arith, n_y)),
    )
