-- ===== src/Vault/Units/Newest.antt =====
-- The primary JID of a unit.
use whatsapp_mcp_plugin.Sorting.{fold-sort_by, insert_by, sort_by, jid_less}
use whatsapp_mcp_plugin.Prelude.{
  all-append, any-append, ℕ, ◌≤◌, String, ◌≡◌, refl, ap, sym, ◌∙◌, subst, inl, inr, Bool, true,
  false, ◌&&◌, ◌||◌, Option, none, some, List, [], ◌∷◌, any, all, All, where_rows, same, same→eq,
  same_refl, leb, if-cases, Bool-cases, arith, eq_iff,
}
use whatsapp_mcp_plugin.Archive.{ChatRow, StoredMessage, AliasRow}
use whatsapp_mcp_plugin.Vault.Forest.{Components}
use whatsapp_mcp_plugin.Vault.Units.{
  chat_at, is_chat, ChatUnit, time_in, time_of, is_newer, add_member, add_members, empty_unit,
  primary_first, direct_unit, lone_unit, one_member, unit_of_members, unit_of, add_unit, units_of,
  closures, chat_units,
}
use whatsapp_mcp_plugin.Vault.Units.Once.{chat_at-jid}

abbrev pub first_is : String → List String → Bool
first_is x [] = false
first_is x (y ∷ ys) = same x y

-- No member is newer than the primary JID, which comes first and gives the unit its time.
pub record IsNewest (chats : List ChatRow) (u : ChatUnit) : Type 0 where
  pub newest : all (λ x. leb (time_of chats x) (time_of chats u.primary)) u.members ≡ true
  pub last : u.last_message_ts ≡ time_of chats u.primary
  pub first : first_is u.primary u.members ≡ true

first-insert_by :
    (p x : String) (ys : List String)
    → (same p x || first_is p ys) ≡ true
    → first_is p (insert_by (primary_first p) x ys) ≡ true
first-insert_by p x [] e = ground (arith, e)
first-insert_by p x (y ∷ ys) e = ground (arith, e, eq_iff p x, eq_iff x p, eq_iff y p, eq_iff p y)

first-sort_by :
    (p : String) (xs : List String)
    → any (same p) xs ≡ true
    → first_is p (sort_by (primary_first p) xs) ≡ true
unfolding sort_by
first-sort_by p [] e = ground arith
first-sort_by p (x ∷ xs) e =
    first-insert_by p x (sort_by (primary_first p) xs) (ground (arith, e, first-sort_by p xs))

all-below-le :
    (t : String → ℕ) (a b : ℕ) (xs : List String)
    → a ≤ b
    → all (λ x. leb (t x) a) xs ≡ true
    → all (λ x. leb (t x) b) xs ≡ true
all-below-le t a b [] le e = refl
all-below-le t a b (x ∷ xs) le e = ground (arith, all-below-le t a b xs, le, e)

all-sort_by :
    (p : String → Bool) (less : String → String → Bool) (xs : List String)
    → all p (sort_by less xs) ≡ all p xs
all-sort_by p less xs =
    fold-sort_by (all p) (λ x b. p x && b) (λ x ys. refl) (λ x y b. ground arith) less xs

module _ (chats : List ChatRow) (messages : List StoredMessage) where
  -- What the loop over the members keeps; the empty JID is the primary before the first round.
  record IsAhead (u : ChatUnit) : Type 0 where
    ahead : all (λ x. leb (time_of chats x) (time_of chats u.primary)) u.members ≡ true
    time : u.last_message_ts ≡ time_of chats u.primary
    present : (any (same u.primary) u.members || same u.primary "") ≡ true

  IsAhead-add_member :
      (x : String) (u : ChatUnit)
      → time_of chats "" ≡ 0
      → IsAhead u
      → IsAhead (add_member chats messages x u)
  IsAhead-add_member x u zero_time h =
      let t = time_of chats in
      let no_time = λ (s : same u.primary "" ≡ true).
        subst (λ z. time_of chats z ≡ 0) (sym (same→eq u.primary "" s)) zero_time in
      if-cases (λ p. IsAhead (record (add_member chats messages x u) { primary = p }))
        (is_newer chats x u.primary) x u.primary
        (λ e.
          let le : t u.primary ≤ t x = ground (arith, e, no_time) in
          record {
            ahead =
                all-append (λ y. leb (t y) (t x)) u.members (x ∷ [])
                ∙ ground (arith, all-below-le t (t u.primary) (t x) u.members le h.ahead);
            time = ground (arith, h.time, le);
            present = ground (arith, any-append (same x) u.members (x ∷ []), same_refl x);
          })
        (λ e. record {
          ahead =
              all-append (λ y. leb (t y) (t u.primary)) u.members (x ∷ [])
              ∙ ground (arith, h.ahead, e);
          time = ground (arith, h.time, e);
          present = ground (arith, any-append (same u.primary) u.members (x ∷ []), h.present);
        })

  add_members-IsAhead :
      (xs : List String) (u : ChatUnit)
      → time_of chats "" ≡ 0
      → IsAhead u
      → IsAhead (add_members chats messages xs u)
  unfolding add_members
  add_members-IsAhead [] u zero_time h = h
  add_members-IsAhead (x ∷ xs) u zero_time h =
      add_members-IsAhead xs (add_member chats messages x u) zero_time
        (IsAhead-add_member x u zero_time h)

  -- The loop leaves no empty primary where no member is empty.
  named-add_member :
      (x : String) (u : ChatUnit)
      → same "" x ≡ false
      → same (add_member chats messages x u).primary "" ≡ false
  named-add_member x u named = ground (arith, named, eq_iff "" x, eq_iff x "")

  named-add_members :
      (xs : List String) (u : ChatUnit)
      → any (same "") xs ≡ false
      → same u.primary "" ≡ false
      → same (add_members chats messages xs u).primary "" ≡ false
  unfolding add_members
  named-add_members [] u named kept = kept
  named-add_members (x ∷ xs) u named kept =
      named-add_members xs (add_member chats messages x u) (ground (arith, named))
        (named-add_member x u (ground (arith, named)))

  direct_unit-IsNewest :
      (closure : List String) (x : String) (xs : List String)
      → time_of chats "" ≡ 0
      → any (same "") (x ∷ xs) ≡ false
      → IsNewest chats (direct_unit chats messages closure (x ∷ xs))
  unfolding direct_unit add_members
  direct_unit-IsNewest closure x xs zero_time named =
      let u = add_members chats messages (x ∷ xs) empty_unit in
      let h =
        add_members-IsAhead (x ∷ xs) empty_unit zero_time
          (record { ahead = refl; time = sym zero_time; present = refl }) in
      let filled =
        named-add_members xs (add_member chats messages x empty_unit) (ground (arith, named))
          (named-add_member x empty_unit (ground (arith, named))) in
      record {
        newest =
            all-sort_by (λ y. leb (time_of chats y) (time_of chats u.primary))
              (primary_first u.primary) u.members
            ∙ h.ahead;
        last = h.time;
        first = first-sort_by u.primary u.members (ground (arith, h.present, filled));
      }

  any-where_rows :
      (p : String → Bool) (z : String) (xs : List String)
      → p z ≡ false
      → any (same z) (where_rows p xs) ≡ false
  any-where_rows p z [] e = refl
  any-where_rows p z (x ∷ xs) e = elim (Bool-cases (same z x)) [
    | inl s ↦ ground (arith, any-where_rows p z xs e, ap p (same→eq z x s), e)
    | inr s ↦ ground (arith, any-where_rows p z xs e, s)
  ]

  lone_unit-IsNewest :
      (jid : String) (c : ChatRow)
      → chat_at jid chats ≡ some c
      → IsNewest chats (lone_unit messages c)
  lone_unit-IsNewest jid c at = record {
    newest = ground arith;
    last = sym (ap (time_of chats) (chat_at-jid jid chats c at) ∙ ap time_in at);
    first = ground (arith, same_refl c.jid);
  }

  one_member-IsNewest :
      (closure : List String) (x : String) (o : Option ChatRow)
      → time_of chats "" ≡ 0
      → same "" x ≡ false
      → chat_at x chats ≡ o
      → IsNewest chats (one_member chats messages closure x o)
  one_member-IsNewest closure x none zero_time named at =
      direct_unit-IsNewest closure x [] zero_time (ground (arith, named))
  one_member-IsNewest closure x (some c) zero_time named at =
      if-cases (IsNewest chats) (same c.chat_type "direct")
        (direct_unit chats messages closure (x ∷ [])) (lone_unit messages c)
        (λ _. direct_unit-IsNewest closure x [] zero_time (ground (arith, named)))
        (λ _. lone_unit-IsNewest x c at)

  members-IsNewest :
      (closure xs : List String) (us : List ChatUnit)
      → time_of chats "" ≡ 0
      → any (same "") xs ≡ false
      → All (IsNewest chats) us
      → All (IsNewest chats) (add_unit (unit_of_members chats messages closure xs) us)
  members-IsNewest closure [] us zero_time named ih = ih
  members-IsNewest closure (x ∷ []) us zero_time named ih =
      (one_member-IsNewest closure x (chat_at x chats) zero_time (ground (arith, named)) refl, ih)
  members-IsNewest closure (x ∷ y ∷ xs) us zero_time named ih =
      (direct_unit-IsNewest closure x (y ∷ xs) zero_time named, ih)

  units_of-IsNewest :
      (cs : Components)
      → is_chat chats "" ≡ false
      → All (IsNewest chats) (units_of chats messages cs)
  unfolding units_of unit_of
  units_of-IsNewest [] no_chat = tt
  units_of-IsNewest ((r, c) ∷ cs) no_chat =
      let closure = sort_by jid_less c in
      members-IsNewest closure (where_rows (is_chat chats) closure) (units_of chats messages cs)
        (ground (arith, no_chat)) (any-where_rows (is_chat chats) "" closure no_chat)
        (units_of-IsNewest cs no_chat)

-- The primary JID of each unit is its first member, no member's last message is later than its last
-- message, and its time is the unit's, where no chat row has an empty JID.
pub chat_units-IsNewest :
    (chats : List ChatRow) (edges : List AliasRow) (messages : List StoredMessage)
    → is_chat chats "" ≡ false
    → All (IsNewest chats) (chat_units chats edges messages)
unfolding chat_units
chat_units-IsNewest chats edges messages no_chat =
    units_of-IsNewest chats messages (closures chats edges) no_chat
