-- ===== src/Vault/Identity/Phone.antt =====
-- Where the phone and the display name of a unit come from.
use whatsapp_mcp_plugin.Prelude.{
  String, ◌≡◌, ◌⊎◌, refl, sym, ◌∙◌, subst, inl, inr, true, false, List, [], ◌∷◌, map, any, same,
  same_refl, if-cases, Bool-cases, arith,
}
use whatsapp_mcp_plugin.Bytes.{Text, bytes, equal, is_blank}
use whatsapp_mcp_plugin.Archive.{ChatRow, StoredContact}
use whatsapp_mcp_plugin.Vault.{extract_phone}
use whatsapp_mcp_plugin.Vault.Units.{ChatUnit}
use whatsapp_mcp_plugin.Vault.Identity.{
  contact_at, contact_phone, first_filled, is_phone_jid, lid_digits, server_phone, phone_unless,
  unit_phone, direct_display, other_display, with_identity,
}

-- Where a phone comes from: the user part of a JID of the phone server, or the phone of a contact that is
-- not the digits of a LID of the unit.
pub data PhoneOf (contacts : List StoredContact) (closure : List String) (phone : Text)
    : Type 0 where
  unknown : phone ≡ [] → PhoneOf contacts closure phone
  of_jid :
      (jid : String)
      → any (same jid) closure ≡ true
      → is_phone_jid jid ≡ true
      → phone ≡ extract_phone (bytes jid)
      → PhoneOf contacts closure phone
  of_contact :
      (jid : String)
      → any (same jid) closure ≡ true
      → phone ≡ contact_phone (contact_at jid contacts)
      → any (equal phone) (lid_digits closure) ≡ false
      → PhoneOf contacts closure phone

module _ (contacts : List StoredContact) (closure : List String) where
  -- A JID further down the list.
  server_phone-of :
      (jids : List String)
      → (server_phone jids ≡ [])
        ⊎ ((jid : String) × (any (same jid) jids ≡ true)
            × (is_phone_jid jid ≡ true)
            × (server_phone jids ≡ extract_phone (bytes jid)))
  unfolding server_phone
  server_phone-of [] = inl refl
  server_phone-of (x ∷ jids) = elim (Bool-cases (is_phone_jid x)) [
    | inl e ↦ inr (x, ground (arith, same_refl x), e, ground (arith, e))
    | inr e ↦ elim (server_phone-of jids) [
      | inl none_there ↦ inl (ground (arith, e, none_there))
      | inr (jid, there, server, at) ↦
          inr (jid, ground (arith, there), server, ground (arith, e, at))
    ]
  ]

  filled-of :
      (f : String → Text) (jids : List String)
      → (first_filled (map f jids) ≡ [])
        ⊎ ((jid : String) × (any (same jid) jids ≡ true)
            × (first_filled (map f jids) ≡ f jid)
            × (is_blank (f jid) ≡ false))
  filled-of f [] = inl refl
  filled-of f (x ∷ jids) = elim (Bool-cases (is_blank (f x))) [
    | inl e ↦ elim (filled-of f jids) [
      | inl blank ↦ inl (ground (arith, e, blank))
      | inr (jid, there, at, filled) ↦
          inr (jid, ground (arith, there), ground (arith, e, at), filled)
    ]
    | inr e ↦ inr (x, ground (arith, same_refl x), ground (arith, e), e)
  ]

  usable-number :
      (jid : String)
      → is_blank (phone_unless (lid_digits closure) (contact_phone (contact_at jid contacts)))
        ≡ false
      → (any (equal (contact_phone (contact_at jid contacts))) (lid_digits closure) ≡ false)
        × (phone_unless (lid_digits closure) (contact_phone (contact_at jid contacts))
            ≡ contact_phone (contact_at jid contacts))
  usable-number jid filled = (ground (arith, filled), ground (arith, filled))

  -- The phone of a unit is blank, or the user part of a JID of the phone server in its closure, or the
  -- phone of a contact in its closure that is not the user part of a LID in it.
  pub unit_phone-PhoneOf : PhoneOf contacts closure (unit_phone contacts closure)
  unfolding unit_phone
  unit_phone-PhoneOf =
      let usable : String → Text =
        λ jid. phone_unless (lid_digits closure) (contact_phone (contact_at jid contacts)) in
      if-cases (PhoneOf contacts closure) (is_blank (server_phone closure))
        (first_filled (map usable closure)) (server_phone closure)
        (λ _. elim (filled-of usable closure) [
          | inl none_there ↦ unknown none_there
          | inr (jid, there, at, filled) ↦
              let (plain, number) = usable-number jid filled in
              of_contact jid there (at ∙ number)
                (subst (λ z. any (equal z) (lid_digits closure) ≡ false) (sym (at ∙ number)) plain)
        ])
        (λ _. elim (server_phone-of closure) [
          | inl none_there ↦ unknown none_there
          | inr (jid, there, server, at) ↦ of_jid jid there server at
        ])

-- A unit whose primary JID is not empty has a display name that is not empty.
pub with_identity-filled :
    (chats : List ChatRow) (contacts : List StoredContact) (u : ChatUnit)
    → is_blank (bytes u.primary) ≡ false
    → is_blank (with_identity chats contacts u).display ≡ false
unfolding with_identity direct_display other_display
with_identity-filled chats contacts u filled = ground (arith, filled)
