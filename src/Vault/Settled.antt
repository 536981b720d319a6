-- ===== src/Vault/Settled.antt =====
-- The loop of `assignFilenames` (whatsapp-bridge/export_vault.go) comes to its fixed point.
use whatsapp_mcp_plugin.Prelude.{
  ℕ, zero, suc, ◌+◌, ◌-◌, ◌*◌, ◌≤◌, ◌<◌, ◌≡◌, refl, inl, inr, true, false, List, [], ◌∷◌, map, any,
  ltb, length, if-cases, Bool-cases, arith,
}
use whatsapp_mcp_plugin.Bytes.{Text}
use whatsapp_mcp_plugin.Vault.{
  Unicode, ExportUnit, Planned, max_level, key_of, escalates, escalated, settle_names, at_level_0,
  assign_filenames,
}

-- The levels that are left.
abbrev room : List Planned → ℕ
room [] = 0
room (p ∷ ps) = max_level - p.level + room ps

module _ (unicode : Unicode) (taken : List Text) where
  -- Nothing that collides could still escalate.
  abbrev pub IsSettled : List Planned → Type 0
  IsSettled ps = any (escalates unicode taken (map (key_of unicode) ps)) ps ≡ false

  room-escalated :
      (keys : List Text) (ps : List Planned)
      → room (map (escalated unicode taken keys) ps) ≤ room ps
  room-escalated keys [] = omega arith
  room-escalated keys (p ∷ ps) = elim (Bool-cases (escalates unicode taken keys p)) [
    | inl e ↦ rw e (omega (arith, room-escalated keys ps))
    | inr e ↦ rw e (omega (arith, room-escalated keys ps))
  ]

  low :
      (keys : List Text) (p : Planned) → escalates unicode taken keys p ≡ true → p.level < max_level
  low keys p e = ground (arith, e)

  room-round :
      (keys : List Text) (ps : List Planned)
      → any (escalates unicode taken keys) ps ≡ true
      → suc (room (map (escalated unicode taken keys) ps)) ≤ room ps
  room-round keys [] h = ground (arith, h)
  room-round keys (p ∷ ps) h = elim (Bool-cases (escalates unicode taken keys p)) [
    | inl e ↦ rw e (omega (arith, low keys p e, room-escalated keys ps))
    | inr e ↦ rw e (omega (arith, room-round keys ps (ground (arith, h, e))))
  ]

  full : (n : ℕ) → max_level - n ≡ 0 → ltb n max_level ≡ false
  full n h = ground (arith, h)

  no_room :
      (keys : List Text) (ps : List Planned)
      → room ps ≡ 0
      → any (escalates unicode taken keys) ps ≡ false
  no_room keys [] h = refl
  no_room keys (p ∷ ps) h =
      let last : ltb p.level max_level ≡ false = ground (arith, full p.level (omega (arith, h))) in
      ground (arith, last, no_room keys ps (omega (arith, h)))

  settle_names-IsSettled :
      (fuel : ℕ) (ps : List Planned)
      → room ps ≤ fuel
      → IsSettled (settle_names unicode taken fuel ps)
  unfolding settle_names
  settle_names-IsSettled zero ps h = no_room (map (key_of unicode) ps) ps (omega (arith, h))
  settle_names-IsSettled (suc fuel) ps h =
      let keys = map (key_of unicode) ps in
      let next = map (escalated unicode taken keys) ps in
      if-cases IsSettled (any (escalates unicode taken keys) ps)
        (settle_names unicode taken fuel next) ps
        (λ e. settle_names-IsSettled fuel next (omega (arith, h, room-round keys ps e))) (λ e. e)

  room-start : (units : List ExportUnit) → room (map at_level_0 units) ≤ max_level * length units
  room-start [] = omega arith
  room-start (u ∷ units) = omega (arith, room-start units)

  -- The loop ends, after at most two rounds for each unit: no unit that shares its name with another, or
  -- with a file that is not managed, has a level left.
  pub assign_filenames-IsSettled :
      (units : List ExportUnit) → IsSettled (assign_filenames unicode taken units)
  unfolding assign_filenames
  assign_filenames-IsSettled units =
      settle_names-IsSettled (max_level * length units) (map at_level_0 units) (room-start units)
