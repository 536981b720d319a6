-- ===== src/Pings/Quiet.antt =====
-- The quiet window of prospect-api/quiet_hours.go, and the moment it ends.
use whatsapp_mcp_plugin.Prelude.{
  ℕ, ◌+◌, ◌*◌, ◌-◌, ◌/◌, ◌%◌, ◌≤◌, ◌<◌, ◌≡◌, ◌⊎◌, inl, inr, true, [], ◌∷◌, leb, ltb, if◌then◌else◌,
  Bool-cases, arith,
}
use whatsapp_mcp_plugin.Bytes.{Text}
use whatsapp_mcp_plugin.Pings.{digit, parse_hhmm, QuietHours, in_window, in_quiet_hours, Location}

-- The time of day `hh:mm`, as the configuration writes it.
abbrev pub hhmm : ℕ → ℕ → Text
hhmm h m = (b'0' + h / 10) ∷ (b'0' + h % 10) ∷ b':' ∷ (b'0' + m / 10) ∷ (b'0' + m % 10) ∷ []

digit-code : (d : ℕ) → d < 10 → digit (b'0' + d) ≡ d
digit-code d h = omega (arith, h)

-- A time of day that is written out is read back.
pub parse_hhmm-hhmm : (h m : ℕ) → h < 24 → m < 60 → parse_hhmm (hhmm h m) ≡ h * 60 + m
unfolding parse_hhmm
parse_hhmm-hhmm h m hh hm =
    rw
      (
        digit-code (h / 10) (omega (arith, hh)),
        digit-code (h % 10) (omega arith),
        digit-code (m / 10) (omega (arith, hm)),
        digit-code (m % 10) (omega arith),
      )
      (omega arith)

-- The minutes from `start` on to `now`, around the clock.
abbrev pub minutes_since : ℕ → ℕ → ℕ
minutes_since start now = (now + 1440 - start) % 1440

-- Two ways to read the clock: `now` comes after `start` on the same day, or on the next.
since_cases :
    (start now : ℕ)
    → start < 1440
    → now < 1440
    → ((start ≤ now) × (minutes_since start now + start ≡ now))
      ⊎ ((now < start) × (minutes_since start now + start ≡ now + 1440))
since_cases start now hs hn = elim (Bool-cases (leb start now)) [
  | inl e ↦ inl (ground (arith, e), ground (arith, e, hs, hn))
  | inr e ↦ inr (ground (arith, e), ground (arith, e, hs, hn))
]

-- A moment is quiet exactly when fewer minutes have passed since the window's start than the window
-- lasts, whether or not it wraps around midnight.
pub in_window-minutes_since :
    (start end_at now : ℕ)
    → start < 1440
    → end_at < 1440
    → now < 1440
    → in_window start end_at now ≡ ltb (minutes_since start now) (minutes_since start end_at)
in_window-minutes_since start end_at now hs he hn = elim (since_cases start now hs hn) [
  | inl (le_now, e_now) ↦ elim (since_cases start end_at hs he) [
    | inl (le_end, e_end) ↦ ground (arith, le_now, e_now, le_end, e_end)
    | inr (lt_end, e_end) ↦ ground (arith, le_now, e_now, lt_end, e_end)
  ]
  | inr (lt_now, e_now) ↦ elim (since_cases start end_at hs he) [
    | inl (le_end, e_end) ↦ ground (arith, lt_now, e_now, le_end, e_end)
    | inr (lt_end, e_end) ↦ ground (arith, lt_now, e_now, lt_end, e_end)
  ]
]

-- The minute of the local day, `t` seconds after its second `now`.
abbrev pub minute_after : ℕ → ℕ → ℕ
minute_after now t = (now + t) % 86400 / 60

-- The seconds until the minute `end_at` of the day comes.
abbrev wake_after : ℕ → ℕ → ℕ
wake_after end_at now =
    if ltb now (end_at * 60) then end_at * 60 - now else end_at * 60 + 86400 - now

module _ (start end_at now : ℕ) (hs : start < 1440) (he : end_at < 1440) (hn : now < 86400)
    (quiet : in_window start end_at (minute_after now 0) ≡ true) where
  abbrev wake : ℕ
  wake = wake_after end_at now

module _ (loc : Location) (qh : QuietHours) (now : ℕ) (seconds : loc.day_second now < 86400)
    (date : loc.day_at now (parse_hhmm qh.end_at) + loc.day_second now
      ≡ now + parse_hhmm qh.end_at * 60)
    (steady : (t : ℕ) → t ≤ 86400 → loc.day_second (now + t) ≡ (loc.day_second now + t) % 86400)
    (hs : parse_hhmm qh.start < 1440) (he : parse_hhmm qh.end_at < 1440)
    (quiet : in_quiet_hours qh (loc.day_second now / 60) ≡ true) where
  abbrev sooner : ℕ
  sooner = wake_after (parse_hhmm qh.end_at) (loc.day_second now)
