-- ===== src/Watchdog/Schedule.antt =====
-- How often the watchdog of whatsapp-bridge/watchdog.go reconnects.
use whatsapp_mcp_plugin.Prelude.{
  ℕ, ◌+◌, ◌*◌, ◌-◌, ◌≤◌, ◌≡◌, Bool, true, Option, none, some, leb, if◌then◌else◌,
}
use whatsapp_mcp_plugin.Watchdog.{minute, State}

-- The least time from the first attempt of an outage to the n-th: five minutes after each of the first
-- five, and half an hour after each later one.
abbrev pub elapsed : ℕ → ℕ
elapsed n = if leb n 6 then 5 * minute * (n - 1) else 25 * minute + 30 * minute * (n - 6)

-- The attempts of the outage, of which the last was at `last`, were all made at `start` or later, and
-- keep to the schedule.
abbrev pub Paced : ℕ → ℕ → Option ℕ → Type 0
Paced start nudges none = nudges ≡ 0
Paced start nudges (some last) = (1 ≤ nudges) × (start + elapsed nudges ≤ last)

abbrev pub IsPaced : ℕ → State → Type 0
IsPaced start s = Paced start s.nudges s.last_nudge

-- A reconnect at `now` keeps away from the last attempt of the outage: by five minutes after each of the
-- first five attempts, and by half an hour after each later one.
abbrev pub is_apart : ℕ → Option ℕ → ℕ → Bool
is_apart nudges none now = true
is_apart nudges (some last) now =
    leb (last + (if leb nudges 5 then 5 * minute else 30 * minute)) now
