-- ===== src/Watchdog.antt =====
-- whatsapp-bridge/watchdog.go: the reconnect schedule. Times are in nanoseconds of the monotonic clock, as
-- `time.Duration` counts them; `DisconnectedFor`, `HasDeviceIdentity` and the clock are what a tick finds.
pub mod Schedule
use whatsapp_mcp_plugin.Prelude.{
  ℕ, suc, ◌+◌, ◌*◌, ◌-◌, Bool, true, false, not, ◌||◌, Option, none, some, List, [], ◌∷◌, ltb, ◌==◌,
  if◌then◌else◌,
}

abbrev pub second : ℕ
second = 1000000000

abbrev pub minute : ℕ
minute = 60 * second

abbrev pub watchdog_grace : ℕ
watchdog_grace = 2 * minute

unfoldable pub next_nudge_delay : ℕ → ℕ
next_nudge_delay nudges = if ltb nudges 6 then 5 * minute else 30 * minute

-- The loop's variables; `none` is the zero time.
pub record State : Type 0 where
  pub nudges : ℕ
  pub last_nudge : Option ℕ

abbrev pub start_state : State
start_state = record { nudges = 0; last_nudge = none }

pub record Tick : Type 0 where
  pub now : ℕ
  pub disconnected_for : ℕ
  pub has_device_identity : Bool

abbrev pub too_soon : State → ℕ → Bool
too_soon s now = elim s.last_nudge [
  | none ↦ false
  | some last ↦ ltb (now - last) (next_nudge_delay s.nudges)
]

-- One turn of the loop of `RunDisconnectionWatchdog`: the state after it, and whether it reconnects.
unfoldable pub tick : State → Tick → State × Bool
unfolding next_nudge_delay
tick s t =
    if t.disconnected_for == 0
    then (start_state, false)
    else if ltb t.disconnected_for watchdog_grace
    then (s, false)
    else if not t.has_device_identity
    then (s, false)
    else if too_soon s t.now
    then (s, false)
    else (record { nudges = suc s.nudges; last_nudge = some t.now }, true)

unfoldable pub run : State → List Tick → State
unfolding tick
run s [] = s
run s (t ∷ ts) = run (tick s t).0 ts
