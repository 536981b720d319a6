-- ===== src/Session/Outage.antt =====
-- How long the session is up and down (whatsapp-bridge/bridge.go), whatever else happens to it.
use whatsapp_mcp_plugin.Prelude.{
  ℕ, ◌-◌, ◌≡◌, refl, String, Bool, true, false, Option, none, some, List, [], ◌∷◌, All, arith,
}
use whatsapp_mcp_plugin.Session.{
  Session, SessionEvent, connected_event, disconnected_event, logged_out_event, pair_success_event,
  history_sync_event, qr_code_event, qr_success_event, qr_timeout_event, pairing_code_event,
  paired_event, handshake_event, login_event, pair_phone_event, fatal_event, close_event,
  session_step, session_run, on_connected, is_connected, disconnected_for,
}

-- The socket comes up.
abbrev pub comes_up : SessionEvent → Bool
comes_up (connected_event id) = true
comes_up _ = false

-- The socket goes down, or the bridge gives it up.
abbrev pub goes_down : SessionEvent → Bool
goes_down (disconnected_event now) = true
goes_down (logged_out_event reason) = true
goes_down close_event = true
goes_down _ = false

abbrev pub NeverUp : List SessionEvent → Type 0
NeverUp = All (λ e. comes_up e ≡ false)

abbrev pub NeverDown : List SessionEvent → Type 0
NeverDown = All (λ e. goes_down e ≡ false)

abbrev pub IsDownSince : ℕ → Session → Type 0
IsDownSince t s = (s.connected ≡ false) × (s.disconnected_since ≡ some t)

abbrev pub IsUp : Session → Type 0
IsUp s = (s.connected ≡ true) × (s.authenticated ≡ true)

session_step-IsDownSince :
    (t : ℕ) (e : SessionEvent) (s : Session)
    → comes_up e ≡ false
    → IsDownSince t s
    → IsDownSince t (session_step e s)
unfolding session_step
session_step-IsDownSince t (connected_event id) s h d = ground (arith, h)
session_step-IsDownSince t (disconnected_event now) s h d = (refl, rw d.1 refl)
session_step-IsDownSince t (logged_out_event reason) s h d = (refl, d.1)
session_step-IsDownSince t (pair_success_event id) s h d = d
session_step-IsDownSince t (history_sync_event now) s h d = d
session_step-IsDownSince t (qr_code_event code now timeout) s h d = d
session_step-IsDownSince t qr_success_event s h d = d
session_step-IsDownSince t qr_timeout_event s h d = d
session_step-IsDownSince t (pairing_code_event code) s h d = d
session_step-IsDownSince t paired_event s h d = d
session_step-IsDownSince t (handshake_event id) s h d = d
session_step-IsDownSince t (login_event running) s h d = d
session_step-IsDownSince t (pair_phone_event phone) s h d = d
session_step-IsDownSince t fatal_event s h d = d
session_step-IsDownSince t close_event s h d = (refl, d.1)

on_connected-IsUp : (id : String) (s : Session) → IsUp (on_connected (some id) s)
on_connected-IsUp id s = (refl, refl)

identified-IsUp : (id : Option String) (s : Session) → IsUp s → IsUp (on_connected id s)
identified-IsUp none s (up, known) = rw known (refl, refl)
identified-IsUp (some id) s u = (refl, refl)

session_step-IsUp :
    (e : SessionEvent) (s : Session) → goes_down e ≡ false → IsUp s → IsUp (session_step e s)
unfolding session_step
session_step-IsUp (connected_event id) s h u = identified-IsUp id s u
session_step-IsUp (disconnected_event now) s h u = ground (arith, h)
session_step-IsUp (logged_out_event reason) s h u = ground (arith, h)
session_step-IsUp (pair_success_event id) s h u = (u.0, refl)
session_step-IsUp (history_sync_event now) s h u = u
session_step-IsUp (qr_code_event code now timeout) s h u = u
session_step-IsUp qr_success_event s h u = u
session_step-IsUp qr_timeout_event s h u = u
session_step-IsUp (pairing_code_event code) s h u = u
session_step-IsUp paired_event s h u = u
session_step-IsUp (handshake_event id) s h u = (u.0, refl)
session_step-IsUp (login_event running) s h u = u
session_step-IsUp (pair_phone_event phone) s h u = u
session_step-IsUp fatal_event s h u = u
session_step-IsUp close_event s h u = ground (arith, h)

session_run-IsDownSince :
    (t : ℕ) (events : List SessionEvent) (s : Session)
    → NeverUp events
    → IsDownSince t s
    → IsDownSince t (session_run events s)
unfolding session_run
session_run-IsDownSince t [] s h d = d
session_run-IsDownSince t (e ∷ events) s (first, rest) d =
    session_run-IsDownSince t events (session_step e s) rest
      (session_step-IsDownSince t e s first d)

session_run-IsUp :
    (events : List SessionEvent) (s : Session)
    → NeverDown events
    → IsUp s
    → IsUp (session_run events s)
unfolding session_run
session_run-IsUp [] s h u = u
session_run-IsUp (e ∷ events) s (first, rest) u =
    session_run-IsUp events (session_step e s) rest (session_step-IsUp e s first u)

-- Where no outage runs, the duration after a disconnection is counted from it until the socket is up
-- again, however often the same outage is reported and whatever the login and the calls do meanwhile.
pub outage_clock :
    (t now : ℕ) (events : List SessionEvent) (s : Session)
    → NeverUp events
    → s.disconnected_since ≡ none
    → disconnected_for now (session_run (disconnected_event t ∷ events) s) ≡ now - t
unfolding session_run session_step
outage_clock t now events s h up =
    let d =
      session_run-IsDownSince t events (session_step (disconnected_event t) s) h
        (refl, rw up refl) in
    rw (d.0, d.1) refl

-- A connection with a device identity opens the sends, whatever state it finds, and they stay open and
-- the outage stays at zero until the socket goes down.
pub up_until_down :
    (id : String) (now : ℕ) (events : List SessionEvent) (s : Session)
    → NeverDown events
    → (is_connected (session_run (connected_event (some id) ∷ events) s) ≡ true)
      × (disconnected_for now (session_run (connected_event (some id) ∷ events) s) ≡ 0)
unfolding session_run session_step
up_until_down id now events s h =
    let u =
      session_run-IsUp events (session_step (connected_event (some id)) s) h
        (on_connected-IsUp id s) in
    (rw (u.0, u.1) refl, rw u.0 refl)
