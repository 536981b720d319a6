-- ===== src/Tests/Pairing.antt =====
-- A session that pairs in its second batch of QR codes, and one that loses its device.
use whatsapp_mcp_plugin.Prelude.{◌≡◌, refl, true, false, none, some, List, [], ◌∷◌}
use whatsapp_mcp_plugin.Bytes.{bytes}
use whatsapp_mcp_plugin.Session.{
  Session, new_session, SessionEvent, connected_event, disconnected_event, logged_out_event,
  qr_code_event, pairing_code_event, qr_timeout_event, session_run, is_connected, disconnected_for,
}
use whatsapp_mcp_plugin.Session.Coherent.{IsCoherent}
use whatsapp_mcp_plugin.Session.Outage.{up_until_down}
use whatsapp_mcp_plugin.Session.Login.{
  LoginRound, code, success, timeout, returned, other_error, login_loop, request_pairing_code,
  country_code_missing, format_pairing_code,
}
use whatsapp_mcp_plugin.Session.Paired.{LoginOf, login_loop-LoginOf}

abbrev first_round : LoginRound
first_round = record {
  cancelled_before = false;
  qr_error = none;
  is_live = false;
  connect_error = none;
  batch = code "2@a" 10 60 ∷ timeout ∷ success ∷ [];
  has_device = false;
  cancelled_after = false;
}

abbrev second_round : LoginRound
second_round = record first_round { batch = code "2@b" 80 60 ∷ success ∷ [] }

abbrev deleted_round : LoginRound
deleted_round = record first_round { qr_error = some (other_error true) }

abbrev rounds : List LoginRound
rounds = first_round ∷ second_round ∷ deleted_round ∷ []

rounds_return : (login_loop rounds (new_session 1)).1 ≡ returned
unfolding login_loop
rounds_return = refl

deleted_is_fatal : (login_loop (deleted_round ∷ []) (new_session 1)).0.fatal ≡ true
unfolding login_loop
deleted_is_fatal = refl

short_number :
    (request_pairing_code none
      (λ s. some "X")
      (bytes "+1 555")
      (record (new_session 1) { login_running = true })).1
    ≡ country_code_missing
unfolding request_pairing_code bytes
short_number = refl

code_is_formatted : format_pairing_code (bytes "AB-CDEFGHI") ≡ bytes "ABCD-EFGH-I"
unfolding format_pairing_code
code_is_formatted = refl

abbrev up : Session
up = record (new_session 1) { connected = true; authenticated = true; disconnected_since = none }

-- A logout that whatsmeow reports while the socket is up starts no clock.
logout_without_clock : disconnected_for 90 (session_run (logged_out_event "401" ∷ []) up) ≡ 0
unfolding session_run
logout_without_clock = refl

abbrev trouble : List SessionEvent
trouble = disconnected_event 40 ∷ qr_code_event "2@c" 41 60 ∷ qr_timeout_event ∷ []

login_loop-LoginOf_example : LoginOf (new_session 1) (login_loop rounds (new_session 1))
login_loop-LoginOf_example = login_loop-LoginOf rounds (new_session 1) refl

abbrev pairing : List SessionEvent
pairing = qr_code_event "2@c" 41 60 ∷ pairing_code_event "ABCD" ∷ []

up_until_down_example :
    (is_connected (session_run (connected_event (some "49170:3") ∷ pairing) (new_session 1)) ≡ true)
    × (disconnected_for 90
          (session_run (connected_event (some "49170:3") ∷ pairing) (new_session 1))
        ≡ 0)
up_until_down_example = up_until_down "49170:3" 90 pairing (new_session 1) (refl, (refl, tt))

new-IsCoherent : IsCoherent (new_session 1)
new-IsCoherent = record { shows_qr = refl; shows_code = refl; no_outage = refl }
