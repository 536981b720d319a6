-- ===== src/Session/Coherent.antt =====
-- What the snapshot of the session (`AuthSnapshot`, whatsapp-bridge/auth.go) shows together.
use whatsapp_mcp_plugin.Prelude.{
  ℕ, ◌≡◌, refl, String, Bool, true, false, ◌&&◌, not, Option, none, some, List, [], ◌∷◌, All,
  Bool-cases, inl, inr, same, arith,
}
use whatsapp_mcp_plugin.Session.{
  Session, AuthState, qr_pending, SessionEvent, connected_event, disconnected_event,
  logged_out_event, pair_success_event, history_sync_event, qr_code_event, qr_success_event,
  qr_timeout_event, pairing_code_event, paired_event, handshake_event, login_event,
  pair_phone_event, fatal_event, close_event, session_step, session_run, on_connected,
  is_pairing_pending, on_qr_code,
}

abbrev is_qr_pending : AuthState → Bool
is_qr_pending qr_pending = true
is_qr_pending _ = false

abbrev is_some : Option ℕ → Bool
is_some none = false
is_some (some t) = true

-- A code that is announced is there, and no outage is counted while the socket is up.
pub record IsCoherent (s : Session) : Type 0 where
  pub shows_qr : (is_qr_pending s.auth_state && same s.current_qr "") ≡ false
  pub shows_code : (is_pairing_pending s.auth_state && same s.pairing_code "") ≡ false
  pub no_outage : (s.connected && is_some s.disconnected_since) ≡ false

-- The codes of whatsmeow are not empty.
abbrev pub brings_code : SessionEvent → Bool
brings_code (qr_code_event code now timeout) = not (same code "")
brings_code (pairing_code_event code) = not (same code "")
brings_code _ = true

on_connected-IsCoherent :
    (id : Option String) (s : Session) → IsCoherent s → IsCoherent (on_connected id s)
on_connected-IsCoherent (some id) s c = record {
  shows_qr = refl;
  shows_code = refl;
  no_outage = refl;
}
on_connected-IsCoherent none s c = elim (Bool-cases s.authenticated) [
  | inl e ↦ rw e (record { shows_qr = refl; shows_code = refl; no_outage = refl })
  | inr e ↦ rw e (record { shows_qr = c.shows_qr; shows_code = c.shows_code; no_outage = refl })
]

on_qr_code-IsCoherent :
    (code : String) (now timeout : ℕ) (s : Session)
    → same code "" ≡ false
    → IsCoherent s
    → IsCoherent (on_qr_code code now timeout s)
on_qr_code-IsCoherent code now timeout s h c = elim (Bool-cases (is_pairing_pending s.auth_state)) [
  | inl e ↦
      rw e (record {
        shows_qr = ground (arith, h);
        shows_code = c.shows_code;
        no_outage = c.no_outage;
      })
  | inr e ↦ rw e (record { shows_qr = h; shows_code = refl; no_outage = c.no_outage })
]

session_step-IsCoherent :
    (e : SessionEvent) (s : Session)
    → brings_code e ≡ true
    → IsCoherent s
    → IsCoherent (session_step e s)
unfolding session_step
session_step-IsCoherent (connected_event id) s h c = on_connected-IsCoherent id s c
session_step-IsCoherent (disconnected_event now) s h c = record {
  shows_qr = c.shows_qr;
  shows_code = c.shows_code;
  no_outage = refl;
}
session_step-IsCoherent (logged_out_event reason) s h c = record {
  shows_qr = refl;
  shows_code = refl;
  no_outage = refl;
}
session_step-IsCoherent (pair_success_event id) s h c = record {
  shows_qr = refl;
  shows_code = refl;
  no_outage = c.no_outage;
}
session_step-IsCoherent (history_sync_event now) s h c = record {
  shows_qr = c.shows_qr;
  shows_code = c.shows_code;
  no_outage = c.no_outage;
}
session_step-IsCoherent (qr_code_event code now timeout) s h c =
    on_qr_code-IsCoherent code now timeout s (ground (arith, h)) c
session_step-IsCoherent qr_success_event s h c = record {
  shows_qr = refl;
  shows_code = refl;
  no_outage = c.no_outage;
}
session_step-IsCoherent qr_timeout_event s h c = record {
  shows_qr = refl;
  shows_code = refl;
  no_outage = c.no_outage;
}
session_step-IsCoherent (pairing_code_event code) s h c = record {
  shows_qr = refl;
  shows_code = ground (arith, h);
  no_outage = c.no_outage;
}
session_step-IsCoherent paired_event s h c = record {
  shows_qr = refl;
  shows_code = refl;
  no_outage = c.no_outage;
}
session_step-IsCoherent (handshake_event id) s h c = record {
  shows_qr = c.shows_qr;
  shows_code = c.shows_code;
  no_outage = c.no_outage;
}
session_step-IsCoherent (login_event running) s h c = record {
  shows_qr = c.shows_qr;
  shows_code = c.shows_code;
  no_outage = c.no_outage;
}
session_step-IsCoherent (pair_phone_event phone) s h c = record {
  shows_qr = c.shows_qr;
  shows_code = c.shows_code;
  no_outage = c.no_outage;
}
session_step-IsCoherent fatal_event s h c = record {
  shows_qr = c.shows_qr;
  shows_code = c.shows_code;
  no_outage = c.no_outage;
}
session_step-IsCoherent close_event s h c = record {
  shows_qr = c.shows_qr;
  shows_code = c.shows_code;
  no_outage = refl;
}

-- From a state that shows what it announces, any sequence of steps leads to one: while a QR code is
-- pending it is there to be served, while a pairing code is pending it is, and an outage is counted
-- only while the socket is down. The codes that whatsmeow brings are not empty.
pub session_run-IsCoherent :
    (events : List SessionEvent) (s : Session)
    → All (λ e. brings_code e ≡ true) events
    → IsCoherent s
    → IsCoherent (session_run events s)
unfolding session_run
session_run-IsCoherent [] s h c = c
session_run-IsCoherent (e ∷ events) s (first, rest) c =
    session_run-IsCoherent events (session_step e s) rest (session_step-IsCoherent e s first c)
