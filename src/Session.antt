-- ===== src/Session.antt =====
-- The session with WhatsApp: the fields of `Bridge` in whatsapp-bridge/bridge.go that its mutex guards,
-- and the sections of bridge.go and auth.go that change them, each one step. What whatsmeow answers
-- (`Store.ID`, `Connect`, `PairPhone`, the channel of QR codes) is an argument.
pub mod Login
pub mod Outage
pub mod Coherent
pub mod Paired
use whatsapp_mcp_plugin.Prelude.{
  ℕ, ◌+◌, ◌-◌, String, Bool, true, false, ◌&&◌, ◌||◌, not, Option, none, some, List, [], ◌∷◌, same,
  if◌then◌else◌,
}

-- `AuthState`
pub data AuthState : Type 0 where
  unauthenticated : AuthState
  qr_pending : AuthState
  pairing_pending : AuthState
  paired : AuthState
  logged_out : AuthState
  timed_out : AuthState

pub record Session : Type 0 where
  pub connected : Bool
  pub authenticated : Bool
  -- The zero time is `none`.
  pub disconnected_since : Option ℕ
  pub device_jid : String
  pub last_sync_time : Option ℕ
  pub auth_state : AuthState
  pub current_qr : String
  pub qr_expires_at : Option ℕ
  pub pairing_code : String
  pub logged_out_reason : String
  pub login_running : Bool
  pub pair_phone_on_start : String
  -- Whether the channel `fatal` is closed.
  pub fatal : Bool

-- `NewBridge`, at `now`
abbrev pub new_session : ℕ → Session
new_session now = record {
  connected = false;
  authenticated = false;
  disconnected_since = some now;
  device_jid = "";
  last_sync_time = none;
  auth_state = unauthenticated;
  current_qr = "";
  qr_expires_at = none;
  pairing_code = "";
  logged_out_reason = "";
  login_running = false;
  pair_phone_on_start = "";
  fatal = false;
}

-- `setAuthState`
abbrev pub set_auth_state : AuthState → Session → Session
set_auth_state state s = record s { auth_state = state }

-- `events.Connected`, with `Store.ID`
abbrev pub identified : Option String → Session → Session
identified none s = s
identified (some id) s = record s { authenticated = true; device_jid = id }

abbrev pub on_connected : Option String → Session → Session
on_connected id s =
    let up = identified id (record s { connected = true; disconnected_since = none }) in
    if up.authenticated then record up { auth_state = paired } else up

-- `events.Disconnected`: the clock of an outage starts once.
abbrev pub or_since : ℕ → Option ℕ → Option ℕ
or_since now none = some now
or_since now (some t) = some t

abbrev pub on_disconnected : ℕ → Session → Session
on_disconnected now s = record s {
  connected = false;
  disconnected_since = or_since now s.disconnected_since;
}

-- `events.LoggedOut`, before the login that it starts
abbrev pub on_logged_out : String → Session → Session
on_logged_out reason s = record s {
  connected = false;
  authenticated = false;
  auth_state = logged_out;
  logged_out_reason = reason;
  current_qr = "";
  pairing_code = "";
}

-- `events.PairSuccess`
abbrev pub on_pair_success : String → Session → Session
on_pair_success id s = record s {
  authenticated = true;
  auth_state = paired;
  current_qr = "";
  pairing_code = "";
  logged_out_reason = "";
  device_jid = if same id "" then s.device_jid else id;
}

-- `events.HistorySync`, of which only the time is kept here
abbrev pub on_history_sync : ℕ → Session → Session
on_history_sync now s = record s { last_sync_time = some now }

-- `Disconnect`
abbrev pub disconnect : Session → Session
disconnect s = record s { connected = false; authenticated = false }

-- The end of `RunAuth` for a returning user, after `Connect`
abbrev pub handshake_started : String → Session → Session
handshake_started id s = record s { authenticated = true; device_jid = id }

-- `requestFatalShutdown`
abbrev pub request_fatal_shutdown : Session → Session
request_fatal_shutdown s = record s { fatal = true }

-- `SetPairPhoneOnStart`
abbrev pub set_pair_phone_on_start : String → Session → Session
set_pair_phone_on_start phone s = record s { pair_phone_on_start = phone }

-- The last section of `RequestPairingCode`
abbrev pub pairing_code_issued : String → Session → Session
pairing_code_issued code s = record s { pairing_code = code; auth_state = pairing_pending }

abbrev pub is_pairing_pending : AuthState → Bool
is_pairing_pending pairing_pending = true
is_pairing_pending _ = false

-- The events of a batch of QR codes in `loginLoop`: "code", "success", "timeout"
abbrev pub on_qr_code : String → ℕ → ℕ → Session → Session
on_qr_code code now timeout s = record s {
  current_qr = code;
  qr_expires_at = some (now + timeout);
  auth_state = if is_pairing_pending s.auth_state then s.auth_state else qr_pending;
}

abbrev pub on_qr_success : Session → Session
on_qr_success s = record s { current_qr = ""; pairing_code = ""; auth_state = paired }

abbrev pub on_qr_timeout : Session → Session
on_qr_timeout s = record s { auth_state = timed_out; current_qr = "" }

-- The steps, in any order: the handlers of whatsmeow's events, the login and the calls of the API run
-- at the same time. The two sections of a timeout are one step: only the loop that runs it sets a code.
pub data SessionEvent : Type 0 where
  connected_event : Option String → SessionEvent
  disconnected_event : ℕ → SessionEvent
  logged_out_event : String → SessionEvent
  pair_success_event : String → SessionEvent
  history_sync_event : ℕ → SessionEvent
  qr_code_event : String → ℕ → ℕ → SessionEvent
  qr_success_event : SessionEvent
  qr_timeout_event : SessionEvent
  pairing_code_event : String → SessionEvent
  paired_event : SessionEvent
  handshake_event : String → SessionEvent
  login_event : Bool → SessionEvent
  pair_phone_event : String → SessionEvent
  fatal_event : SessionEvent
  close_event : SessionEvent

unfoldable pub session_step : SessionEvent → Session → Session
session_step (connected_event id) s = on_connected id s
session_step (disconnected_event now) s = on_disconnected now s
session_step (logged_out_event reason) s = on_logged_out reason s
session_step (pair_success_event id) s = on_pair_success id s
session_step (history_sync_event now) s = on_history_sync now s
session_step (qr_code_event code now timeout) s = on_qr_code code now timeout s
session_step qr_success_event s = on_qr_success s
session_step qr_timeout_event s = on_qr_timeout s
session_step (pairing_code_event code) s = pairing_code_issued code s
session_step paired_event s = set_auth_state paired s
session_step (handshake_event id) s = handshake_started id s
session_step (login_event running) s = record s { login_running = running }
session_step (pair_phone_event phone) s = set_pair_phone_on_start phone s
session_step fatal_event s = request_fatal_shutdown s
session_step close_event s = disconnect s

unfoldable pub session_run : List SessionEvent → Session → Session
unfolding session_step
session_run [] s = s
session_run (e ∷ events) s = session_run events (session_step e s)

-- `IsConnected`, which the sends ask for
abbrev pub is_connected : Session → Bool
is_connected s = s.connected && s.authenticated

abbrev pub since_then : ℕ → Option ℕ → ℕ
since_then now none = 0
since_then now (some t) = now - t

-- `DisconnectedFor`, in seconds
abbrev pub disconnected_for : ℕ → Session → ℕ
disconnected_for now s = if s.connected then 0 else since_then now s.disconnected_since
