-- ===== src/Session/Login.antt =====
-- The login of whatsapp-bridge/auth.go: `loginLoop`, `RunAuth`, `RequestPairingCode`, `Reconnect`. A
-- round of the loop is what whatsmeow brings in it; the handlers that may run meanwhile, and what is
-- printed, are left out.
use whatsapp_mcp_plugin.Prelude.{
  ℕ, zero, suc, String, Bool, true, false, ◌&&◌, not, Option, none, some, List, [], ◌∷◌, ltb, leb,
  length, take, drop, ◌==◌, if◌then◌else◌,
}
use whatsapp_mcp_plugin.Bytes.{join_texts, Text, bytes, digits_only}
use whatsapp_mcp_plugin.Session.{
  Session, paired, set_auth_state, on_qr_code, on_qr_success, on_qr_timeout, handshake_started,
  pairing_code_issued, request_fatal_shutdown,
}

-- `evt.Event` of the channel of QR codes
pub data QrEvent : Type 0 where
  code : String → ℕ → ℕ → QrEvent
  success : QrEvent
  timeout : QrEvent
  other_event : QrEvent

-- Each error with whether it is `store.ErrDeviceDeleted`.
pub data LoginError : Type 0 where
  cancelled : LoginError
  qr_channel : Bool → LoginError
  connect_failed : Bool → LoginError

-- Why `GetQRChannel` refuses.
pub data QrError : Type 0 where
  already_connected : QrError
  other_error : Bool → QrError

-- One round: what the context and whatsmeow answer, in the order in which the loop asks.
pub record LoginRound : Type 0 where
  pub cancelled_before : Bool
  pub qr_error : Option QrError
  -- `Store.ID != nil && IsConnected()` where there is an error
  pub is_live : Bool
  pub connect_error : Option Bool
  pub batch : List QrEvent
  -- `Store.ID != nil` after the batch
  pub has_device : Bool
  pub cancelled_after : Bool

-- `waiting`: the rounds are used up, and the loop goes on.
pub data LoginResult : Type 0 where
  returned : LoginResult
  failed : LoginError → LoginResult
  waiting : LoginResult

-- The loop over the channel; whether it saw "success".
unfoldable pub run_batch : List QrEvent → Session → Session × Bool
run_batch [] s = (s, false)
run_batch (code c now lifetime ∷ events) s = run_batch events (on_qr_code c now lifetime s)
run_batch (success ∷ events) s = (on_qr_success s, true)
run_batch (timeout ∷ events) s = (on_qr_timeout s, false)
run_batch (other_event ∷ events) s = run_batch events s

-- A round in which `GetQRChannel` refuses; `rest` is what the later rounds do.
unfoldable pub refused_round :
    LoginRound → QrError → Session → Session × LoginResult → Session × LoginResult
refused_round r e s rest = if r.is_live then (set_auth_state paired s, returned) else elim e [
  | already_connected ↦ (if r.cancelled_after then (s, failed cancelled) else rest)
  | other_error deleted ↦ (s, failed (qr_channel deleted))
]

-- A round after its batch.
unfoldable pub finished_round :
    LoginRound → Session × Bool → Session × LoginResult → Session × LoginResult
finished_round r (s, succeeded) rest =
    if succeeded
    then (s, returned)
    else if r.has_device
    then (set_auth_state paired s, returned)
    else if r.cancelled_after
    then (s, failed cancelled)
    else rest

-- A round from its `Connect` on.
unfoldable pub connected_round :
    LoginRound → Option Bool → Session → (Session → Session × LoginResult) → Session × LoginResult
unfolding run_batch finished_round
connected_round r (some deleted) s later = (s, failed (connect_failed deleted))
connected_round r none s later = let b = run_batch r.batch s in finished_round r b (later b.0)

unfoldable pub opened_round :
    LoginRound
    → Option QrError
    → Session
    → (Session → Session × LoginResult)
    → Session × LoginResult
unfolding refused_round connected_round
opened_round r (some e) s later = refused_round r e s (later s)
opened_round r none s later = connected_round r r.connect_error s later

unfoldable pub login_rounds : List LoginRound → Session → Session × LoginResult
unfolding opened_round
login_rounds [] s = (s, waiting)
login_rounds (r ∷ rest) s =
    if r.cancelled_before
    then (s, failed cancelled)
    else opened_round r r.qr_error s (login_rounds rest)

-- `isDeviceDeleted`
abbrev pub is_device_deleted : LoginError → Bool
is_device_deleted cancelled = false
is_device_deleted (qr_channel deleted) = deleted
is_device_deleted (connect_failed deleted) = deleted

-- `fatalIfDeviceDeleted`
abbrev pub fatal_if_device_deleted : LoginError → Session → Session
fatal_if_device_deleted e s = if is_device_deleted e then request_fatal_shutdown s else s

-- The two deferred calls of `loginLoop`.
abbrev pub login_ended : Session × LoginResult → Session × LoginResult
login_ended (s, returned) = (record s { login_running = false }, returned)
login_ended (s, failed e) =
    (record (fatal_if_device_deleted e s) { login_running = false }, failed e)
login_ended (s, waiting) = (s, waiting)

-- `loginLoop`
unfoldable pub login_loop : List LoginRound → Session → Session × LoginResult
unfolding login_rounds
login_loop rounds s =
    if s.login_running
    then (s, returned)
    else login_ended (login_rounds rounds (record s { login_running = true }))

-- What `RunAuth` does with the device and the result of `Connect`.
pub data AuthResult : Type 0 where
  started : AuthResult
  reconnect_failed : AuthResult
  login : LoginResult → AuthResult

-- `RunAuth`
unfoldable pub run_auth : Option String → Bool → List LoginRound → Session → Session × AuthResult
unfolding login_loop
run_auth (some id) connect_fails rounds s =
    let known = set_auth_state paired s in
    if connect_fails then (known, reconnect_failed) else (handshake_started id known, started)
run_auth none connect_fails rounds s = let r = login_loop rounds s in (r.0, login r.1)

pub data PairingResult : Type 0 where
  pairing_code_is : String → PairingResult
  already_paired : String → PairingResult
  login_not_active : PairingResult
  country_code_missing : PairingResult
  pair_phone_failed : PairingResult

-- The rest of `RequestPairingCode`, with the answer of `PairPhone`
abbrev pub pairing_answered : Option String → Session → Session × PairingResult
pairing_answered none s = (s, pair_phone_failed)
pairing_answered (some c) s = (pairing_code_issued c s, pairing_code_is c)

-- `RequestPairingCode`; `pair_phone` is asked only for a number of at least seven digits.
unfoldable pub request_pairing_code :
    Option String → (Text → Option String) → Text → Session → Session × PairingResult
unfolding digits_only
request_pairing_code (some id) pair_phone phone s = (s, already_paired id)
request_pairing_code none pair_phone phone s =
    if not s.login_running
    then (s, login_not_active)
    else if ltb (length (digits_only phone)) 7
    then (s, country_code_missing)
    else pairing_answered (pair_phone (digits_only phone)) s

pub data ReconnectResult : Type 0 where
  reconnected : ReconnectResult
  not_reconnected : ReconnectResult
  -- Whether a login loop is started.
  unpaired : Bool → ReconnectResult

-- `Reconnect`, with what the client says: whether it is connected, and whether `Connect` fails
unfoldable pub reconnect : Option String → Bool → Bool → Session → Session × ReconnectResult
reconnect (some id) connected connect_fails s =
    if not connected && connect_fails
    then (s, not_reconnected)
    else (set_auth_state paired s, reconnected)
reconnect none connected connect_fails s = (s, unpaired (not s.login_running))

-- `FormatPairingCode`: groups of four, of which `fuel` at most.
abbrev pub without_dashes : Text → Text
without_dashes [] = []
without_dashes (c ∷ s) = let rest = without_dashes s in if c == b'-' then rest else c ∷ rest

abbrev pub groups : ℕ → Text → List Text
groups zero c = []
groups (suc fuel) [] = []
groups (suc fuel) (x ∷ c) = take 4 (x ∷ c) ∷ groups fuel (drop 4 (x ∷ c))

unfoldable pub format_pairing_code : Text → Text
unfolding bytes join_texts
format_pairing_code s =
    let c = without_dashes s in
    if leb (length c) 4 then c else join_texts (bytes "-") (groups (length c) c)
