-- ===== src/Session/Paired.antt =====
-- How `loginLoop` of whatsapp-bridge/auth.go ends.
use whatsapp_mcp_plugin.Prelude.{
  ◌≡◌, refl, ◌∙◌, inl, inr, Bool, true, false, ◌||◌, Option, none, some, List, [], ◌∷◌,
  if◌then◌else◌, if-cases, Bool-cases, arith,
}
use whatsapp_mcp_plugin.Session.{Session, paired, set_auth_state, on_qr_code}
use whatsapp_mcp_plugin.Session.Login.{
  QrEvent, code, success, timeout, other_event, cancelled, qr_channel, QrError, already_connected,
  other_error, LoginRound, LoginResult, returned, failed, waiting, run_batch, refused_round,
  finished_round, connected_round, opened_round, login_rounds, is_device_deleted, login_ended,
  login_loop,
}

-- What the loop leaves alone.
abbrev Same : Session → Session → Type 0
Same s t = (t.login_running ≡ s.login_running) × (t.fatal ≡ s.fatal)

abbrev IsPaired : Session → Type 0
IsPaired s = s.auth_state ≡ paired

-- The loop itself, before its deferred calls.
abbrev Looped : Session → Session × LoginResult → Type 0
Looped s (t, returned) = Same s t × IsPaired t
Looped s (t, failed e) = Same s t
Looped s (t, waiting) = Same s t

run_batch-Same : (events : List QrEvent) (s : Session) → Same s (run_batch events s).0
unfolding run_batch
run_batch-Same [] s = (refl, refl)
run_batch-Same (code c now lifetime ∷ events) s =
    run_batch-Same events (on_qr_code c now lifetime s)
run_batch-Same (success ∷ events) s = (refl, refl)
run_batch-Same (timeout ∷ events) s = (refl, refl)
run_batch-Same (other_event ∷ events) s = run_batch-Same events s

-- Where the batch saw "success", the state is paired.
run_batch-success :
    (events : List QrEvent) (s : Session)
    → (run_batch events s).1 ≡ true
    → IsPaired (run_batch events s).0
unfolding run_batch
run_batch-success [] s h = ground (arith, h)
run_batch-success (code c now lifetime ∷ events) s h =
    run_batch-success events (on_qr_code c now lifetime s) h
run_batch-success (success ∷ events) s h = refl
run_batch-success (timeout ∷ events) s h = ground (arith, h)
run_batch-success (other_event ∷ events) s h = run_batch-success events s h

Looped-after : (s t : Session) (r : Session × LoginResult) → Same s t → Looped t r → Looped s r
Looped-after s t (u, returned) (run, over) ((run', over'), p) = ((run' ∙ run, over' ∙ over), p)
Looped-after s t (u, failed e) (run, over) (run', over') = (run' ∙ run, over' ∙ over)
Looped-after s t (u, waiting) (run, over) (run', over') = (run' ∙ run, over' ∙ over)

module _ (r : LoginRound) (s : Session) where
  finished-Looped :
      (rest : Session × LoginResult)
      → Looped (run_batch r.batch s).0 rest
      → Looped s (finished_round r (run_batch r.batch s) rest)
  unfolding finished_round
  finished-Looped rest h =
      let b = run_batch r.batch s in
      let kept = run_batch-Same r.batch s in
      let P = Looped s in
      let going : Session × LoginResult =
        if r.cancelled_after then (b.0, failed cancelled) else rest in
      let closed : Session × LoginResult =
        if r.has_device then (set_auth_state paired b.0, returned) else going in
      if-cases P b.1 (b.0, returned) closed (λ e. (kept, run_batch-success r.batch s e))
        (λ e.
          if-cases P r.has_device (set_auth_state paired b.0, returned) going (λ e. (kept, refl))
            (λ e.
              if-cases P r.cancelled_after (b.0, failed cancelled) rest (λ e. kept)
                (λ e. Looped-after s b.0 rest kept h)))

  refused-Looped :
      (e : QrError) (rest : Session × LoginResult)
      → Looped s rest
      → Looped s (refused_round r e s rest)
  unfolding refused_round
  refused-Looped already_connected rest h =
      let going : Session × LoginResult =
        if r.cancelled_after then (s, failed cancelled) else rest in
      if-cases (Looped s) r.is_live (set_auth_state paired s, returned) going
        (λ e. ((refl, refl), refl))
        (λ e.
          if-cases (Looped s) r.cancelled_after (s, failed cancelled) rest (λ e. (refl, refl))
            (λ e. h))
  refused-Looped (other_error deleted) rest h =
      if-cases (Looped s) r.is_live (set_auth_state paired s, returned)
        (s, failed (qr_channel deleted)) (λ e. ((refl, refl), refl)) (λ e. (refl, refl))

  module _ (later : Session → Session × LoginResult)
      (later-Looped : (t : Session) → Looped t (later t)) where
    connected-Looped : (o : Option Bool) → Looped s (connected_round r o s later)
    unfolding connected_round
    connected-Looped (some deleted) = (refl, refl)
    connected-Looped none =
        finished-Looped (later (run_batch r.batch s).0) (later-Looped (run_batch r.batch s).0)

    opened-Looped : (o : Option QrError) → Looped s (opened_round r o s later)
    unfolding opened_round
    opened-Looped (some e) = refused-Looped e (later s) (later-Looped s)
    opened-Looped none = connected-Looped r.connect_error

login_rounds-Looped : (rounds : List LoginRound) (s : Session) → Looped s (login_rounds rounds s)
unfolding login_rounds
login_rounds-Looped [] s = (refl, refl)
login_rounds-Looped (r ∷ rest) s =
    if-cases (Looped s) r.cancelled_before (s, failed cancelled)
      (opened_round r r.qr_error s (login_rounds rest)) (λ e. (refl, refl))
      (λ e. opened-Looped r s (login_rounds rest) (login_rounds-Looped rest) r.qr_error)

-- How a loop that ran leaves the session.
abbrev pub LoginOf : Session → Session × LoginResult → Type 0
LoginOf s (t, returned) = (t.auth_state ≡ paired) × (t.login_running ≡ false) × (t.fatal ≡ s.fatal)
LoginOf s (t, failed e) = (t.login_running ≡ false) × (t.fatal ≡ (s.fatal || is_device_deleted e))
LoginOf s (t, waiting) = (t.login_running ≡ true) × (t.fatal ≡ s.fatal)

login_ended-LoginOf :
    (s : Session) (r : Session × LoginResult)
    → Looped (record s { login_running = true }) r
    → LoginOf s (login_ended r)
login_ended-LoginOf s (t, returned) ((run, over), p) = (p, refl, over)
login_ended-LoginOf s (t, failed e) (run, over) = elim (Bool-cases (is_device_deleted e)) [
  | inl d ↦ rw d (refl, ground arith)
  | inr d ↦ rw d (refl, over ∙ ground arith)
]
login_ended-LoginOf s (t, waiting) (run, over) = (run, over)

-- The login loop of a session in which none runs reports success only with the state paired; where it
-- ends, no loop is marked as running, and the process is asked to restart exactly if the error is that the
-- device was deleted, or it was asked to before.
pub login_loop-LoginOf :
    (rounds : List LoginRound) (s : Session)
    → s.login_running ≡ false
    → LoginOf s (login_loop rounds s)
unfolding login_loop
login_loop-LoginOf rounds s idle =
    let r = login_rounds rounds (record s { login_running = true }) in
    let ended =
      login_ended-LoginOf s r (login_rounds-Looped rounds (record s { login_running = true })) in
    rw idle ended
