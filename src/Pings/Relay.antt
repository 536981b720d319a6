-- ===== src/Pings/Relay.antt =====
-- The ping of a relayed note: the part of `handleRelayNote` in prospect-api/handlers_relay.go that goes
-- through the quiet hours, the hourly budget, the bridge and the queue.
use whatsapp_mcp_plugin.Prelude.{
  ℕ, ◌+◌, ◌*◌, ◌/◌, ◌≡◌, ◌≤◌, ◌<◌, refl, sym, ◌∙◌, subst, ◌⊎◌, inl, inr, String, Bool, true, false,
  ◌||◌, ◌&&◌, not, Option, none, some, List, [], ◌∷◌, ◌++◌, same, leb, if◌then◌else◌, if-cases,
  Bool-cases, arith,
}
use whatsapp_mcp_plugin.Pings.{
  PingRow, QuietHours, Location, in_quiet_hours, check_and_record_ping, should_send_now,
  next_wake_time,
}
use whatsapp_mcp_plugin.Pings.Budget.{hourly}
use whatsapp_mcp_plugin.Pings.Queue.{Queue, enqueue_ping}

-- What the handler reads while it pings: the quiet hours, where they parse, its clocks, and what fails.
pub record RelayEnv : Type 0 where
  pub quiet : Option QuietHours
  pub limit_ph : ℕ
  -- The minute of the local day at the check
  pub minute : ℕ
  pub budget_fails : Bool
  pub budget_at : ℕ
  pub inserted_at : ℕ
  pub bridge_sends : Bool
  -- The location of the quiet hours, and the time when the wake time is computed
  pub location : Location
  pub wake_at : ℕ
  -- The time when the next hour is computed
  pub hour_at : ℕ
  pub enqueue_fails : Bool
  pub enqueued_at : ℕ

-- The tables, and the texts that the bridge was asked to send.
pub record PingStore : Type 0 where
  pub pings : List PingRow
  pub queue : Queue
  pub asked : List String

-- `EnqueuePing`, whose error is not looked at
abbrev pub enqueue_unless : RelayEnv → String → String → String → ℕ → PingStore → PingStore
enqueue_unless env message urgency inbox deliver_at s =
    if env.enqueue_fails
    then s
    else record s { queue = enqueue_ping message urgency inbox deliver_at env.enqueued_at s.queue }

-- `time.Now().Add(time.Hour).Truncate(time.Hour)`
abbrev pub next_hour : ℕ → ℕ
next_hour now = (now + 3600) / 3600 * 3600

-- The ping outside the quiet hours, with what the budget says; and whether the bridge took it.
unfoldable pub ping_budgeted :
    RelayEnv → String → String → String → List PingRow × Bool → PingStore → PingStore × Bool
ping_budgeted env message urgency inbox (pings, ok) s =
    if env.budget_fails
    then (s, false)
    else if ok
    then (record s { pings = pings; asked = s.asked ++ message ∷ [] }, env.bridge_sends)
    else (enqueue_unless env message urgency inbox (next_hour env.hour_at) s, false)

unfoldable pub ping_checked :
    RelayEnv → String → String → String → Option QuietHours → PingStore → PingStore × Bool
unfolding ping_budgeted should_send_now check_and_record_ping next_wake_time
ping_checked env message urgency inbox none s = (s, false)
ping_checked env message urgency inbox (some qh) s =
    let budget =
      check_and_record_ping env.limit_ph env.budget_fails env.budget_at env.inserted_at
        "/api/relay-note" urgency s.pings in
    let waking = next_wake_time env.location qh env.wake_at in
    if should_send_now qh urgency env.minute
    then ping_budgeted env message urgency inbox budget s
    else (enqueue_unless env message urgency inbox waking s, false)

-- The ping of a note: only those of normal and high urgency. The result is `whatsappPinged`.
unfoldable pub relay_ping : RelayEnv → String → String → String → PingStore → PingStore × Bool
unfolding ping_checked
relay_ping env message urgency inbox s =
    if same urgency "normal" || same urgency "high"
    then ping_checked env message urgency inbox env.quiet s
    else (s, false)

abbrev IfTrue : Type 0 → Bool → Type 0
IfTrue P true = P
IfTrue P false = Unit

not_both : (P : Type 0) (b : Bool) → b ≡ false → b ≡ true → P
not_both P b f t = subst (IfTrue P) (sym f ∙ t) tt

-- It is quiet, and the ping is not one of high urgency that the configuration lets through.
abbrev pub is_held_back : RelayEnv → QuietHours → String → Bool
is_held_back env qh urgency =
    in_quiet_hours qh env.minute && not (same urgency "high" && qh.override)

-- The bridge was asked once, at a time when the ping may go and within the budget; one row counts
-- it, and nothing was queued.
pub record Sent (env : RelayEnv) (qh : QuietHours) (message urgency : String) (s t : PingStore)
    : Type 0 where
  pub asked_once : t.asked ≡ s.asked ++ message ∷ []
  pub same_queue : t.queue ≡ s.queue
  pub may_send : is_held_back env qh urgency ≡ false
  pub within : hourly env.budget_at s.pings < env.limit_ph
  pub counted :
      t.pings
      ≡ s.pings
        ++ record {
          ts = env.inserted_at;
          source_endpoint = "/api/relay-note";
          urgency = urgency;
          delivered = true;
        }
          ∷ []

-- The ping was queued for later, and the bridge not asked: until the quiet hours end, or the next hour
-- begins.
pub record Queued (env : RelayEnv) (qh : QuietHours) (message urgency inbox : String)
    (s t : PingStore) : Type 0 where
  pub not_asked : t.asked ≡ s.asked
  pub same_pings : t.pings ≡ s.pings
  pub deliver_at : ℕ
  pub one_more :
      t.queue.rows
      ≡ s.queue.rows
        ++ record {
          id = s.queue.next_id;
          ts = env.enqueued_at;
          deliver_at = deliver_at;
          message = message;
          urgency = urgency;
          deeplink = inbox;
          delivered = false;
          delivered_at = none;
        }
          ∷ []
  pub reason :
      ((is_held_back env qh urgency ≡ true)
        × (deliver_at ≡ next_wake_time env.location qh env.wake_at))
      ⊎ ((env.limit_ph ≤ hourly env.budget_at s.pings)
          × (deliver_at ≡ (env.hour_at + 3600) / 3600 * 3600))

held_back :
    (env : RelayEnv) (qh : QuietHours) (urgency : String)
    → should_send_now qh urgency env.minute ≡ not (is_held_back env qh urgency)
unfolding should_send_now
held_back env qh urgency = ground arith

module _ (env : RelayEnv) (qh : QuietHours) (message urgency inbox : String) (s : PingStore)
    (works : env.budget_fails ≡ false) (queues : env.enqueue_fails ≡ false) where
  abbrev Pinged : PingStore × Bool → Type 0
  Pinged r = Sent env qh message urgency s r.0 ⊎ Queued env qh message urgency inbox s r.0

  queued :
      (deliver_at : ℕ)
      → ((is_held_back env qh urgency ≡ true)
          × (deliver_at ≡ next_wake_time env.location qh env.wake_at))
        ⊎ ((env.limit_ph ≤ hourly env.budget_at s.pings)
            × (deliver_at ≡ (env.hour_at + 3600) / 3600 * 3600))
      → Queued env qh message urgency inbox s
          (enqueue_unless env message urgency inbox deliver_at s)
  unfolding enqueue_ping
  queued deliver_at why = rw queues (record {
    not_asked = refl;
    same_pings = refl;
    deliver_at = deliver_at;
    one_more = refl;
    reason = why;
  })

  budgeted :
      is_held_back env qh urgency ≡ false
      → Pinged (
          ping_budgeted env message urgency inbox
            (check_and_record_ping env.limit_ph env.budget_fails env.budget_at env.inserted_at
              "/api/relay-note" urgency s.pings)
            s)
  unfolding ping_budgeted check_and_record_ping
  budgeted may =
      let row : PingRow = record {
        ts = env.inserted_at;
        source_endpoint = "/api/relay-note";
        urgency = urgency;
        delivered = true;
      } in
      let full = leb env.limit_ph (hourly env.budget_at s.pings) in
      let later = enqueue_unless env message urgency inbox (next_hour env.hour_at) s in
      let answer : List PingRow × Bool =
        if full then (s.pings, false) else (s.pings ++ row ∷ [], true) in
      let P = λ (b : List PingRow × Bool). Pinged (ping_budgeted env message urgency inbox b s) in
      let refused : PingStore × Bool = (later, false) in
      let sent : PingStore × Bool = (
        record s { pings = s.pings ++ row ∷ []; asked = s.asked ++ message ∷ [] },
        env.bridge_sends,
      ) in
      let failed : PingStore × Bool = (s, false) in
      if-cases P env.budget_fails (s.pings, false) answer (not_both _ env.budget_fails works)
        (λ e.
          if-cases P full (s.pings, false) (s.pings ++ row ∷ [], true)
            (λ k.
              if-cases Pinged env.budget_fails failed refused (not_both _ env.budget_fails works)
                (λ e. inr (queued (next_hour env.hour_at) (inr (ground (arith, k), refl)))))
            (λ k.
              if-cases Pinged env.budget_fails failed sent (not_both _ env.budget_fails works) (λ e.
                inl (record {
                  asked_once = refl;
                  same_queue = refl;
                  may_send = may;
                  within = ground (arith, k);
                  counted = refl;
                }))))

  checked : Pinged (ping_checked env message urgency inbox (some qh) s)
  unfolding ping_checked
  checked = elim (Bool-cases (is_held_back env qh urgency)) [
    | inl quiet ↦
        rw (held_back env qh urgency, quiet)
          (inr (queued (next_wake_time env.location qh env.wake_at) (inl (quiet, refl))))
    | inr may ↦ rw (held_back env qh urgency, may) (budgeted may)
  ]
