-- ===== src/Pings/Queue.antt =====
-- The queue of pings that wait for the end of the quiet hours: `EnqueuePing` and `FlushPendingPings` of
-- prospect-api/quiet_hours.go.
use whatsapp_mcp_plugin.Prelude.{
  ℕ, suc, String, Bool, true, false, ◌&&◌, ◌||◌, not, Option, none, some, List, [], ◌∷◌, ◌++◌, map,
  where_rows, leb, ◌==◌, if◌then◌else◌,
}

-- A row of `pending_pings`.
pub record PendingPing : Type 0 where
  pub id : ℕ
  pub ts : ℕ
  pub deliver_at : ℕ
  pub message : String
  pub urgency : String
  pub deeplink : String
  pub delivered : Bool
  pub delivered_at : Option ℕ

-- The table, the next id, and the ids of the rows that `deliverFn` was called on, in order.
pub record Queue : Type 0 where
  pub rows : List PendingPing
  pub next_id : ℕ
  pub calls : List ℕ

-- `EnqueuePing`
unfoldable pub enqueue_ping : String → String → String → ℕ → ℕ → Queue → Queue
enqueue_ping message urgency deeplink deliver_at now q = record q {
  rows =
      q.rows
      ++ record {
        id = q.next_id;
        ts = now;
        deliver_at = deliver_at;
        message = message;
        urgency = urgency;
        deeplink = deeplink;
        delivered = false;
        delivered_at = none;
      }
        ∷ [];
  next_id = suc q.next_id;
}

-- `WHERE delivered = 0 AND deliver_at <= ?`
abbrev pub is_due : ℕ → PendingPing → Bool
is_due now r = not r.delivered && leb r.deliver_at now

-- `UPDATE pending_pings SET delivered = 1, delivered_at = ? WHERE id = ?`
abbrev pub mark_row : ℕ → ℕ → PendingPing → PendingPing
mark_row now id r = if r.id == id then record r { delivered = true; delivered_at = some now } else r

unfoldable pub mark_delivered : ℕ → ℕ → List PendingPing → List PendingPing
mark_delivered now id = map (mark_row now id)

-- What happens to a ping that is due: `deliverFn` fails, or the row's UPDATE does.
pub record FlushEnv : Type 0 where
  pub query_fails : Bool
  pub deliver_fails : ℕ → Bool
  pub mark_fails : ℕ → Bool

unfoldable pub flush_row : FlushEnv → ℕ → PendingPing → Queue → Queue
unfolding mark_delivered
flush_row env now r q =
    let called : Queue = record q { calls = q.calls ++ r.id ∷ [] } in
    if env.deliver_fails r.id || env.mark_fails r.id
    then called
    else record called { rows = mark_delivered now r.id q.rows }

unfoldable pub flush_rows : FlushEnv → ℕ → List PendingPing → Queue → Queue
unfolding flush_row
flush_rows env now [] q = q
flush_rows env now (r ∷ rs) q = flush_rows env now rs (flush_row env now r q)

-- `FlushPendingPings` at time `now`
unfoldable pub flush_pending_pings : FlushEnv → ℕ → Queue → Queue
unfolding flush_rows
flush_pending_pings env now q =
    if env.query_fails then q else flush_rows env now (where_rows (is_due now) q.rows) q
