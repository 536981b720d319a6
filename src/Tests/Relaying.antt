-- ===== src/Tests/Relaying.antt =====
-- A note that arrives at noon, one too many, and one at night.
use whatsapp_mcp_plugin.Prelude.{◌+◌, ◌*◌, ◌/◌, ◌%◌, ◌≡◌, refl, true, false, some, [], ◌∷◌, map}
use whatsapp_mcp_plugin.Pings.{QuietHours, Location}
use whatsapp_mcp_plugin.Pings.Quiet.{hhmm}
use whatsapp_mcp_plugin.Pings.Queue.{PendingPing, enqueue_ping}
use whatsapp_mcp_plugin.Pings.Relay.{RelayEnv, PingStore, relay_ping}

abbrev night : QuietHours
night = record { start = hhmm 22 0; end_at = hhmm 7 30; override = false }

-- A location whose clock is never changed.
abbrev universal : Location
universal = record {
  day_second = λ now. now % 86400;
  day_at = λ now minute. now / 86400 * 86400 + minute * 60;
}

abbrev noon : RelayEnv
noon = record {
  quiet = some night;
  limit_ph = 1;
  minute = 720;
  budget_fails = false;
  budget_at = 43200;
  inserted_at = 43200;
  bridge_sends = true;
  location = universal;
  wake_at = 43200;
  hour_at = 43500;
  enqueue_fails = false;
  enqueued_at = 43500;
}

abbrev idle : PingStore
idle = record { pings = []; queue = record { rows = []; next_id = 1; calls = [] }; asked = [] }

abbrev after_noon : PingStore
after_noon = (relay_ping noon "[HIGH] Ada" "high" "inbox/1.md" idle).0

noon_asks : after_noon.asked ≡ "[HIGH] Ada" ∷ []
unfolding relay_ping
noon_asks = refl

-- The second ping of the hour waits for 13:00.
second_waits :
    map
      (λ (r : PendingPing). r.deliver_at)
      (relay_ping noon "[HIGH] Bob" "high" "inbox/2.md" after_noon).0.queue.rows
    ≡ 46800 ∷ []
unfolding relay_ping enqueue_ping
second_waits = refl

-- A ping whose send fails is counted and not queued.
failed_is_lost :
    (relay_ping
      (record noon { bridge_sends = false })
      "[HIGH] Ada"
      "high"
      "inbox/1.md"
      idle).0.queue.rows
    ≡ []
unfolding relay_ping
failed_is_lost = refl
