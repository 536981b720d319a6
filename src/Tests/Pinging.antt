-- ===== src/Tests/Pinging.antt =====
-- The quiet hours and the ping budget on concrete days.
use whatsapp_mcp_plugin.Pings.Flush.{flush_pending_pings-drains}
use whatsapp_mcp_plugin.Pings.Queue.{Queue, FlushEnv, enqueue_ping, is_due, flush_pending_pings}
use whatsapp_mcp_plugin.Prelude.{
  where_rows, ℕ, ◌+◌, ◌/◌, ◌%◌, ◌*◌, ◌≤◌, ◌≡◌, refl, true, false, List, [], ◌∷◌, arith,
}
use whatsapp_mcp_plugin.Pings.{check_and_record_ping, QuietHours, Location}
use whatsapp_mcp_plugin.Pings.Quiet.{hhmm}
use whatsapp_mcp_plugin.Pings.Budget.{PingCall, ping_all, hourly, ping_all-bounded}

abbrev night : QuietHours
night = record { start = hhmm 22 0; end_at = hhmm 7 30; override = true }

-- A location whose clock is never changed.
abbrev universal : Location
universal = record {
  day_second = λ now. now % 86400;
  day_at = λ now minute. now / 86400 * 86400 + minute * 60;
}

abbrev late : ℕ
late = 86400 + 23 * 3600

abbrev ping_at : ℕ → PingCall
ping_at t = record {
  now = t;
  inserted_at = t;
  fails = false;
  endpoint = "notify-owner";
  urgency = "high";
}

abbrev pings : List PingCall
pings = ping_at 10 ∷ ping_at 20 ∷ ping_at 30 ∷ []

-- The third call of the hour is refused.
pings_run : hourly 30 (ping_all 2 [] pings) ≡ 2
unfolding check_and_record_ping
pings_run = refl

ping_all-bounded_example : hourly 40 (ping_all 2 [] pings) ≤ 2
ping_all-bounded_example =
    ping_all-bounded 2 0 40 [] pings (omega arith)
      (omega arith, omega arith, (omega arith, omega arith, (omega arith, omega arith, tt)))
      (omega arith)

abbrev empty_queue : Queue
empty_queue = record { rows = []; next_id = 1; calls = [] }

-- One ping for 07:30, one for an hour later.
abbrev two_pings : Queue
two_pings =
    enqueue_ping "late note" "high" "" 9000 6000
      (enqueue_ping "note" "normal" "" 5400 6000 empty_queue)

abbrev all_well : FlushEnv
all_well = record { query_fails = false; deliver_fails = λ _. false; mark_fails = λ _. false }

flush_run : (flush_pending_pings all_well 5400 two_pings).calls ≡ 1 ∷ []
unfolding flush_pending_pings enqueue_ping
flush_run = refl

flush_pending_pings-drains_example :
    where_rows (is_due 5400) (flush_pending_pings all_well 5400 two_pings).rows ≡ []
flush_pending_pings-drains_example =
    flush_pending_pings-drains all_well 5400 two_pings refl (λ _. refl) (λ _. refl)
