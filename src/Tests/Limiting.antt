-- ===== src/Tests/Limiting.antt =====
-- The reconnect schedule, the rate limiter and the Authorization check on concrete runs.
use whatsapp_mcp_plugin.Prelude.{
  ℕ, ◌*◌, ◌≤◌, ◌≡◌, refl, String, true, some, List, [], ◌∷◌, ltb, arith,
}
use whatsapp_mcp_plugin.Bytes.{Text, bytes}
use whatsapp_mcp_plugin.Watchdog.{minute, start_state, Tick, run}
use whatsapp_mcp_plugin.RateLimiter.{new_rate_limiter, allow, Call, serve}
use whatsapp_mcp_plugin.RateLimiter.Window.{count, Ordered, serve-bounded, allow-exact}
use whatsapp_mcp_plugin.RateLimiter.Auth.{Headers}

abbrev down_at : ℕ → Tick
down_at m = record { now = m * minute; disconnected_for = m * minute; has_device_identity = true }

abbrev ticks : List Tick
ticks = down_at 1 ∷ down_at 2 ∷ down_at 4 ∷ down_at 7 ∷ []

watchdog_run : run start_state ticks ≡ record { nudges = 2; last_nudge = some (7 * minute) }
unfolding run
watchdog_run = refl

abbrev call : String → ℕ → Call
call key at = record { key = key; at = at }

abbrev calls : List Call
calls = call "a" 1 ∷ call "b" 2 ∷ call "a" 3 ∷ call "a" 4 ∷ []

calls-Ordered : Ordered 0 calls
calls-Ordered = (omega arith, (omega arith, (omega arith, (omega arith, tt))))

-- Two calls of "a" are allowed in ten units of time, the third is not.
serve_run : (serve (new_rate_limiter 2 10) [] calls).1 ≡ call "a" 3 ∷ call "b" 2 ∷ call "a" 1 ∷ []
unfolding serve new_rate_limiter
serve_run = refl

serve-bounded_example : count 10 "a" 5 (serve (new_rate_limiter 2 10) [] calls).1 ≤ 2
serve-bounded_example = serve-bounded 10 2 calls "a" 5 calls-Ordered (omega arith)

allow-exact_example :
    (allow 11 (serve (new_rate_limiter 2 10) [] calls).0 "a").1
    ≡ ltb (count 10 "a" 11 (serve (new_rate_limiter 2 10) [] calls).1) 2
allow-exact_example = allow-exact 10 2 calls (call "a" 11) calls-Ordered (omega arith)

abbrev token : Text
token = b's' ∷ b'3' ∷ []

abbrev headers : Headers
headers = record {
  authorization = bytes "Bearer s3";
  cf_access_user_email = [];
  cf_access_jwt_assertion = [];
}
