-- ===== src/RateLimiter.antt =====
-- prospect-api/middleware.go: the sliding-window limiter; Auth is the Authorization check. Times are in nanoseconds; a map of hits is a function of the key, with no hits for a missing
-- key. `Allow` holds the limiter's mutex throughout, so that calls come one after another.
pub mod Window
pub mod Auth
use whatsapp_mcp_plugin.Prelude.{
  ℕ, ◌+◌, String, Bool, true, false, List, [], ◌∷◌, ◌++◌, where_rows, length, leb, ltb, same,
  if◌then◌else◌,
}

pub record RateLimiter : Type 0 where
  pub hits : String → List ℕ
  pub limit : ℕ
  pub window : ℕ

unfoldable pub new_rate_limiter : ℕ → ℕ → RateLimiter
new_rate_limiter limit window = record { hits = λ key. []; limit = limit; window = window }

-- The hits after the cutoff `now - window`.
abbrev pub recent : ℕ → ℕ → List ℕ → List ℕ
recent window now = where_rows (λ t. ltb now (t + window))

abbrev pub put : RateLimiter → String → List ℕ → RateLimiter
put r key kept = record r { hits = λ k. if same key k then kept else r.hits k }

-- `Allow` at time `now`
unfoldable pub allow : ℕ → RateLimiter → String → RateLimiter × Bool
allow now r key =
    let kept = recent r.window now (r.hits key) in
    if leb r.limit (length kept)
    then (put r key kept, false)
    else (put r key (kept ++ now ∷ []), true)

pub record Call : Type 0 where
  pub key : String
  pub at : ℕ

abbrev pub logged : Call → Bool → List Call → List Call
logged c true log = c ∷ log
logged c false log = log

-- The limiter after the calls, and the calls it allowed, the latest first.
unfoldable pub serve : RateLimiter → List Call → List Call → RateLimiter × List Call
unfolding allow
serve r log [] = (r, log)
serve r log (c ∷ calls) = let step = allow c.at r c.key in serve step.0 (logged c step.1 log) calls
