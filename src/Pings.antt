-- ===== src/Pings.antt =====
-- When the prospect API sends a ping to the owner: the hourly budget of prospect-api/wa_budget.go and the
-- quiet hours of prospect-api/quiet_hours.go.
pub mod Budget
pub mod Flush
pub mod Queue
pub mod Relay
pub mod Quiet
use whatsapp_mcp_plugin.Prelude.{
  ℕ, suc, ◌+◌, ◌*◌, ◌-◌, ◌/◌, ◌%◌, String, Bool, true, false, ◌&&◌, ◌||◌, not, List, [], ◌∷◌, ◌++◌,
  where_rows, length, leb, ltb, same, ◌==◌, if◌then◌else◌,
}
use whatsapp_mcp_plugin.Bytes.{Text}

-- A row of `wa_pings`, with the time in seconds.
pub record PingRow : Type 0 where
  pub ts : ℕ
  pub source_endpoint : String
  pub urgency : String
  pub delivered : Bool

-- `delivered = 1 AND ts > windowStart`, where the window starts an hour before `now`
abbrev pub counts_at : ℕ → PingRow → Bool
counts_at now p = ltb now (p.ts + 3600) && p.delivered

-- `CheckAndRecordPing`: the rows after it, and whether the ping may go. `now` is the clock at its start
-- and `inserted_at` at its INSERT; a failed statement rolls the transaction back and refuses.
unfoldable pub check_and_record_ping :
    ℕ → Bool → ℕ → ℕ → String → String → List PingRow → List PingRow × Bool
check_and_record_ping limit_ph fails now inserted_at endpoint urgency rows =
    let row : PingRow = record {
      ts = inserted_at;
      source_endpoint = endpoint;
      urgency = urgency;
      delivered = true;
    } in
    if fails
    then (rows, false)
    else if leb limit_ph (length (where_rows (counts_at now) rows))
    then (rows, false)
    else (rows ++ row ∷ [], true)

-- `s[i]-'0'` of a byte, which wraps around.
abbrev pub digit : ℕ → ℕ
digit c = (c + 208) % 256

unfoldable pub parse_hhmm : Text → ℕ
parse_hhmm (a ∷ b ∷ c ∷ d ∷ e ∷ []) =
    let time = (digit a * 10 + digit b) * 60 + (digit d * 10 + digit e) in
    if c == b':' then time else 0
parse_hhmm _ = 0

pub record QuietHours : Type 0 where
  pub start : Text
  pub end_at : Text
  pub override : Bool

-- `InQuietHours` between two minutes of the day, at the minute `now` of the local day.
abbrev pub in_window : ℕ → ℕ → ℕ → Bool
in_window start end_at now =
    if leb start end_at then leb start now && ltb now end_at else leb start now || ltb now end_at

unfoldable pub in_quiet_hours : QuietHours → ℕ → Bool
unfolding parse_hhmm
in_quiet_hours qh now = in_window (parse_hhmm qh.start) (parse_hhmm qh.end_at) now

-- What package time says of a location: the second of its day at an instant, and `time.Date` for the day of an
-- instant and a minute of it. The instants are in seconds, and an hour of the clock may be left out or come twice.
pub record Location : Type 0 where
  pub day_second : ℕ → ℕ
  pub day_at : ℕ → ℕ → ℕ

-- `NextWakeTime`
unfoldable pub next_wake_time : Location → QuietHours → ℕ → ℕ
unfolding parse_hhmm
next_wake_time loc qh now =
    let candidate = loc.day_at now (parse_hhmm qh.end_at) in
    if ltb now candidate then candidate else candidate + 24 * 3600

-- `ShouldSendNow`
unfoldable pub should_send_now : QuietHours → String → ℕ → Bool
unfolding in_quiet_hours
should_send_now qh urgency now =
    if not (in_quiet_hours qh now) then true else same urgency "high" && qh.override
