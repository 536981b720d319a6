-- ===== src/Pings/Budget.antt =====
-- Sequences of calls of `CheckAndRecordPing` (prospect-api/wa_budget.go).
use whatsapp_mcp_plugin.Prelude.{
  ℕ, suc, ◌≤◌, String, Bool, true, false, List, [], ◌∷◌, ◌++◌, where_rows, length, leb,
  if◌then◌else◌, if-cases, arith,
}
use whatsapp_mcp_plugin.Pings.{PingRow, counts_at, check_and_record_ping}

-- A call of `CheckAndRecordPing`, with what its clock reads and whether a statement fails.
pub record PingCall : Type 0 where
  pub now : ℕ
  pub inserted_at : ℕ
  pub fails : Bool
  pub endpoint : String
  pub urgency : String

abbrev pub ping : ℕ → List PingRow → PingCall → List PingRow × Bool
ping limit rows c =
    check_and_record_ping limit c.fails c.now c.inserted_at c.endpoint c.urgency rows

abbrev pub ping_all : ℕ → List PingRow → List PingCall → List PingRow
ping_all limit rows [] = rows
ping_all limit rows (c ∷ calls) = ping_all limit (ping limit rows c).0 calls

-- Each call reads its clock at `from` or later, and writes before the next call reads.
abbrev pub InTurn : ℕ → List PingCall → Type 0
InTurn from [] = Unit
InTurn from (c ∷ calls) = (from ≤ c.now) × (c.now ≤ c.inserted_at) × InTurn c.inserted_at calls

abbrev pub end_of : ℕ → List PingCall → ℕ
end_of from [] = from
end_of from (c ∷ calls) = end_of c.inserted_at calls

-- The pings within the hour that ends at `now`.
abbrev pub hourly : ℕ → List PingRow → ℕ
hourly now rows = length (where_rows (counts_at now) rows)

hourly-antitone : (a b : ℕ) (rows : List PingRow) → a ≤ b → hourly b rows ≤ hourly a rows
hourly-antitone a b [] h = omega arith
hourly-antitone a b (p ∷ rows) h = ground (arith, hourly-antitone a b rows h)

hourly-append :
    (now : ℕ) (rows : List PingRow) (p : PingRow)
    → hourly now (rows ++ p ∷ []) ≤ suc (hourly now rows)
hourly-append now [] p = ground arith
hourly-append now (q ∷ rows) p = ground (arith, hourly-append now rows p)

ping-hourly :
    (limit from : ℕ) (rows : List PingRow) (c : PingCall)
    → hourly from rows ≤ limit
    → from ≤ c.now
    → c.now ≤ c.inserted_at
    → hourly c.inserted_at (ping limit rows c).0 ≤ limit
unfolding check_and_record_ping
ping-hourly limit from rows c ok h1 h2 =
    let row : PingRow = record {
      ts = c.inserted_at;
      source_endpoint = c.endpoint;
      urgency = c.urgency;
      delivered = true;
    } in
    let P = λ (r : List PingRow × Bool). hourly c.inserted_at r.0 ≤ limit in
    let full = leb limit (hourly c.now rows) in
    let kept : hourly c.inserted_at rows ≤ limit =
      omega (arith, ok, hourly-antitone from c.inserted_at rows (omega (arith, h1, h2))) in
    if-cases P c.fails (rows, false) (if full then (rows, false) else (rows ++ row ∷ [], true))
      (λ e. kept)
      (λ e.
        if-cases P full (rows, false) (rows ++ row ∷ [], true) (λ k. kept)
          (λ k. ground (
            arith,
            k,
            hourly-append c.inserted_at rows row,
            hourly-antitone c.now c.inserted_at rows h2,
          )))

ping_all-hourly :
    (limit from : ℕ) (rows : List PingRow) (calls : List PingCall)
    → hourly from rows ≤ limit
    → InTurn from calls
    → hourly (end_of from calls) (ping_all limit rows calls) ≤ limit
ping_all-hourly limit from rows [] ok turn = ok
ping_all-hourly limit from rows (c ∷ calls) ok (h1, h2, turn) =
    ping_all-hourly limit c.inserted_at (ping limit rows c).0 calls
      (ping-hourly limit from rows c ok h1 h2) turn

-- After any calls, one after another, from a table that has at most the budget of pings in the hour
-- before: in the hour up to the last write or any later moment, at most the budget of pings was let
-- through.
pub ping_all-bounded :
    (limit from now : ℕ) (rows : List PingRow) (calls : List PingCall)
    → hourly from rows ≤ limit
    → InTurn from calls
    → end_of from calls ≤ now
    → hourly now (ping_all limit rows calls) ≤ limit
ping_all-bounded limit from now rows calls ok turn h = omega (
  arith,
  ping_all-hourly limit from rows calls ok turn,
  hourly-antitone (end_of from calls) now (ping_all limit rows calls) h,
)
