-- ===== src/Walker.antt =====
-- whatsapp-bridge/backfill_walk.go: how far the history backfill of each chat steps back, and its four
-- brakes. The walker's mutex is held throughout each operation, so that operations come one after
-- another. Times are in nanoseconds; the timestamp of a message is a natural number, and 0 stands for
-- what is not positive.
pub mod Budget
pub mod Progress
use whatsapp_mcp_plugin.Prelude.{
  ℕ, zero, suc, ◌+◌, ◌*◌, String, Bool, true, false, ◌||◌, not, Option, none, some, List, [], ◌∷◌,
  ◌++◌, leb, ltb, same, ◌==◌, if◌then◌else◌, lookup, insert, delete,
}

abbrev pub default_max_walk_rounds : ℕ
default_max_walk_rounds = 20

abbrev pub default_walk_budget : ℕ
default_walk_budget = 400

-- Fifteen minutes
abbrev pub walk_stale_after : ℕ
walk_stale_after = 15 * 60 * 1000000000

pub record WalkState : Type 0 where
  pub rounds : ℕ
  pub anchor_ts : ℕ
  pub last_req_at : ℕ
  pub per_chat : ℕ

pub record Walker : Type 0 where
  pub chats : List (String × WalkState)
  pub spent : ℕ
  pub budget : ℕ
  pub max_rounds : ℕ
  pub stopped : String → ℕ

unfoldable pub new_backfill_walker : Walker
new_backfill_walker = record {
  chats = [];
  spent = 0;
  budget = default_walk_budget;
  max_rounds = default_max_walk_rounds;
  stopped = λ _. 0;
}

abbrev pub if_positive : ℕ → ℕ → ℕ
if_positive new old = if ltb 0 new then new else old

unfoldable pub reset : ℕ → ℕ → Walker → Walker
reset budget max_rounds w = record {
  chats = [];
  spent = 0;
  budget = if_positive budget w.budget;
  max_rounds = if_positive max_rounds w.max_rounds;
  stopped = λ _. 0;
}

-- `w.stopped[reason]++`
abbrev pub count_stop : String → (String → ℕ) → String → ℕ
count_stop reason stopped r = if same reason r then suc (stopped r) else stopped r

-- `begin`: whether the request may go out.
unfoldable pub begin : String → ℕ → ℕ → ℕ → Walker → Walker × Bool
begin chat_jid anchor_ts per_chat now w =
    if leb w.budget w.spent
    then (record w { stopped = count_stop "global_budget" w.stopped }, false)
    else (
      record w {
        spent = suc w.spent;
        chats =
            insert chat_jid
              (record { rounds = 1; anchor_ts = anchor_ts; last_req_at = now; per_chat = per_chat })
              w.chats;
      },
      true,
    )

pub data WalkDecision : Type 0 where
  go_on : ℕ → WalkDecision
  halt : String → WalkDecision

abbrev pub stop_chat : String → String → Walker → Walker × WalkDecision
stop_chat chat_jid reason w = (
  record w { stopped = count_stop reason w.stopped; chats = delete chat_jid w.chats },
  halt reason,
)

abbrev pub step_back : String → ℕ → ℕ → WalkState → Walker → Walker × WalkDecision
step_back chat_jid oldest_ts now st w = (
  record w {
    spent = suc w.spent;
    chats =
        insert chat_jid
          (record st { rounds = suc st.rounds; anchor_ts = oldest_ts; last_req_at = now }) w.chats;
  },
  go_on st.per_chat,
)

-- `next`, for a chat that is being walked
unfoldable pub next_walked : String → ℕ → Bool → ℕ → WalkState → Walker → Walker × WalkDecision
next_walked chat_jid oldest_ts has_older now st w =
    if oldest_ts == 0 || leb st.anchor_ts oldest_ts
    then stop_chat chat_jid "no_progress" w
    else if not has_older
    then stop_chat chat_jid "nothing_older" w
    else if leb w.max_rounds st.rounds
    then stop_chat chat_jid "max_rounds" w
    else if leb w.budget w.spent
    then stop_chat chat_jid "global_budget" w
    else step_back chat_jid oldest_ts now st w

unfoldable pub next : String → ℕ → Bool → ℕ → Walker → Walker × WalkDecision
unfolding next_walked
next chat_jid oldest_ts has_older now w = elim (lookup chat_jid w.chats) [
  | none ↦ (w, halt "not_walking")
  | some st ↦ next_walked chat_jid oldest_ts has_older now st w
]

abbrev pub is_stale : ℕ → WalkState → Bool
is_stale now st = ltb (st.last_req_at + walk_stale_after) now

-- `sweepStale`: the chats that stay, and the count of those that go.
abbrev pub sweep_chats : ℕ → List (String × WalkState) → List (String × WalkState)
sweep_chats now [] = []
sweep_chats now ((jid, st) ∷ chats) =
    let rest = sweep_chats now chats in if is_stale now st then rest else (jid, st) ∷ rest

abbrev pub stale_chats : ℕ → List (String × WalkState) → ℕ
stale_chats now [] = 0
stale_chats now ((jid, st) ∷ chats) =
    let rest = stale_chats now chats in if is_stale now st then suc rest else rest

unfoldable pub sweep_stale : ℕ → Walker → Walker
sweep_stale now w = record w {
  chats = sweep_chats now w.chats;
  stopped = λ r. if same "unanswered" r then w.stopped r + stale_chats now w.chats else w.stopped r;
}

-- What happens to a walker during a sweep.
pub data WalkOp : Type 0 where
  begin_op : String → ℕ → ℕ → ℕ → WalkOp
  chunk_op : String → ℕ → Bool → ℕ → WalkOp
  sweep_op : ℕ → WalkOp

-- A request for history: the chat, and the time before which messages are asked for.
pub record HistoryRequest : Type 0 where
  pub chat : String
  pub before : ℕ

abbrev pub asked : String → ℕ → Walker × Bool → Walker × List HistoryRequest
asked jid ts (w, true) = (w, record { chat = jid; before = ts } ∷ [])
asked jid ts (w, false) = (w, [])

-- `continueWalk`: the chunk's oldest message is the anchor of the next request.
abbrev pub continued : String → ℕ → Walker × WalkDecision → Walker × List HistoryRequest
continued jid ts (w, go_on n) = (w, record { chat = jid; before = ts } ∷ [])
continued jid ts (w, halt reason) = (w, [])

unfoldable pub walk_op : WalkOp → Walker → Walker × List HistoryRequest
unfolding begin next sweep_stale
walk_op (begin_op jid ts per_chat now) w = asked jid ts (begin jid ts per_chat now w)
walk_op (chunk_op jid ts has_older now) w = continued jid ts (next jid ts has_older now w)
walk_op (sweep_op now) w = (sweep_stale now w, [])

-- The walker after the operations, and the requests that went out, in order.
unfoldable pub walk : List WalkOp → Walker → Walker × List HistoryRequest
unfolding walk_op
walk [] w = (w, [])
walk (op ∷ ops) w =
    let step = walk_op op w in let rest = walk ops step.0 in (rest.0, step.1 ++ rest.1)
