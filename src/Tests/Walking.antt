-- ===== src/Tests/Walking.antt =====
-- Two chats that step back, until one repeats itself.
use whatsapp_mcp_plugin.Prelude.{◌≡◌, refl, true, List, [], ◌∷◌, lookup, arith}
use whatsapp_mcp_plugin.Walker.{
  Walker, WalkOp, begin_op, chunk_op, new_backfill_walker, begin, walk,
}
use whatsapp_mcp_plugin.Walker.Budget.{IsWalking, KeepsStep, walk-Keeps}
use whatsapp_mcp_plugin.Walker.Progress.{May, befores, walk-May}

abbrev ops : List WalkOp
ops =
    begin_op "b" 70 200 2
    ∷ chunk_op "a" 50 true 3
    ∷ chunk_op "a" 50 true 4
    ∷ chunk_op "a" 40 true 5
    ∷ []

abbrev started : Walker
started = record {
  chats = ("a", record { rounds = 1; anchor_ts = 100; last_req_at = 1; per_chat = 200 }) ∷ [];
  spent = 1;
  budget = 3;
  max_rounds = 20;
  stopped = λ _. 0;
}

-- The second chunk brings nothing older, and the third finds no walk.
ops_run : befores "a" (walk ops started).1 ≡ 50 ∷ []
unfolding walk
ops_run = refl

begin_run : (begin "a" 100 200 1 new_backfill_walker).1 ≡ true
unfolding begin new_backfill_walker
begin_run = refl

started-IsWalking : IsWalking started
started-IsWalking = record { unique = (refl, tt); within = omega arith }

walk-Keeps_example : KeepsStep started (walk ops started)
walk-Keeps_example = walk-Keeps ops started started-IsWalking

walk-May_example : May 20 (lookup "a" started.chats) (befores "a" (walk ops started).1)
walk-May_example =
    walk-May "a" ops started started-IsWalking (omega arith) (refl, (tt, (tt, (tt, tt))))
