-- ===== src/Walker/Progress.antt =====
-- The walk of one chat (whatsapp-bridge/backfill_walk.go), among those of the others.
use whatsapp_mcp_plugin.Prelude.{
  ℕ, suc, ◌+◌, ◌≤◌, ◌<◌, ◌≡◌, refl, sym, ◌∙◌, subst, inl, inr, String, Bool, true, false, ◌||◌, not,
  Option, none, some, List, [], ◌∷◌, ◌++◌, All, length, leb, same, ◌==◌, if◌then◌else◌, if-cases,
  lookup, insert, delete, lookup-delete, arith, eq_iff,
}
use whatsapp_mcp_plugin.Walker.{
  WalkState, Walker, WalkDecision, WalkOp, begin_op, chunk_op, sweep_op, HistoryRequest, begin,
  next, next_walked, halt, stop_chat, step_back, count_stop, sweep_stale, asked, continued, walk_op,
  walk,
}
use whatsapp_mcp_plugin.Walker.Budget.{IsWalking, walk_op-Keeps, sweep_chats-lookup}

-- The times before which the requests for one chat ask, in order.
abbrev pub befores : String → List HistoryRequest → List ℕ
befores jid [] = []
befores jid (r ∷ rs) =
    let rest = befores jid rs in if same r.chat jid then r.before ∷ rest else rest

abbrev pub Descending : ℕ → List ℕ → Type 0
Descending top [] = Unit
Descending top (t ∷ ts) = (t < top) × Descending t ts

-- No new walk of the chat begins.
abbrev pub Onward : String → WalkOp → Type 0
Onward jid (begin_op j ts per_chat now) = same j jid ≡ false
Onward jid _ = Unit

-- The requests that a chat in this state may still make: each further back than the one before, and as
-- many as its rounds leave.
abbrev pub May : ℕ → Option WalkState → List ℕ → Type 0
May max_rounds none ts = ts ≡ []
May max_rounds (some st) ts = Descending st.anchor_ts ts × (st.rounds + length ts ≤ max_rounds)

abbrev pub WithinRounds : ℕ → Option WalkState → Type 0
WithinRounds max_rounds none = Unit
WithinRounds max_rounds (some st) = st.rounds ≤ max_rounds

-- How one operation moves a chat: what it asked for, in front of all that the chat may ask for after.
abbrev Moves : ℕ → Option WalkState → Option WalkState → List ℕ → Type 0
Moves max_rounds before after asked_now =
    WithinRounds max_rounds after
    × ((later : List ℕ) → May max_rounds after later → May max_rounds before (asked_now ++ later))

stays :
    (max_rounds : ℕ) (o : Option WalkState) → WithinRounds max_rounds o → Moves max_rounds o o []
stays max_rounds o h = (h, λ later m. m)

leaves :
    (max_rounds : ℕ) (o : Option WalkState) → WithinRounds max_rounds o → Moves max_rounds o none []
leaves max_rounds none h = (tt, λ later m. m)
leaves max_rounds (some st) h = (tt, λ later m. rw m (tt, omega (arith, h)))

advances :
    (max_rounds ts now : ℕ) (st : WalkState)
    → (ts == 0 || leb st.anchor_ts ts) ≡ false
    → leb max_rounds st.rounds ≡ false
    → Moves max_rounds
        (some st)
        (some (record st { rounds = suc st.rounds; anchor_ts = ts; last_req_at = now }))
        (ts ∷ [])
advances max_rounds ts now st older room =
    (ground (arith, room), λ later m. ((ground (arith, older), m.0), omega (arith, m.1)))

module _ (jid : String) (w : Walker) (ok : IsWalking w)
    (low : WithinRounds w.max_rounds (lookup jid w.chats)) where
  abbrev MovesStep : Walker × List HistoryRequest → Type 0
  MovesStep r = Moves w.max_rounds (lookup jid w.chats) (lookup jid r.0.chats) (befores jid r.1)

  stop-Moves :
      (j : String) (ts : ℕ) (reason : String) → MovesStep (continued j ts (stop_chat j reason w))
  stop-Moves j ts reason =
      subst (λ o. Moves w.max_rounds (lookup jid w.chats) o []) (sym (lookup-delete j jid w.chats))
        (if-cases (λ o. Moves w.max_rounds (lookup jid w.chats) o []) (same j jid) none
          (lookup jid w.chats) (λ e. leaves w.max_rounds (lookup jid w.chats) low)
          (λ e. stays w.max_rounds (lookup jid w.chats) low))

  back-Moves :
      (j : String) (ts now : ℕ) (st : WalkState)
      → lookup j w.chats ≡ some st
      → (ts == 0 || leb st.anchor_ts ts) ≡ false
      → leb w.max_rounds st.rounds ≡ false
      → MovesStep (continued j ts (step_back j ts now st w))
  back-Moves j ts now st found older room = choose (same j jid) refl
    where
      choose :
          (b : Bool)
          → same j jid ≡ b
          → Moves w.max_rounds
              (lookup jid w.chats)
              (if b
                then some (record st { rounds = suc st.rounds; anchor_ts = ts; last_req_at = now })
                else lookup jid (delete j w.chats))
              (if b then ts ∷ [] else [])
      choose true e =
          let here : lookup jid w.chats ≡ some st = ground (arith, eq_iff j jid, found, e) in
          subst
            (λ o.
              Moves w.max_rounds o
                (some (record st { rounds = suc st.rounds; anchor_ts = ts; last_req_at = now }))
                (ts ∷ []))
            (sym here) (advances w.max_rounds ts now st older room)
      choose false e =
          subst (λ o. Moves w.max_rounds (lookup jid w.chats) o [])
            (sym (lookup-delete j jid w.chats ∙ rw e refl))
            (stays w.max_rounds (lookup jid w.chats) low)

  next_walked-Moves :
      (j : String) (ts : ℕ) (older : Bool) (now : ℕ) (st : WalkState)
      → lookup j w.chats ≡ some st
      → MovesStep (continued j ts (next_walked j ts older now st w))
  unfolding next_walked
  next_walked-Moves j ts older now st found =
      let P = λ (r : Walker × WalkDecision). MovesStep (continued j ts r) in
      let stop = λ (reason : String). stop_chat j reason w in
      let back = step_back j ts now st w in
      let paying : Walker × WalkDecision =
        if leb w.budget w.spent then stop "global_budget" else back in
      let counting : Walker × WalkDecision =
        if leb w.max_rounds st.rounds then stop "max_rounds" else paying in
      let looking : Walker × WalkDecision = if not older then stop "nothing_older" else counting in
      if-cases P (ts == 0 || leb st.anchor_ts ts) (stop "no_progress") looking
        (λ e. stop-Moves j ts "no_progress")
        (λ advance.
          if-cases P (not older) (stop "nothing_older") counting
            (λ e. stop-Moves j ts "nothing_older")
            (λ e.
              if-cases P (leb w.max_rounds st.rounds) (stop "max_rounds") paying
                (λ e. stop-Moves j ts "max_rounds")
                (λ room.
                  if-cases P (leb w.budget w.spent) (stop "global_budget") back
                    (λ e. stop-Moves j ts "global_budget")
                    (λ free. back-Moves j ts now st found advance room))))

  next-Moves :
      (j : String) (ts : ℕ) (older : Bool) (now : ℕ)
      → MovesStep (continued j ts (next j ts older now w))
  unfolding next
  next-Moves j ts older now = go (lookup j w.chats) refl
    where
      go :
          (found : Option WalkState)
          → lookup j w.chats ≡ found
          → MovesStep (
              continued j ts (elim found [
                | none ↦ (w, halt "not_walking")
                | some st ↦ next_walked j ts older now st w
              ]))
      go none e = stays w.max_rounds (lookup jid w.chats) low
      go (some st) e = next_walked-Moves j ts older now st e

  begin-Moves :
      (j : String) (ts per_chat now : ℕ)
      → same j jid ≡ false
      → MovesStep (asked j ts (begin j ts per_chat now w))
  unfolding begin
  begin-Moves j ts per_chat now other =
      let st : WalkState = record {
        rounds = 1;
        anchor_ts = ts;
        last_req_at = now;
        per_chat = per_chat;
      } in
      if-cases (λ (r : Walker × Bool). MovesStep (asked j ts r)) (leb w.budget w.spent)
        (record w { stopped = count_stop "global_budget" w.stopped }, false)
        (record w { spent = suc w.spent; chats = insert j st w.chats }, true)
        (λ full. stays w.max_rounds (lookup jid w.chats) low)
        (λ free. rw other (
          subst (λ o. Moves w.max_rounds (lookup jid w.chats) o [])
            (sym (lookup-delete j jid w.chats ∙ rw other refl))
            (stays w.max_rounds (lookup jid w.chats) low)))

  walk_op-Moves : (op : WalkOp) → Onward jid op → MovesStep (walk_op op w)
  unfolding walk_op sweep_stale
  walk_op-Moves (begin_op j ts per_chat now) onward = begin-Moves j ts per_chat now onward
  walk_op-Moves (chunk_op j ts older now) onward = next-Moves j ts older now
  walk_op-Moves (sweep_op now) onward =
      let before = lookup jid w.chats in
      elim (sweep_chats-lookup now jid w.chats ok.unique) [
        | inl e ↦
            subst (λ o. Moves w.max_rounds before o []) (sym e) (leaves w.max_rounds before low)
        | inr e ↦
            subst (λ o. Moves w.max_rounds before o []) (sym e) (stays w.max_rounds before low)
      ]

befores-append :
    (jid : String) (xs ys : List HistoryRequest)
    → befores jid (xs ++ ys) ≡ befores jid xs ++ befores jid ys
befores-append jid [] ys = refl
befores-append jid (x ∷ xs) ys = ground (arith, befores-append jid xs ys)

May-nil : (max_rounds : ℕ) (o : Option WalkState) → WithinRounds max_rounds o → May max_rounds o []
May-nil max_rounds none h = refl
May-nil max_rounds (some st) h = (tt, omega (arith, h))

-- As long as no new walk of the chat begins, and whatever the other chats do: a chat that is not walking
-- asks nothing more; one that is asks each time for what is strictly older than the time before, and
-- at most as often as its rounds leave, so that every walk ends.
pub walk-May :
    (jid : String) (ops : List WalkOp) (w : Walker)
    → IsWalking w
    → WithinRounds w.max_rounds (lookup jid w.chats)
    → All (Onward jid) ops
    → May w.max_rounds (lookup jid w.chats) (befores jid (walk ops w).1)
unfolding walk
walk-May jid [] w ok low onward = May-nil w.max_rounds (lookup jid w.chats) low
walk-May jid (op ∷ ops) w ok low (first, rest) =
    let step = walk_op op w in
    let keeps = walk_op-Keeps w ok op in
    let moves = walk_op-Moves jid w ok low op first in
    let later =
      walk-May jid ops step.0 keeps.walking
        (subst (λ n. WithinRounds n (lookup jid step.0.chats)) (sym keeps.same_rounds) moves.0)
        rest in
    subst (May w.max_rounds (lookup jid w.chats))
      (sym (befores-append jid step.1 (walk ops step.0).1))
      (moves.1 (befores jid (walk ops step.0).1) (
        subst (λ n. May n (lookup jid step.0.chats) (befores jid (walk ops step.0).1))
          keeps.same_rounds later))
