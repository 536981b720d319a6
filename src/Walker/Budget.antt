-- ===== src/Walker/Budget.antt =====
-- The invariant of the walker of whatsapp-bridge/backfill_walk.go, and what a sweep may cost.
use whatsapp_mcp_plugin.Prelude.{
  ℕ, suc, ◌+◌, ◌≤◌, ◌≡◌, refl, ◌∙◌, ◌⊎◌, inl, inr, String, Bool, true, false, ◌||◌, not, Option,
  none, some, List, [], ◌∷◌, length, length-append, leb, ◌==◌, if◌then◌else◌, if-cases, lookup,
  insert, Unique, Unique-delete, Unique-insert, arith, eq_iff,
}
use whatsapp_mcp_plugin.Walker.{
  WalkState, Walker, WalkDecision, WalkOp, begin_op, chunk_op, sweep_op, HistoryRequest, begin,
  next, next_walked, halt, stop_chat, step_back, count_stop, sweep_chats, is_stale, sweep_stale,
  asked, continued, walk_op, walk,
}

pub record IsWalking (w : Walker) : Type 0 where
  pub unique : Unique w.chats
  pub within : w.spent ≤ w.budget

-- What one operation does to the walker: it keeps the invariant and the limits, and what it spends are the
-- requests that go out.
pub record Keeps (w after : Walker) (requests : List HistoryRequest) : Type 0 where
  pub walking : IsWalking after
  pub same_budget : after.budget ≡ w.budget
  pub same_rounds : after.max_rounds ≡ w.max_rounds
  pub paid : after.spent ≡ w.spent + length requests

pub sweep_chats-lookup :
    (now : ℕ) (k : String) (m : List (String × WalkState))
    → Unique m
    → (lookup k (sweep_chats now m) ≡ none) ⊎ (lookup k (sweep_chats now m) ≡ lookup k m)
sweep_chats-lookup now k [] u = inl refl
sweep_chats-lookup now k ((j, st) ∷ m) (new, u) =
    let ih = sweep_chats-lookup now k m u in
    if-cases
      (λ (t : List (String × WalkState)).
        (lookup k t ≡ none) ⊎ (lookup k t ≡ lookup k ((j, st) ∷ m)))
      (is_stale now st) (sweep_chats now m) ((j, st) ∷ sweep_chats now m)
      (λ e. ground (arith, ih, eq_iff j k, new)) (λ e. ground (arith, ih, eq_iff j k, new))

sweep_chats-Unique :
    (now : ℕ) (m : List (String × WalkState)) → Unique m → Unique (sweep_chats now m)
sweep_chats-Unique now [] u = tt
sweep_chats-Unique now ((j, st) ∷ m) (new, u) =
    let ih = sweep_chats-Unique now m u in
    let gone : lookup j (sweep_chats now m) ≡ none = elim (sweep_chats-lookup now j m u) [
      | inl e ↦ e
      | inr e ↦ e ∙ new
    ] in
    if-cases Unique (is_stale now st) (sweep_chats now m) ((j, st) ∷ sweep_chats now m) (λ e. ih)
      (λ e. (gone, ih))

abbrev pub KeepsStep : Walker → Walker × List HistoryRequest → Type 0
KeepsStep w r = Keeps w r.0 r.1

module _ (w : Walker) (ok : IsWalking w) where
  -- A stop spends nothing and asks nothing.
  stop-Keeps :
      (jid : String) (ts : ℕ) (reason : String)
      → KeepsStep w (continued jid ts (stop_chat jid reason w))
  stop-Keeps jid ts reason = record {
    walking = record { unique = Unique-delete jid w.chats ok.unique; within = ok.within };
    same_budget = refl;
    same_rounds = refl;
    paid = omega arith;
  }

  step_back-Keeps :
      (jid : String) (ts now : ℕ) (st : WalkState)
      → leb w.budget w.spent ≡ false
      → KeepsStep w (continued jid ts (step_back jid ts now st w))
  step_back-Keeps jid ts now st free = record {
    walking = record {
      unique =
          Unique-insert jid
            (record st { rounds = suc st.rounds; anchor_ts = ts; last_req_at = now }) w.chats
            ok.unique;
      within = ground arith;
    };
    same_budget = refl;
    same_rounds = refl;
    paid = omega arith;
  }

  next_walked-Keeps :
      (jid : String) (ts : ℕ) (older : Bool) (now : ℕ) (st : WalkState)
      → KeepsStep w (continued jid ts (next_walked jid ts older now st w))
  unfolding next_walked
  next_walked-Keeps jid ts older now st =
      let P = λ (r : Walker × WalkDecision). KeepsStep w (continued jid ts r) in
      let stop = λ (reason : String). stop_chat jid reason w in
      let back = step_back jid ts now st w in
      let paying : Walker × WalkDecision =
        if leb w.budget w.spent then stop "global_budget" else back in
      let counting : Walker × WalkDecision =
        if leb w.max_rounds st.rounds then stop "max_rounds" else paying in
      let looking : Walker × WalkDecision = if not older then stop "nothing_older" else counting in
      if-cases P (ts == 0 || leb st.anchor_ts ts) (stop "no_progress") looking
        (λ e. stop-Keeps jid ts "no_progress")
        (λ e.
          if-cases P (not older) (stop "nothing_older") counting
            (λ e. stop-Keeps jid ts "nothing_older")
            (λ e.
              if-cases P (leb w.max_rounds st.rounds) (stop "max_rounds") paying
                (λ e. stop-Keeps jid ts "max_rounds")
                (λ e.
                  if-cases P (leb w.budget w.spent) (stop "global_budget") back
                    (λ e. stop-Keeps jid ts "global_budget")
                    (λ free. step_back-Keeps jid ts now st free))))

  next-Keeps :
      (jid : String) (ts : ℕ) (older : Bool) (now : ℕ)
      → KeepsStep w (continued jid ts (next jid ts older now w))
  unfolding next
  next-Keeps jid ts older now = go (lookup jid w.chats)
    where
      go :
          (found : Option WalkState)
          → KeepsStep w (
              continued jid ts (elim found [
                | none ↦ (w, halt "not_walking")
                | some st ↦ next_walked jid ts older now st w
              ]))
      go none = record { walking = ok; same_budget = refl; same_rounds = refl; paid = omega arith }
      go (some st) = next_walked-Keeps jid ts older now st

  begin-Keeps :
      (jid : String) (ts per_chat now : ℕ)
      → KeepsStep w (asked jid ts (begin jid ts per_chat now w))
  unfolding begin
  begin-Keeps jid ts per_chat now =
      let st : WalkState = record {
        rounds = 1;
        anchor_ts = ts;
        last_req_at = now;
        per_chat = per_chat;
      } in
      if-cases (λ (r : Walker × Bool). KeepsStep w (asked jid ts r)) (leb w.budget w.spent)
        (record w { stopped = count_stop "global_budget" w.stopped }, false)
        (record w { spent = suc w.spent; chats = insert jid st w.chats }, true)
        (λ full. record {
          walking = record { unique = ok.unique; within = ok.within };
          same_budget = refl;
          same_rounds = refl;
          paid = omega arith;
        })
        (λ free. record {
          walking = record {
            unique = Unique-insert jid st w.chats ok.unique;
            within = ground arith;
          };
          same_budget = refl;
          same_rounds = refl;
          paid = omega arith;
        })

  pub walk_op-Keeps : (op : WalkOp) → KeepsStep w (walk_op op w)
  unfolding walk_op sweep_stale
  walk_op-Keeps (begin_op jid ts per_chat now) = begin-Keeps jid ts per_chat now
  walk_op-Keeps (chunk_op jid ts older now) = next-Keeps jid ts older now
  walk_op-Keeps (sweep_op now) = record {
    walking = record { unique = sweep_chats-Unique now w.chats ok.unique; within = ok.within };
    same_budget = refl;
    same_rounds = refl;
    paid = omega arith;
  }

-- Whatever begins, arrives and times out, in any order: the requests that go out are paid for one by one
-- from the budget, which they never exceed, and the limits stay as they were.
pub walk-Keeps : (ops : List WalkOp) (w : Walker) → IsWalking w → KeepsStep w (walk ops w)
unfolding walk
walk-Keeps [] w ok = record {
  walking = ok;
  same_budget = refl;
  same_rounds = refl;
  paid = omega arith;
}
walk-Keeps (op ∷ ops) w ok =
    let first = walk_op-Keeps w ok op in
    let step = walk_op op w in
    let rest = walk-Keeps ops step.0 first.walking in
    record {
      walking = rest.walking;
      same_budget = rest.same_budget ∙ first.same_budget;
      same_rounds = rest.same_rounds ∙ first.same_rounds;
      paid = omega (arith, rest.paid, first.paid, length-append step.1 (walk ops step.0).1);
    }
