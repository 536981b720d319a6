-- ===== src/Sends/System/Once.antt =====
-- How often a draft is handed to WhatsApp: an invariant of the steps of whatsapp-bridge/sends.go.
use whatsapp_mcp_plugin.Prelude.{
  ℕ, ◌+◌, ◌≤◌, ◌≡◌, refl, ap, ◌∙◌, String, Bool, true, false, Option, none, some, List, [], ◌∷◌,
  ◌++◌, same, inl, inr, eq_iff, arith, Bool-cases, if◌then◌else◌,
}
use whatsapp_mcp_plugin.Sends.{
  Send, World, Attempt, Outbound, ok, is_draft, confirmed, expired, failed, sent, affects,
  update_send, insert_send,
}
use whatsapp_mcp_plugin.Sends.Media.{Host, DraftRequest}
use whatsapp_mcp_plugin.Sends.Draft.{DraftEnv, create_draft, new_row}
use whatsapp_mcp_plugin.Sends.Draft.Laws.{create_draft_cases, Result-cases}
use whatsapp_mcp_plugin.Sends.Confirm.Laws.{send_cases}
use whatsapp_mcp_plugin.Sends.Confirm.{
  ConfirmEnv, expire_draft, claim, try_claim, attempt, record_failed, record_sent, build_message,
}
use whatsapp_mcp_plugin.Sends.Reconcile.{ReconcileEnv, reconcile, select_confirmed, settle_rows}
use whatsapp_mcp_plugin.Sends.Reconcile.Laws.{settle_rows-attempts, settle_rows-rows}
use whatsapp_mcp_plugin.Sends.Rows.{
  rows, drafts, rows-update_send, drafts-update_send, drafts-le-rows, claim-drafts,
  insert_send-rows,
}
use whatsapp_mcp_plugin.Sends.System.{
  Flight, overdue, loaded, built, claimed, undelivered, accepted, advance, System, flying, Step,
  create, start, start_overdue, move, restart, Reach, here, next, start_state,
}

-- Calls of SendMessage for one draft.
unfoldable pub attempts_of : String → List Attempt → ℕ
attempts_of id [] = 0
attempts_of id (a ∷ rest) = (if same a.draft_id id then 1 else 0) + attempts_of id rest

-- Requests that hold the claim on one draft and have not sent it yet.
claims_of : String → List Flight → ℕ
claims_of id [] = 0
claims_of id (claimed r msg ∷ fs) = (if same r.draft_id id then 1 else 0) + claims_of id fs
claims_of id (f ∷ fs) = claims_of id fs

claims_of-append :
    (id : String) (fs gs : List Flight)
    → claims_of id (fs ++ gs) ≡ claims_of id fs + claims_of id gs
unfolding claims_of
claims_of-append id [] gs = omega arith
claims_of-append id (claimed r msg ∷ fs) gs = ground (arith, claims_of-append id fs gs)
claims_of-append id (f ∷ fs) gs = claims_of-append id fs gs

-- A draft can be sent as often as it is still a draft, is claimed or was sent: at most once.
record Inv (w : World) (fs : List Flight) : Type 0 where
  spent :
      (id : String)
      → attempts_of id w.attempts + claims_of id fs + drafts id w.sends ≤ rows id w.sends
  keyed : (id : String) → rows id w.sends ≤ 1

module _ (w : World) (fs : List Flight) (inv : Inv w fs) where
  -- A write that keeps the rows, adds no draft and sends nothing.
  rewrite-Inv :
      (v : World)
      → v.attempts ≡ w.attempts
      → ((id : String) → rows id v.sends ≡ rows id w.sends)
      → ((id : String) → drafts id v.sends ≤ drafts id w.sends)
      → Inv v fs
  rewrite-Inv v a r d = record {
    spent = λ id. rw a (omega (arith, inv.spent id, r id, d id));
    keyed = λ id. omega (arith, inv.keyed id, r id);
  }

  -- A draft request adds at most a row, of a new id.
  insert-Inv :
      (row : Send) (v : World)
      → is_draft row.status ≡ true
      → insert_send row w.sends ≡ some v.sends
      → v.attempts ≡ w.attempts
      → Inv v fs
  unfolding rows drafts
  insert-Inv row v d e a = record {
    spent = λ id.
        rw (a, (insert_send-rows row w.sends v.sends e).0)
          (ground (
            arith,
            inv.spent id,
            (insert_send-rows row w.sends v.sends e).1,
            drafts-le-rows id w.sends,
            eq_iff row.draft_id id,
          ));
    keyed = λ id. rw (insert_send-rows row w.sends v.sends e).0 (
        ground (
          arith,
          inv.keyed id,
          (insert_send-rows row w.sends v.sends e).1,
          eq_iff row.draft_id id,
        ));
  }

  create_draft-Inv :
      (host : Host) (env : DraftEnv) (body : Option DraftRequest)
      → Inv (create_draft host env body w).1 fs
  unfolding new_row
  create_draft-Inv host env body = elim (create_draft_cases host env body w) [
    | inl (code, message, _, (s, _, a)) ↦
        rewrite-Inv (create_draft host env body w).1 a (λ id. ap (rows id) s)
          (λ id. rw s (omega arith))
    | inr (req, media, _, _, _, (s, _, a)) ↦ insert-Inv _ (create_draft host env body w).1 refl s a
  ]

-- What an update that moves rows out of 'draft' does to the invariant.
update-Inv :
    (w v : World) (fs : List Flight) (j : String) (p : Send → Bool) (f : Send → Send)
    → Inv w fs
    → v.attempts ≡ w.attempts
    → v.sends ≡ update_send j p f w.sends
    → ((r : Send) → (f r).draft_id ≡ r.draft_id)
    → ((r : Send) → is_draft (f r).status ≡ false)
    → Inv v fs
update-Inv w v fs j p f inv a s k d =
    rewrite-Inv w fs inv v a (λ id. rw s (rows-update_send j p f k id w.sends))
      (λ id. rw s (drafts-update_send j p f d id w.sends))

abbrev confirm_row : ConfirmEnv → Send → Send
confirm_row env q = record q { status = confirmed; confirmed_at = some env.claimed_at }

try_claim-ok :
    (env : ConfirmEnv) (id : String) (w : World)
    → try_claim env id w ≡ ok tt
    → affects id (λ q. is_draft q.status) w.sends ≡ true
unfolding try_claim
try_claim-ok env id w e = ground arith

record_failed-Inv :
    (env : ConfirmEnv) (id message : String) (w : World) (fs : List Flight)
    → Inv w fs
    → Inv (record_failed env id message w) fs
unfolding record_failed
record_failed-Inv env id message w fs inv = elim (Bool-cases env.mark_failed_fails) [
  | inl e ↦ rw e inv
  | inr e ↦ rw e (
      update-Inv w _ fs id (λ _. true)
        (λ q. record q { status = failed; error_message = some message }) inv refl refl (λ q. refl)
        (λ q. refl))
]

record_sent-Inv :
    (env : ConfirmEnv) (r : Send) (msg : Outbound) (wid : String) (w : World) (fs : List Flight)
    → Inv w fs
    → Inv (record_sent env r msg wid w) fs
unfolding record_sent
record_sent-Inv env r msg wid w fs inv = elim (Bool-cases env.mark_sent_fails) [
  | inl e ↦ rewrite-Inv w fs inv _ refl (λ id. rw e) (λ id. rw e (omega arith))
  | inr e ↦
      update-Inv w _ fs r.draft_id (λ _. true)
        (λ q. record q {
          status = sent;
          sent_at = some env.sent_at;
          whatsapp_message_id = some wid;
        })
        inv refl (rw e) (λ q. refl) (λ q. refl)
]

-- A restart forgets the requests in flight, and their claims with them.
landed : (w : World) (fs : List Flight) → Inv w fs → Inv w []
unfolding claims_of
landed w fs inv = record { spent = λ id. omega (arith, inv.spent id); keyed = inv.keyed }

-- Between two moves of one request the others stand still.
module _ (before after : List Flight) where
  claims_of-around :
      (id : String) (f : Flight)
      → claims_of id (before ++ f ∷ after) ≡ claims_of id before + claims_of id (f ∷ after)
  claims_of-around id f = claims_of-append id before (f ∷ after)

  -- A flight that holds no claim, before and after its move, leaves the count alone.
  same_claims-Inv :
      (w : World) (f : Flight) (o : Option Flight)
      → ((id : String) → claims_of id (flying o after) ≡ claims_of id (f ∷ after))
      → Inv w (before ++ f ∷ after)
      → Inv w (before ++ flying o after)
  same_claims-Inv w f o h inv = record {
    spent = λ id. omega (
      arith,
      inv.spent id,
      h id,
      claims_of-append id before (f ∷ after),
      claims_of-append id before (flying o after),
    );
    keyed = inv.keyed;
  }

  claim-Inv :
      (env : ConfirmEnv) (r : Send) (msg : Outbound) (w : World)
      → try_claim env r.draft_id w ≡ ok tt
      → Inv w (before ++ built r msg ∷ after)
      → Inv (claim env r.draft_id w) (before ++ claimed r msg ∷ after)
  unfolding claim claims_of
  claim-Inv env r msg w e inv = record {
    spent = λ id. ground (
      arith,
      inv.spent id,
      claim-drafts r.draft_id (confirm_row env) w.sends id (λ q. refl)
          (try_claim-ok env r.draft_id w e),
      rows-update_send r.draft_id (λ q. is_draft q.status) (confirm_row env) (λ q. refl) id w.sends,
      claims_of-append id before (built r msg ∷ after),
      claims_of-append id before (claimed r msg ∷ after),
    );
    keyed = λ id. omega (
      arith,
      inv.keyed id,
      rows-update_send r.draft_id (λ q. is_draft q.status) (confirm_row env) (λ q. refl) id w.sends,
    );
  }

  attempt-Inv :
      (r : Send) (msg : Outbound) (w : World) (f : Flight)
      → ((id : String) → claims_of id (f ∷ after) ≡ claims_of id after)
      → Inv w (before ++ claimed r msg ∷ after)
      → Inv (attempt r msg w) (before ++ f ∷ after)
  unfolding attempt claims_of attempts_of
  attempt-Inv r msg w f h inv = record {
    spent = λ id. ground (
      arith,
      inv.spent id,
      h id,
      claims_of-append id before (claimed r msg ∷ after),
      claims_of-append id before (f ∷ after),
    );
    keyed = inv.keyed;
  }

  advance-Inv :
      (host : Host) (env : ConfirmEnv) (f : Flight) (w : World)
      → Inv w (before ++ f ∷ after)
      → Inv (advance host env f w).1 (before ++ flying (advance host env f w).0 after)
  unfolding advance claims_of expire_draft
  advance-Inv host env (overdue r) w inv =
      let ended = same_claims-Inv w (overdue r) none (λ id. refl) inv in
      elim (Bool-cases env.expire_fails) [
        | inl e ↦ record { spent = rw e ended.spent; keyed = rw e ended.keyed }
        | inr e ↦
            update-Inv w (expire_draft env r w) _ r.draft_id (λ _. true)
              (λ q. record q { status = expired }) ended refl (rw e refl) (λ q. refl) (λ q. refl)
      ]
  advance-Inv host env (loaded r) w inv =
      elim (Result-cases (build_message host env r w.messages)) [
        | inl (msg, e) ↦
            rw (e, advance) (same_claims-Inv w (loaded r) (some (built r msg)) (λ id. refl) inv)
        | inr (code, message, e) ↦
            rw (e, advance) (same_claims-Inv w (loaded r) none (λ id. refl) inv)
      ]
  advance-Inv host env (built r msg) w inv = elim (Result-cases (try_claim env r.draft_id w)) [
    | inl (u, e) ↦ rw (e, advance) (claim-Inv env r msg w (e ∙ refl) inv)
    | inr (code, message, e) ↦
        rw (e, advance) (same_claims-Inv w (built r msg) none (λ id. refl) inv)
  ]
  advance-Inv host env (claimed r msg) w inv = elim (send_cases (env.send msg)) [
    | inl (message, e) ↦
        rw (e, advance) (attempt-Inv r msg w (undelivered r message) (λ id. refl) inv)
    | inr (wid, e) ↦ rw (e, advance) (attempt-Inv r msg w (accepted r msg wid) (λ id. refl) inv)
  ]
  advance-Inv host env (undelivered r message) w inv =
      record_failed-Inv env r.draft_id message w _
        (same_claims-Inv w (undelivered r message) none (λ id. refl) inv)
  advance-Inv host env (accepted r msg wid) w inv =
      record_sent-Inv env r msg wid w _
        (same_claims-Inv w (accepted r msg wid) none (λ id. refl) inv)

reconcile-Inv :
    (env : ReconcileEnv) (w : World) (fs : List Flight) → Inv w fs → Inv (reconcile env w).1 []
unfolding reconcile claims_of
reconcile-Inv env w fs inv = elim (Bool-cases env.query_fails) [
  | inl e ↦ rw e (rewrite-Inv w [] (landed w fs inv) w refl (λ id. refl) (λ id. omega arith))
  | inr e ↦ rw e (
      rewrite-Inv w [] (landed w fs inv) (settle_rows env (select_confirmed w.sends) w)
        (settle_rows-attempts env (select_confirmed w.sends) w)
        (λ id. (settle_rows-rows env (select_confirmed w.sends) w id).0)
        (λ id. (settle_rows-rows env (select_confirmed w.sends) w id).1))
]

Step-Inv : {s t : System} → Step s t → Inv s.world s.flights → Inv t.world t.flights
unfolding claims_of
Step-Inv {s} (create host env body e) inv =
    rw e (create_draft-Inv s.world s.flights inv host env body)
Step-Inv (start env id r _ e) inv = rw e (record { spent = inv.spent; keyed = inv.keyed })
Step-Inv (start_overdue env id r _ e) inv = rw e (record { spent = inv.spent; keyed = inv.keyed })
Step-Inv {s} (move host env before f after at e) inv =
    rw e (advance-Inv before after host env f s.world (rw at at inv))
Step-Inv {s} (restart env e) inv = rw e (reconcile-Inv env s.world s.flights inv)

Reach-Inv : {s t : System} → Reach s t → Inv s.world s.flights → Inv t.world t.flights
Reach-Inv here inv = inv
Reach-Inv (next r st) inv = Step-Inv st (Reach-Inv r inv)

start_state-Inv : Inv start_state.world start_state.flights
unfolding claims_of attempts_of drafts rows
start_state-Inv = record { spent = λ id. omega arith; keyed = λ id. omega arith }

-- In every state that any interleaving of draft requests, confirm requests, failures and restarts
-- can reach from the empty database, SendMessage was called at most once for each draft.
pub sent_at_most_once :
    {t : System} (id : String) → Reach start_state t → attempts_of id t.world.attempts ≤ 1
sent_at_most_once {t} id r =
    let inv = Reach-Inv r start_state-Inv in omega (arith, inv.spent id, inv.keyed id)
