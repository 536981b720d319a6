-- ===== src/Sends/Confirm/Laws.antt =====
-- What one confirm request does on each of its branches, and what it archives.
use whatsapp_mcp_plugin.Prelude.{
  ℕ, ◌+◌, ◌≤◌, ◌<◌, subst, ◌≡◌, refl, ap, sym, ◌∙◌, ◌⊎◌, inl, inr, String, true, false, some, List,
  [], ◌∷◌, eq_iff, arith, Bool-cases, Option-cases, if◌then◌else◌,
}
use whatsapp_mcp_plugin.Sends.{
  Status, draft, confirmed, sent, expired, Send, World, Attempt, Outbound, Reply, rejected,
  delivered, ok, err, is_draft, find_send, update_send,
}
use whatsapp_mcp_plugin.Sends.Media.{Host}
use whatsapp_mcp_plugin.Sends.Rows.{find-update_send}
use whatsapp_mcp_plugin.Sends.Draft.{draft_ttl_seconds}
use whatsapp_mcp_plugin.Sends.Draft.Laws.{Result-cases}
use whatsapp_mcp_plugin.Sends.Confirm.{
  ConfirmEnv, Checked, refuse, stale, ready, load_draft, expire_draft, build_message, claim,
  try_claim, attempt, record_failed, record_sent, deliver, confirm_ready, confirm_send,
}

-- The row was a draft of this id, within its hour.
abbrev pub Confirmable : ConfirmEnv → String → World → Send → Type 0
Confirmable env id w r =
    (find_send id w.sends ≡ some r)
    × (r.status ≡ draft)
    × (env.now ≤ r.created_at + draft_ttl_seconds)

draft_of : (s : Status) → is_draft s ≡ true → s ≡ draft
draft_of s h = ground arith

load_draft-ready :
    (env : ConfirmEnv) (id : String) (w : World) (r : Send)
    → load_draft env id w.sends ≡ ready r
    → Confirmable env id w r
unfolding load_draft
load_draft-ready env id w r e = elim (Option-cases (find_send id w.sends)) [
  | inl n ↦ absurd (ground (arith, n))
  | inr (q, n) ↦ (ground (arith, n), draft_of r.status (ground (arith, n)), ground (arith, n))
]

find_send-draft_id :
    (id : String) (rs : List Send) (r : Send) → find_send id rs ≡ some r → r.draft_id ≡ id
unfolding find_send
find_send-draft_id id [] r e = cc
find_send-draft_id id (q ∷ rs) r e =
    ground (arith, eq_iff q.draft_id id, find_send-draft_id id rs r)

-- The columns that a confirm that went through has written.
abbrev pub sent_row : ConfirmEnv → String → Send → Send
sent_row env wid r = record r {
  status = sent;
  confirmed_at = some env.claimed_at;
  sent_at = some env.sent_at;
  whatsapp_message_id = some wid;
}

abbrev pub one_more : Send → Outbound → List Attempt → List Attempt
one_more r msg rest =
    record { draft_id = r.draft_id; recipient = r.recipient_jid; message = msg } ∷ rest

-- Nothing went out and nothing changed, and the caller was told so with an error.
abbrev pub Declined : World → Reply × World → Type 0
Declined w (reply, v) = (code : ℕ) × (message : String) × (reply ≡ rejected code message) × (v ≡ w)

-- The draft had passed its hour: nothing went out, and its row is expired, or as it was where the UPDATE
-- fails.
abbrev pub Expired : ConfirmEnv → String → World → Reply × World → Type 0
Expired env id w (reply, v) =
    (r : Send) × (find_send id w.sends ≡ some r)
    × (r.status ≡ draft)
    × (r.created_at + draft_ttl_seconds < env.now)
    × (reply ≡ rejected 410 "draft expired")
    × (v.attempts ≡ w.attempts)
    × (find_send id v.sends ≡ some (if env.expire_fails then r else record r { status = expired }))

-- One message went out, built from a draft of this id within its hour: WhatsApp took it, and the row
-- says so, or it reported an error, and so does the reply.
abbrev pub Delivered : Host → ConfirmEnv → String → World → Reply × World → Type 0
Delivered host env id w (reply, v) =
    (r : Send) × (msg : Outbound) × Confirmable env id w r
    × (build_message host env r w.messages ≡ ok msg)
    × (v.attempts ≡ one_more r msg w.attempts)
    × (((message : String) × (env.send msg ≡ inl message) × (reply ≡ rejected 502 "send failed"))
        ⊎ ((wid : String) × (env.send msg ≡ inr wid)
            × (reply ≡ delivered r.draft_id wid env.sent_at)
            × (env.mark_sent_fails ≡ false → find_send id v.sends ≡ some (sent_row env wid r))))

abbrev confirm_row : ConfirmEnv → Send → Send
confirm_row env q = record q { status = confirmed; confirmed_at = some env.claimed_at }

abbrev finish_row : ConfirmEnv → String → Send → Send
finish_row env wid q = record q {
  status = sent;
  sent_at = some env.sent_at;
  whatsapp_message_id = some wid;
}

mark_claimed :
    (env : ConfirmEnv) (r : Send) (wid : String) (rs : List Send)
    → r.status ≡ draft
    → find_send r.draft_id rs ≡ some r
    → find_send r.draft_id (
        update_send r.draft_id
          (λ _. true)
          (finish_row env wid)
          (update_send r.draft_id (λ q. is_draft q.status) (confirm_row env) rs))
      ≡ some (sent_row env wid r)
mark_claimed env r wid rs d f =
    find-update_send r.draft_id (λ _. true) (finish_row env wid) (λ q. refl)
      (update_send r.draft_id (λ q. is_draft q.status) (confirm_row env) rs) (confirm_row env r)
      (find-update_send r.draft_id (λ q. is_draft q.status) (confirm_row env) (λ q. refl) rs r f
        ∙ ap (λ (t : Status). some (if is_draft t then confirm_row env r else r)) d)

pub send_cases :
    (o : String ⊎ String)
    → ((message : String) × (o ≡ inl message)) ⊎ ((id : String) × (o ≡ inr id))
send_cases (inl message) = inl (message, refl)
send_cases (inr id) = inr (id, refl)

record_failed-attempts :
    (env : ConfirmEnv) (id message : String) (w : World)
    → (record_failed env id message w).attempts ≡ w.attempts
unfolding record_failed
record_failed-attempts env id message w = ground arith

-- The draft is found under its own id.
found_self :
    (id : String) (rs : List Send) (r : Send)
    → find_send id rs ≡ some r
    → find_send r.draft_id rs ≡ some r
found_self id rs r f =
    subst (λ (k : String). find_send k rs ≡ some r) (sym (find_send-draft_id id rs r f)) f

module _ (host : Host) (env : ConfirmEnv) (id : String) (w : World) where
  deliver_cases :
      (r : Send) (msg : Outbound)
      → Confirmable env id w r
      → build_message host env r w.messages ≡ ok msg
      → Delivered host env id w (deliver env r msg (claim env r.draft_id w))
  unfolding deliver record_sent attempt claim
  deliver_cases r msg c b = elim (send_cases (env.send msg)) [
    | inl (message, e) ↦
        rw (e, deliver)
          (r, msg, c, b, record_failed-attempts env r.draft_id message _, inl (message, e, refl))
    | inr (wid, e) ↦
        rw (e, deliver)
          (
            r,
            msg,
            c,
            b,
            refl,
            inr (
              wid,
              e,
              refl,
              λ m. rw m (
                  subst
                    (λ (k : String).
                      find_send k (
                        update_send r.draft_id (λ _. true) (finish_row env wid)
                          (update_send r.draft_id (λ q. is_draft q.status) (confirm_row env)
                            w.sends))
                      ≡ some (sent_row env wid r))
                    (find_send-draft_id id w.sends r c.0)
                    (mark_claimed env r wid w.sends c.1 (found_self id w.sends r c.0))),
            ),
          )
  ]

  confirm_ready-unbuilt :
      (r : Send) (code : ℕ) (message : String)
      → build_message host env r w.messages ≡ err code message
      → confirm_ready host env r w ≡ (rejected code message, w)
  unfolding confirm_ready
  confirm_ready-unbuilt r code message e = rw (e, confirm_ready)

  confirm_ready-lost :
      (r : Send) (msg : Outbound) (code : ℕ) (message : String)
      → build_message host env r w.messages ≡ ok msg
      → try_claim env r.draft_id w ≡ err code message
      → confirm_ready host env r w ≡ (rejected code message, w)
  unfolding confirm_ready
  confirm_ready-lost r msg code message e f = rw (e, f, confirm_ready)

  confirm_ready-claimed :
      (r : Send) (msg : Outbound) (u : Unit)
      → build_message host env r w.messages ≡ ok msg
      → try_claim env r.draft_id w ≡ ok u
      → confirm_ready host env r w ≡ deliver env r msg (claim env r.draft_id w)
  unfolding confirm_ready
  confirm_ready-claimed r msg u e f = rw (e, f, confirm_ready)

  confirm_ready_cases :
      (r : Send)
      → Confirmable env id w r
      → Declined w (confirm_ready host env r w)
        ⊎ Delivered host env id w (confirm_ready host env r w)
  confirm_ready_cases r c = elim (Result-cases (build_message host env r w.messages)) [
    | inr (code, message, e) ↦
        rw (confirm_ready-unbuilt r code message e) (inl (code, message, refl, refl))
    | inl (msg, e) ↦ elim (Result-cases (try_claim env r.draft_id w)) [
      | inr (code, message, f) ↦
          rw (confirm_ready-lost r msg code message e f) (inl (code, message, refl, refl))
      | inl (u, f) ↦ rw (confirm_ready-claimed r msg u e f) (inr (deliver_cases r msg c e))
    ]
  ]

  load_draft-stale :
      (r : Send)
      → load_draft env id w.sends ≡ stale r
      → (find_send id w.sends ≡ some r)
        × (r.status ≡ draft)
        × (r.created_at + draft_ttl_seconds < env.now)
  unfolding load_draft
  load_draft-stale r e = elim (Option-cases (find_send id w.sends)) [
    | inl n ↦ absurd (ground (arith, n))
    | inr (q, n) ↦ (ground (arith, n), draft_of r.status (ground (arith, n)), ground (arith, n))
  ]

  expire_found :
      (r : Send)
      → find_send id w.sends ≡ some r
      → find_send id (expire_draft env r w).sends
        ≡ some (if env.expire_fails then r else record r { status = expired })
  unfolding expire_draft
  expire_found r f = elim (Bool-cases env.expire_fails) [
    | inl e ↦ rw e f
    | inr e ↦ rw e (
        subst
          (λ (k : String).
            find_send k
              (update_send r.draft_id (λ _. true) (λ q. record q { status = expired }) w.sends)
            ≡ some (record r { status = expired }))
          (find_send-draft_id id w.sends r f)
          (find-update_send r.draft_id (λ _. true) (λ q. record q { status = expired }) (λ q. refl)
            w.sends r (found_self id w.sends r f)))
  ]

  expire_cases :
      (r : Send)
      → load_draft env id w.sends ≡ stale r
      → Expired env id w (rejected 410 "draft expired", expire_draft env r w)
  unfolding expire_draft
  expire_cases r e =
      let (f, d, late) = load_draft-stale r e in (r, f, d, late, refl, refl, expire_found r f)

  checked_cases :
      (c : Checked)
      → load_draft env id w.sends ≡ c
      → Declined w (confirm_send host env id w)
        ⊎ Expired env id w (confirm_send host env id w)
        ⊎ Delivered host env id w (confirm_send host env id w)
  unfolding confirm_send
  checked_cases (refuse code message) e = rw (e, confirm_send) (inl (code, message, refl, refl))
  checked_cases (stale r) e = rw (e, confirm_send) (inr (inl (expire_cases r e)))
  checked_cases (ready r) e =
      rw (e, confirm_send)
        (elim (confirm_ready_cases r (load_draft-ready env id w r e)) [
          | inl d ↦ inl d
          | inr s ↦ inr (inr s)
        ])

  -- A confirm request declines and changes nothing, or expires a draft whose hour has passed, unless
  -- that UPDATE fails, which leaves the row as it was and is not reported, or
  -- calls SendMessage once, with the message built from a draft of this id within its hour. Only the
  -- last sends anything, and only then, if WhatsApp took the message, does the reply say delivered.
  pub confirm_send_cases :
      Declined w (confirm_send host env id w)
      ⊎ Expired env id w (confirm_send host env id w)
      ⊎ Delivered host env id w (confirm_send host env id w)
  confirm_send_cases = checked_cases (load_draft env id w.sends) refl
