-- ===== src/Sends/Reconcile/Laws.antt =====
-- What reconciliation does to the whole table, whatever the order of its rows.
use mathlib.Core.Path.{ap₂}
use whatsapp_mcp_plugin.Prelude.{
  eq_iff, suc, ◌≤◌, ◌≡◌, refl, sym, ap, ◌∙◌, String, Bool, true, false, ◌&&◌, ◌||◌, List, [], ◌∷◌,
  same, same_refl, arith, any, inl, inr, length, map, where_rows, Bool-cases, some, if◌then◌else◌,
}
use whatsapp_mcp_plugin.Sends.{failed, Send, World, is_confirmed, update_send}
use whatsapp_mcp_plugin.Sends.Rows.{rows, drafts, rows-update_send, drafts-update_send}
use whatsapp_mcp_plugin.Sends.Reconcile.{
  ReconcileEnv, insert_by_time, order_by_time, settle, settle_row, settle_rows, reconcile,
}

abbrev pub listed : String → List Send → Bool
listed id = any λ q. same q.draft_id id

-- What one row becomes when the rows `found` are settled.
abbrev settled_in : List Send → Send → Send
settled_in found r = if is_confirmed r.status && listed r.draft_id found then settle r else r

settled_in-update :
    (found : List Send) (q r : Send)
    → settled_in found (if same r.draft_id q.draft_id && is_confirmed r.status then settle r else r)
      ≡ settled_in (q ∷ found) r
settled_in-update found q r = elim (Bool-cases (is_confirmed r.status)) [
  | inl c ↦ elim (Bool-cases (same r.draft_id q.draft_id)) [
    | inl e ↦ rw (c, e) (ground (arith, eq_iff r.draft_id q.draft_id, eq_iff q.draft_id r.draft_id))
    | inr e ↦ ground (arith, eq_iff r.draft_id q.draft_id, eq_iff q.draft_id r.draft_id)
  ]
  | inr c ↦ ground arith
]

update_send-settled :
    (found : List Send) (q : Send) (rs : List Send)
    → map (settled_in found) (update_send q.draft_id (λ p. is_confirmed p.status) settle rs)
      ≡ map (settled_in (q ∷ found)) rs
unfolding update_send
update_send-settled found q [] = refl
update_send-settled found q (r ∷ rs) =
    ap₂ ◌∷◌ (settled_in-update found q r) (update_send-settled found q rs)

map-settled_in-nil : (rs : List Send) → map (settled_in []) rs ≡ rs
map-settled_in-nil [] = refl
map-settled_in-nil (r ∷ rs) = ground (arith, map-settled_in-nil rs)

settle_row-written :
    (env : ReconcileEnv) (q : Send) (w : World)
    → env.update_fails q.draft_id ≡ false
    → (settle_row env q w).sends
      ≡ update_send q.draft_id (λ p. is_confirmed p.status) settle w.sends
unfolding settle_row
settle_row-written env q w e = rw e

module _ (env : ReconcileEnv) (writable : (id : String) → env.update_fails id ≡ false) where
  settle_rows-sends :
      (found : List Send) (w : World)
      → (settle_rows env found w).sends ≡ map (settled_in found) w.sends
  unfolding settle_rows
  settle_rows-sends [] w = sym (map-settled_in-nil w.sends)
  settle_rows-sends (q ∷ found) w =
      settle_rows-sends found (settle_row env q w)
      ∙ ap (map (settled_in found)) (settle_row-written env q w (writable q.draft_id))
      ∙ update_send-settled found q w.sends

settle_row-attempts :
    (env : ReconcileEnv) (q : Send) (w : World) → (settle_row env q w).attempts ≡ w.attempts
unfolding settle_row
settle_row-attempts env q w = ground arith

pub settle_rows-attempts :
    (env : ReconcileEnv) (found : List Send) (w : World)
    → (settle_rows env found w).attempts ≡ w.attempts
unfolding settle_rows
settle_rows-attempts env [] w = refl
settle_rows-attempts env (q ∷ found) w =
    settle_rows-attempts env found (settle_row env q w) ∙ settle_row-attempts env q w

-- Whatever fails, the table keeps its rows and gains no draft.
pub settle_row-rows :
    (env : ReconcileEnv) (q : Send) (w : World) (id : String)
    → (rows id (settle_row env q w).sends ≡ rows id w.sends)
      × (drafts id (settle_row env q w).sends ≤ drafts id w.sends)
unfolding settle_row
settle_row-rows env q w id = elim (Bool-cases (env.update_fails q.draft_id)) [
  | inl e ↦ rw e (refl, omega arith)
  | inr e ↦ rw e (
    rows-update_send q.draft_id (λ p. is_confirmed p.status) settle (λ r. refl) id w.sends,
    drafts-update_send q.draft_id (λ p. is_confirmed p.status) settle (λ r. refl) id w.sends,
  )
]

pub settle_rows-rows :
    (env : ReconcileEnv) (found : List Send) (w : World) (id : String)
    → (rows id (settle_rows env found w).sends ≡ rows id w.sends)
      × (drafts id (settle_rows env found w).sends ≤ drafts id w.sends)
unfolding settle_rows
settle_rows-rows env [] w id = (refl, omega arith)
settle_rows-rows env (q ∷ found) w id =
    omega (arith, settle_rows-rows env found (settle_row env q w) id, settle_row-rows env q w id)

listed-insert_by_time :
    (id : String) (r : Send) (qs : List Send)
    → listed id (insert_by_time r qs) ≡ (same r.draft_id id || listed id qs)
listed-insert_by_time id r [] = refl
listed-insert_by_time id r (q ∷ qs) = ground (arith, listed-insert_by_time id r qs)

listed-order_by_time : (id : String) (rs : List Send) → listed id (order_by_time rs) ≡ listed id rs
listed-order_by_time id [] = refl
listed-order_by_time id (r ∷ rs) =
    listed-insert_by_time id r (order_by_time rs)
    ∙ ap (λ (t : Bool). same r.draft_id id || t) (listed-order_by_time id rs)

length-insert_by_time : (r : Send) (qs : List Send) → length (insert_by_time r qs) ≡ suc (length qs)
length-insert_by_time r [] = refl
length-insert_by_time r (q ∷ qs) = ground (arith, length-insert_by_time r qs)

length-order_by_time : (rs : List Send) → length (order_by_time rs) ≡ length rs
length-order_by_time [] = refl
length-order_by_time (r ∷ rs) =
    length-insert_by_time r (order_by_time rs) ∙ ap suc (length-order_by_time rs)

abbrev all_confirmed : List Send → List Send
all_confirmed = where_rows λ r. is_confirmed r.status

-- A row left 'confirmed' as it reads afterwards: failed, with the notice, and all else as it was.
abbrev pub settle_confirmed : Send → Send
settle_confirmed r =
    if is_confirmed r.status
    then record r {
      status = failed;
      error_message =
          some
            "the bridge stopped between sending and recording this; DELIVERY IS UNKNOWN — check the chat in WhatsApp before resending";
    }
    else r

-- Every confirmed row is one that the query finds, so the update by id settles it.
settled_in-confirmed :
    (found : List Send) (r : Send)
    → (is_confirmed r.status ≡ true → listed r.draft_id found ≡ true)
    → settled_in found r ≡ settle_confirmed r
settled_in-confirmed found r h = elim (Bool-cases (is_confirmed r.status)) [
  | inl c ↦ rw (c, h c)
  | inr c ↦ rw c
]

listed-confirmed :
    (id : String) (r : Send) (rs : List Send)
    → listed id (all_confirmed rs) ≡ true
    → listed id (all_confirmed (r ∷ rs)) ≡ true
listed-confirmed id r rs h = elim (Bool-cases (is_confirmed r.status)) [
  | inl c ↦ rw (c, h) (ground arith)
  | inr c ↦ rw c h
]

listed_self :
    (r : Send) (rs : List Send)
    → is_confirmed r.status ≡ true
    → listed r.draft_id (all_confirmed (r ∷ rs)) ≡ true
listed_self r rs c = rw (c, same_refl r.draft_id)

settled_all :
    (found : List Send) (rs : List Send)
    → ((id : String) → listed id (all_confirmed rs) ≡ true → listed id found ≡ true)
    → map (settled_in found) rs ≡ map settle_confirmed rs
settled_all found [] h = refl
settled_all found (r ∷ rs) h =
    ap₂ ◌∷◌ (settled_in-confirmed found r (λ c. h r.draft_id (listed_self r rs c)))
      (settled_all found rs (λ id k. h id (listed-confirmed id r rs k)))

-- When the database answers: every row left 'confirmed' is 'failed' afterwards, with the notice that its
-- delivery is unknown as its error, and nothing else of it is changed, nor any other row; the result is how
-- many there were, and nothing is sent.
pub reconcile-map :
    (env : ReconcileEnv) (w : World)
    → env.query_fails ≡ false
    → ((id : String) → env.update_fails id ≡ false)
    → ((reconcile env w).0 ≡ inr (length (all_confirmed w.sends)))
      × ((reconcile env w).1.sends ≡ map settle_confirmed w.sends)
      × ((reconcile env w).1.attempts ≡ w.attempts)
unfolding reconcile
reconcile-map env w q u = rw q (
  ap inr (length-order_by_time (all_confirmed w.sends)),
  settle_rows-sends env u (order_by_time (all_confirmed w.sends)) w
      ∙ settled_all (order_by_time (all_confirmed w.sends)) w.sends
          (λ id k. listed-order_by_time id (all_confirmed w.sends) ∙ k),
  settle_rows-attempts env (order_by_time (all_confirmed w.sends)) w,
)
