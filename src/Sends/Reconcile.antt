-- ===== src/Sends/Reconcile.antt =====
-- whatsapp-bridge/sends_reconcile.go: what a start does about sends that a stop interrupted.
pub mod Laws
use whatsapp_mcp_plugin.Prelude.{
  ℕ, String, Bool, Option, none, some, List, [], ◌∷◌, ◌⊎◌, inl, inr, length, leb, where_rows,
  if◌then◌else◌,
}
use whatsapp_mcp_plugin.Sends.{
  failed, is_confirmed, Send, World, coalesce, update_send, remove_outbound_file,
}

abbrev pub in_flight_send_notice : String
in_flight_send_notice =
    "the bridge stopped between sending and recording this; DELIVERY IS UNKNOWN — check the chat in WhatsApp before resending"

pub record ReconcileEnv : Type 0 where
  pub query_fails : Bool
  pub update_fails : String → Bool
  pub remove_fails : String → Bool

abbrev pub confirmed_time : Send → ℕ
confirmed_time r = elim r.confirmed_at [ none ↦ 0 | some t ↦ t ]

abbrev pub insert_by_time : Send → List Send → List Send
insert_by_time r [] = r ∷ []
insert_by_time r (q ∷ qs) =
    let later = q ∷ insert_by_time r qs in
    if leb (confirmed_time r) (confirmed_time q) then r ∷ q ∷ qs else later

abbrev pub order_by_time : List Send → List Send
order_by_time [] = []
order_by_time (r ∷ rs) = insert_by_time r (order_by_time rs)

-- `SELECT … WHERE status = 'confirmed' ORDER BY confirmed_at`
unfoldable pub select_confirmed : List Send → List Send
select_confirmed rs = order_by_time (where_rows (λ r. is_confirmed r.status) rs)

abbrev pub settle : Send → Send
settle r = record r { status = failed; error_message = some in_flight_send_notice }

-- One round of the loop; a row that cannot be written keeps its bytes.
unfoldable pub settle_row : ReconcileEnv → Send → World → World
unfolding update_send remove_outbound_file
settle_row env r w = if env.update_fails r.draft_id then w else record w {
  sends = update_send r.draft_id (λ q. is_confirmed q.status) settle w.sends;
  files = remove_outbound_file (env.remove_fails r.draft_id) (coalesce r.content_file_path) w.files;
}

unfoldable pub settle_rows : ReconcileEnv → List Send → World → World
unfolding settle_row
settle_rows env [] w = w
settle_rows env (r ∷ rs) w = settle_rows env rs (settle_row env r w)

-- `ReconcileInFlightSends`: the error of the query, or the number of rows.
unfoldable pub reconcile : ReconcileEnv → World → (Unit {0} ⊎ ℕ) × World
unfolding select_confirmed settle_rows
reconcile env w =
    if env.query_fails
    then (inl tt, w)
    else (let found = select_confirmed w.sends in (inr (length found), settle_rows env found w))
