-- ===== src/Pings/Flush.antt =====
-- What a flush does to the queue: `FlushPendingPings` of prospect-api/quiet_hours.go.
use whatsapp_mcp_plugin.Prelude.{
  ℕ, ◌≡◌, refl, sym, ap, ◌∙◌, subst, true, false, ◌||◌, some, List, [], ◌∷◌, ◌++◌, map, any,
  where_rows, ◌==◌, ==_refl, if-cases, All, arith,
}
use mathlib.Core.List.{append_assoc, append-nil}
use whatsapp_mcp_plugin.Pings.Queue.{
  PendingPing, Queue, is_due, mark_delivered, FlushEnv, flush_row, flush_rows, flush_pending_pings,
}

abbrev pub ids : List PendingPing → List ℕ
ids = map (λ r. r.id)

module _ (env : FlushEnv) (now : ℕ) where
  flush_row-calls :
      (r : PendingPing) (q : Queue) → (flush_row env now r q).calls ≡ q.calls ++ r.id ∷ []
  unfolding flush_row
  flush_row-calls r q =
      let called : Queue = record q { calls = q.calls ++ r.id ∷ [] } in
      if-cases (λ (t : Queue). t.calls ≡ q.calls ++ r.id ∷ [])
        (env.deliver_fails r.id || env.mark_fails r.id) called
        (record called { rows = mark_delivered now r.id q.rows }) (λ e. refl) (λ e. refl)

  flush_rows-calls :
      (rs : List PendingPing) (q : Queue) → (flush_rows env now rs q).calls ≡ q.calls ++ ids rs
  unfolding flush_rows
  flush_rows-calls [] q = sym (append-nil q.calls)
  flush_rows-calls (r ∷ rs) q =
      let after = flush_row env now r q in
      flush_rows-calls rs after
      ∙ ap (λ (l : List ℕ). l ++ ids rs) (flush_row-calls r q)
      ∙ append_assoc q.calls (r.id ∷ []) (ids rs)

  -- Each row that is due waits in `rest`.
  abbrev Waiting : List PendingPing → List PendingPing → Type 0
  Waiting rest =
      All (λ (r : PendingPing). is_due now r ≡ true → any (λ s. r.id == s.id) rest ≡ true)

  mark-Waiting :
      (r : PendingPing) (rest rows : List PendingPing)
      → Waiting (r ∷ rest) rows
      → Waiting rest (mark_delivered now r.id rows)
  unfolding mark_delivered
  mark-Waiting r rest [] h = tt
  mark-Waiting r rest (p ∷ rows) (h, hs) = (
    if-cases (λ (p' : PendingPing). is_due now p' ≡ true → any (λ s. p'.id == s.id) rest ≡ true)
        (p.id == r.id) (record p { delivered = true; delivered_at = some now }) p
        (λ e d. ground (arith, d)) (λ e d. ground (arith, h d, e)),
    mark-Waiting r rest rows hs,
  )

  Waiting-none : (rows : List PendingPing) → Waiting [] rows → where_rows (is_due now) rows ≡ []
  Waiting-none [] h = refl
  Waiting-none (p ∷ rows) (h, hs) = ground (arith, h, Waiting-none rows hs)

  more-Waiting :
      (p : PendingPing) (rest rows : List PendingPing) → Waiting rest rows → Waiting (p ∷ rest) rows
  more-Waiting p rest [] h = tt
  more-Waiting p rest (r ∷ rows) (h, hs) = ((λ d. ground (arith, h d)), more-Waiting p rest rows hs)

  where_rows-Waiting : (rows : List PendingPing) → Waiting (where_rows (is_due now) rows) rows
  where_rows-Waiting [] = tt
  where_rows-Waiting (p ∷ rows) =
      let rest = where_rows (is_due now) rows in
      if-cases (λ (found : List PendingPing). Waiting found (p ∷ rows)) (is_due now p) (p ∷ rest)
        rest
        (λ e. ((λ d. rw (==_refl p.id) refl), more-Waiting p rest rows (where_rows-Waiting rows)))
        (λ e. ((λ d. ground (arith, d, e)), where_rows-Waiting rows))

  module _ (delivers : (id : ℕ) → env.deliver_fails id ≡ false)
      (marks : (id : ℕ) → env.mark_fails id ≡ false) where
    flush_row-rows :
        (r : PendingPing) (q : Queue)
        → (flush_row env now r q).rows ≡ mark_delivered now r.id q.rows
    unfolding flush_row
    flush_row-rows r q = rw (delivers r.id, marks r.id) refl

    flush_rows-drains :
        (rs : List PendingPing) (q : Queue)
        → Waiting rs q.rows
        → where_rows (is_due now) (flush_rows env now rs q).rows ≡ []
    unfolding flush_rows
    flush_rows-drains [] q h = Waiting-none q.rows h
    flush_rows-drains (r ∷ rs) q h =
        flush_rows-drains rs (flush_row env now r q)
          (subst (Waiting rs) (sym (flush_row-rows r q)) (mark-Waiting r rs q.rows h))

-- A flush whose query answers calls deliverFn on the pings that are due, once for each row and in the
-- order of the rows, whichever of them fail.
pub flush_pending_pings-calls :
    (env : FlushEnv) (now : ℕ) (q : Queue)
    → env.query_fails ≡ false
    → (flush_pending_pings env now q).calls ≡ q.calls ++ ids (where_rows (is_due now) q.rows)
unfolding flush_pending_pings
flush_pending_pings-calls env now q h =
    rw h (flush_rows-calls env now (where_rows (is_due now) q.rows) q)

-- After a flush in which nothing fails no ping is due any more, so that a second flush at the same time
-- delivers nothing again.
pub flush_pending_pings-drains :
    (env : FlushEnv) (now : ℕ) (q : Queue)
    → env.query_fails ≡ false
    → ((id : ℕ) → env.deliver_fails id ≡ false)
    → ((id : ℕ) → env.mark_fails id ≡ false)
    → where_rows (is_due now) (flush_pending_pings env now q).rows ≡ []
unfolding flush_pending_pings
flush_pending_pings-drains env now q h delivers marks = rw h (
    flush_rows-drains env now delivers marks (where_rows (is_due now) q.rows) q
      (where_rows-Waiting env now q.rows))
