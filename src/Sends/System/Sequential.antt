-- ===== src/Sends/System/Sequential.antt =====
-- The phases of a confirm request that runs alone: `handleConfirmSend` of whatsapp-bridge/sends.go.
use whatsapp_mcp_plugin.Prelude.{ℕ, zero, suc, arith, ◌≡◌, refl, String, none, some, Option}
use whatsapp_mcp_plugin.Sends.{World, Send, Outbound}
use whatsapp_mcp_plugin.Sends.Media.{Host}
use whatsapp_mcp_plugin.Sends.Confirm.{
  ConfirmEnv, Checked, refuse, stale, ready, load_draft, deliver, claim, confirm_ready,
  confirm_send,
}
use whatsapp_mcp_plugin.Sends.System.{Flight, overdue, loaded, claimed, advance}

-- At most `n` phases, one after the other, with nothing between.
pub run_alone : ℕ → Host → ConfirmEnv → Option Flight → World → World
run_alone n host env none w = w
run_alone zero host env (some f) w = w
run_alone (suc n) host env (some f) w =
    run_alone n host env (advance host env f w).0 (advance host env f w).1

abbrev pub first_flight : Checked → Option Flight
first_flight (refuse code message) = none
first_flight (stale r) = some (overdue r)
first_flight (ready r) = some (loaded r)

module _ (host : Host) (env : ConfirmEnv) where
  -- From the claim on.
  run_claimed :
      (r : Send) (msg : Outbound) (w : World)
      → run_alone 2 host env (some (claimed r msg)) w ≡ (deliver env r msg w).1
  unfolding run_alone advance deliver
  run_claimed r msg w = ground arith

  run_ready :
      (r : Send) (w : World)
      → run_alone 4 host env (some (loaded r)) w ≡ (confirm_ready host env r w).1
  unfolding run_alone advance confirm_ready
  run_ready r w = ground (arith, λ (msg : Outbound). run_claimed r msg (claim env r.draft_id w))

  run_checked :
      (id : String) (w : World) (c : Checked)
      → load_draft env id w.sends ≡ c
      → run_alone 4 host env (first_flight c) w ≡ (confirm_send host env id w).1
  unfolding run_alone advance confirm_send
  run_checked id w (refuse code message) e = rw (e, confirm_send)
  run_checked id w (stale r) e = rw (e, confirm_send)
  run_checked id w (ready r) e = rw (e, confirm_send) (run_ready r w)

  -- A confirm request with nothing between its phases is the handler as it is written: the phases
  -- that the interleavings are made of run through its reads, its claim, its send and its writes.
  pub confirm_send-phases :
      (id : String) (w : World)
      → run_alone 4 host env (first_flight (load_draft env id w.sends)) w
        ≡ (confirm_send host env id w).1
  confirm_send-phases id w = run_checked id w (load_draft env id w.sends) refl
