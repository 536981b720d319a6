-- ===== src/Sends/System.antt =====
-- Several confirm requests at once, draft requests among them, and restarts: the phases of
-- `handleConfirmSend` (whatsapp-bridge/sends.go) as steps that interleave.
pub mod Once
pub mod Sequential
use whatsapp_mcp_plugin.Prelude.{String, ◌≡◌, Option, none, some, List, [], ◌∷◌, ◌++◌, inl, inr}
use whatsapp_mcp_plugin.Sends.{Send, World, Outbound, Reply, rejected, delivered, ok, err}
use whatsapp_mcp_plugin.Sends.Media.{Host, DraftRequest}
use whatsapp_mcp_plugin.Sends.Draft.{DraftEnv, create_draft}
use whatsapp_mcp_plugin.Sends.Confirm.{
  ConfirmEnv, refuse, stale, ready, load_draft, expire_draft, build_message, claim, try_claim,
  attempt, record_failed, record_sent,
}
use whatsapp_mcp_plugin.Sends.Reconcile.{ReconcileEnv, reconcile}

-- Where a confirm request stands between two of its statements.
pub data Flight : Type 0 where
  -- the row was a draft past its time; the UPDATE to 'expired' is still to come
  overdue : Send → Flight
  loaded : Send → Flight
  built : Send → Outbound → Flight
  -- status 'confirmed' is written, SendMessage is still to come
  claimed : Send → Outbound → Flight
  undelivered : Send → String → Flight
  accepted : Send → Outbound → String → Flight

-- The next phase of a request; `none` when it has answered.
unfoldable pub advance : Host → ConfirmEnv → Flight → World → Option Flight × World
advance host env (overdue r) w = (none, expire_draft env r w)
advance host env (loaded r) w = elim (build_message host env r w.messages) [
  | err code message ↦ (none, w)
  | ok msg ↦ (some (built r msg), w)
]
advance host env (built r msg) w = elim (try_claim env r.draft_id w) [
  | err code message ↦ (none, w)
  | ok _ ↦ (some (claimed r msg), claim env r.draft_id w)
]
advance host env (claimed r msg) w = elim (env.send msg) [
  | inl message ↦ (some (undelivered r message), attempt r msg w)
  | inr whatsapp_id ↦ (some (accepted r msg whatsapp_id), attempt r msg w)
]
advance host env (undelivered r message) w = (none, record_failed env r.draft_id message w)
advance host env (accepted r msg whatsapp_id) w = (none, record_sent env r msg whatsapp_id w)

pub record System : Type 0 where
  pub world : World
  pub flights : List Flight

abbrev pub flying : Option Flight → List Flight → List Flight
flying none rest = rest
flying (some f) rest = f ∷ rest

pub data Step (s t : System) : Type 0 where
  -- `POST /api/sends`
  create :
      (host : Host) (env : DraftEnv) (body : Option DraftRequest)
      → t ≡ record s { world = (create_draft host env body s.world).1 }
      → Step s t
  -- `POST /api/sends/{draft_id}/confirm` reads the row
  start :
      (env : ConfirmEnv) (id : String) (r : Send)
      → load_draft env id s.world.sends ≡ ready r
      → t ≡ record s { flights = loaded r ∷ s.flights }
      → Step s t
  start_overdue :
      (env : ConfirmEnv) (id : String) (r : Send)
      → load_draft env id s.world.sends ≡ stale r
      → t ≡ record s { flights = overdue r ∷ s.flights }
      → Step s t
  -- any request in flight makes its next move
  move :
      (host : Host) (env : ConfirmEnv) (before : List Flight) (f : Flight) (after : List Flight)
      → s.flights ≡ before ++ f ∷ after
      → t ≡ record {
        world = (advance host env f s.world).1;
        flights = before ++ flying (advance host env f s.world).0 after;
      }
      → Step s t
  -- the process stops, all requests with it, and the next one reconciles at its start
  restart :
      (env : ReconcileEnv)
      → t ≡ record { world = (reconcile env s.world).1; flights = [] }
      → Step s t

pub data Reach (s : System) : System → Type 0 where
  here : Reach s s
  next : {t u : System} → Reach s t → Step t u → Reach s u

abbrev pub empty_world : World
empty_world = record {
  contacts = [];
  aliases = [];
  sends = [];
  messages = [];
  files = [];
  attempts = [];
}

abbrev pub start_state : System
start_state = record { world = empty_world; flights = [] }
