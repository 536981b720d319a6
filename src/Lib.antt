-- ===== src/Lib.antt =====
-- The WhatsApp bridge (whatsapp-bridge/*.go) and the prospect API (prospect-api/*.go).
--
-- The bridge is a process on the user's machine: it keeps one WhatsApp session, archives messages in
-- SQLite, and serves a local HTTP API. A client drafts a message (POST /api/sends), the user approves
-- it, and a second call confirms it. The prospect API is a second process that answers questions about
-- contacts for an outside agent.
--
-- Parts, files and code:
--   Prelude, Bytes: shared names and tests; Go strings as bytes, with the functions of package strings
--     that the code calls.
--   Sorting: `sort.Strings` and `sort.Slice` as an insertion sort, with `<` on strings.
--   Scrub (whatsapp-bridge/scrubber.go): `Scrub`, on ASCII texts. The inner loop is `redact`, on fuel, which
--     is the length of the text and one more: each turn takes one occurrence out and makes no new one.
--   Sends (whatsapp-bridge/sends.go): the tables of the database, the disk and the calls of SendMessage
--     as a `World`. Sends/Draft is `handleCreateDraft`, Sends/Media whatsapp-bridge/sends_media.go,
--     Sends/Confirm `handleConfirmSend`, Sends/Reconcile whatsapp-bridge/sends_reconcile.go. Handlers are
--     functions from a World to a reply and a World; what the machine, the clock, WhatsApp and the
--     database's failures do are fields of `Host`, `DraftEnv`, `ConfirmEnv` and `ReconcileEnv`.
--   Sends/System: requests that run at once. A confirm is cut into phases between its statements, a
--     `Step` is one phase, one draft request or a restart, and `Reach` is any sequence of steps.
--     Sends/Approved: from a draft to its message.
--   Address, Fetch (whatsapp-bridge/fetch_url.go): addresses and `blockedIP`; the guarded download. DNS,
--     connections and servers are `Net`, and the calls of net/url, mime and content sniffing are `Web`.
--     The loop over redirects runs on fuel for five requests; the sixth is what the code refuses.
--   Markers (whatsapp-bridge/raw_type.go, whatsapp-bridge/undecryptable.go, the markers of
--     whatsapp-bridge/bridge.go): unreadable messages and their counters.
--   Watchdog (whatsapp-bridge/watchdog.go): one turn of the reconnect loop.
--   RateLimiter (prospect-api/middleware.go): the sliding-window limiter and the Authorization check.
--   Pings (prospect-api/wa_budget.go, prospect-api/quiet_hours.go): the hourly budget of pings, the quiet
--     hours in a location, whose clock and dates are those that package time gives (`Location`), the queue
--     of pings that wait for their end, and the ping of a relayed note
--     (prospect-api/handlers_relay.go) through all of them.
--   OriginGuard (whatsapp-bridge/origin_guard.go): which requests reach the bridge's API.
--   Archive (whatsapp-bridge/bridge.go `onMessage`, whatsapp-bridge/undecryptable.go
--     `onUndecryptableMessage`, whatsapp-bridge/aliases.go, whatsapp-bridge/contacts_sync.go,
--     whatsapp-bridge/groups.go): the tables of chats, messages, contacts and aliases, their upserts and
--     the sequences of arrivals. A decoded message is a part of its event, and `Normalize` a parameter.
--   Walker (whatsapp-bridge/backfill_walk.go): how far the history backfill steps back in each chat.
--   Session (whatsapp-bridge/bridge.go, whatsapp-bridge/auth.go): the fields under the bridge's mutex with
--     one step for each section that changes them, and the login loop over the rounds whatsmeow brings.
--   Presets (prospect-api/presets.go, prospect-api/presets_byid.go): the records that vouch for a guest.
--   EnvFile (whatsapp-bridge/env_file.go): the lines of `.env` and the process environment.
--   Vault (whatsapp-bridge/export_vault.go): the names of the exported files. The loop of
--     `assignFilenames` runs on fuel for two rounds for each unit, since each round raises a level of some
--     unit and there are two to raise. Vault/Forest is the union-find over the aliases, whose `find` runs
--     on fuel for one step more than there are edges, and no way up is longer; Vault/Units the units that
--     are made of its components, Vault/Identity their names and phones, Vault/Plan `buildExportUnits`
--     over all of these. Go's maps are lists in the order of their writes, and `sort` is an insertion sort.
--     Vault/File reads a file's front matter, with `json.Unmarshal` on lists of texts without escapes and
--     `%d` on numbers without a sign, Vault/Render is a message's text, and Vault/Write is
--     `exportOneUnit`, with the local times of the machine as a parameter. Vault/Directory is a
--     directory of regular files: which names the file system takes for one file, and which calls fail,
--     are fields of `Disk`, and a file keeps its place in the list when it is renamed or written.
--     Vault/Heal is `healLegacyFilenames`, Vault/Sweep what is found after the writes, and Vault/Export
--     `ExportVault` over these, with the units written one after another.
--   Calls (whatsapp-bridge/bridge.go `onCallOffer` and `onCallTerminate`, whatsapp-bridge/call_result.go):
--     the table of calls, whose column of results has a CHECK.
--   Tests: concrete runs, and the theorems at concrete inputs.
--
-- Machine integers: times, sizes and counts stay far below 2 ^ 63, so they are natural numbers; where
-- the code subtracts, the model compares sums. `strings.ToLower` is that of ASCII, but in the keys of
-- Vault's file names, where it is a parameter (`Unicode`); a text of other letters that the scrubber gets
-- is outside the model. SQL statements are functions on lists of rows; one statement is atomic, as SQLite
-- makes it.
--
-- Not modelled: whatsmeow, SQLite itself, JSON and HTTP routing, logging; the decoding of messages, the
-- writes of a history sync, the goroutines of the vault export, symbolic links, and its comparison with
-- a vault, media download and transcription; of the prospect API its handlers but for the pings of a
-- relayed note, the CRM files, the digests and the operating system calls.
mod Prelude
pub mod Bytes
pub mod Sorting
pub mod Scrub
pub mod Sends
pub mod Address
pub mod Fetch
pub mod Markers
pub mod Watchdog
pub mod RateLimiter
pub mod Pings
pub mod OriginGuard
pub mod Walker
pub mod Archive
pub mod Presets
pub mod Session
pub mod EnvFile
pub mod Vault
pub mod Calls
mod Tests
