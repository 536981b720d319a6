-- ===== src/Fetch.antt =====
-- whatsapp-bridge/fetch_url.go: the download of a URL that the caller chose. DNS, the connection and
-- the answers of servers are `Net`; the loop of `http.Client.Do` over redirects is that of net/http,
-- which calls `CheckRedirect` before each hop and `DialContext` for each request. Net keeps no
-- connection open between requests.
pub mod Content
pub mod Guarantee
pub mod Name
pub mod Remote
use whatsapp_mcp_plugin.Prelude.{
  ℕ, zero, suc, ◌+◌, String, Bool, true, false, ◌&&◌, ◌||◌, not, Option, none, some, List, [], ◌∷◌,
  ◌++◌, same, leb, if◌then◌else◌,
}
use whatsapp_mcp_plugin.Bytes.{Text}
use whatsapp_mcp_plugin.Address.{Addr, blocked_ip}

-- A parsed URL: `Scheme`, `Hostname()`, `Path`, and the value of the query's `id`.
pub record Url : Type 0 where
  pub scheme : String
  pub hostname : String
  pub path : Text
  pub query_id : Text

pub record Response : Type 0 where
  pub status : ℕ
  pub content_type : Text
  pub content_disposition : Text
  pub content_length : Option ℕ
  pub body : Text
  pub body_fails : Bool

-- A server's answer to one request: a redirect, or the response that `Do` returns.
pub data Answer : Type 0 where
  lost : Answer
  redirect : Url → Answer
  final : Response → Answer

pub record Net : Type 0 where
  -- `netip.ParseAddr` of a host name
  pub parse_addr : String → Option Addr
  -- the n-th lookup of the download, which may answer otherwise than the one before
  pub lookup : ℕ → String → Option (List Addr)
  pub dials : Addr → Bool
  pub answer : Addr → Url → Answer

pub data FetchError : Type 0 where
  blocked_target unresolved dial_failed bad_url request_failed out_of_hops : FetchError
  bad_status html_body too_large read_failed empty_body : FetchError

-- What the bridge did on the network, in order.
pub data Event : Type 0 where
  dialed : Addr → Event
  requested : Addr → Url → Event

abbrev pub Trace : Type 0
Trace = List Event

pub data Outcome {ℓ} (A : Type ℓ) : Type ℓ where
  got : A → Outcome A
  stop : FetchError → Outcome A

abbrev pub max_fetch_redirects : ℕ
max_fetch_redirects = 5

-- `addrPolicy`; a nil policy is the strict one.
abbrev pub AddrPolicy : Type 0
AddrPolicy = Addr → Option String

abbrev pub or_strict : Option AddrPolicy → AddrPolicy
or_strict none = blocked_ip
or_strict (some p) = p

abbrev pub is_blocked : AddrPolicy → Addr → Bool
is_blocked p a = elim (p a) [ none ↦ false | some why ↦ true ]

module _ (net : Net) (policy : Option AddrPolicy) where
  -- The host is a literal address that the policy refuses.
  abbrev pub literal_blocked : String → Bool
  literal_blocked host = elim (net.parse_addr host) [
    | none ↦ false
    | some a ↦ is_blocked (or_strict policy) a
  ]

  -- `validateFetchURL`: whether the URL passes.
  unfoldable pub validate_fetch_url : Url → Bool
  validate_fetch_url u =
      same u.scheme "https" && not (same u.hostname "") && not (literal_blocked u.hostname)

  -- `redirectChecker`, with the number of requests made so far.
  unfoldable pub check_redirect : ℕ → Url → Bool
  unfolding validate_fetch_url
  check_redirect via u = not (leb max_fetch_redirects via) && validate_fetch_url u

  abbrev pub some_blocked : List Addr → Bool
  some_blocked [] = false
  some_blocked (a ∷ rest) = is_blocked (or_strict policy) a || some_blocked rest

  -- The loop over the vetted addresses: the first that connects, and all that were tried.
  abbrev pub dial_each : List Addr → Option Addr × Trace
  dial_each [] = (none, [])
  dial_each (a ∷ rest) =
      let tried : Option Addr × Trace = ((dial_each rest).0, dialed a ∷ (dial_each rest).1) in
      if net.dials a then (some a, dialed a ∷ []) else tried

  abbrev pub connected : Option Addr × Trace → Outcome Addr × Trace
  connected (none, tried) = (stop dial_failed, tried)
  connected (some a, tried) = (got a, tried)

  -- `guardedDialContext`
  unfoldable pub guarded_dial : ℕ → String → Outcome Addr × Trace
  guarded_dial n host = elim (net.lookup n host) [
    | none ↦ (stop unresolved, [])
    | some [] ↦ (stop blocked_target, [])
    | some (a ∷ rest) ↦
        if some_blocked (a ∷ rest)
        then (stop blocked_target, [])
        else connected (dial_each (a ∷ rest))
  ]

  abbrev pub Done : Type 0
  Done = Outcome (Url × Response) × Trace

  -- What follows the answer to a request: `go` makes the next one.
  abbrev pub next_request : ℕ → (Url → Done) → Url → Answer → Done
  next_request via go u lost = (stop request_failed, [])
  next_request via go u (final r) = (got (u, r), [])
  next_request via go u (redirect target) =
      if check_redirect (suc via) target then go target else (stop blocked_target, [])

  abbrev pub request : ℕ → (Url → Done) → Url → Outcome Addr × Trace → Done
  request via go u (stop e, tried) = (stop e, tried)
  request via go u (got a, tried) =
      let after : Done = next_request via go u (net.answer a u) in
      (after.0, tried ++ requested a u ∷ after.1)

  -- `Do`: `via` counts the requests already made, `hops` is the fuel.
  unfoldable pub follow : ℕ → ℕ → Url → Done
  unfolding guarded_dial check_redirect
  follow zero via u = (stop out_of_hops, [])
  follow (suc hops) via u =
      request via (λ target. follow hops (suc via) target) u (guarded_dial via u.hostname)
