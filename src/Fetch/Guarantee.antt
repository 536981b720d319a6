-- ===== src/Fetch/Guarantee.antt =====
-- What a download of whatsapp-bridge/fetch_url.go can touch.
use whatsapp_mcp_plugin.Prelude.{
  ℕ, zero, suc, String, ◌≡◌, refl, inl, inr, true, false, Option, none, some, List, [], ◌∷◌, ◌++◌,
  All, same→eq, if◌then◌else◌, Option-cases, if-cases, arith,
}
use whatsapp_mcp_plugin.Bytes.{Text, trim_space}
use whatsapp_mcp_plugin.Address.{Addr, blocked_ip}
use whatsapp_mcp_plugin.Address.Ranges.{Internal, blocked_ip-Internal}
use whatsapp_mcp_plugin.Fetch.{
  Url, Response, Net, Answer, lost, redirect, final, blocked_target, unresolved, Outcome, got, stop,
  Event, Trace, dialed, requested, validate_fetch_url, check_redirect, some_blocked, is_blocked,
  dial_each, connected, guarded_dial, Done, next_request, request, follow,
}
use whatsapp_mcp_plugin.Fetch.Remote.{
  Web, fetch_parsed, fetch_remote_file, normalize_drive_url, max_requests, received,
}

-- An event that leaves the networks of `Internal` alone and sends nothing in clear text.
abbrev pub Safe : Event → Type 0
Safe (dialed a) = Internal a → ⊥
Safe (requested a u) = (Internal a → ⊥) × (u.scheme ≡ "https")

unblocked : (a : Addr) → is_blocked blocked_ip a ≡ false → Internal a → ⊥
unblocked a h i = elim (Option-cases (blocked_ip a)) [
  | inl e ↦ (blocked_ip-Internal a).1 i e
  | inr (why, e) ↦ ground (arith, h, e)
]

All-unblocked :
    (net : Net) (addrs : List Addr)
    → some_blocked net none addrs ≡ false
    → All (λ a. Internal a → ⊥) addrs
All-unblocked net [] h = tt
All-unblocked net (a ∷ rest) h =
    (unblocked a (ground (arith, h)), All-unblocked net rest (ground (arith, h)))

All-append : {A : Type 0} (P : A → Type 0) (xs ys : List A) → All P xs → All P ys → All P (xs ++ ys)
All-append P [] ys hx hy = hy
All-append P (x ∷ xs) ys (h, hx) hy = (h, All-append P xs ys hx hy)

abbrev Dialed : Outcome Addr → Type 0
Dialed (stop e) = Unit {0}
Dialed (got a) = Internal a → ⊥

abbrev SafeDial : Outcome Addr × Trace → Type 0
SafeDial r = Dialed r.0 × All Safe r.1

module _ (net : Net) where
  abbrev Chosen : Option Addr × Trace → Type 0
  Chosen r = SafeDial (connected net none r)

  tried-Safe :
      (a : Addr) (r : Option Addr × Trace)
      → (Internal a → ⊥)
      → Chosen r
      → Chosen (r.0, dialed a ∷ r.1)
  tried-Safe a (none, t) u (d, h) = (tt, (u, h))
  tried-Safe a (some b, t) u (d, h) = (d, (u, h))

  dial_each-Safe :
      (addrs : List Addr) → All (λ a. Internal a → ⊥) addrs → Chosen (dial_each net none addrs)
  dial_each-Safe [] h = (tt, tt)
  dial_each-Safe (a ∷ rest) (h, hs) =
      let r = dial_each net none rest in
      if-cases Chosen (net.dials a) (some a, dialed a ∷ []) (r.0, dialed a ∷ r.1)
        (λ e. (h, (h, tt))) (λ e. tried-Safe a r h (dial_each-Safe rest hs))

  guarded_dial-Safe : (n : ℕ) (host : String) → SafeDial (guarded_dial net none n host)
  unfolding guarded_dial
  guarded_dial-Safe n host = go (net.lookup n host)
    where
      go :
          (found : Option (List Addr))
          → SafeDial (elim found [
            | none ↦ (stop unresolved, [])
            | some [] ↦ (stop blocked_target, [])
            | some (a ∷ rest) ↦
                if some_blocked net none (a ∷ rest)
                then (stop blocked_target, [])
                else connected net none (dial_each net none (a ∷ rest))
          ])
      go none = (tt, tt)
      go (some []) = (tt, tt)
      go (some (a ∷ rest)) =
          let addrs = a ∷ rest in
          if-cases SafeDial (some_blocked net none addrs) (stop blocked_target, [])
            (connected net none (dial_each net none addrs)) (λ e. (tt, tt))
            (λ e. dial_each-Safe addrs (All-unblocked net addrs e))

  pub validate_fetch_url-https :
      (u : Url) → validate_fetch_url net none u ≡ true → u.scheme ≡ "https"
  unfolding validate_fetch_url
  validate_fetch_url-https u h = same→eq u.scheme "https" (ground (arith, h))

  -- The response is what a server outside the internal networks gave to a request over https.
  abbrev pub ServedBy : Url → Response → Type 0
  ServedBy u r = (a : Addr) × (net.answer a u ≡ final r) × (Internal a → ⊥) × (u.scheme ≡ "https")

  abbrev pub Came : Outcome (Url × Response) → Type 0
  Came (stop e) = Unit {0}
  Came (got (u, r)) = ServedBy u r

  abbrev pub SafeDone : Done net none → Type 0
  SafeDone r = Came r.0 × All Safe r.1

  next_request-Safe :
      (via : ℕ) (go : Url → Done net none) (u : Url) (a : Addr) (answer : Answer)
      → net.answer a u ≡ answer
      → (Internal a → ⊥)
      → u.scheme ≡ "https"
      → ((target : Url) → target.scheme ≡ "https" → SafeDone (go target))
      → SafeDone (next_request net none via go u answer)
  unfolding check_redirect
  next_request-Safe via go u a lost e ha hu h = (tt, tt)
  next_request-Safe via go u a (final r) e ha hu h = ((a, e, ha, hu), tt)
  next_request-Safe via go u a (redirect target) e ha hu h =
      if-cases SafeDone (check_redirect net none (suc via) target) (go target)
        (stop blocked_target, [])
        (λ ok. h target (validate_fetch_url-https target (ground (arith, ok)))) (λ bad. (tt, tt))

  request-Safe :
      (via : ℕ) (go : Url → Done net none) (u : Url) (d : Outcome Addr × Trace)
      → u.scheme ≡ "https"
      → SafeDial d
      → ((target : Url) → target.scheme ≡ "https" → SafeDone (go target))
      → SafeDone (request net none via go u d)
  request-Safe via go u (stop e, tried) hu (hd, ht) h = (tt, ht)
  request-Safe via go u (got a, tried) hu (hd, ht) h =
      let after = next_request net none via go u (net.answer a u) in
      let safe = next_request-Safe via go u a (net.answer a u) refl hd hu h in
      (safe.0, All-append Safe tried (requested a u ∷ after.1) ht ((hd, hu), safe.1))

  pub follow-Safe :
      (hops via : ℕ) (u : Url) → u.scheme ≡ "https" → SafeDone (follow net none hops via u)
  unfolding follow
  follow-Safe zero via u hu = (tt, tt)
  follow-Safe (suc hops) via u hu =
      request-Safe via (λ target. follow net none hops (suc via) target) u
        (guarded_dial net none via u.hostname) hu (guarded_dial-Safe via u.hostname)
        (λ target ht. follow-Safe hops (suc via) target ht)

fetch_parsed-Safe :
    (web : Web) (max_bytes : ℕ) (parsed : Option Url)
    → All Safe (fetch_parsed web none max_bytes parsed).1
unfolding fetch_parsed
fetch_parsed-Safe web max_bytes none = tt
fetch_parsed-Safe web max_bytes (some u) =
    let done = follow web.net none max_requests 0 u in
    if-cases (λ (r : Outcome (Text × Text) × Trace). All Safe r.1)
      (validate_fetch_url web.net none u) (received web max_bytes done.0, done.1)
      (stop blocked_target, [])
      (λ e. (follow-Safe web.net max_requests 0 u (validate_fetch_url-https web.net u e)).1)
      (λ e. tt)

-- With the strict policy, whatever DNS and the servers answer, and whatever URL was asked for, each
-- address that the bridge connects to is outside the networks of `Internal`, and each request is made
-- over https.
pub fetch_remote_file-Safe :
    (web : Web) (raw_url : Text) (max_bytes : ℕ)
    → All Safe (fetch_remote_file web none raw_url max_bytes).1
unfolding fetch_remote_file
fetch_remote_file-Safe web raw_url max_bytes =
    fetch_parsed-Safe web max_bytes (web.parse_url (normalize_drive_url web (trim_space raw_url)))
