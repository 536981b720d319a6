-- ===== src/Fetch/Content.antt =====
-- What `fetchRemoteFile` of whatsapp-bridge/fetch_url.go returns: the bounds and the origin of its bytes.
use whatsapp_mcp_plugin.Prelude.{
  ℕ, zero, suc, ◌+◌, ◌≤◌, ◌<◌, String, ◌≡◌, refl, ap, ◌∙◌, subst, false, not, Option, none, some,
  List, [], ◌∷◌, any, length, take, ltb, ◌==◌, if◌then◌else◌, if-cases, arith,
}
use whatsapp_mcp_plugin.Bytes.{Text, trim_space}
use whatsapp_mcp_plugin.Address.{Addr}
use whatsapp_mcp_plugin.Fetch.{
  Url, Response, Net, Answer, lost, redirect, final, FetchError, out_of_hops, bad_url,
  blocked_target, unresolved, dial_failed, request_failed, bad_status, html_body, too_large,
  read_failed, empty_body, Outcome, got, stop, Trace, AddrPolicy, validate_fetch_url,
  check_redirect, some_blocked, dial_each, connected, guarded_dial, Done, next_request, request,
  follow,
}
use whatsapp_mcp_plugin.Fetch.Remote.{
  Web, fetch_remote_file, fetch_parsed, normalize_drive_url, max_requests, received, accept_content,
  accept_response, is_html, declares_more, read_limited,
}
use whatsapp_mcp_plugin.Fetch.Name.{is_slash, fetch_name_hint, fetch_name_hint-flat}
use whatsapp_mcp_plugin.Fetch.Guarantee.{ServedBy, Came, follow-Safe, validate_fetch_url-https}

-- What holds of the bytes and the name hint that a download returns.
pub record IsDownload (web : Web) (max_bytes : ℕ) (content name : Text) : Type 0 where
  pub from : Url
  pub response : Response
  pub served : ServedBy web.net from response
  pub status_ok : response.status ≡ 200
  pub whole : content ≡ response.body
  pub non_empty : 0 < length content
  pub bounded : length content ≤ max_bytes
  pub not_declared_html : is_html response.content_type ≡ false
  pub not_html : is_html (web.detect_content_type content) ≡ false
  pub flat_name : any is_slash name ≡ false

take_short : (n : ℕ) (xs : Text) → length (take (suc n) xs) ≤ n → take (suc n) xs ≡ xs
take_short n [] h = refl
take_short zero (x ∷ xs) h = ground (arith, h)
take_short (suc n) (x ∷ xs) h = ap (λ t. x ∷ t) (take_short n xs (omega (arith, h)))

whole_body-take :
    (n : ℕ) (xs content : Text) → content ≡ take (suc n) xs → length content ≤ n → content ≡ xs
whole_body-take n xs content e h = e ∙ take_short n xs (subst (λ (t : Text). length t ≤ n) e h)

module _ (web : Web) (max_bytes : ℕ) where
  -- The outcome is a failure other than running out of hops, or a download.
  abbrev pub Ends : Outcome (Text × Text) → Type 0
  Ends (stop out_of_hops) = ⊥
  Ends (stop _) = Unit {0}
  Ends (got (content, name)) = IsDownload web max_bytes content name

  module _ (u : Url) (r : Response) (served : ServedBy web.net u r) (status_ok : r.status ≡ 200)
      (declared : is_html r.content_type ≡ false) where
    accept_content-Ends :
        (content : Text)
        → content ≡ take (suc max_bytes) r.body
        → Ends (accept_content web max_bytes r u content)
    unfolding accept_content
    accept_content-Ends content e =
        let name = fetch_name_hint (web.disposition_filename r.content_disposition) u.path in
        let html = is_html (web.detect_content_type content) in
        let last : Outcome (Text × Text) = if html then stop html_body else got (content, name) in
        let rest : Outcome (Text × Text) = if length content == 0 then stop empty_body else last in
        if-cases Ends (ltb max_bytes (length content)) (stop too_large) rest (λ b. tt)
          (λ small.
            if-cases Ends (length content == 0) (stop empty_body) last (λ b. tt)
              (λ full.
                if-cases Ends html (stop html_body) (got (content, name)) (λ b. tt)
                  (λ plain. record {
                    from = u;
                    response = r;
                    served = served;
                    status_ok = status_ok;
                    whole = whole_body-take max_bytes r.body content e (ground (arith, small));
                    non_empty = ground (arith, full);
                    bounded = ground (arith, small);
                    not_declared_html = declared;
                    not_html = plain;
                    flat_name =
                        fetch_name_hint-flat (web.disposition_filename r.content_disposition)
                          u.path;
                  })))

    read_limited-Ends :
        (o : Option Text)
        → o ≡ read_limited (suc max_bytes) r
        → Ends (elim o [
          | none ↦ stop read_failed
          | some content ↦ accept_content web max_bytes r u content
        ])
    read_limited-Ends none e = tt
    read_limited-Ends (some content) e = accept_content-Ends content (ground (arith, e))

  accept_response-Ends :
      (u : Url) (r : Response) → ServedBy web.net u r → Ends (accept_response web max_bytes (u, r))
  unfolding accept_response
  accept_response-Ends u r served =
      let read : Outcome (Text × Text) = elim (read_limited (suc max_bytes) r) [
        | none ↦ stop read_failed
        | some content ↦ accept_content web max_bytes r u content
      ] in
      let sized : Outcome (Text × Text) =
        if declares_more r.content_length max_bytes then stop too_large else read in
      let typed : Outcome (Text × Text) =
        if is_html r.content_type then stop html_body else sized in
      if-cases Ends (not (r.status == 200)) (stop bad_status) typed (λ b. tt)
        (λ ok.
          if-cases Ends (is_html r.content_type) (stop html_body) sized (λ b. tt)
            (λ declared.
              if-cases Ends (declares_more r.content_length max_bytes) (stop too_large) read
                (λ b. tt)
                (λ small.
                  read_limited-Ends u r served (ground (arith, ok)) declared
                    (read_limited (suc max_bytes) r) refl)))

abbrev Known {ℓ} : {A : Type ℓ} → Outcome A → Type 0
Known (stop out_of_hops) = ⊥
Known (stop _) = Unit {0}
Known (got _) = Unit {0}

abbrev KnownFirst {ℓ} : {A : Type ℓ} → Outcome A × Trace → Type 0
KnownFirst r = Known r.0

abbrev DialKnown : Outcome Addr × Trace → Type 0
DialKnown r = Known r.0

module _ (net : Net) where
  connected-Known :
      (policy : Option AddrPolicy) (r : Option Addr × Trace) → DialKnown (connected net policy r)
  connected-Known policy (none, t) = tt
  connected-Known policy (some a, t) = tt

  guarded_dial-Known : (n : ℕ) (host : String) → DialKnown (guarded_dial net none n host)
  unfolding guarded_dial
  guarded_dial-Known n host = go (net.lookup n host)
    where
      go :
          (found : Option (List Addr))
          → DialKnown (elim found [
            | none ↦ (stop unresolved, [])
            | some [] ↦ (stop blocked_target, [])
            | some (a ∷ rest) ↦
                if some_blocked net none (a ∷ rest)
                then (stop blocked_target, [])
                else connected net none (dial_each net none (a ∷ rest))
          ])
      go none = tt
      go (some []) = tt
      go (some (a ∷ rest)) =
          if-cases DialKnown (some_blocked net none (a ∷ rest)) (stop blocked_target, [])
            (connected net none (dial_each net none (a ∷ rest))) (λ e. tt)
            (λ e. connected-Known none (dial_each net none (a ∷ rest)))

  next_request-Known :
      (via : ℕ) (go : Url → Done net none) (u : Url) (answer : Answer)
      → ((target : Url) → suc via < 5 → KnownFirst (go target))
      → KnownFirst (next_request net none via go u answer)
  unfolding check_redirect
  next_request-Known via go u lost h = tt
  next_request-Known via go u (final r) h = tt
  next_request-Known via go u (redirect target) h =
      if-cases KnownFirst (check_redirect net none (suc via) target) (go target)
        (stop blocked_target, []) (λ ok. h target (ground (arith, ok))) (λ bad. tt)

  request-Known :
      (via : ℕ) (go : Url → Done net none) (u : Url) (d : Outcome Addr × Trace)
      → KnownFirst d
      → ((target : Url) → suc via < 5 → KnownFirst (go target))
      → KnownFirst (request net none via go u d)
  request-Known via go u (stop e, tried) k h = k
  request-Known via go u (got a, tried) k h = next_request-Known via go u (net.answer a u) h

  follow-Known :
      (hops via : ℕ) (u : Url) → 5 ≤ hops + via → via < 5 → KnownFirst (follow net none hops via u)
  unfolding follow
  follow-Known zero via u enough low = omega (arith, enough, low)
  follow-Known (suc hops) via u enough low =
      request-Known via (λ target. follow net none hops (suc via) target) u
        (guarded_dial net none via u.hostname) (guarded_dial-Known via u.hostname)
        (λ target lower. follow-Known hops (suc via) target (omega (arith, enough)) lower)

module _ (web : Web) (max_bytes : ℕ) where
  Known-end : (e : FetchError) → Known {A = Url × Response} (stop e) → Ends web max_bytes (stop e)
  Known-end blocked_target k = tt
  Known-end unresolved k = tt
  Known-end dial_failed k = tt
  Known-end bad_url k = tt
  Known-end request_failed k = tt
  Known-end out_of_hops k = k
  Known-end bad_status k = tt
  Known-end html_body k = tt
  Known-end too_large k = tt
  Known-end read_failed k = tt
  Known-end empty_body k = tt

  received-Ends :
      (o : Outcome (Url × Response))
      → Known o
      → Came web.net o
      → Ends web max_bytes (received web max_bytes o)
  received-Ends (stop e) k c = Known-end e k
  received-Ends (got (u, r)) k c = accept_response-Ends web max_bytes u r c

  fetch_parsed-Ends :
      (parsed : Option Url) → Ends web max_bytes (fetch_parsed web none max_bytes parsed).0
  unfolding fetch_parsed
  fetch_parsed-Ends none = tt
  fetch_parsed-Ends (some u) =
      let done = follow web.net none max_requests 0 u in
      if-cases (λ (r : Outcome (Text × Text) × Trace). Ends web max_bytes r.0)
        (validate_fetch_url web.net none u) (received web max_bytes done.0, done.1)
        (stop blocked_target, [])
        (λ e.
          received-Ends done.0 (follow-Known web.net max_requests 0 u (omega arith) (omega arith))
            (follow-Safe web.net max_requests 0 u (validate_fetch_url-https web.net u e)).0)
        (λ e. tt)

-- With the strict policy, a download either fails, never because the model's fuel for redirects ran out,
-- or returns bytes that are the whole body, of between 1 and max_bytes bytes, of a response with status
-- 200, which a server outside the internal networks gave to a request over https; neither the
-- response's content type nor the one detected in the bytes is HTML, and the name hint holds no slash.
pub fetch_remote_file-Ends :
    (web : Web) (raw_url : Text) (max_bytes : ℕ)
    → Ends web max_bytes (fetch_remote_file web none raw_url max_bytes).0
unfolding fetch_remote_file
fetch_remote_file-Ends web raw_url max_bytes =
    fetch_parsed-Ends web max_bytes (web.parse_url (normalize_drive_url web (trim_space raw_url)))
