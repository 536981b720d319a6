-- ===== src/Fetch/Remote.antt =====
-- `normalizeDriveURL`, `isHTML` and `fetchRemoteFile` of whatsapp-bridge/fetch_url.go. What the code
-- calls in net/url, mime and net/http is `Web`.
use whatsapp_mcp_plugin.Prelude.{
  ℕ, suc, Bool, false, not, ◌&&◌, ◌||◌, Option, none, some, [], ◌∷◌, ◌++◌, ltb, leb, ◌==◌,
  if◌then◌else◌, length, take, drop,
}
use whatsapp_mcp_plugin.Bytes.{Text, bytes, equal, has_prefix, to_lower, trim_space}
use whatsapp_mcp_plugin.Fetch.{
  Url, Response, Net, blocked_target, bad_url, bad_status, html_body, too_large, read_failed,
  empty_body, Outcome, got, stop, Trace, AddrPolicy, validate_fetch_url, follow,
}
use whatsapp_mcp_plugin.Fetch.Name.{fetch_name_hint}

pub record Web : Type 0 where
  pub net : Net
  pub parse_url : Text → Option Url
  pub query_escape : Text → Text
  -- the `filename` parameter of a Content-Disposition header that parses
  pub disposition_filename : Text → Option Text
  pub detect_content_type : Text → Text

abbrev pub is_id_byte : ℕ → Bool
is_id_byte c =
    leb b'A' c && leb c b'Z'
    || leb b'a' c && leb c b'z'
    || leb b'0' c && leb c b'9'
    || c == b'_'
    || c == b'-'

abbrev pub id_span : Text → Text
id_span [] = []
id_span (c ∷ s) = let rest = id_span s in if is_id_byte c then c ∷ rest else []

-- `driveFileIDRE`: the leftmost match's group, none without a match.
unfoldable pub drive_file_id : Text → Option Text
unfolding has_prefix bytes
drive_file_id [] = none
drive_file_id (c ∷ s) =
    let rest = drive_file_id s in
    let id = id_span (drop 8 (c ∷ s)) in
    if has_prefix (c ∷ s) (bytes "/file/d/") && leb 10 (length id) then some id else rest

unfoldable pub is_drive_host : Text → Bool
unfolding equal bytes
is_drive_host host =
    equal host (bytes "drive.google.com")
    || equal host (bytes "docs.google.com")
    || equal host (bytes "drive.usercontent.google.com")

abbrev pub drive_id : Url → Text
drive_id u = elim (drive_file_id u.path) [ some id ↦ id | none ↦ u.query_id ]

unfoldable pub normalize_drive_url : Web → Text → Text
unfolding drive_file_id is_drive_host equal bytes to_lower
normalize_drive_url web raw = elim (web.parse_url raw) [
  | none ↦ raw
  | some u ↦
      if not (is_drive_host (to_lower (bytes u.hostname)))
      then raw
      else if equal (drive_id u) []
      then raw
      else bytes "https://drive.usercontent.google.com/download?id="
        ++ web.query_escape (drive_id u)
        ++ bytes "&export=download"
]

unfoldable pub is_html : Text → Bool
unfolding has_prefix to_lower trim_space bytes
is_html content_type = has_prefix (to_lower (trim_space content_type)) (bytes "text/html")

-- `resp.ContentLength > maxBytes`; an unknown length is -1.
abbrev pub declares_more : Option ℕ → ℕ → Bool
declares_more none limit = false
declares_more (some n) limit = ltb limit n

-- `io.ReadAll(io.LimitReader(resp.Body, n))`: a body that breaks off does so after the bytes of `body`.
abbrev pub read_limited : ℕ → Response → Option Text
read_limited n r = if r.body_fails && ltb (length r.body) n then none else some (take n r.body)

unfoldable pub accept_content : Web → ℕ → Response → Url → Text → Outcome (Text × Text)
unfolding is_html fetch_name_hint
accept_content web max_bytes r named content =
    if ltb max_bytes (length content)
    then stop too_large
    else if length content == 0
    then stop empty_body
    else if is_html (web.detect_content_type content)
    then stop html_body
    else got (content, fetch_name_hint (web.disposition_filename r.content_disposition) named.path)

-- `fetchRemoteFile` from the response on.
unfoldable pub accept_response : Web → ℕ → Url × Response → Outcome (Text × Text)
unfolding accept_content is_html
accept_response web max_bytes (named, r) =
    if not (r.status == 200)
    then stop bad_status
    else if is_html r.content_type
    then stop html_body
    else if declares_more r.content_length max_bytes
    then stop too_large
    else elim (read_limited (suc max_bytes) r) [
      | none ↦ stop read_failed
      | some content ↦ accept_content web max_bytes r named content
    ]

-- The requests that `Do` can make; `check_redirect` refuses the sixth.
abbrev pub max_requests : ℕ
max_requests = 5

abbrev pub received : Web → ℕ → Outcome (Url × Response) → Outcome (Text × Text)
received web max_bytes (stop e) = stop e
received web max_bytes (got answer) = accept_response web max_bytes answer

-- `fetchRemoteFile` from the parsed URL on.
unfoldable pub fetch_parsed :
    Web → Option AddrPolicy → ℕ → Option Url → Outcome (Text × Text) × Trace
unfolding follow validate_fetch_url accept_response
fetch_parsed web policy max_bytes none = (stop bad_url, [])
fetch_parsed web policy max_bytes (some u) =
    let done = follow web.net policy max_requests 0 u in
    if validate_fetch_url web.net policy u
    then (received web max_bytes done.0, done.1)
    else (stop blocked_target, [])

-- The bytes and the name hint, with what was done on the network.
unfoldable pub fetch_remote_file :
    Web → Option AddrPolicy → Text → ℕ → Outcome (Text × Text) × Trace
unfolding fetch_parsed normalize_drive_url trim_space
fetch_remote_file web policy raw_url max_bytes =
    fetch_parsed web policy max_bytes (web.parse_url (normalize_drive_url web (trim_space raw_url)))
