-- ===== src/Tests/Fetching.antt =====
-- A download that a redirect leads elsewhere, and one that DNS leads inward.
use whatsapp_mcp_plugin.Prelude.{
  ◌+◌, ◌*◌, ◌^◌, ◌≡◌, ◌≢◌, ◌↔◌, refl, true, false, none, some, [], ◌∷◌, All, same,
}
use whatsapp_mcp_plugin.Address.{Addr, v4, v6, blocked_ip}
use whatsapp_mcp_plugin.Address.Ranges.{Internal, blocked_ip-Internal}
use whatsapp_mcp_plugin.Fetch.{
  Url, Response, Net, redirect, final, blocked_target, got, stop, dialed, requested,
}
use whatsapp_mcp_plugin.Fetch.Remote.{Web, fetch_remote_file}
use whatsapp_mcp_plugin.Fetch.Guarantee.{Safe, fetch_remote_file-Safe}
use whatsapp_mcp_plugin.Fetch.Content.{Ends, fetch_remote_file-Ends}

-- ::ffff:169.254.169.254
abbrev metadata : Addr
metadata = v6 (0xffff * 2 ^ 32 + 169 * 2 ^ 24 + 254 * 2 ^ 16 + 169 * 2 ^ 8 + 254)

blocked_ip-Internal_example : (blocked_ip metadata ≢ none) ↔ Internal metadata
blocked_ip-Internal_example = blocked_ip-Internal metadata

-- 93.184.216.34
abbrev public_addr : Addr
public_addr = v4 (93 * 2 ^ 24 + 184 * 2 ^ 16 + 216 * 2 ^ 8 + 34)

abbrev first_url : Url
first_url = record { scheme = "https"; hostname = "short.example"; path = b'/' ∷ []; query_id = [] }

abbrev file_url : Url
file_url = record {
  scheme = "https";
  hostname = "cdn.example";
  path = b'/' ∷ b'f' ∷ b'/' ∷ b'a' ∷ [];
  query_id = [];
}

abbrev inward_url : Url
inward_url = record { scheme = "https"; hostname = "evil.example"; path = b'/' ∷ []; query_id = [] }

abbrev response : Response
response = record {
  status = 200;
  content_type = [];
  content_disposition = [];
  content_length = none;
  body = 1 ∷ 2 ∷ 3 ∷ [];
  body_fails = false;
}

abbrev net : Net
net = record {
  parse_addr = λ _. none;
  lookup = λ n host. elim (same host "evil.example") [
    | true ↦ some (public_addr ∷ metadata ∷ [])
    | false ↦ some (public_addr ∷ [])
  ];
  dials = λ _. true;
  answer = λ a u. elim (same u.hostname "short.example") [
    | true ↦ redirect file_url
    | false ↦ final response
  ];
}

-- The one-byte URL is the file's, the empty one leads inward.
abbrev web : Web
web = record {
  net = net;
  parse_url = λ raw. elim raw [ [] ↦ some inward_url | _ ∷ _ ↦ some first_url ];
  query_escape = λ t. t;
  disposition_filename = λ _. none;
  detect_content_type = λ _. [];
}

download_run : fetch_remote_file web none (b'x' ∷ []) 3 ≡ (
  got (1 ∷ 2 ∷ 3 ∷ [], b'a' ∷ []),
  dialed public_addr
      ∷ requested public_addr first_url
      ∷ dialed public_addr
      ∷ requested public_addr file_url
      ∷ [],
)
unfolding fetch_remote_file blocked_ip
download_run = refl

inward_run : fetch_remote_file web none [] 3 ≡ (stop blocked_target, [])
unfolding fetch_remote_file blocked_ip
inward_run = refl

fetch_remote_file-Safe_example : All Safe (fetch_remote_file web none (b'x' ∷ []) 3).1
fetch_remote_file-Safe_example = fetch_remote_file-Safe web (b'x' ∷ []) 3

fetch_remote_file-Ends_example : Ends web 3 (fetch_remote_file web none (b'x' ∷ []) 3).0
fetch_remote_file-Ends_example = fetch_remote_file-Ends web (b'x' ∷ []) 3
