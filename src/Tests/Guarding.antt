-- ===== src/Tests/Guarding.antt =====
-- The origin guard with one configured origin.
use whatsapp_mcp_plugin.Prelude.{◌≡◌, refl, ◌↔◌, ◌⊎◌, true, none, List, [], ◌∷◌}
use whatsapp_mcp_plugin.Bytes.{Text, bytes, equal}
use whatsapp_mcp_plugin.OriginGuard.{
  HostNames, new_origin_guard, passed, forbidden_host, forbidden_origin, serve_http,
}
use whatsapp_mcp_plugin.OriginGuard.Names.{IsLocal}
use whatsapp_mcp_plugin.OriginGuard.Allowed.{IsListed, serve_http-passed}

abbrev names : HostNames
names = record { split_host_port = λ _. none; parse_ip = λ _. none }

abbrev localhost : Text
localhost = bytes "LOCALHOST"

abbrev configured : List Text
configured = bytes " http://gui.test/ " ∷ bytes " " ∷ []

gui_run :
    serve_http names (new_origin_guard configured) localhost (bytes "HTTP://gui.test") ≡ passed
unfolding serve_http new_origin_guard bytes
gui_run = refl

page_run :
    serve_http names (new_origin_guard configured) localhost (bytes "https://evil.example")
    ≡ forbidden_origin
unfolding serve_http new_origin_guard bytes
page_run = refl

rebinding_run : serve_http names [] (bytes "evil.example") [] ≡ forbidden_host
unfolding serve_http bytes
rebinding_run = refl

serve_http-passed_example :
    (serve_http names (new_origin_guard configured) localhost (bytes "http://gui.test") ≡ passed)
    ↔ (IsLocal names localhost
        × ((equal (bytes "http://gui.test") [] ≡ true)
            ⊎ IsListed (bytes "http://gui.test") configured))
serve_http-passed_example = serve_http-passed names configured localhost (bytes "http://gui.test")
