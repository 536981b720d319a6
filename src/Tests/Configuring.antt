-- ===== src/Tests/Configuring.antt =====
-- A file `.env` and the environment that it fills in.
use whatsapp_mcp_plugin.Prelude.{◌≡◌, refl, false, some, [], ◌∷◌}
use whatsapp_mcp_plugin.Bytes.{bytes, equal}
use whatsapp_mcp_plugin.EnvFile.{Environment, EnvFile, lookup_env, env_line, apply_env_file}
use whatsapp_mcp_plugin.EnvFile.Wins.{or_later, first_value, apply_env_file-lookup}

abbrev file : EnvFile
file = record {
  open_fails = false;
  scan_fails = false;
  lines =
      bytes "# ports"
      ∷ bytes "export WHATSAPP_BRIDGE_PORT = 8081 # second"
      ∷ bytes "WHATSAPP_DB_PATH=\"/tmp/a #b\""
      ∷ bytes "WHATSAPP_BRIDGE_PORT=9"
      ∷ [];
}

abbrev process : Environment
process = (bytes "WHATSAPP_DB_PATH", bytes "/srv/db") ∷ []

port_is_first : first_value (bytes "WHATSAPP_BRIDGE_PORT") file.lines ≡ some (bytes "8081")
unfolding first_value bytes equal
port_is_first = refl

quoted_is_kept : env_line (bytes "A='x # y'") ≡ some (bytes "A", bytes "x # y")
unfolding env_line bytes
quoted_is_kept = refl

-- A quoted value with a comment after it keeps its quotes.
comment_after_quotes : env_line (bytes "A=\"x\" # y") ≡ some (bytes "A", bytes "\"x\" # y")
unfolding env_line bytes
comment_after_quotes = refl

-- A comment instead of a value becomes the value.
comment_as_value : env_line (bytes "A= # y") ≡ some (bytes "A", bytes "# y")
unfolding env_line bytes
comment_as_value = refl

apply_env_file-lookup_example :
    lookup_env (bytes "WHATSAPP_BRIDGE_PORT") (apply_env_file (λ k v. false) file process).env
    ≡ or_later
        (lookup_env (bytes "WHATSAPP_BRIDGE_PORT") process)
        (first_value (bytes "WHATSAPP_BRIDGE_PORT") file.lines)
apply_env_file-lookup_example =
    apply_env_file-lookup (bytes "WHATSAPP_BRIDGE_PORT") file process refl
