-- ===== src/Vault/Render.antt =====
-- `renderMessageText` and `escapeYAML` (whatsapp-bridge/export_vault.go): the texts in a chat file.
use whatsapp_mcp_plugin.Prelude.{not, [], ◌∷◌, ◌++◌, ◌==◌, if◌then◌else◌}
use whatsapp_mcp_plugin.Bytes.{Text, bytes, equal, is_blank}
use whatsapp_mcp_plugin.Markers.{undecryptable_fail_mode, unsupported_raw_type}

abbrev pub in_label : Text → Text → Text
in_label label text =
    if is_blank text
    then b'[' ∷ label ++ bytes "]"
    else b'[' ∷ label ++ bytes ": " ++ text ++ bytes "]"

abbrev pub after_label : Text → Text → Text
after_label label transcript =
    if is_blank transcript then label else label ++ bytes " " ++ transcript

-- `renderMessageText`
unfoldable pub render_message_text : Text → Text → Text → Text
unfolding equal bytes undecryptable_fail_mode unsupported_raw_type
render_message_text msg_type text transcript =
    if equal msg_type (bytes "voice")
    then after_label (bytes "[Voice note]") transcript
    else if equal msg_type (bytes "audio")
    then after_label (bytes "[Audio]") transcript
    else if equal msg_type (bytes "image")
    then in_label (bytes "Image") text
    else if equal msg_type (bytes "video")
    then in_label (bytes "Video") text
    else if equal msg_type (bytes "document")
    then bytes "[Document] " ++ text
    else if equal msg_type (bytes "sticker")
    then bytes "[Sticker]"
    else if equal msg_type (bytes "location")
    then in_label (bytes "Location") text
    else if equal msg_type (bytes "contact")
    then in_label (bytes "Contact") text
    else if equal msg_type (bytes "reaction")
    then bytes "[Reaction: " ++ text ++ bytes "]"
    else if not (is_blank (undecryptable_fail_mode text))
    then bytes "[Undecryptable message: " ++ undecryptable_fail_mode text ++ bytes "]"
    else if not (is_blank (unsupported_raw_type text))
    then bytes "[Unsupported message: " ++ unsupported_raw_type text ++ bytes "]"
    else text

-- `escapeYAML`
unfoldable pub escape_yaml : Text → Text
escape_yaml [] = []
escape_yaml (c ∷ s) =
    let rest = escape_yaml s in if c == b'"' then b'\\' ∷ b'"' ∷ rest else c ∷ rest
