-- ===== src/Markers.antt =====
-- The markers that stand for a message that could not be read, and the counters of /healthcheck that read
-- them back: whatsapp-bridge/raw_type.go, whatsapp-bridge/undecryptable.go (the markers and the failure
-- modes) and the markers of whatsapp-bridge/bridge.go. Counters per name are functions of the name.
pub mod Modes
pub mod RoundTrip
use whatsapp_mcp_plugin.Prelude.{
  ℕ, ◌+◌, Bool, true, false, ◌&&◌, ◌||◌, not, Option, none, some, List, [], ◌∷◌, ◌++◌, where_rows,
  length, take, drop, leb, ltb, ◌==◌, if◌then◌else◌,
}
use mathlib.Core.List.{reverse}
use whatsapp_mcp_plugin.Bytes.{Text, bytes, equal, has_prefix}

unfoldable pub undecryptable_prefix : Text
unfolding bytes
undecryptable_prefix = bytes "[undecryptable: "

unfoldable pub unsupported_prefix : Text
unfolding bytes
unsupported_prefix = bytes "[unsupported: "

unfoldable pub marker_suffix : Text
unfolding bytes
marker_suffix = bytes "]"

-- `strings.HasSuffix(s, p)`
unfoldable pub has_suffix : Text → Text → Bool
unfolding has_prefix
has_suffix s p = has_prefix (reverse s) (reverse p)

unfoldable pub undecryptable_marker : Text → Text
unfolding undecryptable_prefix marker_suffix
undecryptable_marker mode = undecryptable_prefix ++ mode ++ marker_suffix

unfoldable pub unsupported_marker : Text → Text
unfolding unsupported_prefix marker_suffix
unsupported_marker raw_type = unsupported_prefix ++ raw_type ++ marker_suffix

-- `text[len(prefix):len(text)-1]`, where `text` has the prefix and ends in the one byte of the suffix.
abbrev pub drop_last : Text → Text
drop_last [] = []
drop_last (c ∷ []) = []
drop_last (c ∷ d ∷ s) = c ∷ drop_last (d ∷ s)

unfoldable pub undecryptable_fail_mode : Text → Text
unfolding undecryptable_prefix marker_suffix has_prefix has_suffix
undecryptable_fail_mode text =
    if not (has_prefix text undecryptable_prefix) || not (has_suffix text marker_suffix)
    then []
    else drop_last (drop (length undecryptable_prefix) text)

unfoldable pub unsupported_raw_type : Text → Text
unfolding unsupported_prefix marker_suffix has_prefix has_suffix
unsupported_raw_type text =
    if not (has_prefix text unsupported_prefix) || not (has_suffix text marker_suffix)
    then []
    else drop_last (drop (length unsupported_prefix) text)

unfoldable pub raw_type_namespace_undecryptable : Text
unfolding bytes
raw_type_namespace_undecryptable = bytes "undecryptable:"

unfoldable pub raw_type_unknown : Text
unfolding bytes
raw_type_unknown = bytes "unknown"

unfoldable pub raw_type_empty_system : Text
unfolding bytes
raw_type_empty_system = bytes "empty:system"

-- What `rawTypeForStorage` does with a text that is no whole marker.
unfoldable pub malformed_raw_type : Text → Text → Text
unfolding undecryptable_prefix unsupported_prefix has_prefix equal bytes
    raw_type_namespace_undecryptable raw_type_unknown raw_type_empty_system
malformed_raw_type msg_type content_text =
    if has_prefix content_text undecryptable_prefix
    then raw_type_namespace_undecryptable ++ raw_type_unknown
    else if has_prefix content_text unsupported_prefix
    then raw_type_unknown
    else if equal msg_type (bytes "system") && equal content_text []
    then raw_type_empty_system
    else []

unfoldable pub raw_type_for_storage : Text → Text → Text
unfolding undecryptable_fail_mode unsupported_raw_type malformed_raw_type equal
    raw_type_namespace_undecryptable
raw_type_for_storage msg_type content_text =
    let mode = undecryptable_fail_mode content_text in
    let raw = unsupported_raw_type content_text in
    if not (equal mode [])
    then raw_type_namespace_undecryptable ++ mode
    else if not (equal raw [])
    then raw
    else malformed_raw_type msg_type content_text

-- `rawTypeNullable`, `none` for NULL
unfoldable pub raw_type_nullable : Text → Text → Option Text
unfolding raw_type_for_storage equal
raw_type_nullable msg_type content_text =
    let raw = raw_type_for_storage msg_type content_text in if equal raw [] then none else some raw

pub record DecodeStats : Type 0 where
  pub undecoded_total : ℕ
  pub undecoded_by_type : Text → ℕ
  pub undecryptable_total : ℕ
  pub undecryptable_by_mode : Text → ℕ
  pub legacy_empty_system : ℕ

-- `m[key] += n`
unfoldable pub add_at : Text → ℕ → (Text → ℕ) → Text → ℕ
unfolding equal
add_at key n m k = if equal key k then m k + n else m k

abbrev pub or_unknown : Text → Text
or_unknown [] = raw_type_unknown
or_unknown (c ∷ s) = c ∷ s

unfoldable pub split_raw_type_count : Text → ℕ → DecodeStats → DecodeStats
unfolding add_at has_prefix equal raw_type_namespace_undecryptable raw_type_empty_system
    raw_type_unknown
split_raw_type_count raw_type n st =
    let mode = or_unknown (drop (length raw_type_namespace_undecryptable) raw_type) in
    let raw = or_unknown raw_type in
    if equal raw_type raw_type_empty_system
    then record st { legacy_empty_system = st.legacy_empty_system + n }
    else if has_prefix raw_type raw_type_namespace_undecryptable
    then record st {
      undecryptable_by_mode = add_at mode n st.undecryptable_by_mode;
      undecryptable_total = st.undecryptable_total + n;
    }
    else record st {
      undecoded_by_type = add_at raw n st.undecoded_by_type;
      undecoded_total = st.undecoded_total + n;
    }

-- `sanitizeModeToken`: bytes of runes outside ASCII are above all of the kept ones.
abbrev pub is_mode_byte : ℕ → Bool
is_mode_byte c =
    leb b'a' c && leb c b'z'
    || leb b'A' c && leb c b'Z'
    || leb b'0' c && leb c b'9'
    || c == b'_'
    || c == b'-'

unfoldable pub sanitize_mode_token : Text → Text
sanitize_mode_token s =
    let kept = where_rows is_mode_byte s in if ltb 40 (length kept) then take 40 kept else kept

-- The fields of `events.UndecryptableMessage` that the mode is made of.
pub record Undecryptable : Type 0 where
  pub is_unavailable : Bool
  pub unavailable_type : Text
  pub hide : Bool

abbrev pub with_type : Text → Text → Text
with_type mode [] = mode
with_type mode (c ∷ t) = mode ++ bytes ":" ++ c ∷ t

-- `decryptFailureMode` of an event that is not nil
unfoldable pub decrypt_failure_mode : Undecryptable → Text
unfolding sanitize_mode_token bytes
decrypt_failure_mode evt =
    let start = if evt.is_unavailable then bytes "unavailable" else bytes "decrypt-failed" in
    let mode = with_type start (sanitize_mode_token evt.unavailable_type) in
    if evt.hide then mode ++ bytes ":hide" else mode
