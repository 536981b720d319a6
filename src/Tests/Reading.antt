-- ===== src/Tests/Reading.antt =====
-- The markers of unreadable messages and their counters.
use whatsapp_mcp_plugin.Prelude.{◌≡◌, refl, true, false, [], ◌∷◌}
use whatsapp_mcp_plugin.Bytes.{Text, bytes, equal, has_prefix}
use whatsapp_mcp_plugin.Markers.{
  Undecryptable, DecodeStats, decrypt_failure_mode, undecryptable_marker, raw_type_for_storage,
  raw_type_namespace_undecryptable, raw_type_empty_system, split_raw_type_count, add_at,
}
use whatsapp_mcp_plugin.Markers.RoundTrip.{split_raw_type_count-undecryptable}

abbrev event : Undecryptable
event = record { is_unavailable = true; unavailable_type = b'v' ∷ b']' ∷ b'o' ∷ []; hide = true }

mode_run : decrypt_failure_mode event ≡ bytes "unavailable:vo:hide"
unfolding decrypt_failure_mode bytes
mode_run = refl

abbrev no_stats : DecodeStats
no_stats = record {
  undecoded_total = 0;
  undecoded_by_type = λ _. 0;
  undecryptable_total = 0;
  undecryptable_by_mode = λ _. 0;
  legacy_empty_system = 0;
}

split_raw_type_count-undecryptable_example :
    split_raw_type_count
      (raw_type_for_storage (bytes "system") (undecryptable_marker (decrypt_failure_mode event)))
      2
      no_stats
    ≡ record no_stats {
      undecryptable_by_mode = add_at (decrypt_failure_mode event) 2 (λ _. 0);
      undecryptable_total = 2;
    }
split_raw_type_count-undecryptable_example =
    split_raw_type_count-undecryptable event (bytes "system") 2 no_stats

abbrev pin : Text
pin = b'p' ∷ b'i' ∷ b'n' ∷ []

pin-plain : equal pin raw_type_empty_system ≡ false
unfolding equal raw_type_empty_system bytes
pin-plain = refl

pin-named : equal pin [] ≡ false
unfolding equal
pin-named = refl

pin-outside : has_prefix pin raw_type_namespace_undecryptable ≡ false
unfolding has_prefix raw_type_namespace_undecryptable bytes
pin-outside = refl
