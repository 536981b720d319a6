-- ===== src/Markers/RoundTrip.antt =====
-- From a marker to its counter: whatsapp-bridge/raw_type.go and whatsapp-bridge/undecryptable.go.
use mathlib.Core.List.{reverse-append}
use whatsapp_mcp_plugin.Prelude.{
  ℕ, ◌+◌, ◌≡◌, refl, ap, Bool, true, false, [], ◌∷◌, ◌++◌, length, drop, drop, if◌then◌else◌,
  if-cases, arith,
}
use whatsapp_mcp_plugin.Bytes.{Text, bytes, equal, has_prefix}
use whatsapp_mcp_plugin.Markers.{
  undecryptable_prefix, unsupported_prefix, marker_suffix, has_suffix, undecryptable_marker,
  unsupported_marker, drop_last, undecryptable_fail_mode, unsupported_raw_type,
  raw_type_namespace_undecryptable, raw_type_empty_system, raw_type_for_storage, DecodeStats,
  add_at, split_raw_type_count, or_unknown, Undecryptable, with_type, sanitize_mode_token,
  decrypt_failure_mode,
}

drop_last-append : (s : Text) (c : ℕ) → drop_last (s ++ c ∷ []) ≡ s
drop_last-append [] c = refl
drop_last-append (a ∷ []) c = refl
drop_last-append (a ∷ b ∷ s) c = ap (λ t. a ∷ t) (drop_last-append (b ∷ s) c)

has_suffix-append : (s : Text) → has_suffix (s ++ marker_suffix) marker_suffix ≡ true
unfolding has_suffix has_prefix marker_suffix bytes
has_suffix-append s = rw (reverse-append s (b']' ∷ [])) refl

fail_mode-marker : (mode : Text) → undecryptable_fail_mode (undecryptable_marker mode) ≡ mode
unfolding undecryptable_fail_mode undecryptable_marker undecryptable_prefix marker_suffix has_prefix
    bytes
fail_mode-marker mode =
    rw (has_suffix-append (undecryptable_prefix ++ mode)) (drop_last-append mode b']')

raw_type-marker : (raw : Text) → unsupported_raw_type (unsupported_marker raw) ≡ raw
unfolding unsupported_raw_type unsupported_marker unsupported_prefix marker_suffix has_prefix bytes
raw_type-marker raw = rw (has_suffix-append (unsupported_prefix ++ raw)) (drop_last-append raw b']')

fail_mode-unsupported : (raw : Text) → undecryptable_fail_mode (unsupported_marker raw) ≡ []
unfolding undecryptable_fail_mode unsupported_marker undecryptable_prefix unsupported_prefix
    marker_suffix has_prefix bytes
fail_mode-unsupported raw = refl

-- A message row that holds the marker of a named failure mode has the raw type that names that mode, in
-- the namespace of undecryptable messages.
pub raw_type_for_storage-undecryptable :
    (msg_type mode : Text)
    → equal mode [] ≡ false
    → raw_type_for_storage msg_type (undecryptable_marker mode)
      ≡ raw_type_namespace_undecryptable ++ mode
unfolding raw_type_for_storage
raw_type_for_storage-undecryptable msg_type mode h = rw (fail_mode-marker mode, h) refl

-- A message row that holds the marker of a named unsupported type has that name as its raw type.
pub raw_type_for_storage-unsupported :
    (msg_type raw : Text)
    → equal raw [] ≡ false
    → raw_type_for_storage msg_type (unsupported_marker raw) ≡ raw
unfolding raw_type_for_storage equal
raw_type_for_storage-unsupported msg_type raw h =
    rw (fail_mode-unsupported raw, raw_type-marker raw, h) refl

append-named : (s t : Text) → equal s [] ≡ false → equal (s ++ t) [] ≡ false
unfolding equal
append-named [] t h = ground (arith, h)
append-named (c ∷ s) t h = refl

with_type-named : (mode t : Text) → equal mode [] ≡ false → equal (with_type mode t) [] ≡ false
with_type-named mode [] h = h
with_type-named mode (c ∷ t) h =
    append-named (mode ++ bytes ":") (c ∷ t) (append-named mode (bytes ":") h)

start-named :
    (unavailable : Bool)
    → equal (if unavailable then bytes "unavailable" else bytes "decrypt-failed") [] ≡ false
unfolding equal bytes
start-named true = refl
start-named false = refl

pub decrypt_failure_mode-named : (evt : Undecryptable) → equal (decrypt_failure_mode evt) [] ≡ false
unfolding decrypt_failure_mode
decrypt_failure_mode-named evt =
    let start = if evt.is_unavailable then bytes "unavailable" else bytes "decrypt-failed" in
    let mode = with_type start (sanitize_mode_token evt.unavailable_type) in
    let named =
      with_type-named start (sanitize_mode_token evt.unavailable_type)
        (start-named evt.is_unavailable) in
    if-cases (λ (t : Text). equal t [] ≡ false) evt.hide (mode ++ bytes ":hide") mode
      (λ h. append-named mode (bytes ":hide") named) (λ h. named)

split-namespace :
    (mode : Text) (n : ℕ) (st : DecodeStats)
    → equal mode [] ≡ false
    → split_raw_type_count (raw_type_namespace_undecryptable ++ mode) n st ≡ record st {
      undecryptable_by_mode = add_at mode n st.undecryptable_by_mode;
      undecryptable_total = st.undecryptable_total + n;
    }
unfolding split_raw_type_count equal has_prefix raw_type_namespace_undecryptable
    raw_type_empty_system bytes
split-namespace [] n st h = ground (arith, h)
split-namespace (c ∷ mode) n st h = refl

-- What the row of an undecryptable message adds to the counters of /healthcheck: its failure mode, under
-- that mode's own name, and the total of undecryptable messages, and nothing else.
pub split_raw_type_count-undecryptable :
    (evt : Undecryptable) (msg_type : Text) (n : ℕ) (st : DecodeStats)
    → let mode = decrypt_failure_mode evt in
      split_raw_type_count (raw_type_for_storage msg_type (undecryptable_marker mode)) n st
      ≡ record st {
        undecryptable_by_mode = add_at mode n st.undecryptable_by_mode;
        undecryptable_total = st.undecryptable_total + n;
      }
split_raw_type_count-undecryptable evt msg_type n st =
    let mode = decrypt_failure_mode evt in
    let named = decrypt_failure_mode-named evt in
    rw (raw_type_for_storage-undecryptable msg_type mode named) (split-namespace mode n st named)

split-plain :
    (raw : Text) (n : ℕ) (st : DecodeStats)
    → equal raw [] ≡ false
    → equal raw raw_type_empty_system ≡ false
    → has_prefix raw raw_type_namespace_undecryptable ≡ false
    → split_raw_type_count raw n st ≡ record st {
      undecoded_by_type = add_at raw n st.undecoded_by_type;
      undecoded_total = st.undecoded_total + n;
    }
unfolding split_raw_type_count equal
split-plain [] n st h e p = ground (arith, h)
split-plain (c ∷ raw) n st h e p = rw (e, p) refl

-- What the row of an unsupported message adds to the counters: its type, under that type's own name, and
-- the total of undecoded messages, and nothing else. The type is not empty, and neither in the namespace
-- of undecryptable messages nor the mark of an empty row, as no name of a field of a protocol message is.
pub split_raw_type_count-unsupported :
    (raw msg_type : Text) (n : ℕ) (st : DecodeStats)
    → equal raw [] ≡ false
    → equal raw raw_type_empty_system ≡ false
    → has_prefix raw raw_type_namespace_undecryptable ≡ false
    → split_raw_type_count (raw_type_for_storage msg_type (unsupported_marker raw)) n st
      ≡ record st {
        undecoded_by_type = add_at raw n st.undecoded_by_type;
        undecoded_total = st.undecoded_total + n;
      }
split_raw_type_count-unsupported raw msg_type n st named not_empty not_mode =
    rw (raw_type_for_storage-unsupported msg_type raw named)
      (split-plain raw n st named not_empty not_mode)

abbrev pub total : DecodeStats → ℕ
total st = st.undecoded_total + st.undecryptable_total + st.legacy_empty_system

-- Every row of the grouped count goes into exactly one counter: whatever the raw type, the three totals
-- together grow by the row's count.
pub split_raw_type_count-total :
    (raw : Text) (n : ℕ) (st : DecodeStats) → total (split_raw_type_count raw n st) ≡ total st + n
unfolding split_raw_type_count
split_raw_type_count-total raw n st =
    let mode = or_unknown (drop (length raw_type_namespace_undecryptable) raw) in
    let Grown = λ (after : DecodeStats). total after ≡ total st + n in
    let undecoded : DecodeStats = record st {
      undecoded_by_type = add_at (or_unknown raw) n st.undecoded_by_type;
      undecoded_total = st.undecoded_total + n;
    } in
    let undecryptable : DecodeStats = record st {
      undecryptable_by_mode = add_at mode n st.undecryptable_by_mode;
      undecryptable_total = st.undecryptable_total + n;
    } in
    let test = has_prefix raw raw_type_namespace_undecryptable in
    if-cases Grown (equal raw raw_type_empty_system)
      (record st { legacy_empty_system = st.legacy_empty_system + n })
      (if test then undecryptable else undecoded) (λ h. omega arith)
      (λ h. if-cases Grown test undecryptable undecoded (λ k. omega arith) (λ k. omega arith))
