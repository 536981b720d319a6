-- ===== src/Archive/Symmetric.antt =====
-- The table `jid_aliases` of whatsapp-bridge/aliases.go through the arrivals of messages: the two JIDs of
-- a person lead to each other.
use whatsapp_mcp_plugin.Prelude.{
  any-append, ℕ, ◌≡◌, refl, sym, ap, ◌∙◌, inl, inr, String, Bool, true, false, ◌&&◌, ◌||◌, not,
  List, [], ◌∷◌, ◌++◌, any, same, same→eq, if◌then◌else◌, if-cases, Bool-cases, arith, eq_iff,
}
use whatsapp_mcp_plugin.Bytes.{Text}
use whatsapp_mcp_plugin.Archive.{Jid, AliasRow, Archive}
use whatsapp_mcp_plugin.Archive.Aliases.{
  is_edge, insert_alias, record_jid_alias, add_unseen, edges_from, resolve_aliases,
}
use whatsapp_mcp_plugin.Archive.Events.{
  Arrival, message, undecryptable, message_alias, on_message, on_undecryptable_message, is_stored,
  arrive, arrive_all,
}

-- Every edge has its reverse, and none leads to itself or to nothing.
pub record IsLinked (rows : List AliasRow) : Type 0 where
  pub back : (a b : String) → any (is_edge a b) rows ≡ any (is_edge b a) rows
  pub distinct : (a : String) → any (is_edge a a) rows ≡ false
  pub no_empty : (a : String) → any (is_edge a "") rows ≡ false

edge_same :
    (a b c d : String) (rows : List AliasRow)
    → same c a ≡ true
    → same d b ≡ true
    → any (is_edge c d) rows ≡ any (is_edge a b) rows
edge_same a b c d rows e h = rw (same→eq c a e, same→eq d b h) refl

any-insert_alias :
    (a b : String) (row : AliasRow) (rows : List AliasRow)
    → any (is_edge a b) (insert_alias row rows) ≡ (is_edge a b row || any (is_edge a b) rows)
unfolding insert_alias
any-insert_alias a b row rows =
    if-cases (λ out. any (is_edge a b) out ≡ (is_edge a b row || any (is_edge a b) rows))
      (any (is_edge row.jid_a row.jid_b) rows) rows (rows ++ row ∷ [])
      (λ e. ground (arith, e, edge_same a b row.jid_a row.jid_b rows))
      (λ e. any-append (is_edge a b) rows (row ∷ []) ∙ ground arith)

record_jid_alias-IsLinked :
    (fails : Bool) (a b : Jid) (source : String) (ts : ℕ) (rows : List AliasRow)
    → IsLinked rows
    → IsLinked (record_jid_alias fails a b source ts rows)
unfolding record_jid_alias
record_jid_alias-IsLinked fails a b source ts rows l =
    let there : AliasRow = record {
      jid_a = a.text;
      jid_b = b.text;
      discovered_at = ts;
      source = source;
    } in
    let back : AliasRow = record {
      jid_a = b.text;
      jid_b = a.text;
      discovered_at = ts;
      source = source;
    } in
    let both = insert_alias back (insert_alias there rows) in
    let known = λ (x y : String).
      any-insert_alias x y back (insert_alias there rows)
      ∙ ap (λ e. is_edge x y back || e) (any-insert_alias x y there rows) in
    let refused = same a.text "" || same b.text "" || same a.text b.text in
    if-cases IsLinked (a.is_empty || b.is_empty) rows
      (if refused then rows else if fails then rows else both) (λ e. l)
      (λ e.
        if-cases IsLinked refused rows (if fails then rows else both) (λ e. l)
          (λ proper.
            if-cases IsLinked fails rows both (λ e. l)
              (λ e. record {
                back = λ x y. known x y ∙ ground (arith, l.back x y) ∙ sym (known y x);
                distinct = λ x.
                    known x x
                    ∙ ground (
                      arith,
                      l.distinct x,
                      proper,
                      eq_iff a.text x,
                      eq_iff b.text x,
                      eq_iff a.text b.text,
                    );
                no_empty = λ x. known x "" ∙ ground (arith, l.no_empty x, proper);
              })))

arrive-IsLinked :
    (normalize : Text → Text) (a : Arrival) (db : Archive)
    → IsLinked db.aliases
    → IsLinked (arrive normalize a db).aliases
unfolding arrive on_message message_alias on_undecryptable_message
arrive-IsLinked normalize (message f info d) db l =
    let rows = db.aliases in
    let sent =
      record_jid_alias f.alias_fails info.chat info.recipient_alt "message_recipient" info.timestamp
        rows in
    let received =
      record_jid_alias f.alias_fails info.sender info.sender_alt "message_sender" info.timestamp
        rows in
    let recorded =
      if-cases IsLinked info.is_from_me sent received
        (λ e.
          record_jid_alias-IsLinked f.alias_fails info.chat info.recipient_alt "message_recipient"
            info.timestamp rows l)
        (λ e.
          record_jid_alias-IsLinked f.alias_fails info.sender info.sender_alt "message_sender"
            info.timestamp rows l) in
    elim (Bool-cases info.is_group) [ inl e ↦ rw e l | inr e ↦ rw e recorded ]
arrive-IsLinked normalize (undecryptable f info failure) db l =
    let rows = db.aliases in
    let received =
      record_jid_alias f.alias_fails info.sender info.sender_alt "message_sender" info.timestamp
        rows in
    let recorded =
      if-cases IsLinked info.is_group rows received (λ e. l)
        (λ e.
          record_jid_alias-IsLinked f.alias_fails info.sender info.sender_alt "message_sender"
            info.timestamp rows l) in
    elim (Bool-cases (same info.id "")) [
      | inl e ↦ rw e l
      | inr e ↦ elim (Bool-cases f.message_fails) [
        | inl h ↦ rw (e, h) l
        | inr h ↦ elim (Bool-cases (is_stored info.id db.messages)) [
          | inl there ↦ rw (e, h, there) l
          | inr new ↦ rw (e, h, new) recorded
        ]
      ]
    ]

-- Whatever arrives, in any order and with any statements failing: every recorded edge has its reverse,
-- and none leads to itself or to the empty text.
pub arrive_all-IsLinked :
    (normalize : Text → Text) (arrivals : List Arrival) (db : Archive)
    → IsLinked db.aliases
    → IsLinked (arrive_all normalize arrivals db).aliases
unfolding arrive_all
arrive_all-IsLinked normalize [] db l = l
arrive_all-IsLinked normalize (a ∷ rest) db l =
    arrive_all-IsLinked normalize rest (arrive normalize a db) (arrive-IsLinked normalize a db l)

any-edges_from :
    (jid x : String) (rows : List AliasRow)
    → any (λ r. same r.jid_b x) (edges_from jid rows) ≡ any (is_edge jid x) rows
any-edges_from jid x [] = refl
any-edges_from jid x (r ∷ rows) = ground (arith, any-edges_from jid x rows)

known-append :
    (x y : String) (out : List String)
    → any (same x) (out ++ y ∷ []) ≡ (any (same x) out || same x y)
known-append x y [] = ground arith
known-append x y (o ∷ out) = ground (arith, known-append x y out)

known-add_unseen :
    (x : String) (out : List String) (rows : List AliasRow)
    → any (same x) (add_unseen out rows) ≡ (any (same x) out || any (λ r. same r.jid_b x) rows)
known-add_unseen x out [] = ground arith
known-add_unseen x out (r ∷ rows) =
    let next = if any (same r.jid_b) out then out else out ++ r.jid_b ∷ [] in
    let added : any (same x) next ≡ (any (same x) out || same r.jid_b x) =
      if-cases (λ o. any (same x) o ≡ (any (same x) out || same r.jid_b x)) (any (same r.jid_b) out)
        out (out ++ r.jid_b ∷ [])
        (λ e. elim (Bool-cases (same r.jid_b x)) [
          | inl h ↦ ground (arith, e, h, ap (λ y. any (same y) out) (same→eq r.jid_b x h))
          | inr h ↦ ground (arith, h)
        ])
        (λ e. known-append x r.jid_b out ∙ ground (arith, eq_iff x r.jid_b, eq_iff r.jid_b x)) in
    known-add_unseen x next rows ∙ ground (arith, added)

known-resolve_aliases :
    (jid x : String) (rows : List AliasRow)
    → any (same x) (resolve_aliases jid rows)
      ≡ (not (same jid "") && (same jid x || any (is_edge jid x) rows))
unfolding resolve_aliases
known-resolve_aliases jid x rows = elim (Bool-cases (same jid "")) [
  | inl e ↦ rw e refl
  | inr e ↦ rw e (
      known-add_unseen x (jid ∷ []) (edges_from jid rows)
      ∙ ground (arith, eq_iff x jid, eq_iff jid x, any-edges_from jid x rows))
]

-- In a table that only `recordJIDAlias` has written, one JID resolves to another exactly if that other
-- resolves to it.
pub resolve_aliases-back :
    (a b : String) (rows : List AliasRow)
    → IsLinked rows
    → any (same b) (resolve_aliases a rows) ≡ any (same a) (resolve_aliases b rows)
resolve_aliases-back a b rows l =
    known-resolve_aliases a b rows
    ∙ ground (arith, eq_iff a b, eq_iff b a, l.back a b, to_empty a b, to_empty b a)
    ∙ sym (known-resolve_aliases b a rows)
  where
    to_empty : (c d : String) → same d "" ≡ true → any (is_edge c d) rows ≡ false
    to_empty c d e = ap (λ t. any (is_edge c t) rows) (same→eq d "" e) ∙ l.no_empty c
