-- ===== src/Vault/Forest/Linked.antt =====
-- The edges that `union` has seen are the ones that its roots tell apart.
use whatsapp_mcp_plugin.Prelude.{
  ℕ, suc, ◌+◌, ◌≤◌, ◌<◌, String, ◌≡◌, ◌≢◌, ap, sym, subst, inl, inr, Bool, true, List, [], ◌∷◌, any,
  where_rows, All, length, same, same→eq, if◌then◌else◌, if-cases, Bool-cases, arith, eq_iff,
  insert,
}
use whatsapp_mcp_plugin.Archive.{AliasRow}
use whatsapp_mcp_plugin.Archive.Aliases.{is_edge}
use whatsapp_mcp_plugin.Vault.Forest.{Parents, find, union, link_all}
use whatsapp_mcp_plugin.Vault.Forest.Roots.{
  IsRooting, Entries, find-root, joined_root, joined_depth, join-Rooting,
}

-- Two JIDs that a chain of edges joins, in either direction.
pub data Linked (rows : List AliasRow) : String → String → Type 0 where
  itself : (x : String) → Linked rows x x
  edge : (a b : String) → any (is_edge a b) rows ≡ true → Linked rows a b
  back : {x y : String} → Linked rows x y → Linked rows y x
  chain : {x y z : String} → Linked rows x y → Linked rows y z → Linked rows x z

-- What the map of parents stands for, with the roots it had before.
pub record Joins (rows : List AliasRow) (before : String → String) (k : ℕ) (p : Parents)
    : Type 0 where
  pub root : String → String
  pub depth : String → ℕ
  pub rooting : IsRooting (Linked rows) root depth k
  pub entries : Entries root depth p
  pub coarser : (x y : String) → before x ≡ before y → root x ≡ root y

module _ (rows : List AliasRow) {root : String → String} {depth : String → ℕ} {k : ℕ}
    (h : IsRooting (Linked rows) root depth k) where
  IsRooting-le : (n : ℕ) → k ≤ n → IsRooting (Linked rows) root depth n
  IsRooting-le n le = record {
    idem = h.idem;
    flat = h.flat;
    deep = h.deep;
    filled = h.filled;
    bound = λ x. omega (arith, h.bound x, le);
    sound = h.sound;
  }

  module _ (a b : String) (there : any (is_edge a b) rows ≡ true) (named : b ≢ "") where
    -- A JID of `a`'s class is linked to the root of `b`.
    moved : (x : String) → root x ≡ root a → Linked rows x (root b)
    moved x e =
        chain (subst (Linked rows x) e (h.sound x))
          (chain (back (h.sound a)) (chain (edge a b there) (h.sound b)))

    abbrev Unites : Parents → Type 0
    Unites p = (j : Joins rows root (suc k) p) × (j.root a ≡ j.root b)

    Unites-roots :
        (q : Parents)
        → Entries root depth q
        → Unites (if same (root a) (root b) then q else insert (root a) (root b) q)
    Unites-roots q ok =
        if-cases Unites (same (root a) (root b)) q (insert (root a) (root b) q)
          (λ e. (
            record {
              root = root;
              depth = depth;
              rooting = IsRooting-le (suc k) (omega arith);
              entries = ok;
              coarser = λ x y same_root. same_root;
            },
            same→eq (root a) (root b) e,
          ))
          (λ e.
            let (rooting, entries) =
              join-Rooting h (root a) (root b) (h.idem a) (h.idem b) e q moved
                (λ blank. named (h.filled b blank)) ok in
            (
              record {
                root = joined_root root depth (root a) (root b);
                depth = joined_depth root depth (root a) (root b);
                rooting = rooting;
                entries = entries;
                coarser =
                    λ x y same_root. ap (λ r. if same r (root a) then root b else r) same_root;
              },
              ground (
                arith,
                eq_iff (root a) (root a),
                eq_iff (root b) (root a),
                eq_iff (root a) (root b),
                e,
              ),
            ))

    pub union-Unites :
        (fuel : ℕ) (p : Parents) → k < fuel → Entries root depth p → Unites (union fuel a b p)
    unfolding union
    union-Unites fuel p enough ok =
        let (at_a, ok_a) = find-root h fuel a p ok (omega (arith, h.bound a, enough)) in
        let q = (find fuel a p).1 in
        let (at_b, ok_b) = find-root h fuel b q ok_a (omega (arith, h.bound b, enough)) in
        let s = (find fuel b q).1 in
        let united = Unites-roots s ok_b in
        subst
          (λ ra. Unites (if same ra (find fuel b q).0 then s else insert ra (find fuel b q).0 s))
          (sym at_a)
          (subst (λ rb. Unites (if same (root a) rb then s else insert (root a) rb s)) (sym at_b)
            united)

-- All of the edges that are let through join their ends.
abbrev pub Spans :
    List AliasRow → List AliasRow → (AliasRow → Bool) → (String → String) → ℕ → Parents → Type 0
Spans rows es merges before k p =
    (j : Joins rows before (length es + k) p) × ((a b : String)
      → any (is_edge a b) (where_rows merges es) ≡ true
      → j.root a ≡ j.root b)

-- An edge that is let through is one of `rows`, and its second end is a JID.
abbrev pub IsFit : List AliasRow → (AliasRow → Bool) → AliasRow → Type 0
IsFit rows merges e =
    (merges e ≡ true → any (is_edge e.jid_a e.jid_b) rows ≡ true) × (merges e ≡ true → e.jid_b ≢ "")

edge_first : (a b : String) (e : AliasRow) → is_edge a b e ≡ true → e.jid_a ≡ a
edge_first a b e at = ground (arith, at, eq_iff e.jid_a a)

edge_second : (a b : String) (e : AliasRow) → is_edge a b e ≡ true → e.jid_b ≡ b
edge_second a b e at = ground (arith, at, eq_iff e.jid_b b)

module _ (rows : List AliasRow) (merges : AliasRow → Bool) (fuel : ℕ) where
  pub link_all-Spans :
      (es : List AliasRow) {root : String → String} {depth : String → ℕ} (k : ℕ) (p : Parents)
      → All (IsFit rows merges) es
      → length es + k < fuel
      → IsRooting (Linked rows) root depth k
      → Entries root depth p
      → Spans rows es merges root k (link_all merges fuel es p)
  unfolding link_all
  link_all-Spans [] {root} {depth} k p fit enough h ok = (
    record {
      root = root;
      depth = depth;
      rooting = IsRooting-le rows h (0 + k) (omega arith);
      entries = ok;
      coarser = λ x y same_root. same_root;
    },
    λ a b there. ground arith,
  )
  link_all-Spans (e ∷ es) {root} {depth} k p (here, fit) enough h ok =
      if-cases (λ q. Spans rows (e ∷ es) merges root k (link_all merges fuel es q)) (merges e)
        (union fuel e.jid_a e.jid_b p) p
        (λ m.
          let q = union fuel e.jid_a e.jid_b p in
          let (j, one) =
            union-Unites rows h e.jid_a e.jid_b (here.0 m) (here.1 m) fuel p (omega arith) ok in
          let (t, rest) = link_all-Spans es (suc k) q fit (omega arith) j.rooting j.entries in
          (
            record {
              root = t.root;
              depth = t.depth;
              rooting = IsRooting-le rows t.rooting (suc (length es) + k) (omega arith);
              entries = t.entries;
              coarser = λ x y same_root. t.coarser x y (j.coarser x y same_root);
            },
            λ a b there. elim (Bool-cases (is_edge a b e)) [
              | inl at ↦ t.coarser a b (
                  subst (λ z. j.root z ≡ j.root b) (edge_first a b e at)
                    (subst (λ z. j.root e.jid_a ≡ j.root z) (edge_second a b e at) one))
              | inr off ↦ rest a b (ground (arith, there, m, off))
            ],
          ))
        (λ m.
          let (t, rest) = link_all-Spans es k p fit (omega arith) h ok in
          (
            record {
              root = t.root;
              depth = t.depth;
              rooting = IsRooting-le rows t.rooting (suc (length es) + k) (omega arith);
              entries = t.entries;
              coarser = t.coarser;
            },
            λ a b there. rest a b (ground (arith, there, m)),
          ))
