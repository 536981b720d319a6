-- ===== src/Vault/Forest/Roots.antt =====
-- What the map of parents means: each JID has one root, and a write on the way to it changes nothing.
use whatsapp_mcp_plugin.Prelude.{
  ℕ, zero, suc, ◌≤◌, ◌<◌, String, ◌≡◌, ◌≢◌, refl, sym, ◌∙◌, subst, Bool, true, false, some, same,
  same→eq, lookup, insert, lookup-insert, if◌then◌else◌, if-cases, arith, eq_iff,
}
use whatsapp_mcp_plugin.Vault.Forest.{Parents, or_empty, parent_of, stops, find}

-- `root` is the end of the way up from a JID, at most `depth` steps away. The entry of a key fits it.
pub record IsEntry (root : String → String) (depth : String → ℕ) (x v : String) : Type 0 where
  pub top : stops x v ≡ true → root x ≡ x
  pub up : stops x v ≡ false → root v ≡ root x
  pub lower : stops x v ≡ false → depth v < depth x

-- The two fit each other, and a relation holds of a JID and its root.
pub record IsRooting (Rel : String → String → Type 0) (root : String → String) (depth : String → ℕ)
    (k : ℕ) : Type 0 where
  pub idem : (x : String) → root (root x) ≡ root x
  pub flat : (x : String) → depth (root x) ≡ 0
  pub deep : (x : String) → depth x ≡ 0 → root x ≡ x
  pub filled : (x : String) → root x ≡ "" → x ≡ ""
  pub bound : (x : String) → depth x ≤ k
  pub sound : (x : String) → Rel x (root x)

abbrev pub Entries : (String → String) → (String → ℕ) → Parents → Type 0
Entries root depth p = (x : String) → IsEntry root depth x (parent_of x p)

-- A write of an entry that fits.
Entries-insert :
    {root : String → String} {depth : String → ℕ} (x v : String) (p : Parents)
    → IsEntry root depth x v
    → ((y : String) → same x y ≡ false → IsEntry root depth y (parent_of y p))
    → Entries root depth (insert x v p)
Entries-insert {root} {depth} x v p new old y =
    subst (λ o. IsEntry root depth y (or_empty o)) (sym (lookup-insert x y v p))
      (go (same x y) refl)
  where
    go :
        (b : Bool)
        → same x y ≡ b
        → IsEntry root depth y (or_empty (if b then some v else lookup y p))
    go true e = subst (λ z. IsEntry root depth z v) (same→eq x y e) new
    go false e = old y e

module _ {Rel : String → String → Type 0} {root : String → String} {depth : String → ℕ} {k : ℕ}
    (h : IsRooting Rel root depth k) where
  -- Path compression.
  IsEntry-root : (x : String) → IsEntry root depth x (root x)
  IsEntry-root x = record {
    top = λ e. ground (arith, eq_iff (root x) "", eq_iff (root x) x, h.filled x, e);
    up = λ e. h.idem x;
    lower = λ e. ground (arith, eq_iff (root x) x, h.deep x, h.flat x, e);
  }

  -- `find` gives the root, and the map keeps its meaning.
  pub find-root :
      (fuel : ℕ) (x : String) (p : Parents)
      → Entries root depth p
      → depth x < fuel
      → ((find fuel x p).0 ≡ root x) × Entries root depth (find fuel x p).1
  unfolding find
  find-root zero x p ok d = ground arith
  find-root (suc fuel) x p ok d =
      if-cases (λ (o : String × Parents). (o.0 ≡ root x) × Entries root depth o.1)
        (stops x (parent_of x p)) (x, insert x x p)
        (let (r, q) = find fuel (parent_of x p) p in (r, insert x r q))
        (λ e.
          let at = (ok x).top e in
          (
            sym at,
            Entries-insert x x p (subst (IsEntry root depth x) at (IsEntry-root x)) (λ y _. ok y),
          ))
        (λ e.
          let (found, kept) =
            find-root fuel (parent_of x p) p ok (omega (arith, (ok x).lower e, d)) in
          let at = found ∙ (ok x).up e in
          (
            at,
            Entries-insert x (find fuel (parent_of x p) p).0 (find fuel (parent_of x p) p).1
                (subst (IsEntry root depth x) (sym at) (IsEntry-root x)) (λ y _. kept y),
          ))

-- The roots after `union a b`: those that ended at `ra` end at `rb`, one step later.
module _ (root : String → String) (depth : String → ℕ) (ra rb : String) where
  abbrev pub joined_root : String → String
  joined_root x = if same (root x) ra then rb else root x

  abbrev pub joined_depth : String → ℕ
  joined_depth x = if same (root x) ra then suc (depth x) else depth x

module _ {Rel : String → String → Type 0} {root : String → String} {depth : String → ℕ} {k : ℕ}
    (h : IsRooting Rel root depth k) (ra rb : String) (a_top : root ra ≡ ra) (b_top : root rb ≡ rb)
    (apart : same ra rb ≡ false) where
  IsRooting-join :
      ((x : String) → root x ≡ ra → Rel x rb)
      → rb ≢ ""
      → IsRooting Rel (joined_root root depth ra rb) (joined_depth root depth ra rb) (suc k)
  IsRooting-join moved named = record {
    idem = λ x. ground (
      arith,
      eq_iff (root x) ra,
      eq_iff (root (root x)) ra,
      eq_iff rb ra,
      eq_iff ra rb,
      h.idem x,
      a_top,
      b_top,
      apart,
      eq_iff (root rb) ra,
    );
    flat = λ x. ground (
      arith,
      eq_iff (root x) ra,
      eq_iff (root (root x)) ra,
      eq_iff (root rb) ra,
      eq_iff ra rb,
      h.idem x,
      h.flat x,
      h.flat rb,
      b_top,
      apart,
    );
    deep = λ x e. ground (arith, eq_iff (root x) ra, h.deep x, e);
    filled = λ x e. ground (arith, eq_iff (root x) ra, h.filled x, e, named);
    bound = λ x. ground (arith, eq_iff (root x) ra, h.bound x);
    sound = λ x.
        if-cases (Rel x) (same (root x) ra) rb (root x) (λ e. moved x (same→eq (root x) ra e))
          (λ _. h.sound x);
  }

  IsEntry-join :
      (x v : String)
      → IsEntry root depth x v
      → same ra x ≡ false
      → IsEntry (joined_root root depth ra rb) (joined_depth root depth ra rb) x v
  IsEntry-join x v old other = record {
    top = λ e. ground (arith, old.top e, eq_iff x ra, eq_iff ra x, eq_iff (root x) ra, other);
    up = λ e. ground (arith, old.up e, eq_iff (root x) ra, eq_iff (root v) ra);
    lower = λ e. ground (arith, old.up e, old.lower e, eq_iff (root x) ra, eq_iff (root v) ra);
  }

  IsEntry-joined :
      rb ≢ "" → IsEntry (joined_root root depth ra rb) (joined_depth root depth ra rb) ra rb
  IsEntry-joined named = record {
    top = λ e. ground (arith, eq_iff rb "", eq_iff rb ra, eq_iff ra rb, apart, named, e);
    up = λ e. ground (
      arith,
      eq_iff ra ra,
      eq_iff (root ra) ra,
      eq_iff (root rb) ra,
      eq_iff rb ra,
      eq_iff ra rb,
      apart,
      a_top,
      b_top,
    );
    lower = λ e. ground (
      arith,
      eq_iff (root ra) ra,
      eq_iff (root rb) ra,
      eq_iff rb ra,
      eq_iff ra rb,
      apart,
      a_top,
      b_top,
      h.flat rb,
    );
  }

  -- The step of `union` where the roots differ.
  pub join-Rooting :
      (p : Parents)
      → ((x : String) → root x ≡ ra → Rel x rb)
      → rb ≢ ""
      → Entries root depth p
      → IsRooting Rel (joined_root root depth ra rb) (joined_depth root depth ra rb) (suc k)
        × Entries (joined_root root depth ra rb) (joined_depth root depth ra rb) (insert ra rb p)
  join-Rooting p moved named ok = (
    IsRooting-join moved named,
    Entries-insert ra rb p (IsEntry-joined named) (λ y e. IsEntry-join y (parent_of y p) (ok y) e),
  )
