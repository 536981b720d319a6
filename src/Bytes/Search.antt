-- ===== src/Bytes/Search.antt =====
-- Where a pattern can occur in a text: `strings.Contains` and `strings.Index` against take, drop,
-- append and bytes that the pattern lacks.
use Prim.Native.Nat.add
use whatsapp_mcp_plugin.Prelude.{
  ◌+◌, ◌≤◌, ℕ, zero, suc, ◌<◌, ◌≡◌, refl, ◌⊎◌, inl, inr, Bool, true, false, ◌||◌, [], ◌∷◌, ◌++◌,
  none, some, arith, ◌==◌, length, take, drop, Bool-cases, if◌then◌else◌,
}
use whatsapp_mcp_plugin.Bytes.{Text, has_prefix, contains, index}

-- The byte does not occur in the pattern.
abbrev pub lacks : Text → ℕ → Bool
lacks [] b = true
lacks (a ∷ p) b = if b == a then false else lacks p b

module _ (b : ℕ) where
  pub has_prefix-wall :
      (u v p : Text) → lacks p b ≡ true → has_prefix (u ++ b ∷ v) p ≡ has_prefix u p
  unfolding has_prefix
  has_prefix-wall u v [] h = refl
  has_prefix-wall [] v (a ∷ p) h = ground arith
  has_prefix-wall (c ∷ u) v (a ∷ p) h = ground (arith, has_prefix-wall u v p)

  -- A pattern does not reach across a byte that it lacks.
  pub contains-wall :
      (u v p : Text) → lacks p b ≡ true → contains (u ++ b ∷ v) p ≡ (contains u p || contains v p)
  unfolding contains
  contains-wall [] v p h = ground (arith, has_prefix-wall [] v p h)
  contains-wall (c ∷ u) v p h = ground (arith, has_prefix-wall (c ∷ u) v p h, contains-wall u v p h)

has_prefix-take : (i : ℕ) (s p : Text) → has_prefix (take i s) p ≡ true → has_prefix s p ≡ true
unfolding has_prefix
has_prefix-take i s [] h = refl
has_prefix-take zero s (a ∷ p) h = ground arith
has_prefix-take (suc i) [] (a ∷ p) h = ground arith
has_prefix-take (suc i) (c ∷ s) (a ∷ p) h = ground (arith, has_prefix-take i s p)

pub contains-take : (i : ℕ) (s p : Text) → contains s p ≡ false → contains (take i s) p ≡ false
unfolding contains
contains-take zero [] p h = h
contains-take zero (c ∷ s) [] h = ground arith
contains-take zero (c ∷ s) (a ∷ p) h = refl
contains-take (suc i) [] p h = h
contains-take (suc i) (c ∷ s) p h =
    ground (arith, has_prefix-take (suc i) (c ∷ s) p, contains-take i s p)

pub contains-drop : (i : ℕ) (s p : Text) → contains s p ≡ false → contains (drop i s) p ≡ false
unfolding contains
contains-drop zero s p h = h
contains-drop (suc i) [] p h = h
contains-drop (suc i) (c ∷ s) p h = ground (arith, contains-drop i s p)

-- `index` finds an occurrence exactly when there is one, and there is none before it.
pub index_cases :
    (s : Text) (a : ℕ) (p : Text)
    → ((index s (a ∷ p) ≡ none) × (contains s (a ∷ p) ≡ false))
      ⊎ ((i : ℕ) × (index s (a ∷ p) ≡ some i)
          × (contains (take i s) (a ∷ p) ≡ false)
          × (i < length s))
unfolding contains index
index_cases [] a p = inl (refl, refl)
index_cases (c ∷ s) a p = elim (Bool-cases (has_prefix (c ∷ s) (a ∷ p))) [
  | inl hit ↦ inr (0, ground arith, refl, omega arith)
  | inr miss ↦ elim (index_cases s a p) [
    | inl (e, clear) ↦ inl (ground arith, ground arith)
    | inr (i, e, clear, bound) ↦
        inr (
          suc i,
          ground arith,
          ground (arith, has_prefix-take (suc i) (c ∷ s) (a ∷ p)),
          omega arith,
        )
  ]
]

-- How often the pattern occurs, overlaps included.
pub occurrences : Text → Text → ℕ
occurrences [] p = 0
occurrences (c ∷ s) p =
    let rest = occurrences s p in if has_prefix (c ∷ s) p then suc rest else rest

pub occurrences-wall :
    (b : ℕ) (u v p : Text)
    → lacks p b ≡ true
    → has_prefix [] p ≡ false
    → occurrences (u ++ b ∷ v) p ≡ occurrences u p + occurrences v p
unfolding occurrences
occurrences-wall b [] v p h n = ground (arith, has_prefix-wall b [] v p h)
occurrences-wall b (c ∷ u) v p h n =
    ground (arith, has_prefix-wall b (c ∷ u) v p h, occurrences-wall b u v p h n)

pub occurrences-zero : (s p : Text) → contains s p ≡ false → occurrences s p ≡ 0
unfolding occurrences contains
occurrences-zero [] p h = refl
occurrences-zero (c ∷ s) p h = ground (arith, occurrences-zero s p)

occurrences-drop : (i : ℕ) (s p : Text) → occurrences (drop i s) p ≤ occurrences s p
unfolding occurrences
occurrences-drop zero s p = omega arith
occurrences-drop (suc i) [] p = omega arith
occurrences-drop (suc i) (c ∷ s) p = ground (arith, occurrences-drop i s p)

pub occurrences-le-length : (s p : Text) → occurrences s p ≤ length s
unfolding occurrences
occurrences-le-length [] p = omega arith
occurrences-le-length (c ∷ s) p = ground (arith, occurrences-le-length s p)

-- Cutting the first occurrence out leaves fewer.
pub occurrences-index :
    (s : Text) (a : ℕ) (p : Text) (i : ℕ)
    → index s (a ∷ p) ≡ some i
    → occurrences (take i s) (a ∷ p) + occurrences (drop (i + length (a ∷ p)) s) (a ∷ p)
      < occurrences s (a ∷ p)
unfolding index occurrences
occurrences-index [] a p i e = ground arith
occurrences-index (c ∷ s) a p zero e =
    rw (add.zero (suc (length p))) (ground (arith, occurrences-drop (length p) s (a ∷ p)))
occurrences-index (c ∷ s) a p (suc i) e =
    rw (add.suc i (suc (length p)))
      (ground (arith, occurrences-index s a p i, has_prefix-take (suc i) (c ∷ s) (a ∷ p)))
