-- ===== src/Scrub/Guarantee.antt =====
-- The text and the flags that `Scrub` (whatsapp-bridge/scrubber.go) returns.
use whatsapp_mcp_plugin.Prelude.{
  suc, ◌≡◌, refl, true, sym, if-cases, ◌∙◌, inl, inr, false, List, [], ◌∷◌, ◌++◌, arith, length,
  where_rows, Bool-cases, All,
}
use mathlib.Core.List.{append_assoc, append-nil}
use whatsapp_mcp_plugin.Bytes.{Text, to_lower, contains, has_prefix}
use whatsapp_mcp_plugin.Scrub.{injection_patterns, redact, scrub_patterns, finish, is_ascii, scrub}
use whatsapp_mcp_plugin.Scrub.Clean.{
  IsPattern, Free, placeholder, redact-Free, redact-length_clears,
}

injection_patterns-IsPattern : All IsPattern injection_patterns
unfolding injection_patterns has_prefix contains placeholder
injection_patterns-IsPattern = ground arith

module _ (lower : Text) where
  scrub_patterns-Free :
      (pats : List Text) (out : Text) (flags : List Text) {q : Text}
      → IsPattern q
      → Free out q
      → Free (scrub_patterns lower pats out flags).0 q
  unfolding scrub_patterns
  scrub_patterns-Free [] out flags k h = h
  scrub_patterns-Free (pat ∷ pats) out flags {q} k h =
      if-cases (λ (r : Text × List Text). Free r.0 q) (contains lower pat) _ _
        (λ _.
          scrub_patterns-Free pats (redact (suc (length out)) pat out) (flags ++ pat ∷ []) k
            (redact-Free (suc (length out)) pat out k h))
        (λ _. scrub_patterns-Free pats out flags k h)

  scrub_patterns_clear :
      (pats : List Text) (out : Text) (flags : List Text)
      → All IsPattern pats
      → ((q : Text) → IsPattern q → contains lower q ≡ false → Free out q)
      → All (Free (scrub_patterns lower pats out flags).0) pats
  unfolding scrub_patterns
  scrub_patterns_clear [] out flags ks inv = tt
  scrub_patterns_clear (pat ∷ pats) out flags ks inv =
      if-cases (λ (r : Text × List Text). All (Free r.0) (pat ∷ pats)) (contains lower pat) _ _
        (λ _. (
          scrub_patterns-Free pats (redact (suc (length out)) pat out) (flags ++ pat ∷ []) ks.0
              (redact-length_clears pat out ks.0),
          scrub_patterns_clear pats (redact (suc (length out)) pat out) (flags ++ pat ∷ []) ks.1
              (λ q kq h. redact-Free (suc (length out)) pat out kq (inv q kq h)),
        ))
        (λ e. (
          scrub_patterns-Free pats out flags ks.0 (inv pat ks.0 e),
          scrub_patterns_clear pats out flags ks.1 inv,
        ))

  scrub_patterns_flags :
      (pats : List Text) (out : Text) (flags : List Text)
      → (scrub_patterns lower pats out flags).1 ≡ flags ++ where_rows (contains lower) pats
  unfolding scrub_patterns
  scrub_patterns_flags [] out flags = rw append-nil
  scrub_patterns_flags (pat ∷ pats) out flags = elim (Bool-cases (contains lower pat)) [
    | inl e ↦
        rw e (scrub_patterns_flags pats _ (flags ++ pat ∷ []) ∙ append_assoc flags (pat ∷ []) _)
    | inr e ↦ rw e (scrub_patterns_flags pats out flags)
  ]

-- No pattern flagged: no pattern is in the text.
nothing_flagged :
    (lower : Text) (pats : List Text)
    → where_rows (contains lower) pats ≡ []
    → All (λ p. contains lower p ≡ false) pats
nothing_flagged lower [] h = tt
nothing_flagged lower (p ∷ pats) h = elim (Bool-cases (contains lower p)) [
  | inl e ↦ absurd (ground arith)
  | inr e ↦ (e, nothing_flagged lower pats (ground arith))
]

finish-clear :
    (s : Text) (r : Text × List Text)
    → r.1 ≡ where_rows (contains (to_lower s)) injection_patterns
    → All (Free r.0) injection_patterns
    → All (Free (finish s r).0) injection_patterns
finish-clear s (out, []) e h = nothing_flagged (to_lower s) injection_patterns (sym e)
finish-clear s (out, flag ∷ flags) e h = h

-- In the text that `Scrub` returns for an ASCII text no injection pattern is left, in any mix of cases.
pub scrub-Free : (s : Text) → is_ascii s ≡ true → All (Free (scrub s).0) injection_patterns
unfolding scrub
scrub-Free [] ascii = unfold injection_patterns contains has_prefix to_lower in ground arith
scrub-Free (c ∷ s) ascii =
    finish-clear (c ∷ s) (scrub_patterns (to_lower (c ∷ s)) injection_patterns (c ∷ s) [])
      (scrub_patterns_flags (to_lower (c ∷ s)) injection_patterns (c ∷ s) [])
      (scrub_patterns_clear (to_lower (c ∷ s)) injection_patterns (c ∷ s) []
        injection_patterns-IsPattern (λ q k h. h))

finish-flags : (s : Text) (r : Text × List Text) → (finish s r).1 ≡ r.1
finish-flags s (out, []) = refl
finish-flags s (out, flag ∷ flags) = refl

finish-untouched : (s : Text) (r : Text × List Text) → (finish s r).1 ≡ [] → (finish s r).0 ≡ s
finish-untouched s (out, []) h = refl
finish-untouched s (out, flag ∷ flags) h = cc

-- The flags are the patterns that the folded input contains, in the order of the table, and a text
-- with no flag comes back byte for byte.
pub scrub-flags :
    (s : Text)
    → ((scrub s).1 ≡ where_rows (contains (to_lower s)) injection_patterns)
      × ((scrub s).1 ≡ [] → (scrub s).0 ≡ s)
unfolding scrub
scrub-flags [] = (unfold injection_patterns contains has_prefix to_lower in refl, λ _. refl)
scrub-flags (c ∷ s) = (
  finish-flags (c ∷ s) (scrub_patterns (to_lower (c ∷ s)) injection_patterns (c ∷ s) [])
      ∙ scrub_patterns_flags (to_lower (c ∷ s)) injection_patterns (c ∷ s) [],
  finish-untouched (c ∷ s) (scrub_patterns (to_lower (c ∷ s)) injection_patterns (c ∷ s) []),
)
