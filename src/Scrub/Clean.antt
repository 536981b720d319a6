-- ===== src/Scrub/Clean.antt =====
-- Lemmas on the loop of `Scrub` (whatsapp-bridge/scrubber.go) that redacts one pattern.
use whatsapp_mcp_plugin.Prelude.{
  ℕ, zero, suc, ◌+◌, ◌<◌, ◌≡◌, refl, ap, sym, subst, Option-cases, ◌∙◌, inl, inr, Bool, true, false,
  ◌||◌, [], ◌∷◌, ◌++◌, arith, length, take, drop,
}
use whatsapp_mcp_plugin.Bytes.{Text, bytes, to_lower, lower_byte, contains, index, has_prefix}
use whatsapp_mcp_plugin.Bytes.Search.{
  lacks, contains-wall, contains-take, contains-drop, index_cases, occurrences, occurrences-wall,
  occurrences-zero, occurrences-index, occurrences-le-length,
}
use whatsapp_mcp_plugin.Scrub.{redacted, splice, redact}

unfoldable pub placeholder : Text
unfolding bytes
placeholder = bytes "redacted_injection"

-- What the proofs use of a pattern: it is not empty, has no bracket and is no part of the
-- placeholder.
pub record IsPattern (p : Text) : Type 0 where
  pub filled : has_prefix [] p ≡ false
  pub no_open : lacks p b'[' ≡ true
  pub no_close : lacks p b']' ≡ true
  pub apart : contains placeholder p ≡ false

-- The text has the pattern in no mix of cases.
abbrev pub Free : Text → Text → Type 0
Free s p = contains (to_lower s) p ≡ false

to_lower-append : (u v : Text) → to_lower (u ++ v) ≡ to_lower u ++ to_lower v
unfolding to_lower
to_lower-append [] v = refl
to_lower-append (c ∷ u) v = ap (λ (t : Text). lower_byte c ∷ t) (to_lower-append u v)

to_lower-take : (i : ℕ) (s : Text) → to_lower (take i s) ≡ take i (to_lower s)
unfolding to_lower
to_lower-take zero s = refl
to_lower-take (suc i) [] = refl
to_lower-take (suc i) (c ∷ s) = ap (λ (t : Text). lower_byte c ∷ t) (to_lower-take i s)

to_lower-drop : (i : ℕ) (s : Text) → to_lower (drop i s) ≡ drop i (to_lower s)
unfolding to_lower
to_lower-drop zero s = refl
to_lower-drop (suc i) [] = refl
to_lower-drop (suc i) (c ∷ s) = to_lower-drop i s

length-to_lower : (s : Text) → length (to_lower s) ≡ length s
unfolding to_lower
length-to_lower [] = refl
length-to_lower (c ∷ s) = omega (arith, length-to_lower s)

to_lower-redacted :
    (v : Text) → to_lower (redacted ++ v) ≡ b'[' ∷ (placeholder ++ b']' ∷ to_lower v)
unfolding to_lower redacted placeholder
to_lower-redacted v = refl

-- Between two pieces the placeholder keeps any pattern from forming.
contains-redacted :
    (u v : Text) {p : Text}
    → IsPattern p
    → contains (to_lower (u ++ (redacted ++ v))) p
      ≡ (contains (to_lower u) p || contains (to_lower v) p)
contains-redacted u v {p} k =
    rw (to_lower-append u (redacted ++ v), to_lower-redacted v)
      (contains-wall b'[' (to_lower u) (placeholder ++ b']' ∷ to_lower v) p k.no_open
        ∙ ap (λ (t : Bool). contains (to_lower u) p || t)
            (contains-wall b']' placeholder (to_lower v) p k.no_close
              ∙ ap (λ (t : Bool). t || contains (to_lower v) p) k.apart))

-- One redaction: what is left of the text on either side has no pattern that it had not before.
splice-Free : (i : ℕ) (pat s : Text) {q : Text} → IsPattern q → Free s q → Free (splice i pat s) q
unfolding splice
splice-Free i pat s {q} k h =
    contains-redacted (take i s) (drop (i + length pat) s) k
    ∙ ground (
      arith,
      subst (λ (t : Text). contains t q ≡ false) (sym (to_lower-take i s))
          (contains-take i (to_lower s) q h),
      subst (λ (t : Text). contains t q ≡ false) (sym (to_lower-drop (i + length pat) s))
          (contains-drop (i + length pat) (to_lower s) q h),
    )

-- Redacting one pattern brings no other back.
pub redact-Free :
    (fuel : ℕ) (pat s : Text) {q : Text} → IsPattern q → Free s q → Free (redact fuel pat s) q
unfolding redact
redact-Free zero pat s k h = h
redact-Free (suc fuel) pat s k h = elim (Option-cases (index (to_lower s) pat)) [
  | inl e ↦ rw (e, redact) h
  | inr (i, e) ↦ rw (e, redact) (redact-Free fuel pat (splice i pat s) k (splice-Free i pat s k h))
]

occurrences-splice :
    (i : ℕ) (pat s : Text)
    → IsPattern pat
    → occurrences (to_lower (splice i pat s)) pat
      ≡ occurrences (take i (to_lower s)) pat + occurrences (drop (i + length pat) (to_lower s)) pat
unfolding splice
occurrences-splice i pat s k =
    rw
      (
        to_lower-append (take i s) (redacted ++ drop (i + length pat) s),
        to_lower-redacted (drop (i + length pat) s),
        to_lower-take i s,
        to_lower-drop (i + length pat) s,
      )
      (omega (
        arith,
        occurrences-wall b'[' (take i (to_lower s))
            (placeholder ++ b']' ∷ drop (i + length pat) (to_lower s)) pat k.no_open k.filled,
        occurrences-wall b']' placeholder (drop (i + length pat) (to_lower s)) pat k.no_close
            k.filled,
        occurrences-zero placeholder pat k.apart,
      ))

-- With more fuel than occurrences the loop ends by its test: nothing is left to redact.
redact_clears :
    (fuel a : ℕ) (p s : Text)
    → IsPattern (a ∷ p)
    → occurrences (to_lower s) (a ∷ p) < fuel
    → Free (redact fuel (a ∷ p) s) (a ∷ p)
unfolding redact
redact_clears zero a p s k h = absurd (omega arith)
redact_clears (suc fuel) a p s k h = elim (index_cases (to_lower s) a p) [
  | inl (e, clear) ↦ rw (e, redact) clear
  | inr (i, e, clear, bound) ↦
      rw (e, redact)
        (redact_clears fuel a p (splice i (a ∷ p) s) k
          (omega (arith, occurrences-splice i (a ∷ p) s k, occurrences-index (to_lower s) a p i e)))
]

-- The fuel that the scrubber gives is enough for every pattern.
pub redact-length_clears : (pat s : Text) → IsPattern pat → Free (redact (suc (length s)) pat s) pat
unfolding has_prefix
redact-length_clears [] s k = cc (k.filled)
redact-length_clears (a ∷ p) s k =
    redact_clears (suc (length s)) a p s k
      (omega (arith, occurrences-le-length (to_lower s) (a ∷ p), length-to_lower s))
