-- ===== src/RateLimiter/Auth.antt =====
-- The Authorization check of prospect-api/middleware.go.
use whatsapp_mcp_plugin.Prelude.{
  ◌≡◌, refl, ap, ◌∙◌, ◌↔◌, Bool, true, false, not, ◌&&◌, ◌||◌, [], ◌∷◌, ◌++◌, length, drop, ◌==◌,
  ==→eq, ==_refl, if◌then◌else◌, arith,
}
use whatsapp_mcp_plugin.Bytes.{Text, bytes, equal, has_prefix}

-- The headers of a request that the check reads, empty where they are missing.
pub record Headers : Type 0 where
  pub authorization : Text
  pub cf_access_user_email : Text
  pub cf_access_jwt_assertion : Text

pub data Verdict : Type 0 where
  pass missing_token invalid_token access_required : Verdict

-- The loop of `constantTimeEq`, over strings of one length: whether a bit of `diff` is set at its end.
abbrev pub differs : Bool → Text → Text → Bool
differs diff [] t = diff
differs diff (a ∷ s) [] = diff
differs diff (a ∷ s) (b ∷ t) = differs (diff || not (a == b)) s t

unfoldable pub constant_time_eq : Text → Text → Bool
constant_time_eq a b = if not (length a == length b) then false else not (differs false a b)

unfoldable pub check_auth_header : Bool → Text → Headers → Verdict
unfolding constant_time_eq has_prefix equal bytes
check_auth_header require_cloudflare_access expected r =
    if not (has_prefix r.authorization (bytes "Bearer "))
    then missing_token
    else if not (constant_time_eq (drop 7 r.authorization) expected)
    then invalid_token
    else if (require_cloudflare_access
        && equal r.cf_access_user_email []
        && equal r.cf_access_jwt_assertion [])
    then access_required
    else pass

differs-sticky : (a b : Text) → differs true a b ≡ true
differs-sticky [] b = refl
differs-sticky (x ∷ a) [] = refl
differs-sticky (x ∷ a) (y ∷ b) = differs-sticky a b

differs-next :
    (d : Bool) (a b : Text) → differs d a b ≡ false → (d ≡ false) × (differs false a b ≡ false)
differs-next true a b h = ground (arith, h, differs-sticky a b)
differs-next false a b h = (refl, h)

differs-eq : (a b : Text) → length a ≡ length b → differs false a b ≡ false → a ≡ b
differs-eq [] [] h e = refl
differs-eq [] (y ∷ b) h e = ground (arith, h)
differs-eq (x ∷ a) [] h e = ground (arith, h)
differs-eq (x ∷ a) (y ∷ b) h e =
    let (same, rest) = differs-next (not (x == y)) a b e in
    rw (==→eq x y (ground (arith, same))) (ap (λ t. y ∷ t) (differs-eq a b (omega (arith, h)) rest))

differs_refl : (a : Text) → differs false a a ≡ false
differs_refl [] = refl
differs_refl (x ∷ a) = rw (==_refl x) (differs_refl a)

constant_time_eq→eq : (a b : Text) → constant_time_eq a b ≡ true → a ≡ b
unfolding constant_time_eq
constant_time_eq→eq a b h = differs-eq a b (ground (arith, h)) (ground (arith, h))

constant_time_eq_refl : (a : Text) → constant_time_eq a a ≡ true
unfolding constant_time_eq
constant_time_eq_refl a = rw (==_refl (length a), differs_refl a) refl

has_prefix-drop : (s p : Text) → has_prefix s p ≡ true → s ≡ p ++ drop (length p) s
unfolding has_prefix
has_prefix-drop s [] h = refl
has_prefix-drop [] (b ∷ p) h = ground (arith, h)
has_prefix-drop (a ∷ s) (b ∷ p) h =
    rw (==→eq a b (ground (arith, h))) (ap (λ t. b ∷ t) (has_prefix-drop s p (ground (arith, h))))

-- A request that passes behind Cloudflare Access carries one of its two headers.
abbrev pub Trusted : Bool → Headers → Type 0
Trusted require r =
    (require && equal r.cf_access_user_email [] && equal r.cf_access_jwt_assertion []) ≡ false

pass-tests :
    (require : Bool) (expected : Text) (r : Headers)
    → check_auth_header require expected r ≡ pass
    → (has_prefix r.authorization (bytes "Bearer ") ≡ true)
      × (constant_time_eq (drop 7 r.authorization) expected ≡ true)
      × Trusted require r
unfolding check_auth_header
pass-tests require expected r h = (ground (arith, h), ground (arith, h), ground (arith, h))

bearer-pass :
    (require : Bool) (expected : Text) (r : Headers)
    → r.authorization ≡ bytes "Bearer " ++ expected
    → Trusted require r
    → check_auth_header require expected r ≡ pass
unfolding check_auth_header has_prefix bytes
bearer-pass require expected r h trusted = rw (h, constant_time_eq_refl expected, trusted) refl

-- The check passes exactly the requests whose Authorization header is the word Bearer, a space and the
-- expected token, and that carry, where Cloudflare Access is required, the address or the assertion of
-- Cloudflare Access.
pub check_auth_header-pass :
    (require : Bool) (expected : Text) (r : Headers)
    → (check_auth_header require expected r ≡ pass)
      ↔ ((r.authorization ≡ bytes "Bearer " ++ expected) × Trusted require r)
unfolding bytes
check_auth_header-pass require expected r = (
  (λ h.
      let (prefixed, same, trusted) = pass-tests require expected r h in
      (
        has_prefix-drop r.authorization (bytes "Bearer ") prefixed
            ∙ ap (λ t. bytes "Bearer " ++ t)
                (constant_time_eq→eq (drop 7 r.authorization) expected same),
        trusted,
      )),
  λ (h, trusted). bearer-pass require expected r h trusted,
)
