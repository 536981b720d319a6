-- ===== src/RateLimiter/Window.antt =====
-- `Allow` of prospect-api/middleware.go against the log of the calls that it allowed.
use whatsapp_mcp_plugin.Prelude.{
  ℕ, ◌+◌, ◌≤◌, ◌≡◌, refl, sym, ap, ◌∙◌, subst, inl, inr, String, Bool, true, false, ◌&&◌, List, [],
  ◌∷◌, ◌++◌, where_rows, length, length-where_rows-le, length-append, leb, ltb, same, same→eq,
  if◌then◌else◌, if-cases, Bool-cases, arith,
}
use whatsapp_mcp_plugin.RateLimiter.{
  RateLimiter, new_rate_limiter, recent, put, allow, Call, logged, serve,
}

module _ (window : ℕ) where
  recent-recent :
      (n now : ℕ) (ts : List ℕ)
      → n ≤ now
      → recent window now (recent window n ts) ≡ recent window now ts
  recent-recent n now [] h = refl
  recent-recent n now (t ∷ ts) h = elim (Bool-cases (ltb n (t + window))) [
    | inl e ↦ rw e (ap (λ r. if ltb now (t + window) then t ∷ r else r) (recent-recent n now ts h))
    | inr e ↦ rw (e, gone e) (recent-recent n now ts h)
  ]
    where
      gone : ltb n (t + window) ≡ false → ltb now (t + window) ≡ false
      gone e = ground (arith, h)

  abbrev is_in_window : String → ℕ → Call → Bool
  is_in_window key now c = same c.key key && ltb now (c.at + window)

  -- The number of the key's calls in `log` within the window that ends at `now`.
  abbrev pub count : String → ℕ → List Call → ℕ
  count key now log = length (where_rows (is_in_window key now) log)

  recent-append :
      (now t : ℕ) (xs : List ℕ)
      → length (recent window now (xs ++ t ∷ [])) ≡ length (recent window now (t ∷ xs))
  recent-append now t [] = refl
  recent-append now t (x ∷ xs) = ground (arith, recent-append now t xs)

  -- The limiter's hits of each key are as many as the log has, in each window that ends at `from` or later.
  record IsCounting (limit from : ℕ) (r : RateLimiter) (log : List Call) : Type 0 where
    same_window : r.window ≡ window
    same_limit : r.limit ≡ limit
    counted :
        (key : String) (now : ℕ)
        → from ≤ now
        → length (recent window now (r.hits key)) ≡ count key now log
    bounded : (key : String) → length (r.hits key) ≤ limit

  counted_call :
      (t now : ℕ) (xs : List ℕ) (key k : String) (log : List Call)
      → same key k ≡ true
      → length (recent window now xs) ≡ count k now log
      → length (recent window now (xs ++ t ∷ [])) ≡ count k now (record { key = key; at = t } ∷ log)
  counted_call t now xs key k log e h = rw (recent-append now t xs, e) (ground (arith, h))

  other_call :
      (t now : ℕ) (n : ℕ) (key k : String) (log : List Call)
      → same key k ≡ false
      → n ≡ count k now log
      → n ≡ count k now (record { key = key; at = t } ∷ log)
  other_call t now n key k log e h = rw e h

  module _ (limit from : ℕ) (r : RateLimiter) (log : List Call) (c : Call)
      (ok : IsCounting limit from r log) (later : from ≤ c.at) where
    abbrev kept : List ℕ
    kept = recent r.window c.at (r.hits c.key)

    kept-counted :
        (k : String) (now : ℕ)
        → c.at ≤ now
        → same c.key k ≡ true
        → length (recent window now kept) ≡ count k now log
    kept-counted k now h e =
        subst (λ w. length (recent window now (recent w c.at (r.hits c.key))) ≡ count k now log)
          (sym ok.same_window)
          (subst
            (λ j. length (recent window now (recent window c.at (r.hits c.key))) ≡ count j now log)
            (same→eq c.key k e)
            (ap length (recent-recent c.at now (r.hits c.key) h)
              ∙ ok.counted c.key now (omega (arith, later, h))))

    refused-IsCounting :
        leb r.limit (length kept) ≡ true → IsCounting limit c.at (put r c.key kept) log
    refused-IsCounting full = record {
      same_window = ok.same_window;
      same_limit = ok.same_limit;
      counted = λ k now h.
          if-cases (λ (ts : List ℕ). length (recent window now ts) ≡ count k now log) (same c.key k)
            kept (r.hits k) (kept-counted k now h)
            (λ e. ok.counted k now (omega (arith, later, h)));
      bounded = λ k.
          if-cases (λ (ts : List ℕ). length ts ≤ limit) (same c.key k) kept (r.hits k)
            (λ e. omega (
              arith,
              length-where_rows-le (λ t. ltb c.at (t + r.window)) (r.hits c.key),
              ok.bounded c.key,
            ))
            (λ e. ok.bounded k);
    }

    allowed-IsCounting :
        leb r.limit (length kept) ≡ false
        → IsCounting limit c.at (put r c.key (kept ++ c.at ∷ [])) (c ∷ log)
    allowed-IsCounting free = record {
      same_window = ok.same_window;
      same_limit = ok.same_limit;
      counted = λ k now h.
          if-cases (λ (ts : List ℕ). length (recent window now ts) ≡ count k now (c ∷ log))
            (same c.key k) (kept ++ c.at ∷ []) (r.hits k)
            (λ e. counted_call c.at now kept c.key k log e (kept-counted k now h e))
            (λ e.
              other_call c.at now (length (recent window now (r.hits k))) c.key k log e
                (ok.counted k now (omega (arith, later, h))));
      bounded = λ k.
          if-cases (λ (ts : List ℕ). length ts ≤ limit) (same c.key k) (kept ++ c.at ∷ [])
            (r.hits k)
            (λ e. rw (length-append kept (c.at ∷ [])) (ground (arith, free, ok.same_limit)))
            (λ e. ok.bounded k);
    }

    allow-IsCounting :
        let step = allow c.at r c.key in IsCounting limit c.at step.0 (logged c step.1 log)
    unfolding allow
    allow-IsCounting =
        if-cases (λ (step : RateLimiter × Bool). IsCounting limit c.at step.0 (logged c step.1 log))
          (leb r.limit (length kept)) (put r c.key kept, false)
          (put r c.key (kept ++ c.at ∷ []), true) refused-IsCounting allowed-IsCounting

    kept-count : length kept ≡ count c.key c.at log
    kept-count =
        subst (λ w. length (recent w c.at (r.hits c.key)) ≡ count c.key c.at log)
          (sym ok.same_window) (ok.counted c.key c.at later)

    -- The limiter's answer, by the log.
    allow-answer : (allow c.at r c.key).1 ≡ ltb (count c.key c.at log) limit
    unfolding allow
    allow-answer =
        if-cases (λ (step : RateLimiter × Bool). step.1 ≡ ltb (count c.key c.at log) limit)
          (leb r.limit (length kept)) (put r c.key kept, false)
          (put r c.key (kept ++ c.at ∷ []), true)
          (λ full. ground (arith, full, kept-count, ok.same_limit))
          (λ free. ground (arith, free, kept-count, ok.same_limit))

-- The calls come at `from` or later, each no sooner than the one before.
abbrev pub Ordered : ℕ → List Call → Type 0
Ordered from [] = Unit
Ordered from (c ∷ calls) = (from ≤ c.at) × Ordered c.at calls

abbrev pub last_at : ℕ → List Call → ℕ
last_at from [] = from
last_at from (c ∷ calls) = last_at c.at calls

serve-IsCounting :
    (window limit from : ℕ) (r : RateLimiter) (log : List Call) (calls : List Call)
    → Ordered from calls
    → IsCounting window limit from r log
    → let after = serve r log calls in IsCounting window limit (last_at from calls) after.0 after.1
unfolding serve
serve-IsCounting window limit from r log [] ordered ok = ok
serve-IsCounting window limit from r log (c ∷ calls) (later, ordered) ok =
    let step = allow c.at r c.key in
    serve-IsCounting window limit c.at step.0 (logged c step.1 log) calls ordered
      (allow-IsCounting window limit from r log c ok later)

new-IsCounting : (window limit : ℕ) → IsCounting window limit 0 (new_rate_limiter limit window) []
unfolding new_rate_limiter
new-IsCounting window limit = record {
  same_window = refl;
  same_limit = refl;
  counted = λ key now h. refl;
  bounded = λ key. omega arith;
}

-- After any calls in the order of their times, at the time of the last one or later, the calls of a key
-- that were allowed within the window are at most the limit.
pub serve-bounded :
    (window limit : ℕ) (calls : List Call) (key : String) (now : ℕ)
    → Ordered 0 calls
    → last_at 0 calls ≤ now
    → count window key now (serve (new_rate_limiter limit window) [] calls).1 ≤ limit
serve-bounded window limit calls key now ordered h =
    let ok =
      serve-IsCounting window limit 0 (new_rate_limiter limit window) [] calls ordered
        (new-IsCounting window limit) in
    let hits = (serve (new_rate_limiter limit window) [] calls).0.hits key in
    omega (
      arith,
      ok.counted key now h,
      ok.bounded key,
      length-where_rows-le (λ t. ltb now (t + window)) hits,
    )

-- After any calls in the order of their times, a next call is allowed exactly when fewer calls of its key
-- than the limit were allowed within the window that ends at it.
pub allow-exact :
    (window limit : ℕ) (calls : List Call) (c : Call)
    → Ordered 0 calls
    → last_at 0 calls ≤ c.at
    → let after = serve (new_rate_limiter limit window) [] calls in
      (allow c.at after.0 c.key).1 ≡ ltb (count window c.key c.at after.1) limit
allow-exact window limit calls c ordered h =
    let after = serve (new_rate_limiter limit window) [] calls in
    allow-answer window limit (last_at 0 calls) after.0 after.1 c
      (serve-IsCounting window limit 0 (new_rate_limiter limit window) [] calls ordered
        (new-IsCounting window limit))
      h
