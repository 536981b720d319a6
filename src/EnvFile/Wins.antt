-- ===== src/EnvFile/Wins.antt =====
-- Which value a variable has after whatsapp-bridge/env_file.go.
use whatsapp_mcp_plugin.Prelude.{
  ℕ, suc, ◌≡◌, refl, sym, ap, ◌∙◌, inl, inr, Bool, true, false, Option, none, some, List, [], ◌∷◌,
  if◌then◌else◌, if-cases, Bool-cases, arith,
}
use whatsapp_mcp_plugin.Bytes.{Text, equal}
use whatsapp_mcp_plugin.Bytes.Equal.{equal→eq}
use whatsapp_mcp_plugin.EnvFile.{
  Environment, lookup_env, env_line, is_set, is_some, apply_entry, Applied, set_failed, apply_lines,
  EnvFile, open_failed, apply_env_file, load_dot_env,
}

-- A value that is there before one that comes later.
abbrev pub or_later : Option Text → Option Text → Option Text
or_later none later = later
or_later (some value) later = some value

abbrev pub or_entry : Text → Option (Text × Text) → Option Text → Option Text
or_entry key none later = later
or_entry key (some (k, value)) later = if equal k key then some value else later

-- The value that the first line for the variable gives it.
unfoldable pub first_value : Text → List Text → Option Text
unfolding env_line
first_value key [] = none
first_value key (line ∷ lines) = or_entry key (env_line line) (first_value key lines)

unset : (o : Option Text) → is_some o ≡ false → o ≡ none
unset none h = refl
unset (some value) h = ground (arith, h)

set_already :
    (o later : Option Text) (value : Text)
    → is_some o ≡ true
    → or_later o (some value) ≡ or_later o later
set_already none later value h = ground (arith, h)
set_already (some v) later value h = refl

-- The entry of a line: `or_entry` on what was there.
module _ (key : Text) (scan_fails : Bool) where
  abbrev Sets : List Text → (ℕ → Environment → Applied) → Type 0
  Sets lines later =
      (count : ℕ) (env : Environment)
      → lookup_env key (later count env).env ≡ or_later (lookup_env key env) (first_value key lines)

  same_value :
      (k : Text) (env : Environment) → equal k key ≡ true → lookup_env key env ≡ lookup_env k env
  same_value k env e = ap (λ t. lookup_env t env) (sym (equal→eq k key e))

  apply_entry-Sets :
      (n count : ℕ) (o : Option (Text × Text)) (lines : List Text) (env : Environment)
      (later : ℕ → Environment → Applied)
      → Sets lines later
      → lookup_env key (apply_entry (λ k v. false) n o count env later).env
        ≡ or_later (lookup_env key env) (or_entry key o (first_value key lines))
  unfolding apply_entry
  apply_entry-Sets n count none lines env later h = h count env
  apply_entry-Sets n count (some (k, value)) lines env later h =
      let rest = first_value key lines in
      let old = lookup_env key env in
      elim (Bool-cases (is_set k env)) [
        | inl there ↦ rw there (
            h count env ∙ elim (Bool-cases (equal k key)) [
              | inl e ↦
                  rw e (sym (set_already old rest value (ap is_some (same_value k env e) ∙ there)))
              | inr e ↦ rw e refl
            ])
        | inr new ↦ rw new (
            h (suc count) ((k, value) ∷ env) ∙ elim (Bool-cases (equal k key)) [
              | inl e ↦ rw (e, unset old (ap is_some (same_value k env e) ∙ new)) refl
              | inr e ↦ rw e refl
            ])
      ]

  apply_lines-Sets :
      (n : ℕ) (lines : List Text) → Sets lines (apply_lines (λ k v. false) scan_fails n lines)
  unfolding apply_lines first_value
  apply_lines-Sets n [] count env = elim (lookup_env key env) as (λ o. o ≡ or_later o none) [
    | none ↦ refl
    | some v ↦ refl
  ]
  apply_lines-Sets n (line ∷ lines) count env =
      apply_entry-Sets n count (env_line line) lines env
        (apply_lines (λ k v. false) scan_fails (suc n) lines) (apply_lines-Sets (suc n) lines)

-- Where the file opens and no variable is refused, each variable has afterwards the value that it had in
-- the process, and otherwise that of its first line in the file.
pub apply_env_file-lookup :
    (key : Text) (file : EnvFile) (env : Environment)
    → file.open_fails ≡ false
    → lookup_env key (apply_env_file (λ k v. false) file env).env
      ≡ or_later (lookup_env key env) (first_value key file.lines)
unfolding apply_env_file
apply_env_file-lookup key file env opens =
    rw opens (apply_lines-Sets key file.scan_fails 1 file.lines 0 env)

module _ (refuses : Text → Text → Bool) (key value : Text) where
  -- An environment that has the value.
  abbrev Has : Environment → Type 0
  Has env = lookup_env key env ≡ some value

  apply_entry-Has :
      (n count : ℕ) (o : Option (Text × Text)) (env : Environment)
      (later : ℕ → Environment → Applied)
      → ((count : ℕ) (env : Environment) → Has env → Has (later count env).env)
      → Has env
      → Has (apply_entry refuses n o count env later).env
  unfolding apply_entry
  apply_entry-Has n count none env later keeps h = keeps count env h
  apply_entry-Has n count (some (k, v)) env later keeps h =
      let stop : Applied = record { env = env; count = count; error = some (set_failed n) } in
      let go_on = later (suc count) ((k, v) ∷ env) in
      if-cases (λ (a : Applied). Has a.env) (is_set k env) (later count env)
        (if refuses k v then stop else go_on) (λ e. keeps count env h)
        (λ new.
          if-cases (λ (a : Applied). Has a.env) (refuses k v) stop go_on (λ e. h)
            (λ e. keeps (suc count) ((k, v) ∷ env) (elim (Bool-cases (equal k key)) [
              | inl same_key ↦ ground (
                arith,
                h,
                unset (lookup_env k env) new,
                ap (λ t. lookup_env t env) (equal→eq k key same_key),
              )
              | inr other ↦ rw other h
            ])))

  apply_lines-Has :
      (scan_fails : Bool) (n : ℕ) (lines : List Text) (count : ℕ) (env : Environment)
      → Has env
      → Has (apply_lines refuses scan_fails n lines count env).env
  unfolding apply_lines
  apply_lines-Has scan_fails n [] count env h = h
  apply_lines-Has scan_fails n (line ∷ lines) count env h =
      apply_entry-Has n count (env_line line) env (apply_lines refuses scan_fails (suc n) lines)
        (apply_lines-Has scan_fails (suc n) lines) h

  -- A variable that the process has keeps its value, whatever the files hold and whatever fails.
  pub load_dot_env-keeps :
      (dirs : List (Option EnvFile)) (env : Environment)
      → lookup_env key env ≡ some value
      → lookup_env key (load_dot_env refuses dirs env) ≡ some value
  unfolding load_dot_env apply_env_file
  load_dot_env-keeps [] env h = h
  load_dot_env-keeps (none ∷ dirs) env h = load_dot_env-keeps dirs env h
  load_dot_env-keeps (some file ∷ dirs) env h =
      if-cases (λ (a : Applied). Has a.env) file.open_fails
        (record { env = env; count = 0; error = some open_failed })
        (apply_lines refuses file.scan_fails 1 file.lines 0 env) (λ e. h)
        (λ e. apply_lines-Has file.scan_fails 1 file.lines 0 env h)
