-- ===== src/EnvFile.antt =====
-- The file `.env` of the bridge: whatsapp-bridge/env_file.go. The process environment is a list of
-- pairs; a file is its lines, as `bufio.Scanner` gives them.
pub mod Wins
use whatsapp_mcp_plugin.Prelude.{
  ℕ, suc, ◌+◌, ◌-◌, Bool, true, false, ◌&&◌, ◌||◌, not, Option, none, some, List, [], ◌∷◌, ◌++◌,
  any, leb, length, take, drop, ◌==◌, if◌then◌else◌,
}
use whatsapp_mcp_plugin.Bytes.{is_blank, Text, bytes, equal, has_prefix, index, trim_space}

abbrev pub Environment : Type 0
Environment = List (Text × Text)

-- `os.LookupEnv`
abbrev pub lookup_env : Text → Environment → Option Text
lookup_env key [] = none
lookup_env key ((k, v) ∷ env) =
    let rest = lookup_env key env in if equal k key then some v else rest

-- `strings.TrimPrefix(s, p)`
abbrev pub trim_prefix : Text → Text → Text
trim_prefix p s = if has_prefix s p then drop (length p) s else s

abbrev pub with_key : ℕ → Option (Text × Text) → Option (Text × Text)
with_key c none = none
with_key c (some (key, value)) = some (c ∷ key, value)

-- `strings.Cut(s, "=")`
abbrev pub cut : Text → Option (Text × Text)
cut [] = none
cut (c ∷ s) = let rest = with_key c (cut s) in if c == b'=' then some ([], s) else rest

abbrev pub before_comment : Text → Option ℕ → Text
before_comment v none = v
before_comment v (some i) = trim_space (take i v)

-- `stripInlineComment`
unfoldable pub strip_inline_comment : Text → Text
unfolding has_prefix index bytes
strip_inline_comment v =
    if has_prefix v (b'"' ∷ []) || has_prefix v (b'\'' ∷ [])
    then v
    else before_comment v (index v (bytes " #"))

abbrev pub ends_with : ℕ → Text → Bool
ends_with q [] = false
ends_with q (c ∷ []) = c == q
ends_with q (c ∷ d ∷ s) = ends_with q (d ∷ s)

abbrev pub is_quoted : ℕ → Text → Bool
is_quoted q v = has_prefix v (q ∷ []) && ends_with q v

-- `unquoteEnvValue`
unfoldable pub unquote_env_value : Text → Text
unfolding has_prefix
unquote_env_value v =
    if leb 2 (length v) && (is_quoted b'"' v || is_quoted b'\'' v)
    then take (length v - 2) (drop 1 v)
    else v

-- The key and the value of a line that is cut at `=`.
unfoldable pub env_entry : Option (Text × Text) → Option (Text × Text)
unfolding trim_space strip_inline_comment unquote_env_value
env_entry none = none
env_entry (some (key, value)) =
    if is_blank (trim_space key) || any (λ c. c == b' ' || c == 9) (trim_space key)
    then none
    else some (trim_space key, unquote_env_value (strip_inline_comment (trim_space value)))

-- What a line of the file sets, if anything.
unfoldable pub env_line : Text → Option (Text × Text)
unfolding env_entry trim_space has_prefix bytes
env_line text =
    let line = trim_space text in
    if is_blank line || has_prefix line (b'#' ∷ [])
    then none
    else env_entry (cut (trim_prefix (bytes "export ") line))

pub data EnvError : Type 0 where
  open_failed : EnvError
  -- The number of the line whose `Setenv` failed.
  set_failed : ℕ → EnvError
  scan_failed : EnvError

pub record Applied : Type 0 where
  pub env : Environment
  pub count : ℕ
  pub error : Option EnvError

abbrev pub is_some : Option Text → Bool
is_some none = false
is_some (some value) = true

abbrev pub is_set : Text → Environment → Bool
is_set key env = is_some (lookup_env key env)

-- The entry of one line; `later` goes on with the lines after it.
unfoldable pub apply_entry :
    (Text → Text → Bool)
    → ℕ
    → Option (Text × Text)
    → ℕ
    → Environment
    → (ℕ → Environment → Applied)
    → Applied
apply_entry refuses n none count env later = later count env
apply_entry refuses n (some (key, value)) count env later =
    if is_set key env
    then later count env
    else if refuses key value
    then record { env = env; count = count; error = some (set_failed n) }
    else later (suc count) ((key, value) ∷ env)

-- The loop of `applyEnvFile` from line `n` on; `refuses` says where `os.Setenv` fails.
unfoldable pub apply_lines : (Text → Text → Bool) → Bool → ℕ → List Text → ℕ → Environment → Applied
unfolding env_line apply_entry
apply_lines refuses scan_fails n [] count env = record {
  env = env;
  count = count;
  error = if scan_fails then some scan_failed else none;
}
apply_lines refuses scan_fails n (line ∷ lines) count env =
    apply_entry refuses n (env_line line) count env (apply_lines refuses scan_fails (suc n) lines)

pub record EnvFile : Type 0 where
  pub open_fails : Bool
  pub scan_fails : Bool
  pub lines : List Text

-- `applyEnvFile`
unfoldable pub apply_env_file : (Text → Text → Bool) → EnvFile → Environment → Applied
unfolding apply_lines
apply_env_file refuses file env =
    if file.open_fails
    then record { env = env; count = 0; error = some open_failed }
    else apply_lines refuses file.scan_fails 1 file.lines 0 env

-- `loadDotEnv`, with the file of each directory where there is one: only the first is read.
unfoldable pub load_dot_env :
    (Text → Text → Bool) → List (Option EnvFile) → Environment → Environment
unfolding apply_env_file
load_dot_env refuses [] env = env
load_dot_env refuses (none ∷ dirs) env = load_dot_env refuses dirs env
load_dot_env refuses (some file ∷ dirs) env = (apply_env_file refuses file env).env
