-- ===== src/Config/Expansion.antt =====
-- internal/config/config.go: expandEnv with splitYAMLComment and dedupe, and IsEnvRef of edit.go.
-- The environment is an argument.
pub mod Plain
pub mod Consumed
use action_runner_cluster.Prelude.{
  Bool, List, Option, Text, [], any, codes, cut, false, has_prefix, has_suffix, if◌then◌else◌,
  join_with, leb, length, nat_beq, nat_eq, none, not, some, split_at, strip_prefix, suc, text_eq,
  true, zero, ℕ, ◌&&◌, ◌++◌, ◌==◌, ◌||◌, ◌∷◌,
}

-- The comment starts here, or one more byte is code.
unfoldable pub scan_step : Bool → ℕ → Text → Text × Text → Text × Text
scan_step true c s rest = ([], c ∷ s)
scan_step false c s rest = (c ∷ rest.0, rest.1)

-- The scan of splitYAMLComment: the byte before, the two quotes, and what is left.
unfoldable pub scan_comment : (before : Option ℕ) (in_single in_double : Bool) → Text → Text × Text
unfolding scan_step
scan_comment before in_single in_double [] = ([], [])
scan_comment before in_single in_double (c ∷ s) =
    let single : Bool = nat_beq c b'\'' && not in_double in
    let double : Bool = nat_beq c b'"' && not in_single && not single in
    let escaped : Bool = elim before [ none ↦ false | some b ↦ nat_beq b b'\\' ] in
    let spaced : Bool = elim before [ none ↦ true | some b ↦ nat_beq b b' ' || nat_beq b 9 ] in
    let rest : Text × Text =
      scan_comment (some c) (if single then not in_single else in_single)
        (if double && not escaped then not in_double else in_double) s in
    scan_step (nat_beq c b'#' && not in_single && not in_double && spaced) c s rest

-- `splitYAMLComment`
unfoldable pub split_yaml_comment : Text → Text × Text
unfolding scan_comment
split_yaml_comment line = scan_comment none false false line

-- `dedupe`
unfoldable pub dedupe_from : List Text → List Text → List Text
unfolding any
dedupe_from seen [] = []
dedupe_from seen (s ∷ more) =
    if any (λ t. t == s) seen then dedupe_from seen more else s ∷ dedupe_from (s ∷ seen) more

unfoldable pub dedupe : List Text → List Text
unfolding dedupe_from
dedupe xs = dedupe_from [] xs

unfoldable pub is_name_start : ℕ → Bool
is_name_start c = (leb b'A' c && leb c b'Z') || (leb b'a' c && leb c b'z') || nat_beq c b'_'

unfoldable pub is_name_byte : ℕ → Bool
unfolding is_name_start
is_name_byte c = is_name_start c || (leb b'0' c && leb c b'9')

-- The longest run of name bytes, and the rest.
unfoldable pub span_name : Text → Text × Text
unfolding is_name_byte
span_name [] = ([], [])
span_name (c ∷ s) =
    let rest : Text × Text = span_name s in
    if is_name_byte c then (c ∷ rest.0, rest.1) else ([], c ∷ s)

-- One match of envRE: the name, the default if there is one, and what follows.
pub record EnvRef : Type 0 where
  pub name : Text
  pub default : Option Text
  pub rest : Text

unfoldable pub after_name : Text → Text → Option EnvRef
unfolding cut strip_prefix
after_name name s = elim (strip_prefix (codes "}") s) [
  | some rest ↦ some (record { name = name; default = none; rest = rest })
  | none ↦ elim (strip_prefix (codes ":-") s) [
    | none ↦ none
    | some given ↦ elim (cut b'}' given).1 [
      | none ↦ none
      | some rest ↦ some (record { name = name; default = some (cut b'}' given).0; rest = rest })
    ]
  ]
]

unfoldable pub starts_name : Text → Bool
unfolding is_name_start
starts_name [] = false
starts_name (c ∷ s) = is_name_start c

-- envRE at the start of a text.
unfoldable pub env_ref : Text → Option EnvRef
unfolding after_name span_name starts_name strip_prefix
env_ref s = elim (strip_prefix (codes "${") s) [
  | none ↦ none
  | some body ↦ if starts_name body then after_name (span_name body).0 (span_name body).1 else none
]

-- The replacement of one match, and its name where it is missing.
unfoldable pub replacement : (Text → Option Text) → EnvRef → Text × List Text
replacement env r = elim (env r.name) [
  | some v ↦ (v, [])
  | none ↦ elim r.default [ some d ↦ (d, []) | none ↦ ([], r.name ∷ []) ]
]

-- ReplaceAllStringFunc on the code of a line: the text, and the names that are missing.
unfoldable pub expand_code : ℕ → (Text → Option Text) → Text → Text × List Text
unfolding env_ref replacement
expand_code zero env s = (s, [])
expand_code (suc fuel) env [] = ([], [])
expand_code (suc fuel) env (c ∷ s) =
    let next : Text × List Text = expand_code fuel env s in
    elim (env_ref (c ∷ s)) [
      | none ↦ (c ∷ next.0, next.1)
      | some r ↦
          let rest : Text × List Text = expand_code fuel env r.rest in
          ((replacement env r).0 ++ rest.0, (replacement env r).1 ++ rest.1)
    ]

-- One line: only its code is expanded.
unfoldable pub expand_line : (Text → Option Text) → Text → Text × List Text
unfolding expand_code split_yaml_comment
expand_line env line =
    let parts : Text × Text = split_yaml_comment line in
    let code : Text × List Text = expand_code (suc (length parts.0)) env parts.0 in
    (code.0 ++ parts.1, code.1)

unfoldable pub expand_lines : (Text → Option Text) → List Text → List Text × List Text
unfolding expand_line
expand_lines env [] = ([], [])
expand_lines env (l ∷ ls) =
    let one : Text × List Text = expand_line env l in
    let rest : List Text × List Text = expand_lines env ls in (one.0 ∷ rest.0, one.1 ++ rest.1)

-- `expandEnv`: the text, or the names that are set nowhere.
pub data Expanded : Type 0 where
  expanded : Text → Expanded
  undefined : List Text → Expanded

unfoldable pub expanded_or : Text → List Text → Expanded
expanded_or text [] = expanded text
expanded_or text (n ∷ ns) = undefined (dedupe (n ∷ ns))

unfoldable pub expand_env : (Text → Option Text) → Text → Expanded
unfolding expand_lines expanded_or dedupe split_at join_with
expand_env env s =
    let all : List Text × List Text = expand_lines env (split_at 10 s) in
    expanded_or (join_with (10 ∷ []) all.0) all.1

-- `IsEnvRef`
unfoldable pub is_env_ref : Text → Bool
unfolding has_prefix has_suffix
is_env_ref s = has_prefix s (codes "${") && has_suffix s (codes "}")
