-- ===== src/Config/Expansion/Plain.antt =====
-- The expansion of a file: a line is its code and its comment, comments are left alone, and what an
-- error names.
use action_runner_cluster.Prelude.{
  All, All-append, Bool, Bool-cases, List, Option, Option-cases, Text, [], any, ap, arith, eq_self,
  false, if◌then◌else◌, inl, inr, length, nat_beq, nat_eq, none, not, refl, some, split_at, suc,
  text_eq, true, zero, ℕ, ◌&&◌, ◌++◌, ◌==◌, ◌||◌, ◌∷◌, ◌≡◌, ◌≢◌,
}
use action_runner_cluster.Config.Expansion.{
  scan_step, scan_comment, split_yaml_comment, dedupe_from, dedupe, EnvRef, env_ref, replacement,
  expand_code, expand_line, expand_lines, undefined, expanded_or, expand_env,
}

scan_step_joins :
    (stop : Bool) (c : ℕ) (s : Text) (rest : Text × Text)
    → rest.0 ++ rest.1 ≡ s
    → (scan_step stop c s rest).0 ++ (scan_step stop c s rest).1 ≡ c ∷ s
unfolding scan_step
scan_step_joins true c s rest e = refl
scan_step_joins false c s rest e = ap (λ t. c ∷ t) e

scan_comment_joins :
    (before : Option ℕ) (single double : Bool) (s : Text)
    → (scan_comment before single double s).0 ++ (scan_comment before single double s).1 ≡ s
unfolding scan_comment
scan_comment_joins before single double [] = refl
scan_comment_joins before single double (c ∷ s) =
    let quote : Bool = nat_beq c b'\'' && not double in
    let quotes : Bool = nat_beq c b'"' && not single && not quote in
    let escaped : Bool = elim before [ none ↦ false | some b ↦ nat_beq b b'\\' ] in
    scan_step_joins
      (nat_beq c b'#'
        && not single
        && not double
        && elim before [ none ↦ true | some b ↦ nat_beq b b' ' || nat_beq b 9 ])
      c s
      (scan_comment (some c) (if quote then not single else single)
        (if quotes && not escaped then not double else double) s)
      (scan_comment_joins (some c) (if quote then not single else single)
        (if quotes && not escaped then not double else double) s)

-- A comment is nothing, or starts with the mark.
abbrev pub IsComment : Text → Type 0
IsComment [] = Unit
IsComment (c ∷ s) = c ≡ b'#'

scan_step-IsComment :
    (stop : Bool) (c : ℕ) (s : Text) (rest : Text × Text)
    → (stop ≡ true → c ≡ b'#')
    → IsComment rest.1
    → IsComment (scan_step stop c s rest).1
unfolding scan_step
scan_step-IsComment true c s rest mark h = mark refl
scan_step-IsComment false c s rest mark h = h

scan_comment-IsComment :
    (before : Option ℕ) (single double : Bool) (s : Text)
    → IsComment (scan_comment before single double s).1
unfolding scan_comment
scan_comment-IsComment before single double [] = tt
scan_comment-IsComment before single double (c ∷ s) =
    let quote : Bool = nat_beq c b'\'' && not double in
    let quotes : Bool = nat_beq c b'"' && not single && not quote in
    let escaped : Bool = elim before [ none ↦ false | some b ↦ nat_beq b b'\\' ] in
    scan_step-IsComment
      (nat_beq c b'#'
        && not single
        && not double
        && elim before [ none ↦ true | some b ↦ nat_beq b b' ' || nat_beq b 9 ])
      c s
      (scan_comment (some c) (if quote then not single else single)
        (if quotes && not escaped then not double else double) s)
      (λ e.
        marked (not single) (not double)
          (elim before [ none ↦ true | some b ↦ nat_beq b b' ' || nat_beq b 9 ]) e)
      (scan_comment-IsComment (some c) (if quote then not single else single)
        (if quotes && not escaped then not double else double) s)
  where
    marked : (a b d : Bool) → (nat_beq c b'#' && a && b && d) ≡ true → c ≡ b'#'
    marked a b d e = ground arith

-- splitYAMLComment loses nothing: the code and the comment are the line, and the comment is empty
-- or starts with '#'.
pub split_yaml_comment_joins :
    (line : Text)
    → ((split_yaml_comment line).0 ++ (split_yaml_comment line).1 ≡ line)
      × IsComment (split_yaml_comment line).1
unfolding split_yaml_comment
split_yaml_comment_joins line =
    (scan_comment_joins none false false line, scan_comment-IsComment none false false line)

-- Names that the environment does not set.
abbrev pub Unset : (Text → Option Text) → List Text → Type 0
Unset env = All (λ n. env n ≡ none)

abbrev pub Distinct : List Text → Type 0
Distinct [] = Unit
Distinct (n ∷ ns) = All (λ m. m ≢ n) ns × Distinct ns

replacement-Unset : (env : Text → Option Text) (r : EnvRef) → Unset env (replacement env r).1
unfolding replacement
replacement-Unset env r = elim (Option-cases (env r.name)) [
  | inr (v, set) ↦ rw (set, replacement) tt
  | inl unset ↦ elim (Option-cases r.default) [
    | inr (d, given) ↦ rw (unset, given, replacement) tt
    | inl bare ↦ rw (unset, bare, replacement) (unset, tt)
  ]
]

expand_code-Unset :
    (fuel : ℕ) (env : Text → Option Text) (s : Text) → Unset env (expand_code fuel env s).1
unfolding expand_code
expand_code-Unset zero env s = tt
expand_code-Unset (suc fuel) env [] = tt
expand_code-Unset (suc fuel) env (c ∷ s) = elim (Option-cases (env_ref (c ∷ s))) [
  | inl plain ↦ simp (plain, expand_code) (expand_code-Unset fuel env s)
  | inr (r, ref) ↦
      simp (ref, expand_code)
        (All-append _ (replacement env r).1 (expand_code fuel env r.rest).1
          (replacement-Unset env r) (expand_code-Unset fuel env r.rest))
]

expand_lines-Unset : (env : Text → Option Text) (ls : List Text) → Unset env (expand_lines env ls).1
unfolding expand_lines expand_line
expand_lines-Unset env [] = tt
expand_lines-Unset env (l ∷ ls) =
    All-append _ (expand_line env l).1 (expand_lines env ls).1
      (expand_code-Unset (suc (length (split_yaml_comment l).0)) env (split_yaml_comment l).0)
      (expand_lines-Unset env ls)

-- What dedupe keeps satisfies what all the names satisfy, and comes once.
dedupe_from-All : (P : Text → Type 0) (seen xs : List Text) → All P xs → All P (dedupe_from seen xs)
unfolding dedupe_from
dedupe_from-All P seen [] h = tt
dedupe_from-All P seen (x ∷ xs) h = elim (Bool-cases (any (λ t. t == x) seen)) [
  | inl old ↦ rw old (dedupe_from-All P seen xs h.1)
  | inr new ↦ rw new (h.0, dedupe_from-All P (x ∷ seen) xs h.1)
]

-- No name that is kept has been seen.
dedupe_from-apart :
    (x : Text) (seen xs : List Text)
    → any (λ t. t == x) seen ≡ true
    → All (λ m. m ≢ x) (dedupe_from seen xs)
unfolding dedupe_from any
dedupe_from-apart x seen [] h = tt
dedupe_from-apart x seen (y ∷ ys) h = elim (Bool-cases (any (λ t. t == y) seen)) [
  | inl old ↦ rw old (dedupe_from-apart x seen ys h)
  | inr new ↦ rw new (apart new, dedupe_from-apart x (y ∷ seen) ys (rw (any, h) (ground arith)))
]
  where
    apart : any (λ t. t == y) seen ≡ false → y ≢ x
    apart new e = let q : any (λ t. t == x) seen ≡ false = rw (← e) new in cc

dedupe_from-Distinct : (seen xs : List Text) → Distinct (dedupe_from seen xs)
unfolding dedupe_from
dedupe_from-Distinct seen [] = tt
dedupe_from-Distinct seen (x ∷ xs) = elim (Bool-cases (any (λ t. t == x) seen)) [
  | inl old ↦ rw old (dedupe_from-Distinct seen xs)
  | inr new ↦ rw new (
    dedupe_from-apart x (x ∷ seen) xs (rw (any, eq_self x) refl),
    dedupe_from-Distinct (x ∷ seen) xs,
  )
]

expanded_or-undefined :
    (env : Text → Option Text) (text : Text) (missing : List Text) {names : List Text}
    → Unset env missing
    → expanded_or text missing ≡ undefined names
    → (names ≢ []) × Unset env names × Distinct names
unfolding expanded_or dedupe dedupe_from any
expanded_or-undefined env text [] u e = cc
expanded_or-undefined env text (n ∷ ns) {names} u e =
    let same : dedupe (n ∷ ns) ≡ names = cc in
    rw (← same)
      (λ q. cc, dedupe_from-All (λ m. env m ≡ none) [] (n ∷ ns) u, dedupe_from-Distinct [] (n ∷ ns))

-- The error of expandEnv names at least one variable, each once, and none that the environment sets.
pub expand_env-undefined :
    (env : Text → Option Text) (s : Text) {names : List Text}
    → expand_env env s ≡ undefined names
    → (names ≢ []) × Unset env names × Distinct names
unfolding expand_env
expand_env-undefined env s e =
    expanded_or-undefined env _ (expand_lines env (split_at 10 s)).1
      (expand_lines-Unset env (split_at 10 s)) e
