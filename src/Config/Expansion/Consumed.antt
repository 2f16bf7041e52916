-- ===== src/Config/Expansion/Consumed.antt =====
-- The fuel of the expansion of a line is enough: every round takes a byte at least.
use action_runner_cluster.Prelude.{
  Bool-cases, Option, Option-cases, Text, [], arith, codes, cut, inl, inr, length, length-append,
  nat_beq, none, refl, some, strip_prefix, strip_prefix_sound, suc, zero, ℕ, ◌++◌, ◌+◌, ◌<◌, ◌∷◌,
  ◌≡◌, ◌≤◌,
}
use action_runner_cluster.Config.Expansion.{
  span_name, EnvRef, after_name, starts_name, env_ref, expand_code,
}

span_name-length : (s : Text) → length (span_name s).1 ≤ length s
unfolding span_name
span_name-length [] = omega arith
span_name-length (c ∷ s) = ground (arith, span_name-length s)

cut-length : (sep : ℕ) (s : Text) {rest : Text} → (cut sep s).1 ≡ some rest → length rest < length s
unfolding cut
cut-length sep [] {rest} e = absurd (let q : none ≡ some rest = e in cc)
cut-length sep (c ∷ s) {rest} e = elim (Bool-cases (nat_beq c sep)) [
  | inl here ↦
      let q : some s ≡ some rest = rw (here, cut) at e in
      let same : s ≡ rest = cc in rw (← same) (omega arith)
  | inr later ↦
      let below : length rest < length s = cut-length sep s (rw (later, cut) at e) in omega arith
]

strip_prefix-length :
    (p s : Text) {rest : Text} → strip_prefix p s ≡ some rest → length rest + length p ≡ length s
strip_prefix-length p s {rest} e =
    let same : s ≡ p ++ rest = strip_prefix_sound p s e in rw (same, length-append) (omega arith)

after_name-length :
    (name s : Text) {r : EnvRef} → after_name name s ≡ some r → length r.rest < length s
unfolding after_name
after_name-length name s {r} e = elim (Option-cases (strip_prefix (codes "}") s)) [
  | inr (rest, closed) ↦
      let q : some (record { name = name; default = none; rest = rest }) ≡ some r =
        rw (closed, after_name) at e in
      let same : record { name = name; default = none; rest = rest } ≡ r = cc in
      let all : length rest + 1 ≡ length s = strip_prefix-length (codes "}") s closed in
      rw (← same) (omega arith)
  | inl unclosed ↦ elim (Option-cases (strip_prefix (codes ":-") s)) [
    | inl bare ↦ absurd (let q : none ≡ some r = rw (unclosed, bare, after_name) at e in cc)
    | inr (given, marked) ↦
        let all : length given + 2 ≡ length s = strip_prefix-length (codes ":-") s marked in
        elim (Option-cases (cut b'}' given).1) [
          | inl endless ↦
              absurd (let q : none ≡ some r = rw (unclosed, marked, endless, after_name) at e in cc)
          | inr (rest, ended) ↦
              let q : some (record { name = name; default = some (cut b'}' given).0; rest = rest })
                  ≡ some r =
                rw (unclosed, marked, ended, after_name) at e in
              let same : record { name = name; default = some (cut b'}' given).0; rest = rest }
                  ≡ r =
                cc in
              let below : length rest < length given = cut-length b'}' given ended in
              rw (← same) (omega arith)
        ]
  ]
]

env_ref-length : (s : Text) {r : EnvRef} → env_ref s ≡ some r → length r.rest < length s
unfolding env_ref
env_ref-length s {r} e = elim (Option-cases (strip_prefix (codes "${") s)) [
  | inl plain ↦ absurd (let q : none ≡ some r = rw (plain, env_ref) at e in cc)
  | inr (body, opened) ↦ elim (Bool-cases (starts_name body)) [
    | inr other ↦ absurd (let q : none ≡ some r = rw (opened, other, env_ref) at e in cc)
    | inl named ↦
        let q : after_name (span_name body).0 (span_name body).1 ≡ some r =
          rw (opened, named, env_ref) at e in
        let below : length r.rest < length (span_name body).1 =
          after_name-length (span_name body).0 (span_name body).1 q in
        let all : length body + 2 ≡ length s = strip_prefix-length (codes "${") s opened in
        omega (arith, span_name-length body)
  ]
]

-- Any two amounts of fuel above the length of the text give the same: none of them runs out.
pub expand_code_enough :
    (more less : ℕ) (env : Text → Option Text) (s : Text)
    → length s < more
    → length s < less
    → expand_code more env s ≡ expand_code less env s
unfolding expand_code
expand_code_enough zero less env s m l = absurd (omega arith)
expand_code_enough (suc more) zero env s m l = absurd (omega arith)
expand_code_enough (suc more) (suc less) env [] m l = refl
expand_code_enough (suc more) (suc less) env (c ∷ s) m l = elim (Option-cases (env_ref (c ∷ s))) [
  | inl plain ↦
      rw (plain, expand_code, expand_code_enough more less env s (omega arith) (omega arith)) refl
  | inr (r, found) ↦
      let below : length r.rest < suc (length s) = env_ref-length (c ∷ s) found in
      rw (found, expand_code, expand_code_enough more less env r.rest (omega arith) (omega arith))
        refl
]
