-- ===== src/Api/Access.antt =====
-- internal/api/server.go: who is let in by `auth`, and the other handlers.
use action_runner_cluster.Prelude.{
  Option, Option-cases, Text, [], arith, codes, inl, inr, none, pos, strip_prefix,
  strip_prefix-append, strip_prefix_sound, text_beq_iff, true, ℤ, ◌++◌, ◌↔◌, ◌≡◌, ◌≤ℤ◌, ◌⊎◌,
}
use action_runner_cluster.Api.{admits, log_lines}

-- With a token configured a request gets in exactly if its header is "Bearer " and the token, or the
-- token alone where the header does not itself start with "Bearer ".
pub admits_iff :
    (token header : Text)
    → (admits token header ≡ true) ↔ (
        (token ≡ [])
        ⊎ ((header ≡ codes "Bearer " ++ token)
            ⊎ ((header ≡ token) × (strip_prefix (codes "Bearer ") header ≡ none))))
unfolding admits
admits_iff token header = elim (Option-cases (strip_prefix (codes "Bearer ") header)) [
  | inl bare ↦
      rw (bare, admits)
        (
          λ h. ground (arith, text_beq_iff token [], text_beq_iff header token),
          λ h. ground (
            arith,
            text_beq_iff token [],
            text_beq_iff header token,
            strip_prefix-append (codes "Bearer ") token,
          ),
        )
  | inr (rest, found) ↦
      let whole = strip_prefix_sound (codes "Bearer ") header found in
      rw (found, admits)
        (
          λ h. ground (arith, text_beq_iff token [], text_beq_iff rest token),
          λ h. ground (
            arith,
            text_beq_iff token [],
            text_beq_iff rest token,
            strip_prefix-append (codes "Bearer ") token,
          ),
        )
]

-- handleLogs asks for at least one line and at most ten thousand, whatever the query says.
log_lines_bounds : (n : Option ℤ) → (pos 1 ≤ℤ log_lines n) × (log_lines n ≤ℤ pos 10000)
unfolding log_lines
log_lines_bounds n = ground arith
