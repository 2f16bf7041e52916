-- ===== src/Orchestrator/Failures.antt =====
-- internal/orchestrator/orchestrator.go: recordFailure and Healthy.
use mathlib.Core.Option.{some-injective}
use action_runner_cluster.Prelude.{
  Option, Option-cases, arith, if◌then◌else◌, inl, inr, leb, ltb_ℤ, max_ℤ, none, pos, refl, some,
  subst, sym, ℕ, ℤ, ◌+ℤ◌, ◌+◌, ◌-ℤ◌, ◌<◌, ◌↔◌, ◌≡◌, ◌≤ℤ◌,
}
use action_runner_cluster.Config.{entity}
use action_runner_cluster.Orchestrator.{Settings, PassError, Orchestrator}

unfoldable pub record_failure : Settings → ℕ → PassError → Orchestrator → Orchestrator
record_failure s now e o = record o {
  snapshot = record o.snapshot {
    org = entity s.github;
    last_error = some e;
    updated_at = some now;
    consecutive_failures = o.snapshot.consecutive_failures + 1;
  };
}

pub data Unhealthy : Type 0 where
  never_ran : Unhealthy
  failing : ℕ → Option PassError → Unhealthy
  stale : Unhealthy

abbrev pub minute : ℕ
minute = 60000000000

abbrev pub five_times : ℤ → ℤ
five_times p = p +ℤ p +ℤ p +ℤ p +ℤ p

-- Five poll intervals, and at least a minute.
stale_after : Settings → ℤ
stale_after s =
    let five : ℤ = five_times s.github.poll_interval in
    if ltb_ℤ five (pos minute) then pos minute else five

-- `Healthy`; none is a healthy answer.
unfoldable pub healthy : Settings → ℕ → Orchestrator → Option Unhealthy
unfolding stale_after
healthy s now o = elim o.snapshot.updated_at [
  | none ↦ some never_ran
  | some t ↦
      if leb 3 o.snapshot.consecutive_failures
      then some (failing o.snapshot.consecutive_failures o.snapshot.last_error)
      else if ltb_ℤ (stale_after s) (pos now -ℤ pos t)
      then some stale
      else none
]

-- A healthy answer is given exactly when a pass has ended, fewer than three passes have failed since
-- one completed, and the last pass is at most five poll intervals or a minute old, whichever is more.
pub healthy_iff :
    (s : Settings) (now : ℕ) (o : Orchestrator)
    → (healthy s now o ≡ none) ↔ (
        (t : ℕ) × (o.snapshot.updated_at ≡ some t)
        × (o.snapshot.consecutive_failures < 3)
        × (pos now -ℤ pos t ≤ℤ max_ℤ (five_times s.github.poll_interval) (pos minute)))
unfolding healthy
healthy_iff s now o = elim (Option-cases o.snapshot.updated_at) [
  | inl e ↦ rw (e, healthy) (λ h. cc, λ (t, e', f, a). cc)
  | inr (t, e) ↦
      rw (e, healthy)
        (
          λ h. (t, refl, ground arith, ground arith),
          λ (t', e', f, a).
              let a' =
                subst
                  (λ (u : ℕ).
                    pos now -ℤ pos u ≤ℤ max_ℤ (five_times s.github.poll_interval) (pos minute))
                  (sym (some-injective _ _ e')) a in
              ground arith,
        )
]
