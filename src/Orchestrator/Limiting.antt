-- ===== src/Orchestrator/Limiting.antt =====
-- internal/orchestrator/orchestrator.go: limitsFor, SetDrained and isDrained.
use action_runner_cluster.Prelude.{
  Bool, Option, Text, arith, false, if◌then◌else◌, insert, lookup-insert, lookup_or, ltb_ℤ, min_ℤ,
  nat_eq, none, or_else, some, text_eq, true, ◌==◌, ◌≡◌, ◌≤ℤ◌,
}
use action_runner_cluster.Config.{Pool, pool_named}
use action_runner_cluster.Scale.{Limits}
use action_runner_cluster.Overrides.{Override, Overrides, get}
use action_runner_cluster.Orchestrator.{Settings, Orchestrator}

-- The configured limits with the override's in place, before the minimum is lowered.
unfoldable pub overridden : Pool → Option Override → Limits
overridden pool none = record { min = pool.min; max = pool.max }
overridden pool (some ov) = record { min = or_else pool.min ov.min; max = or_else pool.max ov.max }

lower_min : Limits → Limits
lower_min lim = if ltb_ℤ lim.max lim.min then record lim { min = lim.max } else lim

-- `limitsFor`; there may be no overrides at all.
unfoldable pub limits_for : Option Overrides → Pool → Limits
unfolding overridden lower_min
limits_for none pool = lower_min (overridden pool none)
limits_for (some o) pool = lower_min (overridden pool (get o pool.name))

-- Limits in order are in force as they are.
pub limits_for_ordered :
    (o : Overrides) (pool : Pool)
    → (overridden pool (get o pool.name)).min ≤ℤ (overridden pool (get o pool.name)).max
    → limits_for (some o) pool ≡ overridden pool (get o pool.name)
unfolding limits_for lower_min
limits_for_ordered o pool h = ground arith

-- The minimum in force never exceeds the maximum in force, the maximum is the override's where it
-- has one, and so is the minimum as far as the maximum allows.
pub limits_for_lem :
    (o : Overrides) (pool : Pool)
    → let lim = limits_for (some o) pool in
      let ov = or_else (record { min = none; max = none }) (get o pool.name) in
      (lim.min ≤ℤ lim.max)
      × (lim.max ≡ or_else pool.max ov.max)
      × (lim.min ≡ min_ℤ (or_else pool.min ov.min) (or_else pool.max ov.max))
unfolding limits_for
limits_for_lem o pool = ground arith

-- `SetDrained`; false stands for the error on an unknown pool.
unfoldable pub set_drained : Settings → Text → Bool → Orchestrator → Orchestrator × Bool
set_drained s pool drained o = elim (pool_named s.pools pool) [
  | none ↦ (o, false)
  | some p ↦ (record o { drained = insert pool drained o.drained }, true)
]

unfoldable pub is_drained : Text → Orchestrator → Bool
is_drained pool o = lookup_or false pool o.drained

-- Draining or resuming a known pool changes what that pool answers and no other pool, and an unknown
-- pool is refused with nothing changed.
is_drained-set_drained :
    (s : Settings) (pool j : Text) (drained : Bool) (o : Orchestrator)
    → let (o', done) = set_drained s pool drained o in
      (done ≡ true → is_drained j o' ≡ (if pool == j then drained else is_drained j o))
      × (done ≡ false → (o' ≡ o) × (pool_named s.pools pool ≡ none))
unfolding set_drained is_drained
is_drained-set_drained s pool j drained o = ground (arith, lookup-insert pool j drained o.drained)
