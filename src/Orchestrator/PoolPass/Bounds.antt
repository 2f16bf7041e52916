-- ===== src/Orchestrator/PoolPass/Bounds.antt =====
-- internal/orchestrator/orchestrator.go: applyPool counts every runner once, keeps the pool under its
-- maximum, and launches nothing for a drained pool.
use action_runner_cluster.Prelude.{
  Bool, List, Map, Option, Text, [], ap, arith, length, pos, pos_part, refl, subst, true, ℕ, ◌+◌,
  ◌-ℤ◌, ◌∷◌, ◌≡◌, ◌≤◌,
}
use action_runner_cluster.Config.{Pool}
use action_runner_cluster.Ghapi.{Job, Runner}
use action_runner_cluster.Provider.{Instance}
use action_runner_cluster.Scale.{Decision}
use action_runner_cluster.Scale.Planning.{plan_cap}
use action_runner_cluster.Overrides.{Overrides}
use action_runner_cluster.Orchestrator.{Settings, Env, Orchestrator}
use action_runner_cluster.Orchestrator.Trace.{launches, Adds-launches}
use action_runner_cluster.Orchestrator.Limiting.{is_drained}
use action_runner_cluster.Orchestrator.Launch.Counting.{scale_up-launches}
use action_runner_cluster.Orchestrator.Cull.{scale_down}
use action_runner_cluster.Orchestrator.Cull.Eligible.{DistinctRunners}
use action_runner_cluster.Orchestrator.Cull.Limits.{Culls, scale_down_lem}
use action_runner_cluster.Orchestrator.PoolPass.{
  tally, limits_in_force, demand_in_force, carry_out, decide, apply_pool,
}

-- Busy, idle and starting runners are all the live ones.
tally_parts :
    (by_name : Map Text Runner) (insts : List Instance)
    → let st = tally by_name insts in
      (st.live ≡ length insts) × (st.busy + st.idle + st.starting ≡ st.live)
unfolding tally
tally_parts by_name [] = (refl, refl)
tally_parts by_name (inst ∷ insts) = ground (arith, tally_parts by_name insts)

scale_down-launches :
    (env : Env) (now : ℕ) (pool : Pool) (live : List Instance) (by_name : Map Text Runner) (n : ℕ)
    (o : Orchestrator)
    → DistinctRunners live
    → launches (scale_down env now pool live by_name n o).calls ≡ launches o.calls
scale_down-launches env now pool live by_name n o d =
    Adds-launches (Culls now pool live by_name o.idle_since) o.calls _ (λ repo name h. h)
      (scale_down_lem env now pool live by_name n o d).0

carry_out-launches :
    (env : Env) (s : Settings) (now : ℕ) (pool : Pool) (live : List Instance)
    (by_name : Map Text Runner) (jobs : List Job) (drained : Bool) (d : Decision) (o : Orchestrator)
    → DistinctRunners live
    → (launches (carry_out env s now pool live by_name jobs drained d o).calls
        ≤ launches o.calls + pos_part d.create)
      × (drained ≡ true
          → launches (carry_out env s now pool live by_name jobs drained d o).calls
            ≡ launches o.calls)
unfolding carry_out
carry_out-launches env s now pool live by_name jobs drained d o distinct = ground (
  arith,
  scale_up-launches env s pool (pos_part d.create) jobs o,
  ap (λ (x : Orchestrator). launches x.calls),
  scale_down-launches env now pool live by_name (pos_part d.cull) o distinct,
)

-- Unless instances share a runner name, one pass over a pool registers no more runners than the pool
-- lacks to its maximum in force, and for a drained pool none.
pub apply_pool_cap :
    (env : Env) (s : Settings) (ov : Option Overrides) (now : ℕ) (pool : Pool)
    (live : List Instance) (by_name : Map Text Runner) (running : Map Text Job) (demand : ℕ)
    (jobs : List Job) (o : Orchestrator)
    → DistinctRunners live
    → let o' = (apply_pool env s ov now pool live by_name running demand jobs o).0 in
      (launches o'.calls
        ≤ launches o.calls + pos_part ((limits_in_force ov pool o).max -ℤ pos (length live)))
      × (is_drained pool.name o ≡ true → launches o'.calls ≡ launches o.calls)
unfolding apply_pool decide
apply_pool_cap env s ov now pool live by_name running demand jobs o distinct =
    let d : Decision = decide ov pool live by_name demand o in
    let (bound, none_drained) =
      carry_out-launches env s now pool live by_name jobs (is_drained pool.name o) d o distinct in
    let cap =
      plan_cap pool.name (tally by_name live) (demand_in_force pool demand o)
        (limits_in_force ov pool o) in
    (
      subst
          (λ (n : ℕ).
            launches (carry_out env s now pool live by_name jobs (is_drained pool.name o) d o).calls
            ≤ launches o.calls + pos_part ((limits_in_force ov pool o).max -ℤ pos n))
          (tally_parts by_name live).0 (omega (arith, bound, cap)),
      none_drained,
    )
