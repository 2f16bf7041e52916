-- ===== src/Orchestrator/PoolPass.antt =====
-- internal/orchestrator/orchestrator.go: applyPool, one pool's part of a pass.
pub mod Bounds
use action_runner_cluster.Prelude.{
  Bool, List, Map, Option, Text, [], by_key, codes, false, if◌then◌else◌, lookup, ltb_ℤ, map, none,
  not, pos, pos_part, some, sort_stable, text_eq, true, ℕ, ◌&&◌, ◌++◌, ◌+◌, ◌∷◌,
}
use action_runner_cluster.Config.{GitHub, Pool, entity}
use action_runner_cluster.Ghapi.{Job, Runner, online}
use action_runner_cluster.Provider.{Instance, age}
use action_runner_cluster.Scale.{Limits, PoolState, Decision, plan}
use action_runner_cluster.Overrides.{Overrides}
use action_runner_cluster.Orchestrator.{Settings, Env, InstanceSnapshot, PoolSnapshot, Orchestrator}
use action_runner_cluster.Orchestrator.Limiting.{limits_for, is_drained}
use action_runner_cluster.Orchestrator.Launch.{scale_up}
use action_runner_cluster.Orchestrator.Cull.{scale_down}

-- How GitHub sees an instance's runner; the last one is registered but not connected, or not listed.
pub data Standing : Type 0 where
  working waiting coming : Standing

unfoldable pub standing : Map Text Runner → Instance → Standing
unfolding online
standing by_name inst = elim (lookup inst.runner_name by_name) [
  | none ↦ coming
  | some r ↦ if r.busy then working else if online r then waiting else coming
]

-- One more instance of that standing.
count_in : Standing → PoolState → PoolState
count_in working st = record st { live = st.live + 1; busy = st.busy + 1 }
count_in waiting st = record st { live = st.live + 1; idle = st.idle + 1 }
count_in coming st = record st { live = st.live + 1; starting = st.starting + 1 }

unfoldable pub tally : Map Text Runner → List Instance → PoolState
unfolding count_in
tally by_name [] = record { live = 0; busy = 0; idle = 0; starting = 0 }
tally by_name (inst ∷ insts) = count_in (standing by_name inst) (tally by_name insts)

plain_snapshot : ℕ → Instance → InstanceSnapshot
unfolding age
plain_snapshot now inst = record {
  name = inst.runner_name;
  id = inst.id;
  runner_id = inst.runner_id;
  state = inst.state;
  online = false;
  busy = false;
  age = age now inst;
  created_at = inst.created_at;
  detail = inst.detail;
  repo = [];
  branch = [];
  job = [];
}

-- A busy runner's snapshot names the job that it runs, if the poll saw it.
with_job : Settings → Option Job → InstanceSnapshot → InstanceSnapshot
with_job s none snap = snap
with_job s (some j) snap = record snap {
  repo = entity s.github ++ (codes "/" ++ j.repo);
  branch = j.branch;
  job = j.name;
}

observe : Settings → ℕ → Map Text Runner → Map Text Job → Instance → InstanceSnapshot
unfolding plain_snapshot with_job
observe s now by_name running inst = elim (standing by_name inst) [
  | working ↦
      with_job s (lookup inst.runner_name running)
        (record (plain_snapshot now inst) { online = true; busy = true })
  | waiting ↦ record (plain_snapshot now inst) { online = true }
  | coming ↦ plain_snapshot now inst
]

-- The limits and the demand in force: a drained pool has none.
unfoldable pub limits_in_force : Option Overrides → Pool → Orchestrator → Limits
limits_in_force ov pool o =
    if is_drained pool.name o then record { min = pos 0; max = pos 0 } else limits_for ov pool

unfoldable pub demand_in_force : Pool → ℕ → Orchestrator → ℕ
demand_in_force pool demand o = if is_drained pool.name o then 0 else demand

-- The `switch` on the decision.
unfoldable pub carry_out :
    Env
    → Settings
    → ℕ
    → Pool
    → List Instance
    → Map Text Runner
    → List Job
    → Bool
    → Decision
    → Orchestrator
    → Orchestrator
carry_out env s now pool live by_name jobs drained d o =
    if ltb_ℤ (pos 0) d.create && not drained
    then scale_up env s pool (pos_part d.create) jobs o
    else if ltb_ℤ (pos 0) d.cull
    then scale_down env now pool live by_name (pos_part d.cull) o
    else o

unfoldable pub decide :
    Option Overrides → Pool → List Instance → Map Text Runner → ℕ → Orchestrator → Decision
unfolding limits_in_force demand_in_force
decide ov pool live by_name demand o =
    plan pool.name (tally by_name live) (demand_in_force pool demand o) (limits_in_force ov pool o)

unfoldable pub apply_pool :
    Env
    → Settings
    → Option Overrides
    → ℕ
    → Pool
    → List Instance
    → Map Text Runner
    → Map Text Job
    → ℕ
    → List Job
    → Orchestrator
    → Orchestrator × PoolSnapshot
unfolding carry_out decide observe
apply_pool env s ov now pool live by_name running demand jobs o =
    let lim : Limits = limits_in_force ov pool o in
    let st : PoolState = tally by_name live in
    let d : Decision = decide ov pool live by_name demand o in
    (
      carry_out env s now pool live by_name jobs (is_drained pool.name o) d o,
      record {
        name = pool.name;
        provider = pool.provider;
        labels = pool.labels;
        min = lim.min;
        max = lim.max;
        desired = d.desired;
        live = st.live;
        busy = st.busy;
        idle = st.idle;
        starting = st.starting;
        queued = demand_in_force pool demand o;
        drained = is_drained pool.name o;
        reason = d.reason;
        error = false;
        instances =
            sort_stable (by_key (λ i. i.created_at)) (map (observe s now by_name running) live);
      },
    )
