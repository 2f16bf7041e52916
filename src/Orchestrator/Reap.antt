-- ===== src/Orchestrator/Reap.antt =====
-- internal/orchestrator/orchestrator.go: reap, for one pool.
pub mod Calls
use action_runner_cluster.Prelude.{
  Bool, List, Map, Text, [], any, false, if◌then◌else◌, ltb_ℤ, nat_eq, not, text_eq, true, ℕ, ◌==◌,
  ◌||◌, ◌∷◌,
}
use action_runner_cluster.Config.{Pool}
use action_runner_cluster.Ghapi.{Runner}
use action_runner_cluster.Provider.{State, starting, running, exited, unknown, Instance, age}
use action_runner_cluster.Names.{belongs_to_pool}
use action_runner_cluster.Orchestrator.{Call, deregisters, Env, Orchestrator, log}
use action_runner_cluster.Orchestrator.Destroy.{destroy_instance}

abbrev pub is_finished : State → Bool
is_finished exited = true
is_finished unknown = true
is_finished starting = false
is_finished running = false

-- An instance that has finished, or has lived past the pool's job timeout.
unfoldable pub is_over : ℕ → Pool → Instance → Bool
unfolding age
is_over now pool inst = is_finished inst.state || ltb_ℤ pool.job_timeout (age now inst)

-- The loop over the instances: what stays alive.
unfoldable pub reap_instances :
    Env → ℕ → Pool → Map Text Runner → List Instance → Orchestrator → Orchestrator × List Instance
unfolding is_over
reap_instances env now pool by_name [] o = (o, [])
reap_instances env now pool by_name (inst ∷ insts) o =
    let over : Bool = is_over now pool inst in
    let o1 : Orchestrator = if over then (destroy_instance env pool.name by_name inst o).0 else o in
    let (o2, live) = reap_instances env now pool by_name insts o1 in
    (o2, if over then live else inst ∷ live)

-- A registration that this host minted for the pool, with no instance behind it and no job on it.
unfoldable pub is_orphan : Text → Pool → List Instance → Text → Runner → Bool
unfolding any
is_orphan host pool insts name r =
    if any (λ i. i.runner_name == name) insts || not (belongs_to_pool host name pool.name)
    then false
    else not r.busy

-- The loop over the registrations. Go walks a map in no fixed order; this is one such order.
unfoldable pub reap_orphans :
    Env → Text → Pool → List Instance → Map Text Runner → Orchestrator → Orchestrator
unfolding is_orphan log
reap_orphans env host pool insts [] o = o
reap_orphans env host pool insts ((name, r) ∷ rest) o =
    reap_orphans env host pool insts rest
      (if is_orphan host pool insts name r then log (deregisters r) o else o)

unfoldable pub reap :
    Env
    → Text
    → ℕ
    → Pool
    → List Instance
    → Map Text Runner
    → Orchestrator
    → Orchestrator × List Instance
unfolding reap_instances reap_orphans
reap env host now pool insts by_name o =
    let (o1, live) = reap_instances env now pool by_name insts o in
    (reap_orphans env host pool insts by_name o1, live)
