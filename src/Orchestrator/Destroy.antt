-- ===== src/Orchestrator/Destroy.antt =====
-- internal/orchestrator/orchestrator.go: destroyInstance.
pub mod Order
use action_runner_cluster.Prelude.{Map, Text, delete, if◌then◌else◌, lookup, none, some, text_eq}
use action_runner_cluster.Ghapi.{Runner}
use action_runner_cluster.Provider.{Instance}
use action_runner_cluster.Names.{instance_key}
use action_runner_cluster.Orchestrator.{
  Call, deregisters, destroys, Removal, removed, runner_busy, remove_failed, Env, Orchestrator, log,
  Destroyed, gone, left_busy, destroy_failed,
}

-- The provider's part, once the registration is out of the way.
unfoldable pub destroy_local : Env → Text → Instance → Orchestrator → Orchestrator × Destroyed
unfolding log
destroy_local env pool inst o =
    let o' : Orchestrator = log (destroys pool inst.id) o in
    if env.destroy o.calls pool inst.id
    then (record o' { idle_since = delete (instance_key pool inst.runner_name) o.idle_since }, gone)
    else (o', destroy_failed)

-- What follows on GitHub's answer: a busy runner is left alone, any other answer goes on.
after_removal : Env → Text → Instance → Removal → Orchestrator → Orchestrator × Destroyed
after_removal env pool inst runner_busy o = (o, left_busy)
after_removal env pool inst removed o = destroy_local env pool inst o
after_removal env pool inst remove_failed o = destroy_local env pool inst o

-- `destroyInstance`, for the pool of that name.
unfoldable pub destroy_instance :
    Env → Text → Map Text Runner → Instance → Orchestrator → Orchestrator × Destroyed
unfolding destroy_local after_removal log
destroy_instance env pool by_name inst o = elim (lookup inst.runner_name by_name) [
  | none ↦ destroy_local env pool inst o
  | some r ↦ after_removal env pool inst (env.remove o.calls r) (log (deregisters r) o)
]
