-- ===== src/Examples/Runners.antt =====
-- Work on runners: destroying, reaping, launching, culling, one pool's part of a pass.
use action_runner_cluster.Prelude.{
  List, Text, [], codes, false, lookup, none, not, pos, pos_part, refl, select, some, sort_stable,
  text_eq, to_lower, true, ◌+◌, ◌-ℤ◌, ◌∷◌, ◌≡◌, ◌≤◌, ◌⊎◌,
}
use action_runner_cluster.Ghapi.{Runner}
use action_runner_cluster.Provider.{Instance}
use action_runner_cluster.Names.{instance_key, runner_name}
use action_runner_cluster.Overrides.{Overrides, missing}
use action_runner_cluster.Orchestrator.{
  deregisters, registers, creates, destroys, Orchestrator, log, left_busy,
}
use action_runner_cluster.Orchestrator.Trace.{Adds, destructions, launches}
use action_runner_cluster.Orchestrator.Destroy.{destroy_instance}
use action_runner_cluster.Orchestrator.Destroy.Order.{
  IsRefused, IsDestruction, asked_away, destroy_instance_order,
}
use action_runner_cluster.Orchestrator.Reap.{is_over, reap}
use action_runner_cluster.Orchestrator.Reap.Calls.{IsOver, Reaps, reap_lem}
use action_runner_cluster.Orchestrator.Launch.{launch_one}
use action_runner_cluster.Orchestrator.Launch.Counting.{launch_one_lem}
use action_runner_cluster.Orchestrator.Cull.{check_idle, ripe, is_idle, scale_down}
use action_runner_cluster.Orchestrator.Cull.Limits.{Culls, scale_down_lem}
use action_runner_cluster.Orchestrator.PoolPass.{limits_in_force, apply_pool}
use action_runner_cluster.Orchestrator.PoolPass.Bounds.{apply_pool_cap}
use action_runner_cluster.Orchestrator.Limiting.{is_drained}
use action_runner_cluster.Orchestrator.Foreign.{Slot, take_slot, covers, discount_jobs}
use action_runner_cluster.Orchestrator.Foreign.Cover.{Pairs, discount_jobs-Pairs}
use action_runner_cluster.Examples.Samples.{
  linux, build_job, train_job, jobs, idle_runner, by_name, idle_inst, done_inst, settings, willing,
  fresh,
}

abbrev host : Text
host = codes "abcdef"

abbrev key : Text
key = codes "linux/arc-linux-abcdef-00112233"

-- The runner has been idle since the time 100.
abbrev waited : Orchestrator
waited = record fresh { idle_since = (key, 100) ∷ [] }

destroy_instance_order_example :
    ((r : Runner) × IsRefused willing by_name idle_inst waited.calls r
      × (destroy_instance willing (codes "linux") by_name idle_inst waited
          ≡ (log (deregisters r) waited, left_busy)))
    ⊎ ((¬ ((r : Runner) × IsRefused willing by_name idle_inst waited.calls r))
        × IsDestruction willing
            (codes "linux")
            idle_inst
            (asked_away by_name idle_inst waited.calls)
            (destroy_instance willing (codes "linux") by_name idle_inst waited))
destroy_instance_order_example =
    destroy_instance_order willing (codes "linux") by_name idle_inst waited

reap_lem_example :
    let out = reap willing host 1000 linux (idle_inst ∷ done_inst ∷ []) by_name waited in
    (out.1 ≡ select (λ i. not (is_over 1000 linux i)) (idle_inst ∷ done_inst ∷ []))
    × ((i : Instance)
        → (is_over 1000 linux i ≡ true → IsOver 1000 linux i)
          × (IsOver 1000 linux i → is_over 1000 linux i ≡ true))
    × Adds (Reaps host 1000 linux (idle_inst ∷ done_inst ∷ []) by_name) [] out.0.calls
reap_lem_example = reap_lem willing host 1000 linux (idle_inst ∷ done_inst ∷ []) by_name waited

launch_one_lem_example :
    let name = runner_name settings.host linux.name (willing.random []) in
    let asked = registers (codes "app") name ∷ [] in
    let (o', done) = launch_one willing settings linux (codes "app") fresh in
    ((willing.jit [] (codes "app") name ≡ none) × (done ≡ false) × (o'.calls ≡ asked))
    ⊎ ((r : Runner) × (willing.jit [] (codes "app") name ≡ some r)
        × (((willing.create asked linux.name name ≡ true)
              × (done ≡ true)
              × (o'.calls ≡ creates linux.name name ∷ asked))
            ⊎ ((willing.create asked linux.name name ≡ false)
                × (done ≡ false)
                × (o'.calls
                    ≡ deregisters (record r { repo = codes "app" })
                      ∷ creates linux.name name
                      ∷ asked))))
launch_one_lem_example = launch_one_lem willing settings linux (codes "app") fresh

scale_down_lem_example :
    let o' = scale_down willing 1000 linux (idle_inst ∷ []) by_name 1 waited in
    Adds (Culls 1000 linux (idle_inst ∷ []) by_name waited.idle_since) [] o'.calls
    × (destructions o'.calls ≤ 0 + 1)
scale_down_lem_example =
    scale_down_lem willing 1000 linux (idle_inst ∷ []) by_name 1 waited (tt, tt)

-- The runner is ripe, and it goes.
culled :
    (scale_down willing 1000 linux (idle_inst ∷ []) by_name 1 waited).calls
    ≡ destroys (codes "linux") (codes "c1") ∷ deregisters idle_runner ∷ []
unfolding scale_down sort_stable check_idle ripe is_idle lookup instance_key ◌-ℤ◌ destroy_instance
culled = refl

apply_pool_cap_example :
    let o' =
      (apply_pool willing settings none 1000 linux
        (idle_inst ∷ [])
        by_name
        []
        2
        (build_job ∷ [])
        waited).0 in
    (launches o'.calls ≤ 0 + pos_part ((limits_in_force none linux waited).max -ℤ pos 1))
    × (is_drained linux.name waited ≡ true → launches o'.calls ≡ 0)
apply_pool_cap_example =
    apply_pool_cap willing settings none 1000 linux (idle_inst ∷ []) by_name [] 2 (build_job ∷ [])
      waited (tt, tt)

abbrev overrides : Overrides
overrides = record {
  m = (codes "linux", record { min = some (pos 5); max = none }) ∷ [];
  disk = missing;
}

abbrev slots : List Slot
slots = record { labels = codes "self-hosted" ∷ codes "linux" ∷ []; repo = codes "App" } ∷ []

discount_jobs-Pairs_example :
    Pairs jobs slots (discount_jobs jobs slots).0 (discount_jobs jobs slots).1
discount_jobs-Pairs_example = discount_jobs-Pairs jobs slots

-- The runner elsewhere takes the build.
taken : (discount_jobs (build_job ∷ train_job ∷ []) slots).0 ≡ train_job ∷ []
unfolding discount_jobs take_slot covers to_lower
taken = refl
