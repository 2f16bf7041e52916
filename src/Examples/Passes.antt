-- ===== src/Examples/Passes.antt =====
-- Whole passes, and the health check, at concrete readings.
use action_runner_cluster.Prelude.{
  Map, Text, [], any, arith, codes, delete, equal_fold, false, if◌then◌else◌, insert, lookup,
  nat_eq, none, pos, refl, select, some, sort_stable, strip_prefix, text_eq, to_lower, ℕ, ◌+ℤ◌, ◌+◌,
  ◌-ℤ◌, ◌==◌, ◌∷◌, ◌≡◌, ◌⊎◌,
}
use action_runner_cluster.Orchestrator.{registers, creates, log}
use action_runner_cluster.Orchestrator.Pass.{
  Readings, polled, breaker_open, pollable_repos, index_runners, reconcile_once,
}
use action_runner_cluster.Config.{Pool}
use action_runner_cluster.Orchestrator.Pass.Clocks.{
  swept, checked, drop_old_clocks, check_idle-drop_old_clocks,
}
use action_runner_cluster.Orchestrator.Pass.Outcome.{Completed, FailedPass, reconcile_once_outcome}
use action_runner_cluster.Orchestrator.Foreign.{
  is_foreign_idle, covers, discount_jobs, discount_pools, is_our_debris, take_slot,
  discount_foreign_idle, free_slots,
}
use action_runner_cluster.Orchestrator.PoolPass.{
  apply_pool, tally, standing, carry_out, decide, demand_in_force, limits_in_force,
}
use action_runner_cluster.Orchestrator.Reap.{reap, is_orphan, is_over, reap_instances, reap_orphans}
use action_runner_cluster.Orchestrator.Limiting.{is_drained, limits_for}
use action_runner_cluster.Orchestrator.Launch.{
  launch_all, launch_one, scale_up, start_instance, target_repos,
}
use action_runner_cluster.Orchestrator.Cull.{check_idle, cull_all, is_idle, ripe, scale_down}
use action_runner_cluster.Scale.{
  plan, all_in, assign_all, assign_demand, can_serve, candidates, contains, first_fit, label_set,
  new_pool_matcher, place, record_job, start_assigning, target,
}
use action_runner_cluster.Names.{belongs_to_pool, instance_key, runner_name}
use action_runner_cluster.Config.{effective_runner_group, entity}
use action_runner_cluster.Ghapi.{online}
use action_runner_cluster.Provider.{age}
use action_runner_cluster.Examples.Samples.{
  linux, jobs, idle_runner, by_name, idle_inst, settings, willing, no_rate, fresh,
}

abbrev readings : Readings
readings = record {
  rate = no_rate;
  list_repos = some (
      record {
        name = codes "app";
        full_name = codes "chrisle/app";
        archived = false;
        disabled = false;
        fork = false;
        pushed_at = 0;
        owner = codes "chrisle";
      }
      ∷ []);
  list_runners = λ repos. some (idle_runner ∷ []);
  list_instances = λ calls pool. some (if pool == codes "linux" then idle_inst ∷ [] else []);
  poll_jobs = λ repos. polled (record { queued = jobs; running = [] });
  rate_after = no_rate;
}

reconcile_once_outcome_example :
    (Completed settings 1000 (reconcile_once willing settings readings none 1000 fresh)
      ⊎ FailedPass 1000 fresh (reconcile_once willing settings readings none 1000 fresh))
    × ((reconcile_once willing settings readings none 1000 fresh).drained ≡ fresh.drained)
reconcile_once_outcome_example = reconcile_once_outcome willing settings readings none 1000 fresh

abbrev minted : Text
minted = codes "arc-linux-gpu-abcdef-010203ff"

-- The pass launches one runner, for the training job; the build is for the idle runner of `linux`,
-- and no pool serves the macOS job.
launches_one :
    (reconcile_once willing settings readings none 1000 fresh).calls
    ≡ creates (codes "linux-gpu") minted ∷ registers (codes "web") minted ∷ []
unfolding is_foreign_idle covers discount_jobs discount_pools is_our_debris take_slot
    discount_foreign_idle free_slots apply_pool tally standing carry_out decide demand_in_force
    limits_in_force reap is_orphan is_over reap_instances reap_orphans is_drained limits_for
    launch_all launch_one scale_up start_instance target_repos check_idle cull_all is_idle ripe
    scale_down breaker_open pollable_repos index_runners reconcile_once plan all_in assign_all
    assign_demand can_serve candidates contains first_fit label_set new_pool_matcher place
    record_job start_assigning target belongs_to_pool instance_key runner_name
    effective_runner_group entity online age log lookup insert delete select any sort_stable
    equal_fold strip_prefix to_lower ◌-ℤ◌
launches_one = refl

-- A pool whose runners may idle for two days, and one that has idled for three.
abbrev patient : Pool
patient = record linux { idle_timeout = pos 172800000000000 }

abbrev three_days : ℕ
three_days = 259200000000000

abbrev old_clock : Map Text ℕ
old_clock = (codes "linux/arc-linux-abcdef-00112233", 0) ∷ []

-- The clocks after the sweep and one check.
abbrev clocks : Map Text ℕ
clocks =
    (check_idle (three_days + 5) patient by_name (idle_inst ∷ [])
      (drop_old_clocks three_days old_clock)).0

check_idle-drop_old_clocks_example :
    (check_idle (three_days + 10) patient by_name (idle_inst ∷ []) clocks).1 ≡ []
unfolding ◌+ℤ◌ ◌-ℤ◌
check_idle-drop_old_clocks_example =
    check_idle-drop_old_clocks three_days (three_days + 5) (three_days + 10) patient by_name
      (idle_inst ∷ []) clocks
      (checked (swept old_clock) (omega arith) patient by_name (idle_inst ∷ [])) (omega arith)
      (omega arith)
