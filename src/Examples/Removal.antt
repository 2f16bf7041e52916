-- ===== src/Examples/Removal.antt =====
-- Teardowns at concrete registrations and instances.
use action_runner_cluster.Prelude.{
  [], codes, false, if◌then◌else◌, lookup, nat_eq, refl, some, text_eq, true, ◌==◌, ◌∷◌, ◌≡◌,
}
use action_runner_cluster.Ghapi.{Repo, Runner}
use action_runner_cluster.Orchestrator.{remove_failed, Env}
use action_runner_cluster.Orchestrator.Trace.{Adds}
use action_runner_cluster.Orchestrator.Pass.{pollable_repos}
use action_runner_cluster.Orchestrator.Teardown.{Holdings, registrations, teardown}
use action_runner_cluster.Orchestrator.Teardown.Spared.{Spares, teardown-Spares}
use action_runner_cluster.Examples.Samples.{
  idle_runner, by_name, idle_inst, done_inst, settings, willing, fresh,
}

abbrev busy_runner : Runner
busy_runner = record idle_runner { name = codes "arc-linux-abcdef-44556677"; busy = true }

abbrev app_repo : Repo
app_repo = record {
  name = codes "app";
  full_name = codes "chrisle/app";
  archived = false;
  disabled = false;
  fork = false;
  pushed_at = 0;
  owner = codes "chrisle";
}

abbrev held : Holdings
held = record {
  list_repos = some (app_repo ∷ []);
  list_runners = λ repos. record { items = idle_runner ∷ busy_runner ∷ []; failed = false };
  list_instances = λ calls pool. record {
    items = if pool == codes "linux" then idle_inst ∷ done_inst ∷ [] else [];
    failed = false;
  };
  prune = λ calls pool. record { items = 1; failed = false };
}

teardown-Spares_example :
    Adds
      (Spares held (registrations held (pollable_repos settings 1000 held.list_repos fresh).1).0)
      []
      (teardown willing settings held 1000 fresh).0.calls
teardown-Spares_example = teardown-Spares willing settings held 1000 fresh

-- GitHub answers every removal with an error.
abbrev refusing : Env
refusing = record willing { remove = λ calls r. remove_failed }

listed : lookup idle_inst.runner_name by_name ≡ some idle_runner
unfolding lookup
listed = refl
