-- ===== src/Orchestrator/Teardown.antt =====
-- internal/orchestrator/teardown.go: Teardown and BusyRunners. What the listings and the sweeps of
-- the providers answer is an argument, `Holdings`; each says besides whether it reported an error.
pub mod Spared
pub mod Account
use action_runner_cluster.Prelude.{
  Bool, List, Map, Option, Text, [], any, false, if◌then◌else◌, lookup, nat_eq, none, not, some,
  text_eq, true, ℕ, ◌&&◌, ◌++◌, ◌+◌, ◌==◌, ◌∷◌,
}
use action_runner_cluster.Config.{Pool}
use action_runner_cluster.Ghapi.{Repo, Runner}
use action_runner_cluster.Provider.{Instance}
use action_runner_cluster.Names.{belongs_to_pool}
use action_runner_cluster.Orchestrator.{
  Settings, Call, deregisters, Removal, removed, runner_busy, remove_failed, Env, Orchestrator, log,
  Destroyed, gone, left_busy, destroy_failed,
}
use action_runner_cluster.Orchestrator.Destroy.{destroy_instance}
use action_runner_cluster.Orchestrator.Pass.{pollable_repos, index_runners}

pub record Listing {ℓ} (A : Type ℓ) : Type ℓ where
  pub items : A
  pub failed : Bool

pub record Holdings : Type 0 where
  pub list_repos : Option (List Repo)
  pub list_runners : List Repo → Listing (List Runner)
  pub list_instances : List Call → Text → Listing (List Instance)
  pub prune : List Call → Text → Listing ℕ

-- What could not be listed or removed.
pub data TeardownError : Type 0 where
  repos_not_listed runners_not_listed : TeardownError
  instances_not_listed instance_left prune_failed : (pool : Text) → TeardownError
  registration_left : (name : Text) → TeardownError

-- `TeardownResult`, and the errors that are joined to it.
pub record TeardownResult : Type 0 where
  pub destroyed : ℕ
  pub deregistered : ℕ
  pub pruned : ℕ
  pub busy : List Text
  pub errors : List TeardownError

abbrev pub nothing_yet : TeardownResult
nothing_yet = record { destroyed = 0; deregistered = 0; pruned = 0; busy = []; errors = [] }

abbrev pub spare : Text → TeardownResult → TeardownResult
spare name res = record res { busy = res.busy ++ name ∷ [] }

abbrev pub complain : TeardownError → TeardownResult → TeardownResult
complain e res = record res { errors = res.errors ++ e ∷ [] }

complain_if : Bool → TeardownError → TeardownResult → TeardownResult
complain_if failed e res = if failed then complain e res else res

-- `r, ok := byName[inst.RunnerName]; ok && r.Busy`
unfoldable pub runs_job : Map Text Runner → Instance → Bool
runs_job by_name inst = elim (lookup inst.runner_name by_name) [ none ↦ false | some r ↦ r.busy ]

unfoldable pub is_registered : Map Text Runner → Instance → Bool
is_registered by_name inst = elim (lookup inst.runner_name by_name) [ none ↦ false | some r ↦ true ]

-- The `switch` on what destroyInstance returns.
unfoldable pub book : Text → Instance → Bool → Destroyed → TeardownResult → TeardownResult
book pool inst registered gone res = record res {
  destroyed = res.destroyed + 1;
  deregistered = if registered then res.deregistered + 1 else res.deregistered;
}
book pool inst registered left_busy res = spare inst.runner_name res
book pool inst registered destroy_failed res = complain (instance_left pool) res

-- The loop over a pool's instances.
unfoldable pub remove_instances :
    Env
    → Text
    → Map Text Runner
    → List Instance
    → Orchestrator
    → TeardownResult
    → Orchestrator × TeardownResult
unfolding book
remove_instances env pool by_name [] o res = (o, res)
remove_instances env pool by_name (inst ∷ insts) o res =
    let working : Bool = runs_job by_name inst in
    let out : Orchestrator × Destroyed = destroy_instance env pool by_name inst o in
    remove_instances env pool by_name insts (if working then o else out.0) (
      if working
      then spare inst.runner_name res
      else book pool inst (is_registered by_name inst) out.1 res)

-- The `if` on what RemoveRunner returns.
book_removal : Text → Removal → TeardownResult → TeardownResult
book_removal name removed res = record res { deregistered = res.deregistered + 1 }
book_removal name runner_busy res = spare name res
book_removal name remove_failed res = complain (registration_left name) res

-- A registration that this host minted for the pool, with no instance listed under its name.
unfoldable pub is_left_over : Text → Text → List Instance → Text → Bool
unfolding any
is_left_over host pool insts name =
    not (any (λ i. i.runner_name == name) insts) && belongs_to_pool host name pool

-- The loop over the registrations. Go walks a map in no fixed order; this is one such order.
unfoldable pub remove_left_overs :
    Env
    → Text
    → Text
    → List Instance
    → Map Text Runner
    → Orchestrator
    → TeardownResult
    → Orchestrator × TeardownResult
unfolding book_removal log
remove_left_overs env host pool insts [] o res = (o, res)
remove_left_overs env host pool insts ((name, r) ∷ rest) o res =
    let ours : Bool = is_left_over host pool insts name in
    remove_left_overs env host pool insts rest
      (if ours && not r.busy then log (deregisters r) o else o)
      (if ours
        then (if r.busy then spare name res else book_removal name (env.remove o.calls r) res)
        else res)

-- The body of the loop over the pools.
unfoldable pub teardown_pool :
    Env
    → Text
    → Holdings
    → Map Text Runner
    → Pool
    → Orchestrator
    → TeardownResult
    → Orchestrator × TeardownResult
unfolding complain_if
teardown_pool env host h by_name pool o res =
    let insts : Listing (List Instance) = h.list_instances o.calls pool.name in
    let (o1, res1) =
      remove_instances env pool.name by_name insts.items o
        (complain_if insts.failed (instances_not_listed pool.name) res) in
    let (o2, res2) = remove_left_overs env host pool.name insts.items by_name o1 res1 in
    let swept : Listing ℕ = h.prune o2.calls pool.name in
    (
      o2,
      (let res3 : TeardownResult = complain_if swept.failed (prune_failed pool.name) res2 in
          record res3 { pruned = res3.pruned + swept.items }),
    )

unfoldable pub teardown_pools :
    Env
    → Text
    → Holdings
    → Map Text Runner
    → List Pool
    → Orchestrator
    → TeardownResult
    → Orchestrator × TeardownResult
teardown_pools env host h by_name [] o res = (o, res)
teardown_pools env host h by_name (p ∷ ps) o res =
    let out : Orchestrator × TeardownResult = teardown_pool env host h by_name p o res in
    teardown_pools env host h by_name ps out.0 out.1

-- The registrations that the teardown goes by, with what could not be listed.
unfoldable pub registrations : Holdings → Option (List Repo) → Map Text Runner × TeardownResult
unfolding complain_if
registrations h none = ([], complain repos_not_listed nothing_yet)
registrations h (some repos) =
    let runners : Listing (List Runner) = h.list_runners repos in
    (index_runners runners.items [], complain_if runners.failed runners_not_listed nothing_yet)

unfoldable pub teardown :
    Env → Settings → Holdings → ℕ → Orchestrator → Orchestrator × TeardownResult
teardown env s h now o =
    let (o1, repos) = pollable_repos s now h.list_repos o in
    let (by_name, res) = registrations h repos in teardown_pools env s.host h by_name s.pools o1 res

-- This host's runners that execute a job, in GitHub's order.
unfoldable pub busy_names : Text → List Pool → List Runner → List Text
unfolding any
busy_names host pools [] = []
busy_names host pools (r ∷ rs) =
    let rest : List Text = busy_names host pools rs in
    if r.busy && any (λ p. belongs_to_pool host r.name p.name) pools then r.name ∷ rest else rest

-- `BusyRunners`; none stands for an error.
unfoldable pub busy_runners :
    Settings → Holdings → ℕ → Orchestrator → Orchestrator × Option (List Text)
busy_runners s h now o =
    let (o1, repos) = pollable_repos s now h.list_repos o in
    (
      o1,
      elim repos [
        | none ↦ none
        | some rs ↦
            if (h.list_runners rs).failed
            then none
            else some (busy_names s.host s.pools (h.list_runners rs).items)
      ],
    )
