-- ===== src/Orchestrator/Launch.antt =====
-- internal/orchestrator/orchestrator.go: scaleUp and launchOne. The launches of one scale-up run
-- concurrently and share nothing; here they run one after another, in the order they are started.
pub mod Counting
use action_runner_cluster.Prelude.{
  Bool, List, Option, Text, [], false, if◌then◌else◌, none, replicate, some, suc, true, zero, ℕ,
  ◌∷◌,
}
use action_runner_cluster.Config.{Pool, effective_runner_group}
use action_runner_cluster.Ghapi.{Job, Runner}
use action_runner_cluster.Names.{runner_name}
use action_runner_cluster.Orchestrator.{
  Settings, repo_level, deregisters, registers, creates, Env, Orchestrator, log,
}

last_repo : Job → List Job → Text
last_repo j [] = j.repo
last_repo j (k ∷ ks) = last_repo k ks

-- The first `n` jobs' repositories; past the last job, the last one's.
pinned : ℕ → Text → List Job → List Text
pinned zero last js = []
pinned (suc n) last [] = last ∷ pinned n last []
pinned (suc n) last (j ∷ js) = j.repo ∷ pinned n last js

-- The repository that each new runner registers on; none if there is no job to pin a launch to.
unfoldable pub target_repos : Bool → ℕ → List Job → Option (List Text)
unfolding pinned last_repo
target_repos false n jobs = some (replicate n [])
target_repos true zero jobs = some []
target_repos true (suc n) [] = none
target_repos true (suc n) (j ∷ js) = some (pinned (suc n) (last_repo j js) (j ∷ js))

-- The provider's part of a launch; on failure the registration is removed again.
unfoldable pub start_instance : Env → Text → Text → Runner → Orchestrator → Orchestrator × Bool
unfolding log
start_instance env pool name r o =
    let o' : Orchestrator = log (creates pool name) o in
    if env.create o.calls pool name then (o', true) else (log (deregisters r) o', false)

unfoldable pub launch_one : Env → Settings → Pool → Text → Orchestrator → Orchestrator × Bool
unfolding start_instance log
launch_one env s pool repo o =
    let name : Text = runner_name s.host pool.name (env.random o.calls) in
    let o1 : Orchestrator = log (registers repo name) o in
    elim (env.jit o.calls repo name) [
      | none ↦ (o1, false)
      | some r ↦ start_instance env pool.name name (record r { repo = repo }) o1
    ]

unfoldable pub launch_all : Env → Settings → Pool → List Text → Orchestrator → Orchestrator
launch_all env s pool [] o = o
launch_all env s pool (repo ∷ repos) o =
    launch_all env s pool repos (launch_one env s pool repo o).0

unfoldable pub scale_up : Env → Settings → Pool → ℕ → List Job → Orchestrator → Orchestrator
unfolding launch_all
scale_up env s pool n jobs o =
    if env.group_known o.calls (effective_runner_group s.github pool)
    then elim (target_repos (repo_level s) n jobs) [
      | none ↦ o
      | some repos ↦ launch_all env s pool repos o
    ]
    else o
