-- ===== src/Orchestrator/Frame.antt =====
-- internal/orchestrator/orchestrator.go: work on runners leaves the snapshot and the drain marks.
use action_runner_cluster.Prelude.{
  Bool, List, Map, Option, Option-cases, Text, [], arith, if◌then◌else◌, inl, inr, pos_part, refl,
  sort_stable, take, ℕ, ◌∙◌, ◌∷◌, ◌≡◌,
}
use action_runner_cluster.Config.{Pool}
use action_runner_cluster.Ghapi.{Job, Runner}
use action_runner_cluster.Provider.{Instance}
use action_runner_cluster.Scale.{Decision}
use action_runner_cluster.Overrides.{Overrides}
use action_runner_cluster.Orchestrator.{
  Settings, repo_level, deregisters, Env, Snapshot, Orchestrator, log,
}
use action_runner_cluster.Orchestrator.Destroy.{destroy_instance}
use action_runner_cluster.Orchestrator.Reap.{is_over, reap_instances, is_orphan, reap_orphans, reap}
use action_runner_cluster.Orchestrator.Launch.{target_repos, launch_one, launch_all, scale_up}
use action_runner_cluster.Orchestrator.Cull.{
  Candidate, check_idle, longer_idle, cull_all, scale_down,
}
use action_runner_cluster.Orchestrator.PoolPass.{carry_out, decide, apply_pool}
use action_runner_cluster.Orchestrator.Limiting.{is_drained}

-- The snapshot and the drain marks are those from before.
abbrev pub Keeps : Orchestrator → Orchestrator → Type 0
Keeps o o' = (o'.snapshot ≡ o.snapshot) × (o'.drained ≡ o.drained)

pub Keeps-trans :
    {a b c : Snapshot} {d e f : Map Text Bool}
    → (b ≡ a) × (e ≡ d)
    → (c ≡ b) × (f ≡ e)
    → (c ≡ a) × (f ≡ d)
Keeps-trans (s, d) (t, e) = (t ∙ s, e ∙ d)

destroy_instance-Keeps :
    (env : Env) (pool : Text) (by_name : Map Text Runner) (inst : Instance) (o : Orchestrator)
    → Keeps o (destroy_instance env pool by_name inst o).0
unfolding destroy_instance
destroy_instance-Keeps env pool by_name inst o = ground arith

reap_instances-Keeps :
    (env : Env) (now : ℕ) (pool : Pool) (by_name : Map Text Runner) (insts : List Instance)
    (o : Orchestrator)
    → Keeps o (reap_instances env now pool by_name insts o).0
unfolding reap_instances
reap_instances-Keeps env now pool by_name [] o = (refl, refl)
reap_instances-Keeps env now pool by_name (inst ∷ insts) o = ground (
  arith,
  destroy_instance-Keeps env pool.name by_name inst o,
  reap_instances-Keeps env now pool by_name insts
      (if is_over now pool inst then (destroy_instance env pool.name by_name inst o).0 else o),
)

reap_orphans-Keeps :
    (env : Env) (host : Text) (pool : Pool) (insts : List Instance) (m : Map Text Runner)
    (o : Orchestrator)
    → Keeps o (reap_orphans env host pool insts m o)
unfolding reap_orphans
reap_orphans-Keeps env host pool insts [] o = (refl, refl)
reap_orphans-Keeps env host pool insts ((name, r) ∷ m) o = ground (
  arith,
  reap_orphans-Keeps env host pool insts m
      (if is_orphan host pool insts name r then log (deregisters r) o else o),
)

pub reap-Keeps :
    (env : Env) (host : Text) (now : ℕ) (pool : Pool) (insts : List Instance)
    (by_name : Map Text Runner) (o : Orchestrator)
    → Keeps o (reap env host now pool insts by_name o).0
unfolding reap
reap-Keeps env host now pool insts by_name o =
    Keeps-trans (reap_instances-Keeps env now pool by_name insts o) (
      reap_orphans-Keeps env host pool insts by_name
        (reap_instances env now pool by_name insts o).0)

launch_one-Keeps :
    (env : Env) (s : Settings) (pool : Pool) (repo : Text) (o : Orchestrator)
    → Keeps o (launch_one env s pool repo o).0
unfolding launch_one
launch_one-Keeps env s pool repo o = ground arith

launch_all-Keeps :
    (env : Env) (s : Settings) (pool : Pool) (repos : List Text) (o : Orchestrator)
    → Keeps o (launch_all env s pool repos o)
unfolding launch_all
launch_all-Keeps env s pool [] o = (refl, refl)
launch_all-Keeps env s pool (repo ∷ repos) o =
    Keeps-trans (launch_one-Keeps env s pool repo o)
      (launch_all-Keeps env s pool repos (launch_one env s pool repo o).0)

scale_up-Keeps :
    (env : Env) (s : Settings) (pool : Pool) (n : ℕ) (jobs : List Job) (o : Orchestrator)
    → Keeps o (scale_up env s pool n jobs o)
unfolding scale_up
scale_up-Keeps env s pool n jobs o = elim (Option-cases (target_repos (repo_level s) n jobs)) [
  | inl e ↦ rw (e, scale_up) (ground arith)
  | inr (repos, e) ↦ rw (e, scale_up) (ground (arith, launch_all-Keeps env s pool repos o))
]

cull_all-Keeps :
    (env : Env) (pool : Pool) (by_name : Map Text Runner) (cs : List Candidate) (o : Orchestrator)
    → Keeps o (cull_all env pool by_name cs o)
unfolding cull_all
cull_all-Keeps env pool by_name [] o = (refl, refl)
cull_all-Keeps env pool by_name (c ∷ cs) o =
    Keeps-trans (destroy_instance-Keeps env pool.name by_name c.inst o)
      (cull_all-Keeps env pool by_name cs (destroy_instance env pool.name by_name c.inst o).0)

scale_down-Keeps :
    (env : Env) (now : ℕ) (pool : Pool) (live : List Instance) (by_name : Map Text Runner) (n : ℕ)
    (o : Orchestrator)
    → Keeps o (scale_down env now pool live by_name n o)
unfolding scale_down
scale_down-Keeps env now pool live by_name n o =
    let (since, eligible) = check_idle now pool by_name live o.idle_since in
    cull_all-Keeps env pool by_name (take n (sort_stable longer_idle eligible))
      (record o { idle_since = since })

carry_out-Keeps :
    (env : Env) (s : Settings) (now : ℕ) (pool : Pool) (live : List Instance)
    (by_name : Map Text Runner) (jobs : List Job) (drained : Bool) (d : Decision) (o : Orchestrator)
    → Keeps o (carry_out env s now pool live by_name jobs drained d o)
unfolding carry_out
carry_out-Keeps env s now pool live by_name jobs drained d o = ground (
  arith,
  scale_up-Keeps env s pool (pos_part d.create) jobs o,
  scale_down-Keeps env now pool live by_name (pos_part d.cull) o,
)

pub apply_pool-Keeps :
    (env : Env) (s : Settings) (ov : Option Overrides) (now : ℕ) (pool : Pool)
    (live : List Instance) (by_name : Map Text Runner) (running : Map Text Job) (demand : ℕ)
    (jobs : List Job) (o : Orchestrator)
    → Keeps o (apply_pool env s ov now pool live by_name running demand jobs o).0
unfolding apply_pool
apply_pool-Keeps env s ov now pool live by_name running demand jobs o =
    carry_out-Keeps env s now pool live by_name jobs (is_drained pool.name o)
      (decide ov pool live by_name demand o) o
