-- ===== src/Orchestrator/Pass/Outcome.antt =====
-- internal/orchestrator/orchestrator.go: how a pass ends.
use action_runner_cluster.Prelude.{
  Bool-cases, List, Map, Option, Option-cases, Text, [], ap, inl, inr, map, none, refl, some, ℕ,
  ◌+◌, ◌∷◌, ◌≡◌, ◌⊎◌,
}
use action_runner_cluster.Config.{Pool}
use action_runner_cluster.Ghapi.{Job, Jobs, Repo, Runner}
use action_runner_cluster.Overrides.{Overrides}
use action_runner_cluster.Scale.{Demand}
use action_runner_cluster.Orchestrator.{
  Settings, Env, PassError, rate_limited, poll_failed, list_repos_failed, list_runners_failed,
  poll_partial, Snapshot, Orchestrator,
}
use action_runner_cluster.Orchestrator.Frame.{Keeps, Keeps-trans}
use action_runner_cluster.Orchestrator.PoolPass.{apply_pool}
use action_runner_cluster.Orchestrator.Failures.{record_failure}
use action_runner_cluster.Orchestrator.Pass.Kept.{
  reap_pools-Keeps, pollable_repos-Keeps, reconcile_once-drained,
}
use action_runner_cluster.Orchestrator.Pass.{
  Readings, Reaped, pollable_repos, breaker_open, apply_pools, finish_pass, reap_pools, act_on,
  index_runners, index_running, decide_demand, Polled, polled, partly, not_polled, with_repos,
  reconcile_once,
}

apply_pools-names :
    (env : Env) (s : Settings) (ov : Option Overrides) (now : ℕ) (reaped : Reaped)
    (by_name : Map Text Runner) (running : Map Text Job) (d : Demand) (ps : List Pool)
    (o : Orchestrator)
    → map (λ p. p.name) (apply_pools env s ov now reaped by_name running d ps o).1
      ≡ map (λ p. p.name) ps
unfolding apply_pools apply_pool
apply_pools-names env s ov now reaped by_name running d [] o = refl
apply_pools-names env s ov now reaped by_name running d (p ∷ ps) o =
    ap (◌∷◌ p.name) (apply_pools-names env s ov now reaped by_name running d ps _)

-- A pass that completed: the failure streak is over, and every pool has a snapshot, in order.
abbrev pub Completed : Settings → ℕ → Orchestrator → Type 0
Completed s now o' =
    (o'.snapshot.consecutive_failures ≡ 0)
    × (o'.snapshot.updated_at ≡ some now)
    × (map (λ p. p.name) o'.snapshot.pools ≡ map (λ p. p.name) s.pools)

-- A pass that failed outright: the streak is one longer, and the pools are those last seen.
abbrev pub FailedPass : ℕ → Orchestrator → Orchestrator → Type 0
FailedPass now o o' =
    (o'.snapshot.consecutive_failures ≡ o.snapshot.consecutive_failures + 1)
    × (o'.snapshot.updated_at ≡ some now)
    × (o'.snapshot.pools ≡ o.snapshot.pools)

record_failure-FailedPass :
    (s : Settings) (now : ℕ) (e : PassError) (o o1 : Orchestrator)
    → Keeps o o1
    → FailedPass now o (record_failure s now e o1)
unfolding record_failure
record_failure-FailedPass s now e o o1 (k, _) =
    (ap (λ (t : Snapshot). t.consecutive_failures + 1) k, refl, ap (λ (t : Snapshot). t.pools) k)

finish_pass-Completed :
    (env : Env) (s : Settings) (rd : Readings) (ov : Option Overrides) (now : ℕ) (repos : List Repo)
    (runners : List Runner) (reaped : Reaped) (last : Option PassError) (jobs : Jobs)
    (o : Orchestrator)
    → Completed s now (finish_pass env s rd ov now repos runners reaped last jobs o)
unfolding finish_pass
finish_pass-Completed env s rd ov now repos runners reaped last jobs o = (
  refl,
  refl,
  apply_pools-names env s ov now reaped (index_runners runners []) (index_running jobs.running [])
      (decide_demand s ov runners jobs.queued reaped.live) s.pools o,
)

act_on-outcome :
    (env : Env) (s : Settings) (rd : Readings) (ov : Option Overrides) (now : ℕ) (repos : List Repo)
    (runners : List Runner) (o0 o : Orchestrator) (p : Polled)
    → rd.poll_jobs repos ≡ p
    → Keeps o0 o
    → Completed s now (act_on env s rd ov now repos runners o)
      ⊎ FailedPass now o0 (act_on env s rd ov now repos runners o)
unfolding act_on
act_on-outcome env s rd ov now repos runners o0 o not_polled e k = inr (
    rw (e, act_on)
      (record_failure-FailedPass s now poll_failed o0 _
        (Keeps-trans k (reap_pools-Keeps env s rd now _ s.pools o _))))
act_on-outcome env s rd ov now repos runners o0 o (partly jobs) e k = inl (
    rw (e, act_on)
      (finish_pass-Completed env s rd ov now repos runners
        (reap_pools env s rd now (index_runners runners []) s.pools
          (o, record { live = []; failed = [] })).1
        (some poll_partial) jobs
        (reap_pools env s rd now (index_runners runners []) s.pools
          (o, record { live = []; failed = [] })).0))
act_on-outcome env s rd ov now repos runners o0 o (polled jobs) e k = inl (
    rw (e, act_on)
      (finish_pass-Completed env s rd ov now repos runners
        (reap_pools env s rd now (index_runners runners []) s.pools
          (o, record { live = []; failed = [] })).1
        none jobs
        (reap_pools env s rd now (index_runners runners []) s.pools
          (o, record { live = []; failed = [] })).0))

with_repos-outcome :
    (env : Env) (s : Settings) (rd : Readings) (ov : Option Overrides) (now : ℕ)
    (repos : Option (List Repo)) (o0 o : Orchestrator)
    → Keeps o0 o
    → Completed s now (with_repos env s rd ov now repos o)
      ⊎ FailedPass now o0 (with_repos env s rd ov now repos o)
unfolding with_repos
with_repos-outcome env s rd ov now none o0 o k =
    inr (record_failure-FailedPass s now list_repos_failed o0 o k)
with_repos-outcome env s rd ov now (some repos) o0 o k =
    elim (Option-cases (rd.list_runners repos)) [
      | inl e ↦
          inr (rw (e, with_repos) (record_failure-FailedPass s now list_runners_failed o0 o k))
      | inr (runners, e) ↦
          rw (e, with_repos)
            (act_on-outcome env s rd ov now repos runners o0 o (rd.poll_jobs repos) refl k)
    ]

pass_outcome :
    (env : Env) (s : Settings) (rd : Readings) (ov : Option Overrides) (now : ℕ) (o : Orchestrator)
    → Completed s now (reconcile_once env s rd ov now o)
      ⊎ FailedPass now o (reconcile_once env s rd ov now o)
unfolding reconcile_once
pass_outcome env s rd ov now o = elim (Bool-cases (breaker_open now rd.rate)) [
  | inl e ↦ inr (rw e (record_failure-FailedPass s now rate_limited o o (refl, refl)))
  | inr e ↦ rw e (
      with_repos-outcome env s rd ov now (pollable_repos s now rd.list_repos o).1 o
        (pollable_repos s now rd.list_repos o).0 (pollable_repos-Keeps s now rd.list_repos o))
]

-- Every pass ends in one of two ways, whatever GitHub, the providers and the disk answer: it
-- completes, which ends the failure streak and leaves a snapshot of every pool in the order of the
-- configuration, or it fails outright, which lengthens the streak by one and leaves the pools' last
-- snapshots. Both set the time of the last pass, and neither changes which pools are drained.
pub reconcile_once_outcome :
    (env : Env) (s : Settings) (rd : Readings) (ov : Option Overrides) (now : ℕ) (o : Orchestrator)
    → (Completed s now (reconcile_once env s rd ov now o)
        ⊎ FailedPass now o (reconcile_once env s rd ov now o))
      × ((reconcile_once env s rd ov now o).drained ≡ o.drained)
unfolding reconcile_once
reconcile_once_outcome env s rd ov now o =
    (pass_outcome env s rd ov now o, reconcile_once-drained env s rd ov now o)
