-- ===== src/Orchestrator/Pass/Kept.antt =====
-- internal/orchestrator/orchestrator.go: what a pass leaves as it was.
use action_runner_cluster.Prelude.{
  Bool-cases, List, Map, Option, Option-cases, Text, [], arith, inl, inr, lookup_or, none, refl,
  some, text_eq, ℕ, ◌∙◌, ◌∷◌, ◌≡◌,
}
use action_runner_cluster.Config.{Pool}
use action_runner_cluster.Ghapi.{Job, Jobs, Repo, Runner}
use action_runner_cluster.Overrides.{Overrides}
use action_runner_cluster.Scale.{Demand}
use action_runner_cluster.Orchestrator.{Settings, Env, PassError, poll_partial, Orchestrator}
use action_runner_cluster.Orchestrator.Frame.{Keeps, Keeps-trans, reap-Keeps, apply_pool-Keeps}
use action_runner_cluster.Orchestrator.PoolPass.{apply_pool}
use action_runner_cluster.Orchestrator.Failures.{record_failure}
use action_runner_cluster.Orchestrator.Pass.{
  Readings, Reaped, pollable_repos, breaker_open, apply_pools, finish_pass, reap_pool, reap_pools,
  act_on, index_runners, index_running, decide_demand, Polled, polled, partly, not_polled,
  with_repos, reconcile_once,
}

reap_pool-Keeps :
    (env : Env) (s : Settings) (rd : Readings) (now : ℕ) (by_name : Map Text Runner) (p : Pool)
    (o : Orchestrator) (acc : Reaped)
    → Keeps o (reap_pool env s rd now by_name p (o, acc)).0
unfolding reap_pool
reap_pool-Keeps env s rd now by_name p o acc =
    elim (Option-cases (rd.list_instances o.calls p.name)) [
      | inl e ↦ rw (e, reap_pool) (refl, refl)
      | inr (insts, e) ↦ rw (e, reap_pool) (reap-Keeps env s.host now p insts by_name o)
    ]

pub reap_pools-Keeps :
    (env : Env) (s : Settings) (rd : Readings) (now : ℕ) (by_name : Map Text Runner)
    (ps : List Pool) (o : Orchestrator) (acc : Reaped)
    → Keeps o (reap_pools env s rd now by_name ps (o, acc)).0
unfolding reap_pools
reap_pools-Keeps env s rd now by_name [] o acc = (refl, refl)
reap_pools-Keeps env s rd now by_name (p ∷ ps) o acc =
    Keeps-trans (reap_pool-Keeps env s rd now by_name p o acc) (
      reap_pools-Keeps env s rd now by_name ps (reap_pool env s rd now by_name p (o, acc)).0
        (reap_pool env s rd now by_name p (o, acc)).1)

pub pollable_repos-Keeps :
    (s : Settings) (now : ℕ) (listing : Option (List Repo)) (o : Orchestrator)
    → Keeps o (pollable_repos s now listing o).0
unfolding pollable_repos
pollable_repos-Keeps s now listing o = ground arith

apply_pools-Keeps :
    (env : Env) (s : Settings) (ov : Option Overrides) (now : ℕ) (reaped : Reaped)
    (by_name : Map Text Runner) (running : Map Text Job) (d : Demand) (ps : List Pool)
    (o : Orchestrator)
    → Keeps o (apply_pools env s ov now reaped by_name running d ps o).0
unfolding apply_pools
apply_pools-Keeps env s ov now reaped by_name running d [] o = (refl, refl)
apply_pools-Keeps env s ov now reaped by_name running d (p ∷ ps) o =
    let live = lookup_or [] p.name reaped.live in
    let demand = lookup_or 0 p.name d.by_pool in
    let jobs = lookup_or [] p.name d.jobs in
    Keeps-trans (apply_pool-Keeps env s ov now p live by_name running demand jobs o) (
      apply_pools-Keeps env s ov now reaped by_name running d ps
        (apply_pool env s ov now p live by_name running demand jobs o).0)

finish_pass-drained :
    (env : Env) (s : Settings) (rd : Readings) (ov : Option Overrides) (now : ℕ) (repos : List Repo)
    (runners : List Runner) (reaped : Reaped) (last : Option PassError) (jobs : Jobs)
    (o : Orchestrator)
    → (finish_pass env s rd ov now repos runners reaped last jobs o).drained ≡ o.drained
unfolding finish_pass
finish_pass-drained env s rd ov now repos runners reaped last jobs o =
    (apply_pools-Keeps env s ov now reaped (index_runners runners [])
      (index_running jobs.running []) (decide_demand s ov runners jobs.queued reaped.live) s.pools
      o).1

act_on-drained :
    (env : Env) (s : Settings) (rd : Readings) (ov : Option Overrides) (now : ℕ) (repos : List Repo)
    (runners : List Runner) (o : Orchestrator) (p : Polled)
    → rd.poll_jobs repos ≡ p
    → (act_on env s rd ov now repos runners o).drained ≡ o.drained
unfolding act_on record_failure
act_on-drained env s rd ov now repos runners o p e =
    let empty : Reaped = record { live = []; failed = [] } in
    let out = reap_pools env s rd now (index_runners runners []) s.pools (o, empty) in
    let (_, kept) = reap_pools-Keeps env s rd now (index_runners runners []) s.pools o empty in
    elim p
        as (λ q.
          rd.poll_jobs repos ≡ q → (act_on env s rd ov now repos runners o).drained ≡ o.drained) [
            | not_polled ↦ λ f. rw (f, act_on) kept
            | partly jobs ↦ λ f.
                rw (f, act_on)
                  (finish_pass-drained env s rd ov now repos runners out.1 (some poll_partial) jobs
                      out.0
                    ∙ kept)
            | polled jobs ↦ λ f.
                rw (f, act_on)
                  (finish_pass-drained env s rd ov now repos runners out.1 none jobs out.0 ∙ kept)
          ]
      e

with_repos-drained :
    (env : Env) (s : Settings) (rd : Readings) (ov : Option Overrides) (now : ℕ)
    (repos : Option (List Repo)) (o : Orchestrator)
    → (with_repos env s rd ov now repos o).drained ≡ o.drained
unfolding with_repos record_failure
with_repos-drained env s rd ov now none o = refl
with_repos-drained env s rd ov now (some repos) o = elim (Option-cases (rd.list_runners repos)) [
  | inl e ↦ rw (e, with_repos) refl
  | inr (runners, e) ↦
      rw (e, with_repos) (act_on-drained env s rd ov now repos runners o (rd.poll_jobs repos) refl)
]

pub reconcile_once-drained :
    (env : Env) (s : Settings) (rd : Readings) (ov : Option Overrides) (now : ℕ) (o : Orchestrator)
    → (reconcile_once env s rd ov now o).drained ≡ o.drained
unfolding reconcile_once record_failure
reconcile_once-drained env s rd ov now o = elim (Bool-cases (breaker_open now rd.rate)) [
  | inl e ↦ rw e refl
  | inr e ↦
      let start = pollable_repos s now rd.list_repos o in
      rw e (
        with_repos-drained env s rd ov now start.1 start.0
        ∙ (pollable_repos-Keeps s now rd.list_repos o).1)
]
