-- ===== src/Orchestrator/Pass.antt =====
-- internal/orchestrator/orchestrator.go: pollableRepos, reconcileOnce and housekeep. What the
-- listings answer is an argument, `Readings`; a listing of instances may depend on the calls made
-- earlier in the pass.
pub mod Clocks
pub mod Kept
pub mod Outcome
pub mod Safety
pub mod Whole
use action_runner_cluster.Prelude.{
  Bool, List, Map, Option, Text, [], if◌then◌else◌, insert, leb, length, lookup_or, ltb, ltb_ℤ, map,
  none, not, pos, some, text_eq, ℕ, ◌&&◌, ◌++◌, ◌-ℤ◌, ◌∷◌,
}
use action_runner_cluster.Config.{Pool, entity}
use action_runner_cluster.Ghapi.{Job, Jobs, Repo, Runner}
use action_runner_cluster.Provider.{Instance}
use action_runner_cluster.Scale.{Limits, Demand, contains, new_pool_matcher, assign_demand}
use action_runner_cluster.Overrides.{Overrides}
use action_runner_cluster.Orchestrator.{
  Settings, Call, Env, PoolSnapshot, PassError, rate_limited, list_repos_failed,
  list_runners_failed, poll_failed, poll_partial, RateLimit, Snapshot, Orchestrator,
}
use action_runner_cluster.Orchestrator.Reap.{reap}
use action_runner_cluster.Orchestrator.Limiting.{limits_for}
use action_runner_cluster.Orchestrator.Foreign.{discount_foreign_idle}
use action_runner_cluster.Orchestrator.PoolPass.{apply_pool}
use action_runner_cluster.Orchestrator.Failures.{record_failure}

-- What the poll of the jobs answers; some repositories may have failed, or all.
pub data Polled : Type 0 where
  polled : Jobs → Polled
  partly : Jobs → Polled
  not_polled : Polled

pub record Readings : Type 0 where
  pub rate : RateLimit
  pub list_repos : Option (List Repo)
  pub list_runners : List Repo → Option (List Runner)
  pub list_instances : List Call → Text → Option (List Instance)
  pub poll_jobs : List Repo → Polled
  pub rate_after : RateLimit

-- The cached list while it is fresh; else a new one, or the stale one if GitHub does not answer.
unfoldable pub pollable_repos :
    Settings → ℕ → Option (List Repo) → Orchestrator → Orchestrator × Option (List Repo)
pollable_repos s now listing o =
    if ltb_ℤ (pos now -ℤ pos o.repos_fetched) s.github.repos.refresh_interval
      && not (leb (length o.repos) 0)
    then (o, some o.repos)
    else elim listing [
      | some repos ↦ (record o { repos = repos; repos_fetched = now }, some repos)
      | none ↦ (o, if leb (length o.repos) 0 then none else some o.repos)
    ]

-- The circuit breaker: little of the API budget is left, and it is not yet renewed.
unfoldable pub breaker_open : ℕ → RateLimit → Bool
breaker_open now rl = ltb_ℤ (pos 0) rl.limit && ltb_ℤ rl.remaining (pos 50) && ltb now rl.reset

unfoldable pub index_runners : List Runner → Map Text Runner → Map Text Runner
index_runners [] m = m
index_runners (r ∷ rs) m = index_runners rs (insert r.name r m)

index_running : List Job → Map Text Job → Map Text Job
index_running [] m = m
index_running (j ∷ js) m = index_running js (insert j.runner j m)

-- Step 3's variables.
pub record Reaped : Type 0 where
  pub live : Map Text (List Instance)
  pub failed : List Text

reap_pool :
    Env
    → Settings
    → Readings
    → ℕ
    → Map Text Runner
    → Pool
    → Orchestrator × Reaped
    → Orchestrator × Reaped
reap_pool env s rd now by_name pool (o, acc) = elim (rd.list_instances o.calls pool.name) [
  | none ↦ (o, record acc { failed = pool.name ∷ acc.failed })
  | some insts ↦
      let (o', alive) = reap env s.host now pool insts by_name o in
      (o', record acc { live = insert pool.name alive acc.live })
]

pub reap_pools :
    Env
    → Settings
    → Readings
    → ℕ
    → Map Text Runner
    → List Pool
    → Orchestrator × Reaped
    → Orchestrator × Reaped
unfolding reap_pool
reap_pools env s rd now by_name [] acc = acc
reap_pools env s rd now by_name (p ∷ ps) acc =
    reap_pools env s rd now by_name ps (reap_pool env s rd now by_name p acc)

live_counts : List Pool → Map Text (List Instance) → Map Text ℕ → Map Text ℕ
live_counts [] live m = m
live_counts (p ∷ ps) live m =
    live_counts ps live (insert p.name (length (lookup_or [] p.name live)) m)

pool_limits : Option Overrides → List Pool → Map Text Limits → Map Text Limits
pool_limits ov [] m = m
pool_limits ov (p ∷ ps) m = pool_limits ov ps (insert p.name (limits_for ov p) m)

names_of : Map Text (List Instance) → List Text
names_of [] = []
names_of ((k, insts) ∷ m) = map (λ i. i.runner_name) insts ++ names_of m

-- Step 4: the demand, less what idle runners elsewhere will take.
decide_demand :
    Settings → Option Overrides → List Runner → List Job → Map Text (List Instance) → Demand
unfolding live_counts pool_limits names_of
decide_demand s ov runners jobs live =
    discount_foreign_idle s.host s.pools (names_of live) runners (
      assign_demand (new_pool_matcher s.pools) jobs (live_counts s.pools live [])
        (pool_limits ov s.pools []))

-- Step 5: the pools, one after another.
apply_pools :
    Env
    → Settings
    → Option Overrides
    → ℕ
    → Reaped
    → Map Text Runner
    → Map Text Job
    → Demand
    → List Pool
    → Orchestrator
    → Orchestrator × List PoolSnapshot
unfolding contains
apply_pools env s ov now reaped by_name running d [] o = (o, [])
apply_pools env s ov now reaped by_name running d (p ∷ ps) o =
    let (o1, ps1) =
      apply_pool env s ov now p (lookup_or [] p.name reaped.live) by_name running
        (lookup_or 0 p.name d.by_pool) (lookup_or [] p.name d.jobs) o in
    let (o2, rest) = apply_pools env s ov now reaped by_name running d ps o1 in
    (o2, record ps1 { error = contains reaped.failed p.name } ∷ rest)

-- Steps 4 and 5, and the snapshot of a pass that completes.
finish_pass :
    Env
    → Settings
    → Readings
    → Option Overrides
    → ℕ
    → List Repo
    → List Runner
    → Reaped
    → Option PassError
    → Jobs
    → Orchestrator
    → Orchestrator
unfolding decide_demand apply_pools index_runners index_running
finish_pass env s rd ov now repos runners reaped last jobs o =
    let d : Demand = decide_demand s ov runners jobs.queued reaped.live in
    let (o', snaps) =
      apply_pools env s ov now reaped (index_runners runners []) (index_running jobs.running []) d
        s.pools o in
    record o' {
      snapshot = record {
        updated_at = some now;
        org = entity s.github;
        pools = snaps;
        -- the jobs that no pool can serve
        unassigned = d.unassigned;
        rate_limit = rd.rate_after;
        repos_watched = length repos;
        last_error = last;
        consecutive_failures = 0;
      };
    }

-- Steps 3 to 5.
act_on :
    Env
    → Settings
    → Readings
    → Option Overrides
    → ℕ
    → List Repo
    → List Runner
    → Orchestrator
    → Orchestrator
unfolding reap_pools finish_pass
act_on env s rd ov now repos runners o =
    let (o1, reaped) =
      reap_pools env s rd now (index_runners runners []) s.pools
        (o, record { live = []; failed = [] }) in
    elim (rd.poll_jobs repos) [
      | not_polled ↦ record_failure s now poll_failed o1
      | partly jobs ↦ finish_pass env s rd ov now repos runners reaped (some poll_partial) jobs o1
      | polled jobs ↦ finish_pass env s rd ov now repos runners reaped none jobs o1
    ]

-- Steps 2 to 5.
with_repos :
    Env
    → Settings
    → Readings
    → Option Overrides
    → ℕ
    → Option (List Repo)
    → Orchestrator
    → Orchestrator
unfolding act_on
with_repos env s rd ov now none o = record_failure s now list_repos_failed o
with_repos env s rd ov now (some repos) o = elim (rd.list_runners repos) [
  | none ↦ record_failure s now list_runners_failed o
  | some runners ↦ act_on env s rd ov now repos runners o
]

unfoldable pub reconcile_once :
    Env → Settings → Readings → Option Overrides → ℕ → Orchestrator → Orchestrator
unfolding with_repos
reconcile_once env s rd ov now o =
    if breaker_open now rd.rate
    then record_failure s now rate_limited o
    else (let (o1, repos) = pollable_repos s now rd.list_repos o in
        with_repos env s rd ov now repos o1)
