-- ===== src/Ghapi/Polling.antt =====
-- internal/ghapi/jobs.go: repoActiveJobs and PollJobs. What GitHub answers is an argument, `Actions`.
-- The repositories are polled concurrently, each into its own place of an array; here one after
-- another.
pub mod Found
pub mod Complete
use action_runner_cluster.Prelude.{
  Bool, List, Map, Option, Text, [], by_key, codes, if◌then◌else◌, insert, length, map, nat_eq,
  none, not, some, sort_stable, text_eq, ℕ, ◌++◌, ◌==◌, ◌||◌, ◌∷◌,
}
use mathlib.Core.Option
use action_runner_cluster.Ghapi.{Repo, Job, Jobs}
use action_runner_cluster.Ghapi.SelfHosted.{self_hosted}

-- An entry of `workflow_runs`.
pub record Run : Type 0 where
  pub id : ℕ
  pub head_branch : Text

-- An entry of `jobs`.
pub record RunJob : Type 0 where
  pub id : ℕ
  pub run_id : ℕ
  pub name : Text
  pub status : Text
  pub labels : List Text
  pub started_at : ℕ
  pub created_at : ℕ
  pub runner_name : Text

pub data RunJobs : Type 0 where
  found : List RunJob → RunJobs
  not_found not_answered : RunJobs

pub record Actions : Type 0 where
  pub runs : (repo status : Text) → Option (List Run)
  pub jobs : (repo : Text) → ℕ → RunJobs

-- `runs[r.ID] = r.HeadBranch`
unfoldable pub index_runs : List Run → Map ℕ Text → Map ℕ Text
index_runs [] m = m
index_runs (r ∷ rs) m = index_runs rs (insert r.id r.head_branch m)

-- The loop over the two statuses.
unfoldable pub active_runs : Actions → Text → List Text → Map ℕ Text → Option (Map ℕ Text)
active_runs acts repo [] m = some m
active_runs acts repo (status ∷ more) m = elim (acts.runs repo status) [
  | none ↦ none
  | some rs ↦ active_runs acts repo more (index_runs rs m)
]

unfoldable pub is_active : Text → Bool
is_active status = status == codes "queued" || status == codes "in_progress"

to_job : Text → Text → RunJob → Job
to_job repo branch j = record {
  id = j.id;
  run_id = j.run_id;
  repo = repo;
  branch = branch;
  name = j.name;
  labels = j.labels;
  status = j.status;
  started = j.started_at;
  queued_at = j.created_at;
  runner = j.runner_name;
}

-- The loop over one run's jobs.
unfoldable pub active_jobs : Text → Text → List RunJob → List Job
unfolding is_active to_job
active_jobs repo branch [] = []
active_jobs repo branch (j ∷ js) =
    let rest : List Job = active_jobs repo branch js in
    if not (is_active j.status) || not (self_hosted j.labels)
    then rest
    else to_job repo branch j ∷ rest

-- The loop over the runs; one that is gone by now is passed over.
unfoldable pub jobs_of_runs : Actions → Text → List (ℕ × Text) → Option (List Job)
jobs_of_runs acts repo [] = some []
jobs_of_runs acts repo ((id, branch) ∷ runs) =
    let rest : Option (List Job) = jobs_of_runs acts repo runs in
    elim (acts.jobs repo id) [
      | not_answered ↦ none
      | not_found ↦ rest
      | found js ↦ Option.map (λ more. active_jobs repo branch js ++ more) rest
    ]

-- `repoActiveJobs`; none stands for an error. The runs are taken in the order of their ids.
unfoldable pub repo_active_jobs : Actions → Text → Option (List Job)
repo_active_jobs acts repo =
    elim (active_runs acts repo (codes "queued" ∷ codes "in_progress" ∷ []) []) [
      | none ↦ none
      | some runs ↦ jobs_of_runs acts repo (sort_stable (by_key (λ r. r.0)) runs)
    ]

-- The error of PollJobs, with the repositories that failed.
pub data PollError : Type 0 where
  no_error : PollError
  partial_error all_failed : List Text → PollError

-- The variables of the last loop.
pub record Gathered : Type 0 where
  pub jobs : Jobs
  pub failed : List Text

-- A queued job waits, any other runs.
unfoldable pub file_job : Job → Jobs → Jobs
file_job j out =
    if j.status == codes "queued"
    then record out { queued = out.queued ++ j ∷ [] }
    else record out { running = out.running ++ j ∷ [] }

-- The inner loop.
unfoldable pub sort_out : List Job → Jobs → Jobs
sort_out [] out = out
sort_out (j ∷ js) out = sort_out js (file_job j out)

unfoldable pub gather : (Text → Option (List Job)) → List Repo → Gathered → Gathered
unfolding sort_out
gather poll [] g = g
gather poll (r ∷ rs) g = elim (poll r.name) [
  | none ↦ gather poll rs (record g { failed = g.failed ++ r.name ∷ [] })
  | some js ↦ gather poll rs (record g { jobs = sort_out js g.jobs })
]

unfoldable pub poll_error : List Text → List Repo → PollError
poll_error [] repos = no_error
poll_error (f ∷ failed) repos =
    if length (f ∷ failed) == length repos
    then all_failed (f ∷ failed)
    else partial_error (f ∷ failed)

unfoldable pub poll_jobs : Actions → List Repo → Jobs × PollError
unfolding gather poll_error
poll_jobs acts repos =
    let g : Gathered =
      gather (repo_active_jobs acts) repos
        (record { jobs = record { queued = []; running = [] }; failed = [] }) in
    (
      record {
        queued = sort_stable (by_key (λ j. j.id)) g.jobs.queued;
        running = sort_stable (by_key (λ j. j.id)) g.jobs.running;
      },
      poll_error g.failed repos,
    )
