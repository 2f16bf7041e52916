-- ===== src/Examples/Polls.antt =====
-- Polls of repositories, and deliveries of webhooks.
use action_runner_cluster.Prelude.{
  All, IsSorted, List, Option, Perm, Text, [], by_key, codes, false, if◌then◌else◌, insert, length,
  nat_eq, none, refl, some, sort_stable, text_eq, true, ℕ, ◌++◌, ◌<◌, ◌==◌, ◌↔◌, ◌∷◌, ◌≡◌, ◌⊎◌,
}
use action_runner_cluster.Ghapi.{Repo, Job}
use action_runner_cluster.Ghapi.Polling.{
  RunJob, found, not_found, Actions, index_runs, active_runs, is_active, active_jobs, jobs_of_runs,
  repo_active_jobs, file_job, sort_out, gather, partial_error, poll_error, poll_jobs,
}
use action_runner_cluster.Ghapi.SelfHosted.{self_hosted, github_hosted_label}
use action_runner_cluster.Ghapi.Polling.Found.{Waits, Runs, poll_jobs-Sorted}
use action_runner_cluster.Ghapi.Polling.Complete.{offered, both, poll_jobs-perm}
use action_runner_cluster.Webhook.{Delivery, handle}
use action_runner_cluster.Webhook.Doorbell.{handle_iff}
use action_runner_cluster.Names.{hex_encode}

abbrev app : Repo
app = record {
  name = codes "app";
  full_name = codes "chrisle/app";
  archived = false;
  disabled = false;
  fork = false;
  pushed_at = 0;
  owner = codes "chrisle";
}

abbrev broken : Repo
broken = record app { name = codes "broken" }

abbrev waiting : RunJob
waiting = record {
  id = 9;
  run_id = 4;
  name = codes "build";
  status = codes "queued";
  labels = codes "linux" ∷ [];
  started_at = 0;
  created_at = 0;
  runner_name = [];
}

abbrev hosted : RunJob
hosted = record waiting { id = 3; labels = codes "ubuntu-latest" ∷ [] }

abbrev working : RunJob
working = record waiting { id = 5; status = codes "in_progress" }

-- One repository answers, the other does not.
abbrev actions : Actions
actions = record {
  runs = λ repo status.
      if repo == codes "app"
      then some (
          if status == codes "queued"
          then record { id = 4; head_branch = codes "main" } ∷ []
          else [])
      else none;
  jobs = λ repo id. if id == 4 then found (waiting ∷ hosted ∷ working ∷ []) else not_found;
}

abbrev repos : List Repo
repos = app ∷ broken ∷ []

poll_jobs-Sorted_example :
    let out = (poll_jobs actions repos).0 in
    All (Waits repos) out.queued
    × All (Runs repos) out.running
    × IsSorted (by_key (λ (j : Job). j.id)) out.queued
    × IsSorted (by_key (λ (j : Job). j.id)) out.running
poll_jobs-Sorted_example = poll_jobs-Sorted actions repos

poll_jobs-perm_example :
    Perm (both (poll_jobs actions repos).0) (offered (repo_active_jobs actions) repos)
poll_jobs-perm_example = poll_jobs-perm actions repos

-- The hosted job is passed over, and the other repository is named.
told : (poll_jobs actions repos).1 ≡ partial_error (codes "broken" ∷ [])
unfolding poll_jobs gather repo_active_jobs active_runs index_runs jobs_of_runs active_jobs
    is_active self_hosted github_hosted_label sort_out file_job poll_error insert sort_stable
told = refl

abbrev mac : Text → Text → List ℕ
mac secret body = 1 ∷ 2 ∷ secret

abbrev action_of : Text → Option Text
action_of body = some body

abbrev delivery : Delivery
delivery = record {
  body = some (codes "queued");
  signature = codes "sha256=0102";
  event = codes "workflow_job";
}

handle_iff_example : ((handle mac action_of [] delivery).0 ≡ true) ↔ (
    (body : Text) × (delivery.body ≡ some body)
    × (delivery.signature ≡ codes "sha256=" ++ hex_encode (mac [] body))
    × (7 < length delivery.signature)
    × (delivery.event ≡ codes "workflow_job")
    × ((action_of body ≡ some (codes "queued")) ⊎ (action_of body ≡ some (codes "completed"))))
handle_iff_example = handle_iff mac action_of [] delivery
