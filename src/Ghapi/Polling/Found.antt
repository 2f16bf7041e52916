-- ===== src/Ghapi/Polling/Found.antt =====
-- internal/ghapi/jobs.go: what PollJobs finds, whichever repositories fail.
use mathlib.Core.List.{append_assoc}
use mathlib.Core.Option.{some-injective}
use action_runner_cluster.Prelude.{
  All, All-append, Bool-cases, In, IsSorted, List, Option, Option-cases, Text, [], arith, by_key,
  codes, false, inl, inr, map, nat_eq, none, not, refl, some, sort_by_key-IsSorted, sort_stable,
  sort_stable-All, subst, sym, text_beq_iff, text_eq, true, ℕ, ◌++◌, ◌==◌, ◌||◌, ◌∷◌, ◌≡◌, ◌⊎◌,
}
use action_runner_cluster.Ghapi.{Repo, Job, Jobs}
use action_runner_cluster.Ghapi.SelfHosted.{self_hosted}
use action_runner_cluster.Ghapi.Polling.{
  Actions, RunJob, RunJobs, found, not_found, not_answered, active_runs, is_active, active_jobs,
  jobs_of_runs, repo_active_jobs, Gathered, file_job, sort_out, gather, poll_jobs,
}

-- A job of the repository that waits or runs, and asks for a self-hosted runner.
abbrev pub IsWanted : Text → Job → Type 0
IsWanted repo j = (j.repo ≡ repo) × (is_active j.status ≡ true) × (self_hosted j.labels ≡ true)

active_jobs-IsWanted :
    (repo branch : Text) (js : List RunJob) → All (IsWanted repo) (active_jobs repo branch js)
unfolding active_jobs
active_jobs-IsWanted repo branch [] = tt
active_jobs-IsWanted repo branch (j ∷ js) =
    elim (Bool-cases (not (is_active j.status) || not (self_hosted j.labels))) [
      | inl skipped ↦ rw skipped (active_jobs-IsWanted repo branch js)
      | inr wanted ↦
          rw wanted ((refl, ground arith, ground arith), active_jobs-IsWanted repo branch js)
    ]

RunJobs-cases :
    (a : RunJobs) → (a ≡ not_answered) ⊎ ((a ≡ not_found) ⊎ ((fs : List RunJob) × (a ≡ found fs)))
RunJobs-cases not_answered = inl refl
RunJobs-cases not_found = inr (inl refl)
RunJobs-cases (found fs) = inr (inr (fs, refl))

unanswered : (js : List Job) → ◌≡◌ {A = Option (List Job)} none (some js) → ⊥
unanswered js e = cc

jobs_of_runs-IsWanted :
    (acts : Actions) (repo : Text) (runs : List (ℕ × Text)) (js : List Job)
    → jobs_of_runs acts repo runs ≡ some js
    → All (IsWanted repo) js
unfolding jobs_of_runs
jobs_of_runs-IsWanted acts repo [] js e = subst (All (IsWanted repo)) (some-injective _ _ e) tt
jobs_of_runs-IsWanted acts repo ((id, branch) ∷ runs) js e =
    elim (RunJobs-cases (acts.jobs repo id)) [
      | inl h ↦ absurd (unanswered js (rw (h, jobs_of_runs) at e))
      | inr (inl h) ↦ jobs_of_runs-IsWanted acts repo runs js (rw (h, jobs_of_runs) at e)
      | inr (inr (fs, h)) ↦ elim (Option-cases (jobs_of_runs acts repo runs)) [
        | inl r ↦ absurd (unanswered js (rw (h, r, jobs_of_runs) at e))
        | inr (rest, r) ↦
            subst (All (IsWanted repo)) (some-injective _ _ (rw (h, r, jobs_of_runs) at e)) (
              All-append (IsWanted repo) (active_jobs repo branch fs) rest
                (active_jobs-IsWanted repo branch fs) (jobs_of_runs-IsWanted acts repo runs rest r))
      ]
    ]

repo_active_jobs-IsWanted :
    (acts : Actions) (repo : Text) (js : List Job)
    → repo_active_jobs acts repo ≡ some js
    → All (IsWanted repo) js
unfolding repo_active_jobs
repo_active_jobs-IsWanted acts repo js e =
    elim (Option-cases (active_runs acts repo (codes "queued" ∷ codes "in_progress" ∷ []) [])) [
      | inl h ↦ absurd (unanswered js (rw (h, repo_active_jobs) at e))
      | inr (runs, h) ↦
          jobs_of_runs-IsWanted acts repo (sort_stable (by_key (λ r. r.0)) runs) js
            (rw (h, repo_active_jobs) at e)
    ]

-- A job that is queued in a watched repository, and one that runs there.
abbrev pub Waits : List Repo → Job → Type 0
Waits repos j =
    In j.repo (map (λ r. r.name) repos)
    × (j.status ≡ codes "queued")
    × (self_hosted j.labels ≡ true)

abbrev pub Runs : List Repo → Job → Type 0
Runs repos j =
    In j.repo (map (λ r. r.name) repos)
    × (j.status ≡ codes "in_progress")
    × (self_hosted j.labels ≡ true)

abbrev Sorted : List Repo → Jobs → Type 0
Sorted repos out = All (Waits repos) out.queued × All (Runs repos) out.running

running_status :
    (status : Text)
    → is_active status ≡ true
    → (status == codes "queued") ≡ false
    → status ≡ codes "in_progress"
unfolding is_active
running_status status a q = ground (arith, text_beq_iff status (codes "in_progress"))

file_job-Sorted :
    (repos : List Repo) (name : Text) (j : Job) (out : Jobs)
    → In name (map (λ r. r.name) repos)
    → IsWanted name j
    → Sorted repos out
    → Sorted repos (file_job j out)
unfolding file_job
file_job-Sorted repos name j out m (home, active, ours) s =
    let here = subst (λ n. In n (map (λ r. r.name) repos)) (sym home) m in
    elim (Bool-cases (j.status == codes "queued")) [
      | inl queued ↦
          rw (queued, file_job)
            (
              All-append (Waits repos) out.queued (j ∷ []) s.0
                  ((here, (text_beq_iff j.status (codes "queued")).0 queued, ours), tt),
              s.1,
            )
      | inr other ↦
          rw (other, file_job)
            (
              s.0,
              All-append (Runs repos) out.running (j ∷ []) s.1
                  ((here, running_status j.status active other, ours), tt),
            )
    ]

sort_out-Sorted :
    (repos : List Repo) (name : Text) (js : List Job) (out : Jobs)
    → In name (map (λ r. r.name) repos)
    → All (IsWanted name) js
    → Sorted repos out
    → Sorted repos (sort_out js out)
unfolding sort_out
sort_out-Sorted repos name [] out m w s = s
sort_out-Sorted repos name (j ∷ js) out m w s =
    sort_out-Sorted repos name js (file_job j out) m w.1 (file_job-Sorted repos name j out m w.0 s)

gather-Sorted :
    (acts : Actions) (watched repos : List Repo) (g : Gathered)
    → All (λ r. In r.name (map (λ q. q.name) watched)) repos
    → Sorted watched g.jobs
    → Sorted watched (gather (repo_active_jobs acts) repos g).jobs
unfolding gather
gather-Sorted acts watched [] g m s = s
gather-Sorted acts watched (r ∷ rs) g m s = elim (Option-cases (repo_active_jobs acts r.name)) [
  | inl e ↦
      rw (e, gather)
        (gather-Sorted acts watched rs (record g { failed = g.failed ++ r.name ∷ [] }) m.1 s)
  | inr (js, e) ↦
      rw (e, gather)
        (gather-Sorted acts watched rs (record g { jobs = sort_out js g.jobs }) m.1
          (sort_out-Sorted watched r.name js g.jobs m.0 (repo_active_jobs-IsWanted acts r.name js e)
            s))
]

every_name : (rs more : List Repo) → All (λ r. In r.name (map (λ q. q.name) (more ++ rs))) rs
every_name [] more = tt
every_name (r ∷ rs) more = (
  here more,
  subst (λ l. All (λ q. In q.name (map (λ q. q.name) l)) rs) (append_assoc more (r ∷ []) rs)
      (every_name rs (more ++ r ∷ [])),
)
  where
    here : (l : List Repo) → In r.name (map (λ q. q.name) (l ++ r ∷ rs))
    here [] = inl refl
    here (q ∷ qs) = inr (here qs)

-- Every job that PollJobs calls queued has the status queued, and every one that it calls running has
-- the status in_progress; each is in one of the watched repositories and asks for a self-hosted
-- runner; and both lists are in the order of the jobs' ids.
pub poll_jobs-Sorted :
    (acts : Actions) (repos : List Repo)
    → let out = (poll_jobs acts repos).0 in
      All (Waits repos) out.queued
      × All (Runs repos) out.running
      × IsSorted (by_key (λ (j : Job). j.id)) out.queued
      × IsSorted (by_key (λ (j : Job). j.id)) out.running
unfolding poll_jobs
poll_jobs-Sorted acts repos =
    let g =
      gather (repo_active_jobs acts) repos
        (record { jobs = record { queued = []; running = [] }; failed = [] }) in
    let (q, r) =
      gather-Sorted acts repos repos
        (record { jobs = record { queued = []; running = [] }; failed = [] }) (every_name repos [])
        (tt, tt) in
    (
      sort_stable-All (by_key (λ j. j.id)) (Waits repos) g.jobs.queued q,
      sort_stable-All (by_key (λ j. j.id)) (Runs repos) g.jobs.running r,
      sort_by_key-IsSorted (λ j. j.id) g.jobs.queued,
      sort_by_key-IsSorted (λ j. j.id) g.jobs.running,
    )
