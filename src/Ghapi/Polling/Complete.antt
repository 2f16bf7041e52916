-- ===== src/Ghapi/Polling/Complete.antt =====
-- internal/ghapi/jobs.go: a repository that fails hides no other's jobs from PollJobs.
use mathlib.Core.List.{
  append_assoc, append-nil, perm_middle, perm_append_singleton, perm_append_comm,
}
use mathlib.Core.List.Perm
use action_runner_cluster.Prelude.{
  Bool-cases, List, Option, Option-cases, Perm, Text, [], arith, by_key, codes, inl, inr, length,
  nat_beq_iff, nat_eq, none, or_else, refl, some, sort_stable-perm, subst, sym, text_eq, ◌++◌, ◌<◌,
  ◌==◌, ◌∙◌, ◌∷◌, ◌≡◌, ◌≤◌,
}
use action_runner_cluster.Ghapi.{Repo, Job, Jobs}
use action_runner_cluster.Ghapi.Polling.{
  Actions, repo_active_jobs, Gathered, file_job, sort_out, gather, no_error, partial_error,
  all_failed, poll_error, poll_jobs,
}

-- The jobs of the repositories that answer.
abbrev pub offered : (Text → Option (List Job)) → List Repo → List Job
offered poll [] = []
offered poll (r ∷ rs) = or_else [] (poll r.name) ++ offered poll rs

-- The repositories that fail.
abbrev pub failing : (Text → Option (List Job)) → List Repo → List Text
failing poll [] = []
failing poll (r ∷ rs) = elim (poll r.name) [
  | none ↦ r.name ∷ failing poll rs
  | some js ↦ failing poll rs
]

abbrev pub both : Jobs → List Job
both out = out.queued ++ out.running

file_job-perm : (j : Job) (out : Jobs) → Perm (both (file_job j out)) (j ∷ both out)
unfolding file_job
file_job-perm j out = elim (Bool-cases (j.status == codes "queued")) [
  | inl queued ↦
      rw (queued, file_job, append_assoc out.queued (j ∷ []) out.running)
        (perm_middle out.queued out.running)
  | inr other ↦
      rw (other, file_job, ← append_assoc out.queued out.running (j ∷ []))
        (perm_append_singleton j (both out))
]

sort_out-perm : (js : List Job) (out : Jobs) → Perm (both (sort_out js out)) (js ++ both out)
unfolding sort_out
sort_out-perm [] out = Perm.refl _
sort_out-perm (j ∷ js) out =
    Perm.trans (sort_out-perm js (file_job j out))
      (Perm.trans (Perm.append_left js (file_job-perm j out)) (perm_middle js (both out)))

gather-perm :
    (poll : Text → Option (List Job)) (repos : List Repo) (g : Gathered)
    → Perm (both (gather poll repos g).jobs) (offered poll repos ++ both g.jobs)
unfolding gather
gather-perm poll [] g = Perm.refl _
gather-perm poll (r ∷ rs) g = elim (Option-cases (poll r.name)) [
  | inl e ↦
      rw (e, gather, offered) (gather-perm poll rs (record g { failed = g.failed ++ r.name ∷ [] }))
  | inr (js, e) ↦
      rw (e, gather, append_assoc js (offered poll rs) (both g.jobs))
        (Perm.trans (gather-perm poll rs (record g { jobs = sort_out js g.jobs })) (
          Perm.trans (Perm.append_left (offered poll rs) (sort_out-perm js g.jobs))
            (swap_front (offered poll rs) js (both g.jobs))))
]
  where
    swap_front : (xs ys zs : List Job) → Perm (xs ++ (ys ++ zs)) (ys ++ (xs ++ zs))
    swap_front xs ys zs =
        subst (λ l. Perm l (ys ++ (xs ++ zs))) (append_assoc xs ys zs)
          (subst (Perm ((xs ++ ys) ++ zs)) (append_assoc ys xs zs)
            (Perm.append_right zs (perm_append_comm xs ys)))

gather-failed :
    (poll : Text → Option (List Job)) (repos : List Repo) (g : Gathered)
    → (gather poll repos g).failed ≡ g.failed ++ failing poll repos
unfolding gather
gather-failed poll [] g = sym (append-nil g.failed)
gather-failed poll (r ∷ rs) g = elim (Option-cases (poll r.name)) [
  | inl e ↦
      rw (e, gather, failing)
        (gather-failed poll rs (record g { failed = g.failed ++ r.name ∷ [] })
          ∙ append_assoc g.failed (r.name ∷ []) (failing poll rs))
  | inr (js, e) ↦
      rw (e, gather, failing) (gather-failed poll rs (record g { jobs = sort_out js g.jobs }))
]

length-failing-le :
    (poll : Text → Option (List Job)) (repos : List Repo)
    → length (failing poll repos) ≤ length repos
length-failing-le poll [] = omega arith
length-failing-le poll (r ∷ rs) = ground (arith, length-failing-le poll rs)

abbrev empty_handed : Gathered
empty_handed = record { jobs = record { queued = []; running = [] }; failed = [] }

-- PollJobs gives exactly the jobs of the repositories that answer, each once, however many fail.
pub poll_jobs-perm :
    (acts : Actions) (repos : List Repo)
    → Perm (both (poll_jobs acts repos).0) (offered (repo_active_jobs acts) repos)
unfolding poll_jobs
poll_jobs-perm acts repos =
    let poll = repo_active_jobs acts in
    let out = (gather poll repos empty_handed).jobs in
    Perm.trans
      (Perm.trans
        (Perm.append_right _ (Perm.symm (sort_stable-perm (by_key (λ j. j.id)) out.queued)))
        (Perm.append_left out.queued
          (Perm.symm (sort_stable-perm (by_key (λ j. j.id)) out.running))))
      (subst (Perm (both out)) (append-nil (offered poll repos))
        (gather-perm poll repos empty_handed))

poll_error_lem :
    (repos : List Repo) (missing : List Text)
    → length missing ≤ length repos
    → (poll_error missing repos ≡ no_error → missing ≡ [])
      × ((names : List Text)
          → poll_error missing repos ≡ partial_error names
          → (names ≡ missing) × (0 < length missing) × (length missing < length repos))
      × ((names : List Text)
          → poll_error missing repos ≡ all_failed names
          → (names ≡ missing) × (0 < length missing) × (length missing ≡ length repos))
unfolding poll_error
poll_error_lem repos [] l = (λ e. refl, λ names e. cc, λ names e. cc)
poll_error_lem repos (m ∷ ms) l = elim (Bool-cases (length (m ∷ ms) == length repos)) [
  | inl all ↦
      let same = (nat_beq_iff (length (m ∷ ms)) (length repos)).0 all in
      rw (all, poll_error) (λ e. cc, λ names e. cc, λ names e. (cc, omega arith, same))
  | inr some_left ↦
      rw (some_left, poll_error)
        (λ e. cc, λ names e. (cc, omega arith, ground arith), λ names e. cc)
]

-- The error of PollJobs tells which repositories failed: it is none if none did, partial if some but
-- not all did, and total if all did.
pub poll_jobs_error :
    (acts : Actions) (repos : List Repo)
    → let e = (poll_jobs acts repos).1 in
      let missing = failing (repo_active_jobs acts) repos in
      (e ≡ no_error → missing ≡ [])
      × ((names : List Text)
          → e ≡ partial_error names
          → (names ≡ missing) × (0 < length missing) × (length missing < length repos))
      × ((names : List Text)
          → e ≡ all_failed names
          → (names ≡ missing) × (0 < length missing) × (length missing ≡ length repos))
unfolding poll_jobs
poll_jobs_error acts repos =
    let poll = repo_active_jobs acts in
    rw (gather-failed poll repos empty_handed)
      (poll_error_lem repos (failing poll repos) (length-failing-le poll repos))
