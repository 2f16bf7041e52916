-- ===== src/Orchestrator/Launch/Counting.antt =====
-- internal/orchestrator/orchestrator.go: what a launch leaves behind, and how many there are.
use mathlib.Core.Option.{some-injective}
use action_runner_cluster.Prelude.{
  All, All-of_In, Any, Any-of_In, Bool, Bool-cases, List, Option-cases, Text, [], ap, arith, false,
  inl, inr, length, map, none, refl, replicate, some, subst, suc, take, true, zero, ℕ, ◌+◌, ◌<◌,
  ◌∷◌, ◌≡◌, ◌≤◌, ◌⊎◌,
}
use action_runner_cluster.Config.{Pool, effective_runner_group}
use action_runner_cluster.Ghapi.{Job, Runner}
use action_runner_cluster.Names.{runner_name}
use action_runner_cluster.Orchestrator.{
  Settings, repo_level, deregisters, registers, creates, Env, Orchestrator, log,
}
use action_runner_cluster.Orchestrator.Trace.{launches}
use action_runner_cluster.Orchestrator.Launch.{
  last_repo, pinned, target_repos, start_instance, launch_one, launch_all, scale_up,
}

-- The three ways in which a launch ends, by the answers of GitHub and of the provider: without a
-- registration there is nothing else; with one, the provider is called, and if that succeeds the
-- launch has, and if it fails GitHub is asked to remove the registration again, on the repository
-- that it is on.
pub launch_one_lem :
    (env : Env) (s : Settings) (pool : Pool) (repo : Text) (o : Orchestrator)
    → let name = runner_name s.host pool.name (env.random o.calls) in
      let asked = registers repo name ∷ o.calls in
      let (o', done) = launch_one env s pool repo o in
      ((env.jit o.calls repo name ≡ none) × (done ≡ false) × (o'.calls ≡ asked))
      ⊎ ((r : Runner) × (env.jit o.calls repo name ≡ some r)
          × (((env.create asked pool.name name ≡ true)
                × (done ≡ true)
                × (o'.calls ≡ creates pool.name name ∷ asked))
              ⊎ ((env.create asked pool.name name ≡ false)
                  × (done ≡ false)
                  × (o'.calls
                      ≡ deregisters (record r { repo = repo }) ∷ creates pool.name name ∷ asked))))
unfolding launch_one log start_instance
launch_one_lem env s pool repo o =
    let name = runner_name s.host pool.name (env.random o.calls) in
    elim (Option-cases (env.jit o.calls repo name)) [
      | inl e ↦ inl (e, rw (e, launch_one) refl, rw (e, launch_one) refl)
      | inr (r, e) ↦ inr (
        r,
        e,
        elim (Bool-cases (env.create (registers repo name ∷ o.calls) pool.name name)) [
          | inl up ↦ inl (
            up,
            simp (e, up, launch_one, start_instance) refl,
            simp (e, up, launch_one, start_instance) refl,
          )
          | inr down ↦ inr (
            down,
            simp (e, down, launch_one, start_instance) refl,
            simp (e, down, launch_one, start_instance) refl,
          )
        ],
      )
    ]

length-pinned : (n : ℕ) (last : Text) (js : List Job) → length (pinned n last js) ≡ n
unfolding pinned
length-pinned zero last js = refl
length-pinned (suc n) last [] = ap suc (length-pinned n last [])
length-pinned (suc n) last (j ∷ js) = ap suc (length-pinned n last js)

pinned-All :
    (P : Text → Type 0) (n : ℕ) (last : Text) (js : List Job)
    → P last
    → All (λ j. P j.repo) js
    → All P (pinned n last js)
unfolding pinned
pinned-All P zero last js l a = tt
pinned-All P (suc n) last [] l a = (l, pinned-All P n last [] l a)
pinned-All P (suc n) last (j ∷ js) l a = (a.0, pinned-All P n last js l a.1)

last_repo-All :
    (P : Text → Type 0) (j : Job) (js : List Job)
    → All (λ k. P k.repo) (j ∷ js)
    → P (last_repo j js)
unfolding last_repo
last_repo-All P j [] a = a.0
last_repo-All P j (k ∷ ks) a = last_repo-All P k ks a.1

pinned-take :
    (n : ℕ) (last : Text) (js : List Job)
    → n ≤ length js
    → pinned n last js ≡ map (λ j. j.repo) (take n js)
unfolding pinned
pinned-take zero last js h = refl
pinned-take (suc n) last [] h = absurd (omega arith)
pinned-take (suc n) last (j ∷ js) h = ap (◌∷◌ j.repo) (pinned-take n last js (omega arith))

-- `n` repositories of the jobs, those of the first jobs first.
abbrev pub Pinned : ℕ → List Job → List Text → Type 0
Pinned n jobs repos =
    (length repos ≡ n)
    × All (λ r. Any (λ j. j.repo ≡ r) jobs) repos
    × (n ≤ length jobs → repos ≡ map (λ j. j.repo) (take n jobs))

repos-Any : (jobs : List Job) → All (λ j. Any (λ k. k.repo ≡ j.repo) jobs) jobs
repos-Any jobs =
    All-of_In _ jobs
      (λ j m. Any-of_In (λ k. k.repo ≡ j.repo) j jobs (λ k e. ap (λ (x : Job). x.repo) e) m)

pinned-Pinned :
    (n : ℕ) (j : Job) (js : List Job) → Pinned n (j ∷ js) (pinned n (last_repo j js) (j ∷ js))
pinned-Pinned n j js = (
  length-pinned n (last_repo j js) (j ∷ js),
  pinned-All (λ r. Any (λ k. k.repo ≡ r) (j ∷ js)) n (last_repo j js) (j ∷ js)
      (last_repo-All (λ r. Any (λ k. k.repo ≡ r) (j ∷ js)) j js (repos-Any (j ∷ js)))
      (repos-Any (j ∷ js)),
  pinned-take n (last_repo j js) (j ∷ js),
)

-- With a personal account every launch of a scale-up has a repository, which is that of one of the
-- queued jobs; the first launches are for the first jobs, one each. Only without any job is there
-- none, and then nothing is launched.
pub target_repos_lem :
    (n : ℕ) (jobs : List Job)
    → ((repos : List Text)
        → target_repos true n jobs ≡ some repos
        → (length repos ≡ n)
          × All (λ r. Any (λ j. j.repo ≡ r) jobs) repos
          × (n ≤ length jobs → repos ≡ map (λ j. j.repo) (take n jobs)))
      × (target_repos true n jobs ≡ none → (jobs ≡ []) × (0 < n))
unfolding target_repos
target_repos_lem zero jobs =
    (λ repos e. subst (Pinned zero jobs) (some-injective _ _ e) (refl, tt, λ _. refl), λ e. cc)
target_repos_lem (suc n) [] = (λ repos e. cc, λ e. (refl, omega arith))
target_repos_lem (suc n) (j ∷ js) = (
  λ repos e. subst (Pinned (suc n) (j ∷ js)) (some-injective _ _ e) (pinned-Pinned (suc n) j js),
  λ e. cc,
)

launch_one-launches :
    (env : Env) (s : Settings) (pool : Pool) (repo : Text) (o : Orchestrator)
    → launches (launch_one env s pool repo o).0.calls ≡ suc (launches o.calls)
unfolding launch_one
launch_one-launches env s pool repo o = ground arith

launch_all-launches :
    (env : Env) (s : Settings) (pool : Pool) (repos : List Text) (o : Orchestrator)
    → launches (launch_all env s pool repos o).calls ≡ launches o.calls + length repos
unfolding launch_all
launch_all-launches env s pool [] o = omega arith
launch_all-launches env s pool (repo ∷ repos) o = omega (
  arith,
  launch_one-launches env s pool repo o,
  launch_all-launches env s pool repos (launch_one env s pool repo o).0,
)

length-replicate : {A : Type 0} (n : ℕ) (a : A) → length (replicate n a) ≡ n
length-replicate zero a = refl
length-replicate (suc n) a = ap suc (length-replicate n a)

length-target_repos :
    (b : Bool) (n : ℕ) (jobs : List Job) (repos : List Text)
    → target_repos b n jobs ≡ some repos
    → length repos ≡ n
unfolding target_repos
length-target_repos true n jobs repos e = ((target_repos_lem n jobs).0 repos e).0
length-target_repos false n jobs repos e =
    subst (λ rs. length rs ≡ n) (some-injective _ _ e) (length-replicate n [])

-- A scale-up by `n` registers `n` runners or, when the runner group is unknown or there is no
-- repository to register on, none.
pub scale_up-launches :
    (env : Env) (s : Settings) (pool : Pool) (n : ℕ) (jobs : List Job) (o : Orchestrator)
    → (launches (scale_up env s pool n jobs o).calls ≡ launches o.calls + n)
      ⊎ (scale_up env s pool n jobs o ≡ o)
unfolding scale_up
scale_up-launches env s pool n jobs o = elim (Option-cases (target_repos (repo_level s) n jobs)) [
  | inl e ↦ inr (rw (e, scale_up) (ground arith))
  | inr (repos, e) ↦
      elim (Bool-cases (env.group_known o.calls (effective_runner_group s.github pool))) [
        | inl known ↦ inl (
            rw (known, e, scale_up)
              (omega (
                arith,
                launch_all-launches env s pool repos o,
                length-target_repos (repo_level s) n jobs repos e,
              )))
        | inr unknown ↦ inr (rw (unknown, scale_up))
      ]
]
