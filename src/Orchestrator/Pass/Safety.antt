-- ===== src/Orchestrator/Pass/Safety.antt =====
-- internal/orchestrator/orchestrator.go: what a pass may ask of GitHub and of the providers.
use mathlib.Core.Option.{some-injective}
use action_runner_cluster.Prelude.{
  All, All-In, All-map, Any, Bool, Bool-cases, In, List, Map, Option-cases, Text, [], false,
  find-Any, inl, inr, lookup, ltb_ℤ, not, pos, pos_part, put-Any, refl, some, sort_stable,
  sort_stable-All, subst, sym, take, take-All, text_eq, true, ℕ, ◌&&◌, ◌∙◌, ◌∷◌, ◌≡◌, ◌⊎◌,
}
use action_runner_cluster.Config.{Pool, effective_runner_group}
use action_runner_cluster.Ghapi.{Job, Runner, online}
use action_runner_cluster.Provider.{Instance}
use action_runner_cluster.Names.{belongs_to_pool, runner_name}
use action_runner_cluster.Scale.{Decision}
use action_runner_cluster.Orchestrator.{
  Settings, repo_level, Call, deregisters, registers, creates, destroys, Env, Orchestrator,
}
use action_runner_cluster.Orchestrator.Trace.{AddsAt, AddsAt-refl, AddsAt-trans, AddsAt-of_Adds}
use action_runner_cluster.Orchestrator.Destroy.{destroy_instance}
use action_runner_cluster.Orchestrator.Destroy.Order.{destroy_instance-Adds}
use action_runner_cluster.Orchestrator.Reap.{reap}
use action_runner_cluster.Orchestrator.Reap.Calls.{IsOver, Reaps, reap_lem}
use action_runner_cluster.Orchestrator.Launch.{target_repos, launch_one, launch_all, scale_up}
use action_runner_cluster.Orchestrator.Launch.Counting.{launch_one_lem}
use action_runner_cluster.Orchestrator.Cull.{
  is_idle, Candidate, check_idle, longer_idle, cull_all, scale_down,
}
use action_runner_cluster.Orchestrator.Cull.Eligible.{check_idle_idle, is_idle_sound}
use action_runner_cluster.Orchestrator.PoolPass.{carry_out}
use action_runner_cluster.Orchestrator.Pass.{Readings}

-- The provider of the pool of that name listed the instance in this pass.
abbrev pub Listed : Readings → Text → Instance → Type 0
Listed rd pool i =
    (calls : List Call) × (insts : List Instance) × (rd.list_instances calls pool ≡ some insts)
    × In i insts

-- What a pass may do after the calls `h`, by the runners that GitHub listed at its start.
abbrev pub Allowed : Env → Settings → Readings → ℕ → Map Text Runner → List Call → Call → Type 0
Allowed env s rd now by_name h (deregisters r) =
    Any
      (λ kv.
        (kv.1 ≡ r)
        × (r.busy ≡ false)
        × Any (λ pool. belongs_to_pool s.host kv.0 pool.name ≡ true) s.pools)
      by_name
    ⊎ (Any
          (λ pool.
            (i : Instance) × Listed rd pool.name i
            × (lookup i.runner_name by_name ≡ some r)
            × (IsOver now pool i ⊎ (r.busy ≡ false)))
          s.pools
        ⊎ ((h' : List Call) × (p : Text) × (repo : Text) × (name : Text) × (new : Runner) × (h
              ≡ creates p name ∷ registers repo name ∷ h')
            × (env.jit h' repo name ≡ some new)
            × (r ≡ record new { repo = repo })
            × (env.create (registers repo name ∷ h') p name ≡ false)))
Allowed env s rd now by_name h (destroys p id) =
    Any
      (λ pool.
        (pool.name ≡ p)
        × ((i : Instance) × Listed rd p i
            × (i.id ≡ id)
            × (IsOver now pool i
                ⊎ ((r : Runner) × (lookup i.runner_name by_name ≡ some r)
                    × (r.busy ≡ false)
                    × (online r ≡ true)))))
      s.pools
Allowed env s rd now by_name h (registers repo name) =
    Any (λ pool. (bytes : List ℕ) × (name ≡ runner_name s.host pool.name bytes)) s.pools
Allowed env s rd now by_name h (creates p name) =
    Any (λ pool. (pool.name ≡ p) × ((bytes : List ℕ) × (name ≡ runner_name s.host p bytes))) s.pools
    × ((h' : List Call) × (repo : Text) × (new : Runner) × (h ≡ registers repo name ∷ h')
        × (env.jit h' repo name ≡ some new))

pub reap-Allowed :
    (env : Env) (s : Settings) (rd : Readings) (now : ℕ) (by_name : Map Text Runner) (pool : Pool)
    (insts : List Instance) (calls : List Call) (o : Orchestrator)
    → In pool s.pools
    → rd.list_instances calls pool.name ≡ some insts
    → AddsAt
        (Allowed env s rd now by_name)
        o.calls
        (reap env s.host now pool insts by_name o).0.calls
reap-Allowed env s rd now by_name pool insts calls o m e =
    AddsAt-of_Adds (Reaps s.host now pool insts by_name) (Allowed env s rd now by_name) o.calls _ ok
      (reap_lem env s.host now pool insts by_name o).2
  where
    ok :
        (h : List Call) (c : Call)
        → Reaps s.host now pool insts by_name c
        → Allowed env s rd now by_name h c
    ok h (deregisters r) (inl a) =
        let (i, listed, (over, found)) = find-Any _ insts a in
        inr (inl (put-Any _ pool s.pools m (i, (calls, insts, e, listed), found, inl over)))
    ok h (deregisters r) (inr a) =
        let (kv, place, (same, (ours, _, free))) = find-Any _ by_name a in
        inl (put-Any _ kv by_name place (same, free, put-Any _ pool s.pools m ours))
    ok h (destroys p id) (q, a) =
        let (i, listed, (over, same)) = find-Any _ insts a in
        put-Any _ pool s.pools m
          (sym q, (i, subst (λ n. Listed rd n i) (sym q) (calls, insts, e, listed), same, inl over))
    ok h (registers repo name) a = absurd a
    ok h (creates p name) a = absurd a

launch_one-Allowed :
    (env : Env) (s : Settings) (rd : Readings) (now : ℕ) (by_name : Map Text Runner) (pool : Pool)
    (repo : Text) (o : Orchestrator)
    → In pool s.pools
    → AddsAt (Allowed env s rd now by_name) o.calls (launch_one env s pool repo o).0.calls
launch_one-Allowed env s rd now by_name pool repo o m =
    let name = runner_name s.host pool.name (env.random o.calls) in
    let asked = registers repo name ∷ o.calls in
    let registered : Allowed env s rd now by_name o.calls (registers repo name) =
      put-Any _ pool s.pools m (env.random o.calls, refl) in
    let created : (new : Runner)
        → env.jit o.calls repo name ≡ some new
        → Allowed env s rd now by_name asked (creates pool.name name) =
      λ new jit. (
        put-Any _ pool s.pools m (refl, (env.random o.calls, refl)),
        (o.calls, repo, new, refl, jit),
      ) in
    elim (launch_one_lem env s pool repo o) [
      | inl (_, _, e) ↦ (registers repo name ∷ [], e, (registered, tt))
      | inr (new, jit, way) ↦ elim way [
        | inl (_, _, e) ↦ (
          creates pool.name name ∷ registers repo name ∷ [],
          e,
          (created new jit, (registered, tt)),
        )
        | inr (down, _, e) ↦ (
          deregisters (record new { repo = repo })
              ∷ creates pool.name name
              ∷ registers repo name
              ∷ [],
          e,
          (
            inr (inr (o.calls, pool.name, repo, name, new, refl, jit, refl, down)),
            (created new jit, (registered, tt)),
          ),
        )
      ]
    ]

launch_all-Allowed :
    (env : Env) (s : Settings) (rd : Readings) (now : ℕ) (by_name : Map Text Runner) (pool : Pool)
    (repos : List Text) (o : Orchestrator)
    → In pool s.pools
    → AddsAt (Allowed env s rd now by_name) o.calls (launch_all env s pool repos o).calls
unfolding launch_all
launch_all-Allowed env s rd now by_name pool [] o m =
    AddsAt-refl (Allowed env s rd now by_name) o.calls
launch_all-Allowed env s rd now by_name pool (repo ∷ repos) o m =
    AddsAt-trans (Allowed env s rd now by_name) o.calls (launch_one env s pool repo o).0.calls _
      (launch_one-Allowed env s rd now by_name pool repo o m)
      (launch_all-Allowed env s rd now by_name pool repos (launch_one env s pool repo o).0 m)

scale_up-Allowed :
    (env : Env) (s : Settings) (rd : Readings) (now : ℕ) (by_name : Map Text Runner) (pool : Pool)
    (n : ℕ) (jobs : List Job) (o : Orchestrator)
    → In pool s.pools
    → AddsAt (Allowed env s rd now by_name) o.calls (scale_up env s pool n jobs o).calls
unfolding scale_up
scale_up-Allowed env s rd now by_name pool n jobs o m =
    elim (Bool-cases (env.group_known o.calls (effective_runner_group s.github pool))) [
      | inl known ↦ elim (Option-cases (target_repos (repo_level s) n jobs)) [
        | inl e ↦ rw (known, e, scale_up) (AddsAt-refl (Allowed env s rd now by_name) o.calls)
        | inr (repos, e) ↦
            rw (known, e, scale_up) (launch_all-Allowed env s rd now by_name pool repos o m)
      ]
      | inr unknown ↦ rw (unknown, scale_up) (AddsAt-refl (Allowed env s rd now by_name) o.calls)
    ]

cull_all-Allowed :
    (env : Env) (s : Settings) (rd : Readings) (now : ℕ) (by_name : Map Text Runner) (pool : Pool)
    (cs : List Candidate) (o : Orchestrator)
    → In pool s.pools
    → All (λ c. Listed rd pool.name c.inst × (is_idle by_name c.inst ≡ true)) cs
    → AddsAt (Allowed env s rd now by_name) o.calls (cull_all env pool by_name cs o).calls
unfolding cull_all
cull_all-Allowed env s rd now by_name pool [] o m h =
    AddsAt-refl (Allowed env s rd now by_name) o.calls
cull_all-Allowed env s rd now by_name pool (c ∷ cs) o m h =
    let o1 : Orchestrator = (destroy_instance env pool.name by_name c.inst o).0 in
    AddsAt-trans (Allowed env s rd now by_name) o.calls o1.calls _
      (AddsAt-of_Adds (λ q. (h : List Call) → Allowed env s rd now by_name h q)
        (Allowed env s rd now by_name) o.calls o1.calls (λ past q k. k past)
        (destroy_instance-Adds (λ q. (h : List Call) → Allowed env s rd now by_name h q) env
          pool.name by_name c.inst o
          (λ r e past.
            let (r', found, free, _) = is_idle_sound by_name c.inst h.0.1 in
            inr (
              inl (
                put-Any _ pool s.pools m (
                  c.inst,
                  h.0.0,
                  e,
                  inr (
                      subst (λ (x : Runner). x.busy ≡ false) (some-injective _ _ (sym found ∙ e))
                        free),
                ))))
          (λ past.
            put-Any _ pool s.pools m
              (refl, (c.inst, h.0.0, refl, inr (is_idle_sound by_name c.inst h.0.1))))))
      (cull_all-Allowed env s rd now by_name pool cs o1 m h.1)

scale_down-Allowed :
    (env : Env) (s : Settings) (rd : Readings) (now : ℕ) (by_name : Map Text Runner) (pool : Pool)
    (live : List Instance) (n : ℕ) (o : Orchestrator)
    → In pool s.pools
    → All (Listed rd pool.name) live
    → AddsAt (Allowed env s rd now by_name) o.calls (scale_down env now pool live by_name n o).calls
unfolding scale_down
scale_down-Allowed env s rd now by_name pool live n o m listed =
    let (since, eligible) = check_idle now pool by_name live o.idle_since in
    cull_all-Allowed env s rd now by_name pool (take n (sort_stable longer_idle eligible))
      (record o { idle_since = since }) m
      (take-All _ n _ (
        sort_stable-All longer_idle _ eligible (
          All-map _ _ eligible
            (λ c (k, idle). (All-In (Listed rd pool.name) c.inst live listed k, idle))
            (check_idle_idle now pool by_name o.idle_since live live (λ i k. k)))))

pub carry_out-Allowed :
    (env : Env) (s : Settings) (rd : Readings) (now : ℕ) (by_name : Map Text Runner) (pool : Pool)
    (live : List Instance) (jobs : List Job) (drained : Bool) (d : Decision) (o : Orchestrator)
    → In pool s.pools
    → All (Listed rd pool.name) live
    → AddsAt
        (Allowed env s rd now by_name)
        o.calls
        (carry_out env s now pool live by_name jobs drained d o).calls
unfolding carry_out
carry_out-Allowed env s rd now by_name pool live jobs drained d o m listed =
    elim (Bool-cases (ltb_ℤ (pos 0) d.create && not drained)) [
      | inl up ↦
          rw (up, carry_out)
            (scale_up-Allowed env s rd now by_name pool (pos_part d.create) jobs o m)
      | inr still ↦ elim (Bool-cases (ltb_ℤ (pos 0) d.cull)) [
        | inl down ↦
            rw (still, down, carry_out)
              (scale_down-Allowed env s rd now by_name pool live (pos_part d.cull) o m listed)
        | inr none_to_go ↦
            rw (still, none_to_go, carry_out) (AddsAt-refl (Allowed env s rd now by_name) o.calls)
      ]
    ]
