-- ===== src/Orchestrator/Cull/Limits.antt =====
-- internal/orchestrator/orchestrator.go: scaleDown removes ripe runners only, the longest idle
-- first, and no more than asked.
use action_runner_cluster.Prelude.{
  All, All-of_In, Any, Any-of_In, IsSorted-split, List, Map, Perm, Text, [], arith, drop, false,
  length, length-take-le, lookup, refl, some, sort_stable, sort_stable-All, sort_stable-IsSorted,
  sort_stable-perm, subst, sym, take, take-All, text_eq, true, ℕ, ◌+◌, ◌∷◌, ◌≡◌, ◌≤◌,
}
use action_runner_cluster.Config.{Pool}
use action_runner_cluster.Ghapi.{Runner}
use action_runner_cluster.Provider.{Instance}
use action_runner_cluster.Orchestrator.{
  Call, deregisters, registers, creates, destroys, Env, Orchestrator,
}
use action_runner_cluster.Orchestrator.Trace.{Adds, Adds-refl, Adds-trans, destructions}
use action_runner_cluster.Orchestrator.Destroy.{destroy_instance}
use action_runner_cluster.Orchestrator.Destroy.Order.{
  destroy_instance-Adds, destroy_instance-destructions,
}
use action_runner_cluster.Orchestrator.Cull.{
  Candidate, check_idle, longer_idle, cull_all, scale_down,
}
use action_runner_cluster.Orchestrator.Cull.Eligible.{IsRipe, DistinctRunners, Fit, check_idle-All}

-- The calls that a scale-down may make: the end of a ripe instance and of its registration.
abbrev pub Culls : ℕ → Pool → List Instance → Map Text Runner → Map Text ℕ → Call → Type 0
Culls now pool live by_name since (deregisters r) =
    Any (λ i. (lookup i.runner_name by_name ≡ some r) × IsRipe now pool by_name since i) live
Culls now pool live by_name since (destroys p id) =
    (p ≡ pool.name) × Any (λ i. (i.id ≡ id) × IsRipe now pool by_name since i) live
Culls now pool live by_name since (registers repo name) = ⊥
Culls now pool live by_name since (creates p name) = ⊥

cull_one-Culls :
    (env : Env) (now : ℕ) (pool : Pool) (live : List Instance) (by_name : Map Text Runner)
    (since : Map Text ℕ) (c : Candidate) (o : Orchestrator)
    → Fit now pool by_name since live c
    → Adds
        (Culls now pool live by_name since)
        o.calls
        (destroy_instance env pool.name by_name c.inst o).0.calls
cull_one-Culls env now pool live by_name since c o (m, fit) =
    destroy_instance-Adds (Culls now pool live by_name since) env pool.name by_name c.inst o
      (λ r e.
        Any-of_In _ c.inst live
          (λ j q.
            subst (λ k. (lookup k.runner_name by_name ≡ some r) × IsRipe now pool by_name since k)
              (sym q) (e, fit))
          m)
      (
        refl,
        Any-of_In _ c.inst live
            (λ j q.
              subst (λ k. (k.id ≡ c.inst.id) × IsRipe now pool by_name since k) (sym q) (refl, fit))
            m,
      )

cull_all-Culls :
    (env : Env) (now : ℕ) (pool : Pool) (live : List Instance) (by_name : Map Text Runner)
    (since : Map Text ℕ) (cs : List Candidate) (o : Orchestrator)
    → All (Fit now pool by_name since live) cs
    → Adds (Culls now pool live by_name since) o.calls (cull_all env pool by_name cs o).calls
unfolding cull_all
cull_all-Culls env now pool live by_name since [] o f = Adds-refl _ o.calls
cull_all-Culls env now pool live by_name since (c ∷ cs) o f =
    let o1 : Orchestrator = (destroy_instance env pool.name by_name c.inst o).0 in
    Adds-trans (Culls now pool live by_name since) o.calls o1.calls _
      (cull_one-Culls env now pool live by_name since c o f.0)
      (cull_all-Culls env now pool live by_name since cs o1 f.1)

cull_all-destructions :
    (env : Env) (pool : Pool) (by_name : Map Text Runner) (cs : List Candidate) (o : Orchestrator)
    → destructions (cull_all env pool by_name cs o).calls ≤ destructions o.calls + length cs
unfolding cull_all
cull_all-destructions env pool by_name [] o = omega arith
cull_all-destructions env pool by_name (c ∷ cs) o = omega (
  arith,
  destroy_instance-destructions env pool.name by_name c.inst o,
  cull_all-destructions env pool by_name cs (destroy_instance env pool.name by_name c.inst o).0,
)

-- A scale-down by `n` of instances with distinct runner names destroys at most `n`, and asks only
-- for the end of runners that GitHub lists as connected and without a job and that have been idle
-- for the pool's timeout, on a clock started in an earlier pass.
pub scale_down_lem :
    (env : Env) (now : ℕ) (pool : Pool) (live : List Instance) (by_name : Map Text Runner) (n : ℕ)
    (o : Orchestrator)
    → DistinctRunners live
    → let o' = scale_down env now pool live by_name n o in
      Adds (Culls now pool live by_name o.idle_since) o.calls o'.calls
      × (destructions o'.calls ≤ destructions o.calls + n)
unfolding scale_down
scale_down_lem env now pool live by_name n o d =
    let (since, eligible) = check_idle now pool by_name live o.idle_since in
    let chosen : List Candidate = take n (sort_stable longer_idle eligible) in
    let start : Orchestrator = record o { idle_since = since } in
    (
      cull_all-Culls env now pool live by_name o.idle_since chosen start (
          take-All _ n _ (
            sort_stable-All longer_idle _ eligible (
              check_idle-All now pool by_name o.idle_since o.idle_since live live (λ i m. m) d
                (All-of_In _ live (λ i m. refl))))),
      omega (
        arith,
        cull_all-destructions env pool by_name chosen start,
        length-take-le n (sort_stable longer_idle eligible),
      ),
    )

longer_idle_trans :
    (x y z : Candidate) → longer_idle x y ≡ true → longer_idle y z ≡ true → longer_idle x z ≡ true
longer_idle_trans x y z h k = ground arith

longer_idle-total : (x y : Candidate) → longer_idle x y ≡ false → longer_idle y x ≡ true
longer_idle-total x y h = ground arith

-- Of the instances that may go, the `n` that a scale-down takes have been idle at least as long as
-- each that it spares.
pub oldest_first :
    (now : ℕ) (pool : Pool) (live : List Instance) (by_name : Map Text Runner) (n : ℕ)
    (since : Map Text ℕ)
    → let eligible = (check_idle now pool by_name live since).1 in
      let sorted = sort_stable longer_idle eligible in
      Perm eligible sorted
      × All (λ a. All (λ b. longer_idle a b ≡ true) (drop n sorted)) (take n sorted)
oldest_first now pool live by_name n since =
    let eligible = (check_idle now pool by_name live since).1 in
    (
      sort_stable-perm longer_idle eligible,
      IsSorted-split longer_idle n (sort_stable longer_idle eligible)
          (sort_stable-IsSorted longer_idle longer_idle_trans longer_idle-total eligible),
    )
