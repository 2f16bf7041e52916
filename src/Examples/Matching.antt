-- ===== src/Examples/Matching.antt =====
-- Matching, assignment and planning at concrete pools and jobs.
use action_runner_cluster.Prelude.{
  Perm, [], arith, codes, inl, inr, insert, lookup, lookup_or, pos, pos_part, refl, select,
  sort_stable, text_eq, to_lower, ◌+◌, ◌-ℤ◌, ◌∷◌, ◌≡◌, ◌≤◌, ◌⊎◌,
}
use action_runner_cluster.Scale.{
  PoolMatcher, new_pool_matcher, can_serve, candidates, assign_demand, assign_all, start_assigning,
  room, plan, PoolState, place, first_fit, record_job, Limits, at_target,
}
use action_runner_cluster.Scale.Assignment.{all_jobs, assign_demand-perm}
use action_runner_cluster.Scale.Headroom.{assign_all_headroom}
use action_runner_cluster.Scale.Placement.{IsPlaced, assign_demand-IsPlaced}
use action_runner_cluster.Scale.Planning.{IsSound, plan-IsSound, plan_settles, launched}
use action_runner_cluster.Examples.Samples.{gpu, pools, build_job, train_job, jobs, limits, live}

matcher : PoolMatcher
matcher = new_pool_matcher pools

linux_not_gpu : ¬ (codes "linux-gpu" ≡ codes "linux")
linux_not_gpu e = cc

assign_demand-perm_example : Perm (all_jobs (assign_demand matcher jobs live limits)) jobs
assign_demand-perm_example = assign_demand-perm matcher jobs live limits

assign_demand-IsPlaced_example : IsPlaced matcher (assign_demand matcher jobs live limits)
assign_demand-IsPlaced_example = assign_demand-IsPlaced matcher jobs live limits

assign_all_headroom_example :
    let a = assign_all matcher jobs (start_assigning matcher live limits) in
    (lookup_or 0 gpu.name a.demand.by_pool + room a.headroom gpu
      ≡ pos_part (
          (lookup_or (record { min = pos 0; max = pos 0 }) gpu.name limits).max
          -ℤ pos (lookup_or 0 gpu.name live)))
    ⊎ ((room a.headroom gpu ≡ 0)
        × (pos_part (
              (lookup_or (record { min = pos 0; max = pos 0 }) gpu.name limits).max
              -ℤ pos (lookup_or 0 gpu.name live))
            ≤ lookup_or 0 gpu.name a.demand.by_pool))
unfolding matcher new_pool_matcher
assign_all_headroom_example = assign_all_headroom matcher jobs live limits gpu (inr (inl refl))

abbrev state : PoolState
state = record { live = 1; busy = 1; idle = 0; starting = 0 }

abbrev two : Limits
two = record { min = pos 0; max = pos 2 }

plan-IsSound_example : IsSound state 3 two (plan (codes "linux") state 3 two)
plan-IsSound_example = plan-IsSound (codes "linux") state 3 two

plan_settles_example :
    let again = plan (codes "linux") (launched state (plan (codes "linux") state 3 two)) 3 two in
    (again.create ≡ pos 0) × (again.cull ≡ pos 0) × (again.reason ≡ at_target)
unfolding plan ◌-ℤ◌
plan_settles_example = plan_settles (codes "linux") state 3 two (omega arith)

-- The linux pool is full, so the plain job spills over to the gpu pool, which is then full too.
spills :
    (assign_demand matcher jobs live limits).jobs
    ≡ (codes "linux-gpu", build_job ∷ train_job ∷ []) ∷ []
unfolding matcher assign_demand candidates select place first_fit record_job can_serve sort_stable
    new_pool_matcher insert lookup to_lower ◌-ℤ◌
spills = refl
