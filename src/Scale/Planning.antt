-- ===== src/Scale/Planning.antt =====
-- internal/orchestrator/scale.go: what `Plan` promises about one pool.
use action_runner_cluster.Prelude.{
  Text, arith, max_ℤ, min_ℤ, pos, pos_part, refl, ℕ, ◌+ℤ◌, ◌+◌, ◌-ℤ◌, ◌<ℤ◌, ◌≡◌, ◌≤ℤ◌, ◌≤◌, ◌⊎◌,
}
use action_runner_cluster.Scale.{Limits, PoolState, Decision, at_target, target, plan}

-- The target is max(min, busy + queued), held to max.
target_formula :
    (wanted : ℕ) (lim : Limits) → target wanted lim ≡ min_ℤ (max_ℤ (pos wanted) lim.min) lim.max
unfolding target
target_formula wanted lim = refl

-- What a decision promises: the formula of the target; new runners fill exactly the gap to it;
-- removals never go below it, touch idle runners only, and never come with launches.
pub record IsSound (st : PoolState) (demand : ℕ) (lim : Limits) (d : Decision) : Type 0 where
  pub formula : d.desired ≡ min_ℤ (max_ℤ (pos (st.busy + demand)) lim.min) lim.max
  pub create_nonneg : pos 0 ≤ℤ d.create
  pub cull_nonneg : pos 0 ≤ℤ d.cull
  pub fills : pos st.live <ℤ d.desired → pos st.live +ℤ d.create ≡ d.desired
  pub no_excess : d.desired ≤ℤ pos st.live → d.create ≡ pos 0
  pub keeps : pos 0 <ℤ d.cull → d.desired ≤ℤ pos st.live -ℤ d.cull
  pub idle_only : d.cull ≤ℤ pos st.idle
  pub one_way : (d.create ≡ pos 0) ⊎ (d.cull ≡ pos 0)

-- In every state and for all limits, the target is the greater of the minimum and of the busy runners
-- and the demand together, held to the maximum. Launches fill exactly the gap to the target, and
-- there are none without a gap. Removals never go below the target, are no more than the idle
-- runners, and never come with launches.
pub plan-IsSound :
    (pool : Text) (st : PoolState) (demand : ℕ) (lim : Limits)
    → IsSound st demand lim (plan pool st demand lim)
unfolding plan target ◌-ℤ◌ ◌+ℤ◌
plan-IsSound pool st demand lim = record {
  formula = ground arith;
  create_nonneg = ground arith;
  cull_nonneg = ground arith;
  fills = ground arith;
  no_excess = ground arith;
  keeps = ground arith;
  idle_only = ground arith;
  one_way = ground arith;
}

-- The pool once the launches that a decision asks for have started.
abbrev pub launched : PoolState → Decision → PoolState
launched st d = record st {
  live = st.live + pos_part d.create;
  starting = st.starting + pos_part d.create;
}

-- After the launches a second pass with the same demand neither launches nor removes: it finds the
-- pool at its target.
pub plan_settles :
    (pool : Text) (st : PoolState) (demand : ℕ) (lim : Limits)
    → let d = plan pool st demand lim in
      pos 0 <ℤ d.create
      → let again = plan pool (launched st d) demand lim in
        (again.create ≡ pos 0) × (again.cull ≡ pos 0) × (again.reason ≡ at_target)
unfolding plan target ◌-ℤ◌ ◌+ℤ◌
plan_settles pool st demand lim h = ground arith

-- Launches never take a pool past its maximum.
pub plan_cap :
    (pool : Text) (st : PoolState) (demand : ℕ) (lim : Limits)
    → pos_part (plan pool st demand lim).create ≤ pos_part (lim.max -ℤ pos st.live)
unfolding plan target ◌-ℤ◌
plan_cap pool st demand lim = ground arith
