-- ===== src/Orchestrator/Cull.antt =====
-- internal/orchestrator/orchestrator.go: scaleDown.
pub mod Eligible
pub mod Limits
use action_runner_cluster.Prelude.{
  Bool, List, Map, Option, Text, [], delete, false, if◌then◌else◌, insert, lookup, ltb_ℤ, none, not,
  pos, some, sort_stable, take, text_eq, true, ℕ, ℤ, ◌-ℤ◌, ◌∷◌,
}
use action_runner_cluster.Config.{Pool}
use action_runner_cluster.Ghapi.{Runner, online}
use action_runner_cluster.Provider.{Instance}
use action_runner_cluster.Names.{instance_key}
use action_runner_cluster.Orchestrator.{Env, Orchestrator}
use action_runner_cluster.Orchestrator.Destroy.{destroy_instance}

-- Registered, connected and without a job.
unfoldable pub is_idle : Map Text Runner → Instance → Bool
unfolding online
is_idle by_name inst = elim (lookup inst.runner_name by_name) [
  | none ↦ false
  | some r ↦ if r.busy then false else online r
]

-- The instance's idle clock: started when it is first seen idle, forgotten when it is not idle.
unfoldable pub tick_clock : ℕ → Text → Bool → Map Text ℕ → Map Text ℕ
tick_clock now key false since = delete key since
tick_clock now key true since = elim (lookup key since) [
  | none ↦ insert key now since
  | some t ↦ since
]

-- How long the clock has run, if it ran before this pass and has reached the timeout.
unfoldable pub ripe : ℕ → ℤ → Text → Bool → Map Text ℕ → Option ℤ
ripe now timeout key false since = none
ripe now timeout key true since = elim (lookup key since) [
  | none ↦ none
  | some t ↦ if ltb_ℤ (pos now -ℤ pos t) timeout then none else some (pos now -ℤ pos t)
]

pub record Candidate : Type 0 where
  pub inst : Instance
  pub idle : ℤ

unfoldable pub add_ripe : Instance → Option ℤ → List Candidate → List Candidate
add_ripe inst none rest = rest
add_ripe inst (some d) rest = record { inst = inst; idle = d } ∷ rest

-- The loop under the lock: the clocks after it, and the instances that may go.
unfoldable pub check_idle :
    ℕ → Pool → Map Text Runner → List Instance → Map Text ℕ → Map Text ℕ × List Candidate
unfolding tick_clock add_ripe
check_idle now pool by_name [] since = (since, [])
check_idle now pool by_name (inst ∷ insts) since =
    let key : Text = instance_key pool.name inst.runner_name in
    let idle : Bool = is_idle by_name inst in
    let (after, rest) = check_idle now pool by_name insts (tick_clock now key idle since) in
    (after, add_ripe inst (ripe now pool.idle_timeout key idle since) rest)

abbrev pub longer_idle : Candidate → Candidate → Bool
longer_idle a b = not (ltb_ℤ a.idle b.idle)

unfoldable pub cull_all :
    Env → Pool → Map Text Runner → List Candidate → Orchestrator → Orchestrator
cull_all env pool by_name [] o = o
cull_all env pool by_name (c ∷ cs) o =
    cull_all env pool by_name cs (destroy_instance env pool.name by_name c.inst o).0

-- `sort.Slice` leaves the order of equals open; here they keep theirs.
unfoldable pub scale_down :
    Env → ℕ → Pool → List Instance → Map Text Runner → ℕ → Orchestrator → Orchestrator
unfolding cull_all
scale_down env now pool live by_name n o =
    let (since, eligible) = check_idle now pool by_name live o.idle_since in
    cull_all env pool by_name (take n (sort_stable longer_idle eligible))
      (record o { idle_since = since })
