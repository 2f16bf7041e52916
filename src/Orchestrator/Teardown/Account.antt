-- ===== src/Orchestrator/Teardown/Account.antt =====
-- internal/orchestrator/teardown.go: what the result of a teardown says.
use action_runner_cluster.Prelude.{
  Any, Bool, In, List, Map, Text, [], any_iff, arith, false, if◌then◌else◌, length, length-append,
  lookup, some, text_eq, true, ℕ, ◌+◌, ◌↔◌, ◌∷◌, ◌≡◌,
}
use action_runner_cluster.Config.{Pool}
use action_runner_cluster.Ghapi.{Runner}
use action_runner_cluster.Provider.{Instance}
use action_runner_cluster.Names.{belongs_to_pool}
use action_runner_cluster.Orchestrator.{
  deregisters, remove_failed, Destroyed, gone, left_busy, destroy_failed, Env, Orchestrator,
}
use action_runner_cluster.Orchestrator.Destroy.{destroy_instance}
use action_runner_cluster.Orchestrator.Teardown.{
  TeardownResult, spare, runs_job, is_registered, book, remove_instances, busy_names,
}

-- The instances that a result speaks of.
abbrev pub accounted : TeardownResult → ℕ
accounted res = res.destroyed + length res.busy + length res.errors

accounted-book :
    (pool : Text) (inst : Instance) (b : Bool) (d : Destroyed) (res : TeardownResult)
    → accounted (book pool inst b d res) ≡ accounted res + 1
unfolding book
accounted-book pool inst b gone res = omega arith
accounted-book pool inst b left_busy res =
    omega (arith, length-append res.busy (inst.runner_name ∷ []))
accounted-book pool inst b destroy_failed res = omega (arith, length-append res.errors (_ ∷ []))

-- Every listed instance is accounted for exactly once: as destroyed, as busy or as an error.
pub remove_instances-accounted :
    (env : Env) (pool : Text) (by_name : Map Text Runner) (insts : List Instance) (o : Orchestrator)
    (res : TeardownResult)
    → accounted (remove_instances env pool by_name insts o res).1 ≡ accounted res + length insts
unfolding remove_instances
remove_instances-accounted env pool by_name [] o res = omega arith
remove_instances-accounted env pool by_name (inst ∷ insts) o res =
    let out = destroy_instance env pool by_name inst o in
    ground (
      arith,
      accounted-book pool inst (is_registered by_name inst) out.1 res,
      length-append res.busy (inst.runner_name ∷ []),
      remove_instances-accounted env pool by_name insts (if runs_job by_name inst then o else out.0)
          (if runs_job by_name inst
            then spare inst.runner_name res
            else book pool inst (is_registered by_name inst) out.1 res),
    )

-- A registration that GitHub fails to remove, for another reason than a job, counts as deregistered
-- and is no error, if the provider then destroys the instance.
pub remove_instances_hides :
    (env : Env) (pool : Text) (by_name : Map Text Runner) (inst : Instance) (r : Runner)
    (o : Orchestrator) (res : TeardownResult)
    → lookup inst.runner_name by_name ≡ some r
    → r.busy ≡ false
    → env.remove o.calls r ≡ remove_failed
    → env.destroy (deregisters r ∷ o.calls) pool inst.id ≡ true
    → let res' = (remove_instances env pool by_name (inst ∷ []) o res).1 in
      (res'.deregistered ≡ res.deregistered + 1)
      × (res'.destroyed ≡ res.destroyed + 1)
      × (res'.errors ≡ res.errors)
unfolding remove_instances destroy_instance runs_job is_registered book
remove_instances_hides env pool by_name inst r o res found idle fails works = ground arith

-- The names that BusyRunners gives are those of the runners that GitHub lists as busy and whose
-- name belongs to one of this host's pools.
pub busy_names_iff :
    (host : Text) (pools : List Pool) (runners : List Runner) (name : Text)
    → In name (busy_names host pools runners)
      ↔ Any
          (λ r.
            (r.name ≡ name)
            × (r.busy ≡ true)
            × Any (λ p. belongs_to_pool host r.name p.name ≡ true) pools)
          runners
unfolding busy_names
busy_names_iff host pools [] name = (λ m. m, λ m. m)
busy_names_iff host pools (r ∷ rs) name = ground (
  arith,
  any_iff (λ p. belongs_to_pool host r.name p.name) pools,
  busy_names_iff host pools rs name,
)
