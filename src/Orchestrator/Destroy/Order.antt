-- ===== src/Orchestrator/Destroy/Order.antt =====
-- internal/orchestrator/orchestrator.go: destroyInstance deregisters first, and leaves a busy runner.
use mathlib.Core.Option.{some-injective}
use action_runner_cluster.Prelude.{
  Bool-cases, List, Map, Option-cases, Text, [], ap, arith, eq_self, false, if◌then◌else◌, inl, inr,
  lookup, lookup-delete, none, refl, some, sym, text_eq, true, ◌+◌, ◌∙◌, ◌∷◌, ◌≡◌, ◌≤◌, ◌⊎◌,
}
use action_runner_cluster.Ghapi.{Runner}
use action_runner_cluster.Provider.{Instance}
use action_runner_cluster.Names.{instance_key}
use action_runner_cluster.Orchestrator.{
  Call, deregisters, destroys, Removal, removed, runner_busy, remove_failed, Env, Orchestrator, log,
  Destroyed, gone, left_busy, destroy_failed,
}
use action_runner_cluster.Orchestrator.Trace.{destructions, Adds, Adds-refl, Adds-cons, Adds-trans}
use action_runner_cluster.Orchestrator.Destroy.{destroy_local, after_removal, destroy_instance}

-- The calls once the registration, if GitHub lists one, has been asked away.
abbrev pub asked_away : Map Text Runner → Instance → List Call → List Call
asked_away by_name inst calls = elim (lookup inst.runner_name by_name) [
  | none ↦ calls
  | some r ↦ deregisters r ∷ calls
]

-- GitHub refuses to remove the instance's runner, since it runs a job.
abbrev pub IsRefused : Env → Map Text Runner → Instance → List Call → Runner → Type 0
IsRefused env by_name inst calls r =
    (lookup inst.runner_name by_name ≡ some r) × (env.remove calls r ≡ runner_busy)

-- The provider's part of a destruction, after the calls `calls`.
pub record IsDestruction (env : Env) (pool : Text) (inst : Instance) (calls : List Call)
    (r : Orchestrator × Destroyed) : Type 0 where
  pub asked : r.0.calls ≡ destroys pool inst.id ∷ calls
  pub ends : r.1 ≡ (if env.destroy calls pool inst.id then gone else destroy_failed)
  pub forgets :
      env.destroy calls pool inst.id ≡ true
      → lookup (instance_key pool inst.runner_name) r.0.idle_since ≡ none

destroy_local-IsDestruction :
    (env : Env) (pool : Text) (inst : Instance) (o : Orchestrator)
    → IsDestruction env pool inst o.calls (destroy_local env pool inst o)
unfolding destroy_local log
destroy_local-IsDestruction env pool inst o = elim (Bool-cases (env.destroy o.calls pool inst.id)) [
  | inr e ↦
      simp (e, destroy_local)
        (record {
          asked = refl;
          ends = rw e refl;
          forgets = λ t. absurd (let q : true ≡ false = sym t ∙ e in cc);
        })
  | inl e ↦
      simp (e, destroy_local)
        (record {
          asked = refl;
          ends = rw e refl;
          forgets = λ _.
              rw
                (
                  lookup-delete (instance_key pool inst.runner_name)
                      (instance_key pool inst.runner_name) o.idle_since,
                  eq_self (instance_key pool inst.runner_name),
                )
                refl;
        })
]

after_removal_lem :
    (env : Env) (pool : Text) (by_name : Map Text Runner) (inst : Instance) (r : Runner)
    (a : Removal) (calls : List Call) (o : Orchestrator)
    → lookup inst.runner_name by_name ≡ some r
    → env.remove calls r ≡ a
    → (IsRefused env by_name inst calls r × (after_removal env pool inst a o ≡ (o, left_busy)))
      ⊎ ((¬ ((q : Runner) × IsRefused env by_name inst calls q))
          × IsDestruction env pool inst o.calls (after_removal env pool inst a o))
unfolding after_removal
after_removal_lem env pool by_name inst r runner_busy calls o e f = inl ((e, f), refl)
after_removal_lem env pool by_name inst r removed calls o e f = inr (
  λ w.
      let same : r ≡ w.0 = some-injective _ _ (sym e ∙ w.1.0) in
      let q : removed ≡ runner_busy = sym f ∙ (ap (env.remove calls) same ∙ w.1.1) in cc,
  destroy_local-IsDestruction env pool inst o,
)
after_removal_lem env pool by_name inst r remove_failed calls o e f = inr (
  λ w.
      let same : r ≡ w.0 = some-injective _ _ (sym e ∙ w.1.0) in
      let q : remove_failed ≡ runner_busy = sym f ∙ (ap (env.remove calls) same ∙ w.1.1) in cc,
  destroy_local-IsDestruction env pool inst o,
)

-- Destroying an instance asks GitHub to deregister its runner first, if it is registered. If GitHub
-- answers that the runner is busy, that is all: the instance and its idle clock stay, and the result
-- is `left_busy`. Otherwise the provider is called next, whether or not the deregistration worked;
-- its answer is the result, and once the instance is gone its idle clock is gone too.
pub destroy_instance_order :
    (env : Env) (pool : Text) (by_name : Map Text Runner) (inst : Instance) (o : Orchestrator)
    → ((r : Runner) × IsRefused env by_name inst o.calls r
        × (destroy_instance env pool by_name inst o ≡ (log (deregisters r) o, left_busy)))
      ⊎ ((¬ ((r : Runner) × IsRefused env by_name inst o.calls r))
          × IsDestruction env pool inst
              (asked_away by_name inst o.calls)
              (destroy_instance env pool by_name inst o))
unfolding destroy_instance log
destroy_instance_order env pool by_name inst o =
    elim (Option-cases (lookup inst.runner_name by_name)) [
      | inl e ↦ inr (
        λ w. let q : none ≡ some w.0 = sym e ∙ w.1.0 in cc,
        simp (e, destroy_instance, asked_away) (destroy_local-IsDestruction env pool inst o),
      )
      | inr (r, e) ↦
          elim (after_removal_lem env pool by_name inst r (env.remove o.calls r) o.calls
            (log (deregisters r) o) e refl) [
              | inl (refused, same) ↦ inl (r, refused, simp (e, destroy_instance) same)
              | inr (goes, d) ↦ inr (goes, simp (e, destroy_instance, asked_away) d)
            ]
    ]

destroy_local-Adds :
    (P : Call → Type 0) (env : Env) (pool : Text) (inst : Instance) (o : Orchestrator)
    → P (destroys pool inst.id)
    → Adds P o.calls (destroy_local env pool inst o).0.calls
unfolding destroy_local log
destroy_local-Adds P env pool inst o k = elim (Bool-cases (env.destroy o.calls pool inst.id)) [
  | inl e ↦ rw e (destroys pool inst.id ∷ [], refl, (k, tt))
  | inr e ↦ rw e (destroys pool inst.id ∷ [], refl, (k, tt))
]

after_removal-Adds :
    (P : Call → Type 0) (env : Env) (pool : Text) (inst : Instance) (a : Removal) (o : Orchestrator)
    → P (destroys pool inst.id)
    → Adds P o.calls (after_removal env pool inst a o).0.calls
unfolding after_removal
after_removal-Adds P env pool inst runner_busy o k = Adds-refl P o.calls
after_removal-Adds P env pool inst removed o k = destroy_local-Adds P env pool inst o k
after_removal-Adds P env pool inst remove_failed o k = destroy_local-Adds P env pool inst o k

-- A destruction adds no calls but the deregistration of the listed runner and the destruction.
pub destroy_instance-Adds :
    (P : Call → Type 0) (env : Env) (pool : Text) (by_name : Map Text Runner) (inst : Instance)
    (o : Orchestrator)
    → ((r : Runner) → lookup inst.runner_name by_name ≡ some r → P (deregisters r))
    → P (destroys pool inst.id)
    → Adds P o.calls (destroy_instance env pool by_name inst o).0.calls
unfolding destroy_instance
destroy_instance-Adds P env pool by_name inst o d k =
    elim (Option-cases (lookup inst.runner_name by_name)) [
      | inl e ↦ rw (e, destroy_instance) (destroy_local-Adds P env pool inst o k)
      | inr (r, e) ↦
          rw (e, destroy_instance)
            (Adds-trans P o.calls (deregisters r ∷ o.calls) _
              (Adds-cons P (deregisters r) o.calls (d r e))
              (after_removal-Adds P env pool inst (env.remove o.calls r) (log (deregisters r) o) k))
    ]

-- A destruction calls the provider at most once.
pub destroy_instance-destructions :
    (env : Env) (pool : Text) (by_name : Map Text Runner) (inst : Instance) (o : Orchestrator)
    → destructions (destroy_instance env pool by_name inst o).0.calls ≤ destructions o.calls + 1
unfolding destroy_instance
destroy_instance-destructions env pool by_name inst o = ground arith
