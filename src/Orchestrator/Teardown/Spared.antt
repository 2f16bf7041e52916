-- ===== src/Orchestrator/Teardown/Spared.antt =====
-- internal/orchestrator/teardown.go: a teardown touches no runner that is listed as busy.
use action_runner_cluster.Prelude.{
  All, All-of_In, Any, Any-of_In, Bool, Bool-cases, List, Map, Option, Text, [], arith, false,
  if◌then◌else◌, inl, inr, lookup, not, refl, some, subst, sym, text_eq, ℕ, ◌&&◌, ◌∷◌, ◌≡◌,
}
use action_runner_cluster.Config.{Pool}
use action_runner_cluster.Ghapi.{Repo, Runner}
use action_runner_cluster.Provider.{Instance}
use action_runner_cluster.Orchestrator.{
  Settings, Call, deregisters, registers, creates, destroys, Env, Orchestrator, log,
}
use action_runner_cluster.Orchestrator.Trace.{Adds, Adds-refl, Adds-cons, Adds-trans}
use action_runner_cluster.Orchestrator.Destroy.{destroy_instance}
use action_runner_cluster.Orchestrator.Destroy.Order.{destroy_instance-Adds}
use action_runner_cluster.Orchestrator.Pass.{pollable_repos}
use action_runner_cluster.Orchestrator.Teardown.{
  Holdings, TeardownResult, spare, complain_if, instances_not_listed, runs_job, is_registered, book,
  remove_instances, book_removal, is_left_over, remove_left_overs, teardown_pool, teardown_pools,
  registrations, teardown,
}

-- The calls that a teardown may make: the end of a registration that is not busy, and the end of a
-- listed instance whose runner is not listed as busy.
abbrev pub Spares : Holdings → Map Text Runner → Call → Type 0
Spares h by_name (deregisters r) = r.busy ≡ false
Spares h by_name (destroys p id) =
    (calls : List Call) × Any (λ i. (i.id ≡ id) × (runs_job by_name i ≡ false))
      (h.list_instances calls p).items
Spares h by_name (registers repo name) = ⊥
Spares h by_name (creates p name) = ⊥

not_busy :
    (by_name : Map Text Runner) (inst : Instance) (r : Runner)
    → runs_job by_name inst ≡ false
    → lookup inst.runner_name by_name ≡ some r
    → r.busy ≡ false
unfolding runs_job
not_busy by_name inst r idle found = rw (found, runs_job) at idle

remove_step-Spares :
    (P : Call → Type 0) (env : Env) (pool : Text) (by_name : Map Text Runner) (inst : Instance)
    (o : Orchestrator)
    → ((r : Runner) → r.busy ≡ false → P (deregisters r))
    → (runs_job by_name inst ≡ false → P (destroys pool inst.id))
    → Adds P o.calls
        (if runs_job by_name inst then o else (destroy_instance env pool by_name inst o).0).calls
remove_step-Spares P env pool by_name inst o d k = elim (Bool-cases (runs_job by_name inst)) [
  | inl works ↦ rw works (Adds-refl P o.calls)
  | inr idle ↦ rw idle (
      destroy_instance-Adds P env pool by_name inst o (λ r e. d r (not_busy by_name inst r idle e))
        (k idle))
]

remove_instances-Spares :
    (P : Call → Type 0) (env : Env) (pool : Text) (by_name : Map Text Runner)
    (insts : List Instance) (o : Orchestrator) (res : TeardownResult)
    → ((r : Runner) → r.busy ≡ false → P (deregisters r))
    → All (λ i. runs_job by_name i ≡ false → P (destroys pool i.id)) insts
    → Adds P o.calls (remove_instances env pool by_name insts o res).0.calls
unfolding remove_instances
remove_instances-Spares P env pool by_name [] o res d k = Adds-refl P o.calls
remove_instances-Spares P env pool by_name (inst ∷ insts) o res d k =
    let out = destroy_instance env pool by_name inst o in
    let o1 : Orchestrator = if runs_job by_name inst then o else out.0 in
    Adds-trans P o.calls o1.calls _ (remove_step-Spares P env pool by_name inst o d k.0) (
      remove_instances-Spares P env pool by_name insts o1
        (if runs_job by_name inst
          then spare inst.runner_name res
          else book pool inst (is_registered by_name inst) out.1 res)
        d k.1)

left_over_step-Spares :
    (P : Call → Type 0) (ours : Bool) (r : Runner) (o : Orchestrator)
    → (r.busy ≡ false → P (deregisters r))
    → Adds P o.calls (if ours && not r.busy then log (deregisters r) o else o).calls
unfolding log
left_over_step-Spares P ours r o d = elim (Bool-cases (ours && not r.busy)) [
  | inl e ↦ rw e (Adds-cons P (deregisters r) o.calls (d (ground arith)))
  | inr e ↦ rw e (Adds-refl P o.calls)
]

remove_left_overs-Spares :
    (P : Call → Type 0) (env : Env) (host pool : Text) (insts : List Instance)
    (listed : Map Text Runner) (o : Orchestrator) (res : TeardownResult)
    → ((r : Runner) → r.busy ≡ false → P (deregisters r))
    → Adds P o.calls (remove_left_overs env host pool insts listed o res).0.calls
unfolding remove_left_overs
remove_left_overs-Spares P env host pool insts [] o res d = Adds-refl P o.calls
remove_left_overs-Spares P env host pool insts ((name, r) ∷ rest) o res d =
    let ours : Bool = is_left_over host pool insts name in
    let o1 : Orchestrator = if ours && not r.busy then log (deregisters r) o else o in
    Adds-trans P o.calls o1.calls _ (left_over_step-Spares P ours r o (d r)) (
      remove_left_overs-Spares P env host pool insts rest o1
        (if ours
          then (if r.busy then spare name res else book_removal name (env.remove o.calls r) res)
          else res)
        d)

teardown_pool-Spares :
    (env : Env) (host : Text) (h : Holdings) (by_name : Map Text Runner) (p : Pool)
    (o : Orchestrator) (res : TeardownResult)
    → Adds (Spares h by_name) o.calls (teardown_pool env host h by_name p o res).0.calls
unfolding teardown_pool
teardown_pool-Spares env host h by_name p o res =
    let insts = h.list_instances o.calls p.name in
    let res0 = complain_if insts.failed (instances_not_listed p.name) res in
    let mid = remove_instances env p.name by_name insts.items o res0 in
    Adds-trans (Spares h by_name) o.calls mid.0.calls _
      (remove_instances-Spares (Spares h by_name) env p.name by_name insts.items o res0 (λ r e. e)
        (All-of_In _ insts.items (λ i m idle. (
          o.calls,
          Any-of_In _ i insts.items
              (λ j q.
                subst (λ k. (k.id ≡ i.id) × (runs_job by_name k ≡ false)) (sym q) (refl, idle))
              m,
        ))))
      (remove_left_overs-Spares (Spares h by_name) env host p.name insts.items by_name mid.0 mid.1
        (λ r e. e))

teardown_pools-Spares :
    (env : Env) (host : Text) (h : Holdings) (by_name : Map Text Runner) (ps : List Pool)
    (o : Orchestrator) (res : TeardownResult)
    → Adds (Spares h by_name) o.calls (teardown_pools env host h by_name ps o res).0.calls
unfolding teardown_pools
teardown_pools-Spares env host h by_name [] o res = Adds-refl _ o.calls
teardown_pools-Spares env host h by_name (p ∷ ps) o res =
    let out = teardown_pool env host h by_name p o res in
    Adds-trans (Spares h by_name) o.calls out.0.calls _
      (teardown_pool-Spares env host h by_name p o res)
      (teardown_pools-Spares env host h by_name ps out.0 out.1)

pollable_repos-calls :
    (s : Settings) (now : ℕ) (listing : Option (List Repo)) (o : Orchestrator)
    → (pollable_repos s now listing o).0.calls ≡ o.calls
unfolding pollable_repos
pollable_repos-calls s now listing o = ground arith

-- A teardown ends no registration that GitHub lists as busy and no instance whose runner it lists
-- as busy, and registers and creates nothing, whatever GitHub and the providers answer.
pub teardown-Spares :
    (env : Env) (s : Settings) (h : Holdings) (now : ℕ) (o : Orchestrator)
    → Adds
        (Spares h (registrations h (pollable_repos s now h.list_repos o).1).0)
        o.calls
        (teardown env s h now o).0.calls
unfolding teardown
teardown-Spares env s h now o =
    let start = pollable_repos s now h.list_repos o in
    let (by_name, res) = registrations h start.1 in
    subst (λ cs. Adds (Spares h by_name) cs (teardown env s h now o).0.calls)
      (pollable_repos-calls s now h.list_repos o)
      (teardown_pools-Spares env s.host h by_name s.pools start.0 res)
