-- ===== src/Orchestrator/Reap/Calls.antt =====
-- internal/orchestrator/orchestrator.go: what `reap` keeps, and what it may remove.
use action_runner_cluster.Prelude.{
  All, All-of_In, Any, Any-of_In, Bool, Bool-cases, List, Map, Text, [], any, ap, arith, eq_self,
  false, if◌then◌else◌, inl, inr, lookup, ltb_ℤ, nat_eq, not, refl, select, some, subst, sym,
  text_eq, true, ℕ, ◌==◌, ◌||◌, ◌∙◌, ◌∷◌, ◌≡◌, ◌≢◌, ◌⊎◌,
}
use action_runner_cluster.Config.{Pool}
use action_runner_cluster.Ghapi.{Runner}
use action_runner_cluster.Provider.{starting, running, exited, unknown, Instance, age}
use action_runner_cluster.Names.{belongs_to_pool}
use action_runner_cluster.Orchestrator.{
  Call, deregisters, registers, creates, destroys, Env, Orchestrator, log,
}
use action_runner_cluster.Orchestrator.Destroy.{destroy_instance}
use action_runner_cluster.Orchestrator.Trace.{Adds, Adds-refl, Adds-cons, Adds-trans}
use action_runner_cluster.Orchestrator.Destroy.Order.{destroy_instance-Adds}
use action_runner_cluster.Orchestrator.Reap.{
  is_finished, is_over, reap_instances, is_orphan, reap_orphans, reap,
}

reap_instances-live :
    (env : Env) (now : ℕ) (pool : Pool) (by_name : Map Text Runner) (insts : List Instance)
    (o : Orchestrator)
    → (reap_instances env now pool by_name insts o).1 ≡ select (λ i. not (is_over now pool i)) insts
unfolding reap_instances select
reap_instances-live env now pool by_name [] o = refl
reap_instances-live env now pool by_name (inst ∷ insts) o =
    let o1 : Orchestrator =
      if is_over now pool inst then (destroy_instance env pool.name by_name inst o).0 else o in
    ground (arith, reap_instances-live env now pool by_name insts o1)

-- The instance has ended, or nobody knows of it, or it is older than the pool's job timeout.
abbrev pub IsOver : ℕ → Pool → Instance → Type 0
IsOver now pool i =
    (i.state ≡ exited) ⊎ ((i.state ≡ unknown) ⊎ (ltb_ℤ pool.job_timeout (age now i) ≡ true))

pub is_over-IsOver :
    (now : ℕ) (pool : Pool) (i : Instance)
    → (is_over now pool i ≡ true → IsOver now pool i)
      × (IsOver now pool i → is_over now pool i ≡ true)
unfolding is_over
is_over-IsOver now pool i =
    elim i.state
      as (λ st.
        (is_finished st || ltb_ℤ pool.job_timeout (age now i) ≡ true
          → (st ≡ exited) ⊎ ((st ≡ unknown) ⊎ (ltb_ℤ pool.job_timeout (age now i) ≡ true)))
        × ((st ≡ exited) ⊎ ((st ≡ unknown) ⊎ (ltb_ℤ pool.job_timeout (age now i) ≡ true))
            → is_finished st || ltb_ℤ pool.job_timeout (age now i) ≡ true)) [
              | exited ↦ (λ e. inl refl, λ o. refl)
              | unknown ↦ (λ e. inr (inl refl), λ o. refl)
              | starting ↦ (
                λ e. inr (inr e),
                λ o. elim o [ inl e ↦ cc | inr q ↦ elim q [ inl e ↦ cc | inr e ↦ e ] ],
              )
              | running ↦ (
                λ e. inr (inr e),
                λ o. elim o [ inl e ↦ cc | inr q ↦ elim q [ inl e ↦ cc | inr e ↦ e ] ],
              )
            ]

-- A registration that this host minted for the pool, with no instance of its name, and no job on it.
abbrev pub IsOrphan : Text → Pool → List Instance → Text → Runner → Type 0
IsOrphan host pool insts name r =
    (belongs_to_pool host name pool.name ≡ true)
    × All (λ i. i.runner_name ≢ name) insts
    × (r.busy ≡ false)

none_named :
    (name : Text) (insts : List Instance)
    → any (λ i. i.runner_name == name) insts ≡ false
    → All (λ i. i.runner_name ≢ name) insts
unfolding any
none_named name [] e = tt
none_named name (i ∷ insts) e = elim (Bool-cases (i.runner_name == name)) [
  | inl hit ↦ absurd (let q : true ≡ false = rw hit at e in cc)
  | inr miss ↦ (
    λ q. let w : true ≡ false = sym (ap (λ n. n == name) q ∙ eq_self name) ∙ miss in cc,
    none_named name insts (rw miss at e),
  )
]

is_orphan-IsOrphan :
    (host : Text) (pool : Pool) (insts : List Instance) (name : Text) (r : Runner)
    → is_orphan host pool insts name r ≡ true
    → IsOrphan host pool insts name r
unfolding is_orphan
is_orphan-IsOrphan host pool insts name r e =
    elim (Bool-cases (any (λ i. i.runner_name == name) insts)) [
      | inl named ↦ absurd (ground arith)
      | inr free ↦ (ground arith, none_named name insts free, ground arith)
    ]

-- The calls that reaping a pool may make: for an instance that is over, the end of the instance and
-- of its registration; otherwise the end of an orphan of this host and pool that runs no job.
abbrev pub Reaps : Text → ℕ → Pool → List Instance → Map Text Runner → Call → Type 0
Reaps host now pool insts by_name (deregisters r) =
    Any (λ i. IsOver now pool i × (lookup i.runner_name by_name ≡ some r)) insts
    ⊎ Any (λ kv. (kv.1 ≡ r) × IsOrphan host pool insts kv.0 r) by_name
Reaps host now pool insts by_name (destroys p id) =
    (p ≡ pool.name) × Any (λ i. IsOver now pool i × (i.id ≡ id)) insts
Reaps host now pool insts by_name (registers repo name) = ⊥
Reaps host now pool insts by_name (creates p name) = ⊥

reap_step-Adds :
    (P : Call → Type 0) (env : Env) (now : ℕ) (pool : Pool) (by_name : Map Text Runner)
    (inst : Instance) (o : Orchestrator)
    → (is_over now pool inst ≡ true
        → (r : Runner) → lookup inst.runner_name by_name ≡ some r
        → P (deregisters r))
    → (is_over now pool inst ≡ true → P (destroys pool.name inst.id))
    → Adds P o.calls
        (if is_over now pool inst
          then (destroy_instance env pool.name by_name inst o).0
          else o).calls
reap_step-Adds P env now pool by_name inst o d k = elim (Bool-cases (is_over now pool inst)) [
  | inl e ↦ rw e (destroy_instance-Adds P env pool.name by_name inst o (d e) (k e))
  | inr e ↦ rw e (Adds-refl P o.calls)
]

reap_instances-Adds :
    (P : Call → Type 0) (env : Env) (now : ℕ) (pool : Pool) (by_name : Map Text Runner)
    (insts : List Instance) (o : Orchestrator)
    → All
        (λ i.
          is_over now pool i ≡ true
          → ((r : Runner) → lookup i.runner_name by_name ≡ some r → P (deregisters r))
            × P (destroys pool.name i.id))
        insts
    → Adds P o.calls (reap_instances env now pool by_name insts o).0.calls
unfolding reap_instances
reap_instances-Adds P env now pool by_name [] o h = Adds-refl P o.calls
reap_instances-Adds P env now pool by_name (inst ∷ insts) o h =
    let o1 : Orchestrator =
      if is_over now pool inst then (destroy_instance env pool.name by_name inst o).0 else o in
    Adds-trans P o.calls o1.calls _
      (reap_step-Adds P env now pool by_name inst o (λ e. (h.0 e).0) (λ e. (h.0 e).1))
      (reap_instances-Adds P env now pool by_name insts o1 h.1)

orphan_step-Adds :
    (P : Call → Type 0) (r : Runner) (b : Bool) (o : Orchestrator)
    → (b ≡ true → P (deregisters r))
    → Adds P o.calls (if b then log (deregisters r) o else o).calls
unfolding log
orphan_step-Adds P r true o h = Adds-cons P (deregisters r) o.calls (h refl)
orphan_step-Adds P r false o h = Adds-refl P o.calls

reap_orphans-Adds :
    (P : Call → Type 0) (env : Env) (host : Text) (pool : Pool) (insts : List Instance)
    (listed : Map Text Runner) (o : Orchestrator)
    → All (λ kv. is_orphan host pool insts kv.0 kv.1 ≡ true → P (deregisters kv.1)) listed
    → Adds P o.calls (reap_orphans env host pool insts listed o).calls
unfolding reap_orphans
reap_orphans-Adds P env host pool insts [] o h = Adds-refl P o.calls
reap_orphans-Adds P env host pool insts ((name, r) ∷ rest) o h =
    let o1 : Orchestrator = if is_orphan host pool insts name r then log (deregisters r) o else o in
    Adds-trans P o.calls o1.calls _ (orphan_step-Adds P r (is_orphan host pool insts name r) o h.0)
      (reap_orphans-Adds P env host pool insts rest o1 h.1)

-- An instance is over if it has exited, or its state is unknown, or it is older than the pool's job
-- timeout. Reaping keeps exactly the instances that are not over, in order, and of GitHub and the provider
-- it asks only for the end of those that are over, each with its registration, and of orphans:
-- registrations of this host and pool with no instance of that name and no job.
pub reap_lem :
    (env : Env) (host : Text) (now : ℕ) (pool : Pool) (insts : List Instance)
    (by_name : Map Text Runner) (o : Orchestrator)
    → ((reap env host now pool insts by_name o).1 ≡ select (λ i. not (is_over now pool i)) insts)
      × ((i : Instance)
          → (is_over now pool i ≡ true → IsOver now pool i)
            × (IsOver now pool i → is_over now pool i ≡ true))
      × Adds
          (Reaps host now pool insts by_name)
          o.calls
          (reap env host now pool insts by_name o).0.calls
unfolding reap
reap_lem env host now pool insts by_name o = (
  reap_instances-live env now pool by_name insts o,
  is_over-IsOver now pool,
  Adds-trans _ o.calls (reap_instances env now pool by_name insts o).0.calls _
      (reap_instances-Adds _ env now pool by_name insts o (
        All-of_In _ insts (λ i m e. (
          λ r l. inl (
              Any-of_In _ i insts
                (λ j q.
                  subst (λ k. IsOver now pool k × (lookup k.runner_name by_name ≡ some r)) (sym q)
                    ((is_over-IsOver now pool i).0 e, l))
                m),
          (
            refl,
            Any-of_In _ i insts
                (λ j q.
                  subst (λ k. IsOver now pool k × (k.id ≡ i.id)) (sym q)
                    ((is_over-IsOver now pool i).0 e, refl))
                m,
          ),
        ))))
      (reap_orphans-Adds _ env host pool insts by_name _ (
        All-of_In _ by_name (λ kv m e. inr (
          Any-of_In _ kv by_name
            (λ q p.
              subst (λ w. (w.1 ≡ kv.1) × IsOrphan host pool insts w.0 kv.1) (sym p)
                (refl, is_orphan-IsOrphan host pool insts kv.0 kv.1 e))
            m)))),
)
