-- ===== src/Scale/Assignment.antt =====
-- internal/orchestrator/scale.go: AssignDemand loses no job, and where each one goes.
use mathlib.Core.List.{append_assoc, append-nil, perm_middle, perm_append_singleton}
use mathlib.Core.List.Perm
use action_runner_cluster.Prelude.{
  Bool-cases, List, Map, Option, Option-cases, Perm, Text, [], arith, inl, inr, insert, length,
  length-append, lookup, lookup-insert, lookup_or, nat_eq, or_else, refl, some, subst, sym, text_eq,
  ℕ, ◌++◌, ◌+◌, ◌==◌, ◌∷◌, ◌≡◌,
}
use action_runner_cluster.Config.{Pool}
use action_runner_cluster.Ghapi.{Job}
use action_runner_cluster.Scale.{
  PoolMatcher, candidates, Demand, Limits, first_fit, record_job, Assigning, place, assign_all,
  start_assigning, assign_demand,
}

-- Every job that the demand holds for some pool.
abbrev pub assigned : Map Text (List Job) → List Job
assigned [] = []
assigned ((k, js) ∷ m) = js ++ assigned m

abbrev pub all_jobs : Demand → List Job
all_jobs d = assigned d.jobs ++ d.unassigned

assigned-insert :
    (k : Text) (job : Job) (m : Map Text (List Job)) (o : Option (List Job))
    → lookup k m ≡ o
    → Perm (assigned (insert k (or_else [] o ++ job ∷ []) m)) (job ∷ assigned m)
unfolding insert lookup
assigned-insert k job [] o h = rw (← h) (Perm.refl _)
assigned-insert k job ((j, w) ∷ m) o h = elim (Bool-cases (j == k)) [
  | inl hit ↦
      let found : o ≡ some w = sym (rw hit at h) in
      rw (hit, found, append_assoc w (job ∷ []) (assigned m)) (perm_middle w (assigned m))
  | inr miss ↦ rw miss (
      Perm.trans (Perm.append_left w (assigned-insert k job m o (rw miss at h)))
        (perm_middle w (assigned m)))
]

record_job-perm :
    (p : Pool) (job : Job) (d : Demand) → Perm (all_jobs (record_job p job d)) (job ∷ all_jobs d)
unfolding record_job
record_job-perm p job d =
    Perm.append_right d.unassigned (assigned-insert p.name job d.jobs (lookup p.name d.jobs) refl)

place-perm :
    (job : Job) (ps : List Pool) (a : Assigning)
    → Perm (all_jobs (place job ps a).demand) (job ∷ all_jobs a.demand)
unfolding place
place-perm job [] a =
    rw (← append_assoc (assigned a.demand.jobs) a.demand.unassigned (job ∷ []))
      (perm_append_singleton job (all_jobs a.demand))
place-perm job (p ∷ ps) a = elim (Option-cases (first_fit a.headroom (p ∷ ps))) [
  | inl e ↦ rw (e, place) (record_job-perm p job a.demand)
  | inr (q, e) ↦ rw (e, place) (record_job-perm q job a.demand)
]

assign_all-perm :
    (m : PoolMatcher) (jobs : List Job) (a : Assigning)
    → Perm (all_jobs (assign_all m jobs a).demand) (jobs ++ all_jobs a.demand)
unfolding assign_all
assign_all-perm m [] a = Perm.refl _
assign_all-perm m (job ∷ jobs) a =
    Perm.trans (assign_all-perm m jobs (place job (candidates m job) a)) (
      Perm.trans (Perm.append_left jobs (place-perm job (candidates m job) a))
        (perm_middle jobs (all_jobs a.demand)))

-- Every job of the input stands exactly once in the demand: with one pool, or unassigned.
pub assign_demand-perm :
    (m : PoolMatcher) (jobs : List Job) (live : Map Text ℕ) (limits : Map Text Limits)
    → Perm (all_jobs (assign_demand m jobs live limits)) jobs
unfolding assign_demand start_assigning
assign_demand-perm m jobs live limits =
    subst (Perm _) (append-nil jobs) (assign_all-perm m jobs (start_assigning m live limits))

abbrev Counted : Demand → Type 0
Counted d = (k : Text) → lookup_or 0 k d.by_pool ≡ length (lookup_or [] k d.jobs)

record_job-Counted : (p : Pool) (job : Job) (d : Demand) → Counted d → Counted (record_job p job d)
unfolding record_job
record_job-Counted p job d c k = ground (
  arith,
  lookup-insert p.name k (lookup_or 0 p.name d.by_pool + 1) d.by_pool,
  lookup-insert p.name k (lookup_or [] p.name d.jobs ++ job ∷ []) d.jobs,
  length-append (lookup_or [] p.name d.jobs) (job ∷ []),
  c k,
  c p.name,
)

place-Counted :
    (job : Job) (ps : List Pool) (a : Assigning)
    → Counted a.demand
    → Counted (place job ps a).demand
unfolding place
place-Counted job [] a c = c
place-Counted job (p ∷ ps) a c = elim (Option-cases (first_fit a.headroom (p ∷ ps))) [
  | inl e ↦ rw (e, place) (record_job-Counted p job a.demand c)
  | inr (q, e) ↦ rw (e, place) (record_job-Counted q job a.demand c)
]

assign_all-Counted :
    (m : PoolMatcher) (jobs : List Job) (a : Assigning)
    → Counted a.demand
    → Counted (assign_all m jobs a).demand
unfolding assign_all
assign_all-Counted m [] a c = c
assign_all-Counted m (job ∷ jobs) a c =
    assign_all-Counted m jobs (place job (candidates m job) a)
      (place-Counted job (candidates m job) a c)

-- For every pool name the count of demand is the number of jobs listed under it.
assign_demand-Counted :
    (m : PoolMatcher) (jobs : List Job) (live : Map Text ℕ) (limits : Map Text Limits) (k : Text)
    → let d = assign_demand m jobs live limits in
      lookup_or 0 k d.by_pool ≡ length (lookup_or [] k d.jobs)
unfolding assign_demand start_assigning
assign_demand-Counted m jobs live limits =
    assign_all-Counted m jobs (start_assigning m live limits) (unfold lookup in λ k. refl)
