-- ===== src/Scale/Placement.antt =====
-- internal/orchestrator/scale.go: AssignDemand gives a job only to a pool that can serve it.
use mathlib.Core.List.Perm
use action_runner_cluster.Prelude.{
  All, All-append, Any, Any-of_In, Bool-cases, In, List, Map, Option, Option-cases, Perm, Text, [],
  ap, arith, by_key, false, inl, inr, insert, leb, lookup, lookup_or, nat_eq, or_else, refl, select,
  some, sort_stable-All, sort_stable-perm, subst, sym, text_beq_iff, text_eq, true, ℕ, ◌++◌, ◌==◌,
  ◌∷◌, ◌≡◌,
}
use action_runner_cluster.Config.{Pool}
use action_runner_cluster.Ghapi.{Job}
use action_runner_cluster.Scale.{
  PoolMatcher, can_serve, set_size, candidates, Demand, Limits, first_fit, record_job, Assigning,
  place, assign_all, start_assigning, assign_demand,
}

-- Some pool of that name can serve the job.
abbrev pub ServedBy : PoolMatcher → Text → Job → Type 0
ServedBy m k job = Any (λ p. (p.name ≡ k) × (can_serve m p job ≡ true)) m.pools

-- No pool can.
abbrev pub Unservable : PoolMatcher → Job → Type 0
Unservable m job = All (λ p. can_serve m p job ≡ false) m.pools

abbrev pub IsPlaced : PoolMatcher → Demand → Type 0
IsPlaced m d = All (λ kv. All (ServedBy m kv.0) kv.1) d.jobs × All (Unservable m) d.unassigned

select-served :
    (m : PoolMatcher) (job : Job) (ps : List Pool)
    → ((p : Pool) → In p ps → In p m.pools)
    → All (λ p. ServedBy m p.name job) (select (λ p. can_serve m p job) ps)
unfolding select
select-served m job [] f = tt
select-served m job (p ∷ ps) f =
    let rest = select-served m job ps (λ q i. f q (inr i)) in
    elim (Bool-cases (can_serve m p job)) [
      | inl h ↦ rw h (
        Any-of_In _ p m.pools
            (λ q e. (ap (λ r. r.name) e, subst (λ r. can_serve m r job ≡ true) (sym e) h))
            (f p (inl refl)),
        rest,
      )
      | inr h ↦ rw h rest
    ]

candidates-served :
    (m : PoolMatcher) (job : Job) → All (λ p. ServedBy m p.name job) (candidates m job)
unfolding candidates
candidates-served m job =
    sort_stable-All (by_key (set_size m)) (λ p. ServedBy m p.name job) _
      (select-served m job m.pools (λ p i. i))

select-none :
    (m : PoolMatcher) (job : Job) (ps : List Pool)
    → select (λ p. can_serve m p job) ps ≡ []
    → All (λ p. can_serve m p job ≡ false) ps
unfolding select
select-none m job [] e = tt
select-none m job (p ∷ ps) e = ground (arith, select-none m job ps)

candidates-none : (m : PoolMatcher) (job : Job) → candidates m job ≡ [] → Unservable m job
unfolding candidates
candidates-none m job e =
    select-none m job m.pools (Perm.eq-nil (subst (Perm _) e (sort_stable-perm _ _)))

first_fit-All :
    (P : Pool → Type 0) (h : Map Text ℕ) (ps : List Pool) (q : Pool)
    → All P ps
    → first_fit h ps ≡ some q
    → P q
unfolding first_fit
first_fit-All P h [] q a e = cc
first_fit-All P h (p ∷ ps) q a e = elim (Bool-cases (leb (lookup_or 0 p.name h) 0)) [
  | inl t ↦ first_fit-All P h ps q a.1 (rw t at e)
  | inr f ↦ subst P (ground arith) a.0
]

insert-IsPlaced :
    (m : PoolMatcher) (k : Text) (job : Job) (js : Map Text (List Job)) (o : Option (List Job))
    → lookup k js ≡ o
    → ServedBy m k job
    → All (λ kv. All (ServedBy m kv.0) kv.1) js
    → All (λ kv. All (ServedBy m kv.0) kv.1) (insert k (or_else [] o ++ job ∷ []) js)
unfolding insert lookup
insert-IsPlaced m k job [] o h s a = rw (← h) ((s, tt), tt)
insert-IsPlaced m k job ((j, w) ∷ js) o h s a = elim (Bool-cases (j == k)) [
  | inl hit ↦
      let found : o ≡ some w = sym (rw hit at h) in
      let same : j ≡ k = (text_beq_iff j k).0 hit in
      rw (hit, found)
        (
          All-append (ServedBy m k) w (job ∷ []) (subst (λ i. All (ServedBy m i) w) same a.0)
              (s, tt),
          a.1,
        )
  | inr miss ↦ rw miss (a.0, insert-IsPlaced m k job js o (rw miss at h) s a.1)
]

record_job-IsPlaced :
    (m : PoolMatcher) (p : Pool) (job : Job) (d : Demand)
    → ServedBy m p.name job
    → IsPlaced m d
    → IsPlaced m (record_job p job d)
unfolding record_job
record_job-IsPlaced m p job d s a =
    (insert-IsPlaced m p.name job d.jobs (lookup p.name d.jobs) refl s a.0, a.1)

place-IsPlaced :
    (m : PoolMatcher) (job : Job) (ps : List Pool) (a : Assigning)
    → All (λ p. ServedBy m p.name job) ps
    → (ps ≡ [] → Unservable m job)
    → IsPlaced m a.demand
    → IsPlaced m (place job ps a).demand
unfolding place
place-IsPlaced m job [] a s n i =
    (i.0, All-append (Unservable m) a.demand.unassigned (job ∷ []) i.1 (n refl, tt))
place-IsPlaced m job (p ∷ ps) a s n i = elim (Option-cases (first_fit a.headroom (p ∷ ps))) [
  | inl e ↦ rw (e, place) (record_job-IsPlaced m p job a.demand s.0 i)
  | inr (q, e) ↦
      rw (e, place)
        (record_job-IsPlaced m q job a.demand
          (first_fit-All (λ r. ServedBy m r.name job) a.headroom (p ∷ ps) q s e) i)
]

assign_all-IsPlaced :
    (m : PoolMatcher) (jobs : List Job) (a : Assigning)
    → IsPlaced m a.demand
    → IsPlaced m (assign_all m jobs a).demand
unfolding assign_all
assign_all-IsPlaced m [] a i = i
assign_all-IsPlaced m (job ∷ jobs) a i =
    assign_all-IsPlaced m jobs (place job (candidates m job) a) (
      place-IsPlaced m job (candidates m job) a (candidates-served m job) (candidates-none m job) i)

-- A job listed under a pool's name can be served by a pool of that name, and a job is left
-- unassigned only if no pool can serve it.
pub assign_demand-IsPlaced :
    (m : PoolMatcher) (jobs : List Job) (live : Map Text ℕ) (limits : Map Text Limits)
    → IsPlaced m (assign_demand m jobs live limits)
unfolding assign_demand start_assigning
assign_demand-IsPlaced m jobs live limits =
    assign_all-IsPlaced m jobs (start_assigning m live limits) (tt, tt)
