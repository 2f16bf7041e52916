-- ===== src/Scale.antt =====
-- internal/orchestrator/scale.go: matching jobs to pools, assigning demand, planning one pool.
pub mod Matching
pub mod Planning
pub mod Assignment
pub mod Headroom
pub mod Placement
use action_runner_cluster.Prelude.{
  Bool, List, Map, Option, Text, [], by_key, codes, false, if◌then◌else◌, insert, leb, length,
  lookup, lookup_or, ltb_ℤ, nat_eq, none, pos, pos_part, select, some, sort_stable, text_eq,
  to_lower, true, ℕ, ℤ, ◌++◌, ◌+◌, ◌-ℤ◌, ◌-◌, ◌==◌, ◌∷◌,
}
use action_runner_cluster.Config.{Pool}
use action_runner_cluster.Ghapi.{Job}

-- A set of labels: a list in which none stands twice.
unfoldable pub contains : List Text → Text → Bool
contains [] a = false
contains (x ∷ xs) a = if x == a then true else contains xs a

add_label : Text → List Text → List Text
unfolding contains
add_label l set = if contains set l then set else l ∷ set

lowered_set : List Text → List Text
unfolding add_label
lowered_set [] = []
lowered_set (l ∷ ls) = add_label (to_lower l) (lowered_set ls)

-- The labels that a pool's runners carry, lowercased; every one carries "self-hosted".
unfoldable pub label_set : Pool → List Text
unfolding lowered_set
label_set p = add_label (codes "self-hosted") (lowered_set p.labels)

pub record PoolMatcher : Type 0 where
  pub pools : List Pool
  pub label_sets : Map Text (List Text)

build_sets : List Pool → Map Text (List Text) → Map Text (List Text)
unfolding label_set
build_sets [] sets = sets
build_sets (p ∷ ps) sets = build_sets ps (insert p.name (label_set p) sets)

unfoldable pub new_pool_matcher : List Pool → PoolMatcher
unfolding build_sets
new_pool_matcher pools = record { pools = pools; label_sets = build_sets pools [] }

unfoldable pub all_in : List Text → List Text → Bool
unfolding contains
all_in set [] = true
all_in set (want ∷ rest) = if contains set (to_lower want) then all_in set rest else false

-- A pool whose name has no label set serves nothing.
unfoldable pub can_serve : PoolMatcher → Pool → Job → Bool
unfolding all_in
can_serve m pool job = elim (lookup pool.name m.label_sets) [
  | none ↦ false
  | some set ↦ all_in set job.labels
]

-- `len(m.labelSets[p.Name])`
abbrev pub set_size : PoolMatcher → Pool → ℕ
set_size m p = length (lookup_or [] p.name m.label_sets)

unfoldable pub candidates : PoolMatcher → Job → List Pool
candidates m job = sort_stable (by_key (set_size m)) (select (λ p. can_serve m p job) m.pools)

pub record Demand : Type 0 where
  pub by_pool : Map Text ℕ
  pub jobs : Map Text (List Job)
  pub unassigned : List Job

pub record Limits : Type 0 where
  pub min : ℤ
  pub max : ℤ

-- The loop that fills `headroom`: max minus live, and no less than 0.
initial_headroom : Map Text ℕ → Map Text Limits → List Pool → Map Text ℕ → Map Text ℕ
initial_headroom live limits [] h = h
initial_headroom live limits (p ∷ ps) h = initial_headroom live limits ps (
    insert p.name
      (pos_part (
        (lookup_or (record { min = pos 0; max = pos 0 }) p.name limits).max
        -ℤ pos (lookup_or 0 p.name live)))
      h)

abbrev pub room : Map Text ℕ → Pool → ℕ
room h p = lookup_or 0 p.name h

-- The first candidate with headroom left.
unfoldable pub first_fit : Map Text ℕ → List Pool → Option Pool
first_fit h [] = none
first_fit h (p ∷ ps) = if leb (room h p) 0 then first_fit h ps else some p

-- `d.ByPool[p.Name]++` and `d.Jobs[p.Name] = append(d.Jobs[p.Name], job)`
unfoldable pub record_job : Pool → Job → Demand → Demand
record_job p job d = record d {
  by_pool = insert p.name (lookup_or 0 p.name d.by_pool + 1) d.by_pool;
  jobs = insert p.name (lookup_or [] p.name d.jobs ++ job ∷ []) d.jobs;
}

-- The variables of the assignment loop.
pub record Assigning : Type 0 where
  pub headroom : Map Text ℕ
  pub demand : Demand

take_room : Pool → Map Text ℕ → Map Text ℕ
take_room p h = insert p.name (room h p - 1) h

-- One job, given its candidates.
unfoldable pub place : Job → List Pool → Assigning → Assigning
unfolding take_room
place job [] a = record a {
  demand = record a.demand { unassigned = a.demand.unassigned ++ job ∷ [] };
}
place job (p ∷ ps) a = elim (first_fit a.headroom (p ∷ ps)) [
  | none ↦ record a { demand = record_job p job a.demand }
  | some q ↦ record { headroom = take_room q a.headroom; demand = record_job q job a.demand }
]

unfoldable pub assign_all : PoolMatcher → List Job → Assigning → Assigning
assign_all m [] a = a
assign_all m (job ∷ jobs) a = assign_all m jobs (place job (candidates m job) a)

unfoldable pub start_assigning : PoolMatcher → Map Text ℕ → Map Text Limits → Assigning
unfolding initial_headroom
start_assigning m live limits = record {
  headroom = initial_headroom live limits m.pools [];
  demand = record { by_pool = []; jobs = []; unassigned = [] };
}

unfoldable pub assign_demand : PoolMatcher → List Job → Map Text ℕ → Map Text Limits → Demand
unfolding assign_all start_assigning
assign_demand m jobs live limits = (assign_all m jobs (start_assigning m live limits)).demand

pub data Reason : Type 0 where
  scaling_up topping_up culling at_target unexplained : Reason

pub record Decision : Type 0 where
  pub pool : Text
  pub desired : ℤ
  pub create : ℤ
  pub cull : ℤ
  pub reason : Reason

pub record PoolState : Type 0 where
  pub live : ℕ
  pub busy : ℕ
  pub idle : ℕ
  pub starting : ℕ

-- `desired`, raised to the minimum and then lowered to the maximum.
unfoldable pub target : ℕ → Limits → ℤ
target wanted lim =
    let raised : ℤ = if ltb_ℤ (pos wanted) lim.min then lim.min else pos wanted in
    if ltb_ℤ lim.max raised then lim.max else raised

unfoldable pub plan : Text → PoolState → ℕ → Limits → Decision
unfolding target
plan pool st demand lim =
    let desired : ℤ = target (st.busy + demand) lim in
    if ltb_ℤ (pos st.live) desired
    then record {
      pool = pool;
      desired = desired;
      create = desired -ℤ pos st.live;
      cull = pos 0;
      reason = if demand == 0 then topping_up else scaling_up;
    }
    else if ltb_ℤ desired (pos st.live)
    then (let surplus : ℤ = pos st.live -ℤ desired in
        let cull : ℤ = if ltb_ℤ (pos st.idle) surplus then pos st.idle else surplus in
        record {
          pool = pool;
          desired = desired;
          create = pos 0;
          cull = cull;
          reason = if ltb_ℤ (pos 0) cull then culling else unexplained;
        })
    else record { pool = pool; desired = desired; create = pos 0; cull = pos 0; reason = at_target }
