-- ===== src/Orchestrator/Foreign.antt =====
-- internal/orchestrator/orchestrator.go: discountForeignIdle.
pub mod Cover
use action_runner_cluster.Prelude.{
  Bool, List, Option, Text, [], any, equal_fold, false, if◌then◌else◌, insert, length, lookup_or,
  map, nat_eq, none, not, or_else, select, some, text_eq, to_lower, ◌&&◌, ◌==◌, ◌||◌, ◌∷◌,
}
use action_runner_cluster.Config.{Pool}
use action_runner_cluster.Ghapi.{Job, Runner, online}
use action_runner_cluster.Names.{belongs_to_pool}
use action_runner_cluster.Scale.{Demand, contains, all_in}

-- An idle runner that this host does not control.
pub record Slot : Type 0 where
  pub labels : List Text
  pub repo : Text

-- A name that this host minted for one of its pools.
unfoldable pub is_our_debris : Text → List Pool → Text → Bool
unfolding any
is_our_debris host pools name = any (λ p. belongs_to_pool host name p.name) pools

unfoldable pub is_foreign_idle : Text → List Pool → List Text → Runner → Bool
unfolding is_our_debris online contains
is_foreign_idle host pools ours r =
    not (contains ours r.name || r.busy || not (online r) || is_our_debris host pools r.name)

slot_of : Runner → Slot
slot_of r = record { labels = map (λ l. to_lower l.name) r.labels; repo = r.repo }

unfoldable pub free_slots : Text → List Pool → List Text → List Runner → List Slot
unfolding slot_of
free_slots host pools ours runners = map slot_of (select (is_foreign_idle host pools ours) runners)

-- The runner serves the job's repository, and carries every label that the job asks for.
unfoldable pub covers : Slot → Job → Bool
unfolding all_in equal_fold
covers s j =
    if not (s.repo == []) && not (equal_fold s.repo j.repo) then false else all_in s.labels j.labels

-- The slots without the first that covers the job, if one does.
unfoldable pub take_slot : Job → List Slot → Option (List Slot)
take_slot j [] = none
take_slot j (s ∷ free) =
    if covers s j
    then some free
    else elim (take_slot j free) [ none ↦ none | some rest ↦ some (s ∷ rest) ]

remaining_job : Job → Option (List Slot) → List Job → List Job
remaining_job j none rest = j ∷ rest
remaining_job j (some free) rest = rest

-- One pool's jobs: those that no slot is left for, and the slots left.
unfoldable pub discount_jobs : List Job → List Slot → List Job × List Slot
unfolding remaining_job
discount_jobs [] free = ([], free)
discount_jobs (j ∷ js) free =
    let taken : Option (List Slot) = take_slot j free in
    let (rest, left) = discount_jobs js (or_else free taken) in (remaining_job j taken rest, left)

unfoldable pub discount_pools : List Pool → List Slot → Demand → Demand
discount_pools [] free d = d
discount_pools (p ∷ ps) free d =
    let (rest, left) = discount_jobs (lookup_or [] p.name d.jobs) free in
    discount_pools ps left (record d {
      by_pool = insert p.name (length rest) d.by_pool;
      jobs = insert p.name rest d.jobs;
    })

unfoldable pub discount_foreign_idle : Text → List Pool → List Text → List Runner → Demand → Demand
unfolding discount_pools
discount_foreign_idle host pools ours runners d = elim (free_slots host pools ours runners) [
  | [] ↦ d
  | s ∷ free ↦ discount_pools pools (s ∷ free) d
]
