-- ===== src/Scale/Matching.antt =====
-- internal/orchestrator/scale.go: CanServe decides label inclusion, and Candidates sorts by fit.
use action_runner_cluster.Prelude.{
  All, All-map, Any, In, IsSorted, List, Map, Perm, Text, [], arith, by_key, codes, eq_self, inl,
  inr, insert, lookup, lookup-insert, refl, select, select-All, some, sort_by_key-IsSorted,
  sort_stable-All, sort_stable-perm, subst, text_beq_iff, text_eq, to_lower, true, ◌↔◌, ◌∙◌, ◌∷◌,
  ◌≡◌, ◌≢◌, ◌⊎◌,
}
use action_runner_cluster.Config.{Pool}
use action_runner_cluster.Ghapi.{Job}
use action_runner_cluster.Scale.{
  contains, add_label, lowered_set, label_set, PoolMatcher, build_sets, new_pool_matcher, all_in,
  can_serve, set_size, candidates,
}

-- Go's `set[w]` after the constructor: the pool lists the label in some case, or it is implicit.
abbrev pub Carries : Pool → Text → Type 0
Carries p w = (codes "self-hosted" ≡ w) ⊎ Any (λ l. to_lower l ≡ w) p.labels

contains-add_label :
    (l w : Text) (set : List Text)
    → (contains (add_label l set) w ≡ true) ↔ ((l ≡ w) ⊎ (contains set w ≡ true))
unfolding contains add_label
contains-add_label l w set = ground (arith, text_beq_iff l w)

contains-lowered_set :
    (w : Text) (ls : List Text)
    → (contains (lowered_set ls) w ≡ true) ↔ Any (λ l. to_lower l ≡ w) ls
unfolding lowered_set contains
contains-lowered_set w [] = ground arith
contains-lowered_set w (l ∷ ls) =
    ground (arith, contains-add_label (to_lower l) w (lowered_set ls), contains-lowered_set w ls)

contains-label_set : (p : Pool) (w : Text) → (contains (label_set p) w ≡ true) ↔ Carries p w
unfolding label_set
contains-label_set p w = ground (
  arith,
  contains-add_label (codes "self-hosted") w (lowered_set p.labels),
  contains-lowered_set w p.labels,
)

all_in_iff :
    (set ls : List Text) → (all_in set ls ≡ true) ↔ All (λ l. contains set (to_lower l) ≡ true) ls
unfolding all_in
all_in_iff set [] = (λ _. tt, λ _. refl)
all_in_iff set (l ∷ ls) = ground (arith, all_in_iff set ls)

all_in-Carries :
    (p : Pool) (ls : List Text)
    → (all_in (label_set p) ls ≡ true) ↔ All (λ l. Carries p (to_lower l)) ls
all_in-Carries p ls = (
  λ h.
      All-map _ _ ls (λ l. (contains-label_set p (to_lower l)).0)
        ((all_in_iff (label_set p) ls).0 h),
  λ h.
      (all_in_iff (label_set p) ls).1
        (All-map _ _ ls (λ l. (contains-label_set p (to_lower l)).1) h),
)

-- No two pools share a name: the configuration's validation sees to it.
abbrev pub DistinctNames : List Pool → Type 0
DistinctNames [] = Unit
DistinctNames (p ∷ ps) = All (λ q. q.name ≢ p.name) ps × DistinctNames ps

build_sets_other :
    (name : Text) (ps : List Pool) (sets : Map Text (List Text))
    → All (λ q. q.name ≢ name) ps
    → lookup name (build_sets ps sets) ≡ lookup name sets
unfolding build_sets
build_sets_other name [] sets h = refl
build_sets_other name (p ∷ ps) sets h = ground (
  arith,
  build_sets_other name ps (insert p.name (label_set p) sets) h.1,
  lookup-insert p.name name (label_set p) sets,
  text_beq_iff p.name name,
)

lookup-build_sets :
    (p : Pool) (ps : List Pool) (sets : Map Text (List Text))
    → DistinctNames ps
    → In p ps
    → lookup p.name (build_sets ps sets) ≡ some (label_set p)
unfolding build_sets
lookup-build_sets p [] sets d m = absurd m
lookup-build_sets p (q ∷ ps) sets d (inl e) =
    subst
      (λ r. lookup r.name (build_sets ps (insert q.name (label_set q) sets)) ≡ some (label_set r)) e
      (build_sets_other q.name ps (insert q.name (label_set q) sets) d.0
        ∙ rw (lookup-insert q.name q.name (label_set q) sets, eq_self q.name))
lookup-build_sets p (q ∷ ps) sets d (inr m) =
    lookup-build_sets p ps (insert q.name (label_set q) sets) d.1 m

-- A pool of the matcher can serve a job exactly when it carries every label that the job asks
-- for, in any case; the pools' names are distinct.
pub can_serve_iff :
    (pools : List Pool) (p : Pool) (job : Job)
    → DistinctNames pools
    → In p pools
    → (can_serve (new_pool_matcher pools) p job ≡ true)
      ↔ All (λ l. Carries p (to_lower l)) job.labels
unfolding can_serve new_pool_matcher
can_serve_iff pools p job d m =
    rw (lookup-build_sets p pools [] d m, can_serve) (all_in-Carries p job.labels)

-- The candidates are the pools that can serve the job, each as often as it is configured, and
-- each has no more labels than those that follow it.
candidates_lem :
    (m : PoolMatcher) (job : Job)
    → Perm (select (λ p. can_serve m p job) m.pools) (candidates m job)
      × IsSorted (by_key (set_size m)) (candidates m job)
      × All (λ p. can_serve m p job ≡ true) (candidates m job)
unfolding candidates
candidates_lem m job =
    let able = select (λ p. can_serve m p job) m.pools in
    (
      sort_stable-perm _ able,
      sort_by_key-IsSorted (set_size m) able,
      sort_stable-All (by_key (set_size m)) (λ p. can_serve m p job ≡ true) able
          (select-All (λ p. can_serve m p job) m.pools),
    )
