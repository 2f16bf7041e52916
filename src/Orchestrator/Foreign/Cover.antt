-- ===== src/Orchestrator/Foreign/Cover.antt =====
-- internal/orchestrator/orchestrator.go: discountForeignIdle pairs jobs with idle runners.
use mathlib.Core.Option.{some-injective}
use action_runner_cluster.Prelude.{
  All, Any, Bool-cases, List, Option-cases, Text, [], ap, arith, eq_self, equal_fold, false, inl,
  inr, insert, length, lookup-insert, lookup_or, nat_eq, none, refl, some, subst, suc, sym, text_eq,
  to_lower, true, ◌+◌, ◌==◌, ◌∙◌, ◌∷◌, ◌≡◌, ◌⊎◌,
}
use action_runner_cluster.Config.{Pool}
use action_runner_cluster.Ghapi.{Job, Runner}
use action_runner_cluster.Scale.{Demand, contains, all_in}
use action_runner_cluster.Orchestrator.Foreign.{
  Slot, covers, take_slot, discount_jobs, discount_pools, discount_foreign_idle, free_slots,
}

-- What makes a runner cover a job: it is registered on no one repository or, in any case of letters,
-- on the job's, and each label of the job, lowered, is one of its labels.
abbrev pub Covers : Slot → Job → Type 0
Covers s j =
    ((s.repo ≡ []) ⊎ (equal_fold s.repo j.repo ≡ true))
    × All (λ l. Any (λ k. k ≡ to_lower l) s.labels) j.labels

contains-Any : (xs : List Text) (a : Text) → contains xs a ≡ true → Any (λ k. k ≡ a) xs
unfolding contains
contains-Any [] a e = cc
contains-Any (x ∷ xs) a e = elim (Bool-cases (x == a)) [
  | inl same ↦ inl ((text_eq.same_iff x a).0 same)
  | inr other ↦ inr (contains-Any xs a (rw other at e))
]

contains_complete : (xs : List Text) (a : Text) → Any (λ k. k ≡ a) xs → contains xs a ≡ true
unfolding contains
contains_complete [] a e = absurd e
contains_complete (x ∷ xs) a (inl e) = rw (ap (λ k. k == a) e ∙ eq_self a) refl
contains_complete (x ∷ xs) a (inr e) = ground (arith, contains_complete xs a e)

all_in-All :
    (set want : List Text) → all_in set want ≡ true → All (λ l. Any (λ k. k ≡ to_lower l) set) want
unfolding all_in
all_in-All set [] e = tt
all_in-All set (w ∷ ws) e = elim (Bool-cases (contains set (to_lower w))) [
  | inl hit ↦ (contains-Any set (to_lower w) hit, all_in-All set ws (rw hit at e))
  | inr miss ↦ absurd (let q : false ≡ true = rw miss at e in cc)
]

all_in_complete :
    (set want : List Text) → All (λ l. Any (λ k. k ≡ to_lower l) set) want → all_in set want ≡ true
unfolding all_in
all_in_complete set [] a = refl
all_in_complete set (w ∷ ws) a =
    rw (contains_complete set (to_lower w) a.0) (all_in_complete set ws a.1)

covers-Covers : (s : Slot) (j : Job) → covers s j ≡ true → Covers s j
unfolding covers
covers-Covers s j e = elim (Bool-cases (s.repo == [])) [
  | inl org ↦
      (inl ((text_eq.same_iff s.repo []).0 org), all_in-All s.labels j.labels (ground arith))
  | inr pinned ↦ elim (Bool-cases (equal_fold s.repo j.repo)) [
    | inl same ↦ (inr same, all_in-All s.labels j.labels (ground arith))
    | inr other ↦ absurd (ground arith)
  ]
]

covers_complete : (s : Slot) (j : Job) → Covers s j → covers s j ≡ true
unfolding covers
covers_complete s j (inl org, a) =
    rw (ap (λ r. r == []) org ∙ eq_self {K = Text} [], all_in_complete s.labels j.labels a) refl
covers_complete s j (inr same, a) = rw (same, all_in_complete s.labels j.labels a) (ground arith)

-- `s` stands in the first list, and the second is what is left.
pub data Takes (s : Slot) : List Slot → List Slot → Type 0 where
  first : {free : List Slot} → Takes s (s ∷ free) free
  later : {t : Slot} {free rest : List Slot} → Takes s free rest → Takes s (t ∷ free) (t ∷ rest)

-- How jobs and idle runners pair off: each job that goes takes a runner that covers it and that no
-- other job has taken; a job stays only if no runner that is left covers it.
pub data Pairs : List Job → List Slot → List Job → List Slot → Type 0 where
  done : {free : List Slot} → Pairs [] free [] free
  goes :
      {j : Job} {js rest : List Job} {s : Slot} {free after left : List Slot}
      → Takes s free after
      → Covers s j
      → Pairs js after rest left
      → Pairs (j ∷ js) free rest left
  stays :
      {j : Job} {js rest : List Job} {free left : List Slot}
      → All (λ s. ¬ Covers s j) free
      → Pairs js free rest left
      → Pairs (j ∷ js) free (j ∷ rest) left

take_slot-none :
    (j : Job) (free : List Slot) → take_slot j free ≡ none → All (λ s. ¬ Covers s j) free
unfolding take_slot
take_slot-none j [] e = tt
take_slot-none j (s ∷ free) e = elim (Bool-cases (covers s j)) [
  | inl hit ↦ absurd (ground arith)
  | inr miss ↦ elim (Option-cases (take_slot j free)) [
    | inl none_left ↦ (
      λ c. absurd (let q : true ≡ false = sym (covers_complete s j c) ∙ miss in cc),
      take_slot-none j free none_left,
    )
    | inr (rest, found) ↦ absurd (ground arith)
  ]
]

take_slot-some :
    (j : Job) (free after : List Slot)
    → take_slot j free ≡ some after
    → (s : Slot) × Takes s free after × Covers s j
unfolding take_slot
take_slot-some j [] after e = cc
take_slot-some j (s ∷ free) after e = elim (Bool-cases (covers s j)) [
  | inl hit ↦
      let same : free ≡ after = some-injective _ _ (rw hit at e) in
      (s, subst (Takes s (s ∷ free)) same first, covers-Covers s j hit)
  | inr miss ↦ elim (Option-cases (take_slot j free)) [
    | inl none_left ↦ absurd (ground arith)
    | inr (rest, found) ↦
        let (t, tk, hit) = take_slot-some j free rest found in
        (t, subst (Takes t (s ∷ free)) (some-injective _ _ (ground arith)) (later tk), hit)
  ]
]

-- Discounting one pool's jobs goes through them in order. A job goes if an idle runner covers it that
-- no earlier job has taken, and then it takes one such runner, which no later job can take; it stays
-- if no runner that is left covers it. A runner covers a job if it is registered on no one
-- repository or on the job's, and carries every label of the job, lowered. The jobs that stay and the
-- runners that are left keep their order.
pub discount_jobs-Pairs :
    (js : List Job) (free : List Slot)
    → Pairs js free (discount_jobs js free).0 (discount_jobs js free).1
unfolding discount_jobs
discount_jobs-Pairs [] free = done
discount_jobs-Pairs (j ∷ js) free = elim (Option-cases (take_slot j free)) [
  | inl e ↦ rw (e, discount_jobs) (stays (take_slot-none j free e) (discount_jobs-Pairs js free))
  | inr (after, e) ↦
      let (s, tk, hit) = take_slot-some j free after e in
      rw (e, discount_jobs) (goes tk hit (discount_jobs-Pairs js after))
]

Takes-length :
    (s : Slot) (free rest : List Slot) → Takes s free rest → length free ≡ suc (length rest)
Takes-length s free rest first = refl
Takes-length s free rest (later {free = f} {rest = r} t) = ap suc (Takes-length s f r t)

-- As many runners are taken as jobs go.
Pairs-length :
    (js : List Job) (free : List Slot) (rest : List Job) (left : List Slot)
    → Pairs js free rest left
    → length js + length left ≡ length rest + length free
Pairs-length js free rest left done = refl
Pairs-length js free rest left (goes {js = ks} {rest = r} {s = s} {after = after} tk hit p) =
    omega (arith, Takes-length s free after tk, Pairs-length ks after r left p)
Pairs-length js free rest left (stays {js = ks} {rest = r} no_cover p) =
    omega (arith, Pairs-length ks free r left p)

abbrev pub demand_of : Text → Demand → List Job
demand_of k d = lookup_or [] k d.jobs

-- The count under each of the names is the number of jobs under it.
abbrev CountedAt : Text → Demand → Type 0
CountedAt k d = lookup_or 0 k d.by_pool ≡ length (demand_of k d)

discount_pools-CountedAt :
    (k : Text) (ps : List Pool) (free : List Slot) (d : Demand)
    → CountedAt k d
    → CountedAt k (discount_pools ps free d)
unfolding discount_pools
discount_pools-CountedAt k [] free d c = c
discount_pools-CountedAt k (p ∷ ps) free d c =
    let rest = (discount_jobs (demand_of p.name d) free).0 in
    discount_pools-CountedAt k ps (discount_jobs (demand_of p.name d) free).1
      (record d {
        by_pool = insert p.name (length rest) d.by_pool;
        jobs = insert p.name rest d.jobs;
      })
      (ground (
        arith,
        c,
        lookup-insert p.name k (length rest) d.by_pool,
        lookup-insert p.name k rest d.jobs,
      ))

-- The discount leaves the count of demand equal to the number of jobs listed, for every pool name.
discount_foreign_idle-Counted :
    (host : Text) (pools : List Pool) (ours : List Text) (runners : List Runner) (d : Demand)
    (k : Text)
    → lookup_or 0 k d.by_pool ≡ length (lookup_or [] k d.jobs)
    → let d' = discount_foreign_idle host pools ours runners d in
      lookup_or 0 k d'.by_pool ≡ length (lookup_or [] k d'.jobs)
unfolding discount_foreign_idle
discount_foreign_idle-Counted host pools ours runners d k c =
    counted_slots (free_slots host pools ours runners)
  where
    counted_slots :
        (free : List Slot)
        → CountedAt k (elim free [ [] ↦ d | s ∷ rest ↦ discount_pools pools (s ∷ rest) d ])
    counted_slots [] = c
    counted_slots (s ∷ rest) = discount_pools-CountedAt k pools (s ∷ rest) d c
