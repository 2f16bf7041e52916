-- ===== src/Scale/Headroom.antt =====
-- internal/orchestrator/scale.go: AssignDemand spends each pool's headroom before it overflows.
use native.Mathlib.Nat.{zero-add}
use action_runner_cluster.Prelude.{
  All, In, List, Map, Option-cases, Text, [], arith, eq_self, inl, inr, insert, lookup,
  lookup-insert, lookup_or, map, none, pos, pos_part, some, subst, text_beq_iff, text_eq, ℕ, ◌+◌,
  ◌-ℤ◌, ◌-◌, ◌<◌, ◌∷◌, ◌≡◌, ◌≤◌, ◌⊎◌,
}
use action_runner_cluster.Config.{Pool}
use action_runner_cluster.Ghapi.{Job}
use action_runner_cluster.Scale.{
  PoolMatcher, candidates, Limits, initial_headroom, room, first_fit, record_job, Assigning,
  take_room, place, assign_all, start_assigning,
}

-- The pool's name `k` had headroom `h`: what is placed and what is left make it up, and more is
-- placed only when nothing is left.
abbrev Ledger : Text → ℕ → Assigning → Type 0
Ledger k h a =
    (lookup_or 0 k a.demand.by_pool + lookup_or 0 k a.headroom ≡ h)
    ⊎ ((lookup_or 0 k a.headroom ≡ 0) × (h ≤ lookup_or 0 k a.demand.by_pool))

-- A pool is chosen only where it has room.
first_fit-room :
    (h : Map Text ℕ) (ps : List Pool) (q : Pool) → first_fit h ps ≡ some q → 0 < room h q
unfolding first_fit
first_fit-room h [] q e = cc
first_fit-room h (p ∷ ps) q e = ground (arith, first_fit-room h ps q)

-- No pool is chosen only where none has room.
first_fit-none :
    (h : Map Text ℕ) (ps : List Pool) → first_fit h ps ≡ none → All (λ p. room h p ≡ 0) ps
unfolding first_fit
first_fit-none h [] e = tt
first_fit-none h (p ∷ ps) e = ground (arith, first_fit-none h ps)

place_fits :
    (k : Text) (h : ℕ) (job : Job) (q : Pool) (a : Assigning)
    → 0 < room a.headroom q
    → Ledger k h a
    → Ledger k h (record { headroom = take_room q a.headroom; demand = record_job q job a.demand })
unfolding record_job take_room
place_fits k h job q a r l = ground (
  arith,
  lookup-insert q.name k (room a.headroom q - 1) a.headroom,
  lookup-insert q.name k (lookup_or 0 q.name a.demand.by_pool + 1) a.demand.by_pool,
  text_beq_iff q.name k,
)

place_overflows :
    (k : Text) (h : ℕ) (job : Job) (p : Pool) (a : Assigning)
    → room a.headroom p ≡ 0
    → Ledger k h a
    → Ledger k h (record a { demand = record_job p job a.demand })
unfolding record_job
place_overflows k h job p a r l = ground (
  arith,
  lookup-insert p.name k (lookup_or 0 p.name a.demand.by_pool + 1) a.demand.by_pool,
  text_beq_iff p.name k,
)

place-Ledger :
    (k : Text) (h : ℕ) (job : Job) (ps : List Pool) (a : Assigning)
    → Ledger k h a
    → Ledger k h (place job ps a)
unfolding place
place-Ledger k h job [] a l = l
place-Ledger k h job (p ∷ ps) a l = elim (Option-cases (first_fit a.headroom (p ∷ ps))) [
  | inl e ↦ rw (e, place) (place_overflows k h job p a (first_fit-none a.headroom (p ∷ ps) e).0 l)
  | inr (q, e) ↦ rw (e, place) (place_fits k h job q a (first_fit-room a.headroom (p ∷ ps) q e) l)
]

assign_all-Ledger :
    (k : Text) (h : ℕ) (m : PoolMatcher) (jobs : List Job) (a : Assigning)
    → Ledger k h a
    → Ledger k h (assign_all m jobs a)
unfolding assign_all
assign_all-Ledger k h m [] a l = l
assign_all-Ledger k h m (job ∷ jobs) a l =
    assign_all-Ledger k h m jobs (place job (candidates m job) a)
      (place-Ledger k h job (candidates m job) a l)

-- The headroom that a pool starts with: max minus live, and no less than 0.
abbrev pub headroom_of : Map Text ℕ → Map Text Limits → Text → ℕ
headroom_of live limits k =
    pos_part
      ((lookup_or (record { min = pos 0; max = pos 0 }) k limits).max -ℤ pos (lookup_or 0 k live))

initial_step :
    (live : Map Text ℕ) (limits : Map Text Limits) (k : Text) (p : Pool) (ps : List Pool)
    (h : Map Text ℕ)
    → (In k (map (λ q. q.name) (p ∷ ps)) ⊎ (lookup_or 0 k h ≡ headroom_of live limits k))
    → In k (map (λ q. q.name) ps)
      ⊎ (lookup_or 0 k (insert p.name (headroom_of live limits p.name) h)
          ≡ headroom_of live limits k)
initial_step live limits k p ps h (inl (inl e)) = inr (
    subst
      (λ j.
        lookup_or 0 j (insert p.name (headroom_of live limits p.name) h)
        ≡ headroom_of live limits j)
      e (rw (lookup-insert p.name p.name (headroom_of live limits p.name) h, eq_self p.name)))
initial_step live limits k p ps h (inl (inr m)) = inl m
initial_step live limits k p ps h (inr e) = inr (
    ground
      (arith, lookup-insert p.name k (headroom_of live limits p.name) h, text_beq_iff p.name k))

initial_headroom_lem :
    (live : Map Text ℕ) (limits : Map Text Limits) (k : Text) (ps : List Pool) (h : Map Text ℕ)
    → (In k (map (λ p. p.name) ps) ⊎ (lookup_or 0 k h ≡ headroom_of live limits k))
    → lookup_or 0 k (initial_headroom live limits ps h) ≡ headroom_of live limits k
unfolding initial_headroom
initial_headroom_lem live limits k [] h (inl m) = absurd m
initial_headroom_lem live limits k [] h (inr e) = e
initial_headroom_lem live limits k (p ∷ ps) h m =
    initial_headroom_lem live limits k ps _ (initial_step live limits k p ps h m)

-- A pool is charged with more jobs than its headroom only if the whole headroom was used first:
-- the jobs placed and the headroom left add up to max minus live, or none is left.
pub assign_all_headroom :
    (m : PoolMatcher) (jobs : List Job) (live : Map Text ℕ) (limits : Map Text Limits) (p : Pool)
    → In p.name (map (λ q. q.name) m.pools)
    → let a = assign_all m jobs (start_assigning m live limits) in
      let h = headroom_of live limits p.name in
      (lookup_or 0 p.name a.demand.by_pool + room a.headroom p ≡ h)
      ⊎ ((room a.headroom p ≡ 0) × (h ≤ lookup_or 0 p.name a.demand.by_pool))
unfolding start_assigning
assign_all_headroom m jobs live limits p i =
    assign_all-Ledger p.name (headroom_of live limits p.name) m jobs (start_assigning m live limits)
      (inl (
        rw (initial_headroom_lem live limits p.name m.pools [] (inl i))
          (unfold lookup in zero-add _)))
