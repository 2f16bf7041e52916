-- ===== src/Orchestrator/Cull/Eligible.antt =====
-- internal/orchestrator/orchestrator.go: which runners scaleDown may remove, and how many.
use action_runner_cluster.Prelude.{
  All, Bool, In, List, Map, Option, Option-cases, Text, [], arith, codes, false, if◌then◌else◌, inl,
  inr, lookup, lookup-delete, lookup-insert, ltb_ℤ, none, pos, refl, some, sym, text_beq_iff,
  text_eq, true, ℕ, ℤ, ◌++◌, ◌-ℤ◌, ◌∙◌, ◌∷◌, ◌≡◌, ◌≢◌, ◌≤ℤ◌,
}
use action_runner_cluster.Config.{Pool}
use action_runner_cluster.Ghapi.{Runner, online}
use action_runner_cluster.Provider.{Instance}
use action_runner_cluster.Names.{instance_key}
use action_runner_cluster.Orchestrator.Cull.{
  is_idle, tick_clock, ripe, Candidate, add_ripe, check_idle,
}

-- GitHub lists the instance's runner as connected and without a job, and its idle clock, started in
-- an earlier pass, has run for the pool's timeout.
abbrev pub IsRipe : ℕ → Pool → Map Text Runner → Map Text ℕ → Instance → Type 0
IsRipe now pool by_name since inst =
    ((r : Runner) × (lookup inst.runner_name by_name ≡ some r)
      × (r.busy ≡ false)
      × (online r ≡ true))
    × ((t : ℕ) × (lookup (instance_key pool.name inst.runner_name) since ≡ some t)
        × (pool.idle_timeout ≤ℤ pos now -ℤ pos t))

pub is_idle_sound :
    (by_name : Map Text Runner) (inst : Instance)
    → is_idle by_name inst ≡ true
    → (r : Runner) × (lookup inst.runner_name by_name ≡ some r)
      × (r.busy ≡ false)
      × (online r ≡ true)
unfolding is_idle
is_idle_sound by_name inst h = elim (Option-cases (lookup inst.runner_name by_name)) [
  | inl e ↦ absurd (let q : false ≡ true = rw (e, is_idle) at h in cc)
  | inr (r, e) ↦
      let h' : (if r.busy then false else online r) ≡ true = rw (e, is_idle) at h in
      (r, e, ground arith, ground arith)
]

ripe_sound :
    (now : ℕ) (timeout : ℤ) (key : Text) (idle : Bool) (since : Map Text ℕ) (d : ℤ)
    → ripe now timeout key idle since ≡ some d
    → (idle ≡ true) × ((t : ℕ) × (lookup key since ≡ some t) × (timeout ≤ℤ pos now -ℤ pos t))
unfolding ripe
ripe_sound now timeout key false since d h = cc
ripe_sound now timeout key true since d h = elim (Option-cases (lookup key since)) [
  | inl e ↦ absurd (let q : ◌≡◌ {A = Option ℤ} none (some d) = rw (e, ripe) at h in cc)
  | inr (t, e) ↦
      let h' : (if ltb_ℤ (pos now -ℤ pos t) timeout then none else some (pos now -ℤ pos t))
          ≡ some d =
        rw (e, ripe) at h in
      (refl, (t, e, ground arith))
]

-- No two instances have one runner name.
abbrev pub DistinctRunners : List Instance → Type 0
DistinctRunners [] = Unit
DistinctRunners (i ∷ is) = All (λ j. j.runner_name ≢ i.runner_name) is × DistinctRunners is

abbrev clock_key : Pool → Instance → Text
clock_key pool inst = instance_key pool.name inst.runner_name

append_cancel : (p s t : Text) → p ++ s ≡ p ++ t → s ≡ t
append_cancel [] s t e = e
append_cancel (c ∷ p) s t e = append_cancel p s t (cc)

clock_key_injective :
    (pool : Pool) (i j : Instance)
    → clock_key pool i ≡ clock_key pool j
    → i.runner_name ≡ j.runner_name
unfolding instance_key
clock_key_injective pool i j e =
    append_cancel (codes "/") i.runner_name j.runner_name
      (append_cancel pool.name (codes "/" ++ i.runner_name) (codes "/" ++ j.runner_name) e)

lookup-tick_clock :
    (now : ℕ) (key k : Text) (idle : Bool) (since : Map Text ℕ)
    → k ≢ key
    → lookup k (tick_clock now key idle since) ≡ lookup k since
unfolding tick_clock
lookup-tick_clock now key k idle since n =
    ground (arith, lookup-delete key k since, lookup-insert key k now since, text_beq_iff key k)

-- A clock that has not been touched yet in this pass reads as before the pass.
abbrev Untouched : Pool → Map Text ℕ → Map Text ℕ → Instance → Type 0
Untouched pool since0 since inst =
    lookup (clock_key pool inst) since ≡ lookup (clock_key pool inst) since0

tick_clock-Untouched :
    (now : ℕ) (pool : Pool) (inst : Instance) (idle : Bool) (since0 since : Map Text ℕ)
    (insts : List Instance)
    → All (λ j. j.runner_name ≢ inst.runner_name) insts
    → All (Untouched pool since0 since) insts
    → All (Untouched pool since0 (tick_clock now (clock_key pool inst) idle since)) insts
tick_clock-Untouched now pool inst idle since0 since [] d u = tt
tick_clock-Untouched now pool inst idle since0 since (j ∷ js) d u = (
  lookup-tick_clock now (clock_key pool inst) (clock_key pool j) idle since
        (λ e. d.0 (clock_key_injective pool j inst e))
      ∙ u.0,
  tick_clock-Untouched now pool inst idle since0 since js d.1 u.1,
)

-- A candidate is one of the instances, and it is ripe.
abbrev pub Fit : ℕ → Pool → Map Text Runner → Map Text ℕ → List Instance → Candidate → Type 0
Fit now pool by_name since0 live c = In c.inst live × IsRipe now pool by_name since0 c.inst

add_ripe-All :
    (P : Candidate → Type 0) (inst : Instance) (o : Option ℤ) (rest : List Candidate)
    → ((d : ℤ) → o ≡ some d → P (record { inst = inst; idle = d }))
    → All P rest
    → All P (add_ripe inst o rest)
unfolding add_ripe
add_ripe-All P inst none rest f a = a
add_ripe-All P inst (some d) rest f a = (f d refl, a)

pub check_idle-All :
    (now : ℕ) (pool : Pool) (by_name : Map Text Runner) (since0 since : Map Text ℕ)
    (live insts : List Instance)
    → ((i : Instance) → In i insts → In i live)
    → DistinctRunners insts
    → All (Untouched pool since0 since) insts
    → All (Fit now pool by_name since0 live) (check_idle now pool by_name insts since).1
unfolding check_idle
check_idle-All now pool by_name since0 since live [] f d u = tt
check_idle-All now pool by_name since0 since live (inst ∷ insts) f d u =
    add_ripe-All (Fit now pool by_name since0 live) inst _ _
      (λ w e.
        let (idle, (t, l, old)) =
          ripe_sound now pool.idle_timeout (clock_key pool inst) (is_idle by_name inst) since w e in
        (f inst (inl refl), (is_idle_sound by_name inst idle, (t, sym u.0 ∙ l, old))))
      (check_idle-All now pool by_name since0
        (tick_clock now (clock_key pool inst) (is_idle by_name inst) since) live insts
        (λ i m. f i (inr m)) d.1
        (tick_clock-Untouched now pool inst (is_idle by_name inst) since0 since insts d.0 u.1))

-- Every candidate is one of the instances, and idle.
pub check_idle_idle :
    (now : ℕ) (pool : Pool) (by_name : Map Text Runner) (since : Map Text ℕ)
    (live insts : List Instance)
    → ((i : Instance) → In i insts → In i live)
    → All
        (λ c. In c.inst live × (is_idle by_name c.inst ≡ true))
        (check_idle now pool by_name insts since).1
unfolding check_idle
check_idle_idle now pool by_name since live [] f = tt
check_idle_idle now pool by_name since live (inst ∷ insts) f =
    let key = clock_key pool inst in
    let idle = is_idle by_name inst in
    add_ripe-All (λ c. In c.inst live × (is_idle by_name c.inst ≡ true)) inst _ _
      (λ d e. (f inst (inl refl), (ripe_sound now pool.idle_timeout key idle since d e).0))
      (check_idle_idle now pool by_name (tick_clock now key idle since) live insts
        (λ i m. f i (inr m)))
