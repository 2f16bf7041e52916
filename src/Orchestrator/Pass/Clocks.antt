-- ===== src/Orchestrator/Pass/Clocks.antt =====
-- internal/orchestrator/orchestrator.go: housekeep's sweep of the idle clocks, and scaleDown after it.
use action_runner_cluster.Prelude.{
  All, Bool, List, Map, Option-cases, Text, [], arith, delete, delete-All, false, if◌then◌else◌,
  inl, inr, insert-All, int_eq, lookup, lookup-All, ltb_ℤ, none, pair_eq, pos, refl, text_eq, true,
  ℕ, ℤ, ◌+ℤ◌, ◌-ℤ◌, ◌<ℤ◌, ◌∷◌, ◌≡◌, ◌≤ℤ◌, ◌≤◌,
}
use action_runner_cluster.Config.{Pool}
use action_runner_cluster.Ghapi.{Runner}
use action_runner_cluster.Provider.{Instance}
use action_runner_cluster.Names.{instance_key}
use action_runner_cluster.Orchestrator.Cull.{is_idle, tick_clock, ripe, add_ripe, check_idle}

abbrev pub day : ℤ
day = pos 86400000000000

-- The last step of `housekeep`: idle clocks older than a day go.
unfoldable pub drop_old_clocks : ℕ → Map Text ℕ → Map Text ℕ
drop_old_clocks now [] = []
drop_old_clocks now ((key, since) ∷ m) =
    if ltb_ℤ day (pos now -ℤ pos since)
    then drop_old_clocks now m
    else (key, since) ∷ drop_old_clocks now m

-- What becomes of the idle clocks after a sweep at the time `now`: checks of any pool at any later
-- times, and the ends of instances.
pub data After (now : ℕ) : ℕ → Map Text ℕ → Type 0 where
  swept : (since : Map Text ℕ) → After now now (drop_old_clocks now since)
  checked :
      {t later : ℕ} {since : Map Text ℕ}
      → After now t since
      → t ≤ later
      → (pool : Pool) (by_name : Map Text Runner) (live : List Instance)
      → After now later (check_idle later pool by_name live since).0
  forgotten :
      {t : ℕ} {since : Map Text ℕ}
      → After now t since
      → (key : Text) → After now t (delete key since)

-- No clock had run for more than a day at the time `now`.
abbrev pub Recent : ℕ → Map Text ℕ → Type 0
Recent now since = All (λ (kv : Text × ℕ). pos now -ℤ pos kv.1 ≤ℤ day) since

-- At the time `now` every clock has run for less than `bound`.
abbrev pub Young : ℕ → ℤ → Map Text ℕ → Type 0
Young now bound since = All (λ (kv : Text × ℕ). pos now -ℤ pos kv.1 <ℤ bound) since

drop_old_clocks-Recent : (now : ℕ) (since : Map Text ℕ) → Recent now (drop_old_clocks now since)
unfolding drop_old_clocks
drop_old_clocks-Recent now [] = tt
drop_old_clocks-Recent now ((key, t) ∷ since) = ground (arith, drop_old_clocks-Recent now since)

tick_clock-Recent :
    (now t : ℕ) (key : Text) (idle : Bool) (since : Map Text ℕ)
    → now ≤ t
    → Recent now since
    → Recent now (tick_clock t key idle since)
unfolding tick_clock ◌-ℤ◌
tick_clock-Recent now t key false since order y = delete-All _ key since y
tick_clock-Recent now t key true since order y = elim (Option-cases (lookup key since)) [
  | inl e ↦ rw (e, tick_clock) (insert-All _ key t since (ground arith) y)
  | inr (u, e) ↦ rw (e, tick_clock) y
]

check_idle-Recent :
    (now t : ℕ) (pool : Pool) (by_name : Map Text Runner) (live : List Instance)
    (since : Map Text ℕ)
    → now ≤ t
    → Recent now since
    → Recent now (check_idle t pool by_name live since).0
unfolding check_idle
check_idle-Recent now t pool by_name [] since order y = y
check_idle-Recent now t pool by_name (inst ∷ insts) since order y =
    let key = instance_key pool.name inst.runner_name in
    let idle = is_idle by_name inst in
    check_idle-Recent now t pool by_name insts (tick_clock t key idle since) order
      (tick_clock-Recent now t key idle since order y)

After-Recent : (now t : ℕ) (since : Map Text ℕ) → After now t since → (now ≤ t) × Recent now since
After-Recent now t since (swept before) = (omega arith, drop_old_clocks-Recent now before)
After-Recent now t since (checked {t = u} {since = s} a order pool by_name live) =
    let (past, y) = After-Recent now u s a in
    let late : now ≤ t = omega arith in (late, check_idle-Recent now t pool by_name live s late y)
After-Recent now t since (forgotten {since = s} a key) =
    let (past, y) = After-Recent now t s a in (past, delete-All _ key s y)

Recent-Young :
    (now later : ℕ) (bound : ℤ) (since : Map Text ℕ)
    → day +ℤ (pos later -ℤ pos now) <ℤ bound
    → Recent now since
    → Young later bound since
unfolding ◌+ℤ◌ ◌-ℤ◌
Recent-Young now later bound [] h y = tt
Recent-Young now later bound ((key, t) ∷ since) h y =
    (ground (arith, h, y.0), Recent-Young now later bound since h y.1)

tick_clock-Young :
    (now : ℕ) (bound : ℤ) (key : Text) (idle : Bool) (since : Map Text ℕ)
    → pos 0 <ℤ bound
    → Young now bound since
    → Young now bound (tick_clock now key idle since)
unfolding tick_clock ◌-ℤ◌
tick_clock-Young now bound key false since b y = delete-All _ key since y
tick_clock-Young now bound key true since b y = elim (Option-cases (lookup key since)) [
  | inl e ↦ rw (e, tick_clock) (insert-All _ key now since (ground arith) y)
  | inr (t, e) ↦ rw (e, tick_clock) y
]

ripe-Young :
    (now : ℕ) (timeout : ℤ) (key : Text) (idle : Bool) (since : Map Text ℕ)
    → Young now timeout since
    → ripe now timeout key idle since ≡ none
unfolding ripe
ripe-Young now timeout key false since y = refl
ripe-Young now timeout key true since y = elim (Option-cases (lookup key since)) [
  | inl e ↦ rw (e, ripe) refl
  | inr (t, e) ↦
      let young =
        lookup-All (λ (kv : Text × ℕ). pos now -ℤ pos kv.1 <ℤ timeout) key since {val = t} y e in
      rw (e, ripe) (ground arith)
]

check_idle-Young :
    (now : ℕ) (pool : Pool) (by_name : Map Text Runner) (live : List Instance) (since : Map Text ℕ)
    → pos 0 <ℤ pool.idle_timeout
    → Young now pool.idle_timeout since
    → (check_idle now pool by_name live since).1 ≡ []
unfolding check_idle add_ripe
check_idle-Young now pool by_name [] since b y = refl
check_idle-Young now pool by_name (inst ∷ insts) since b y =
    let key = instance_key pool.name inst.runner_name in
    let idle = is_idle by_name inst in
    rw (ripe-Young now pool.idle_timeout key idle since y) (
      check_idle-Young now pool by_name insts (tick_clock now key idle since) b
        (tick_clock-Young now pool.idle_timeout key idle since b y))

-- From a sweep of the idle clocks on, for as long as a day and the time since the sweep are together
-- less than a pool's idle timeout, no check of the pool finds a runner that may go, however long it
-- has been idle, whatever checks of this pool and of others came in between and whichever instances
-- ended: the sweep has dropped the clock that would tell.
pub check_idle-drop_old_clocks :
    (now t later : ℕ) (pool : Pool) (by_name : Map Text Runner) (live : List Instance)
    (since : Map Text ℕ)
    → After now t since
    → t ≤ later
    → day +ℤ (pos later -ℤ pos now) <ℤ pool.idle_timeout
    → (check_idle later pool by_name live since).1 ≡ []
unfolding ◌+ℤ◌ ◌-ℤ◌
check_idle-drop_old_clocks now t later pool by_name live since a order h =
    let (past, y) = After-Recent now t since a in
    check_idle-Young later pool by_name live since (ground arith)
      (Recent-Young now later pool.idle_timeout since h y)
