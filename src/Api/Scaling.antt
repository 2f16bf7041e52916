-- ===== src/Api/Scaling.antt =====
-- internal/api/server.go: handleScale changes limits only to what it reports, and within bounds.
use action_runner_cluster.Prelude.{
  Bool-cases, List, Option, Option-cases, Text, ap, arith, eq_self, inl, inr, lookup-delete, none,
  or_else, pos, refl, some, text_eq, ℤ, ◌<◌, ◌∙◌, ◌≡◌, ◌≤ℤ◌, ◌≤◌,
}
use action_runner_cluster.Config.{Pool, pool_named}
use action_runner_cluster.Overrides.{
  Override, Overrides, get, Persisted, written, write_failed, rename_failed, given_or, set, clear,
}
use action_runner_cluster.Overrides.Laws.{effective, get-set}
use action_runner_cluster.Orchestrator.Limiting.{overridden, limits_for, limits_for_ordered}
use action_runner_cluster.Scale.{Limits}
use action_runner_cluster.Api.{
  Source, from_override, Response, bad_body, limits_are, status, ScaleRequest, refusal, requested,
  apply_scale, stored, handle_scale,
}

overridden-effective :
    (pool : Pool) (ov : Option Override)
    → overridden pool ov ≡ overridden pool (some (effective ov))
unfolding overridden
overridden-effective pool none = refl
overridden-effective pool (some ov) = refl

or_else-given_or :
    (d : ℤ) (v old : Option ℤ) → or_else d (given_or v old) ≡ or_else (or_else d old) v
or_else-given_or d none old = refl
or_else-given_or d (some v) old = refl

-- What the overrides say after `Set` is what the handler computed before it.
overridden-set :
    (pool : Pool) (req : ScaleRequest) (p : Persisted) (o : Overrides)
    → overridden pool (get (set pool.name req.min req.max p o).0 pool.name) ≡ requested req pool o
unfolding overridden requested
overridden-set pool req p o =
    let ov = effective (get o pool.name) in
    overridden-effective pool (get (set pool.name req.min req.max p o).0 pool.name)
    ∙ rw
        (
          get-set pool.name pool.name req.min req.max p o,
          eq_self pool.name,
          or_else-given_or pool.min req.min ov.min,
          or_else-given_or pool.max req.max ov.max,
          overridden-effective pool (get o pool.name),
        )
        refl

overridden-clear :
    (pool : Pool) (p : Persisted) (o : Overrides)
    → overridden pool (get (clear pool.name p o).0 pool.name)
      ≡ record { min = pool.min; max = pool.max }
unfolding overridden get clear
overridden-clear pool p o = rw (lookup-delete pool.name pool.name o.m, eq_self pool.name) refl

-- Limits that are not refused are in order and in bounds.
refusal-none :
    (req : ScaleRequest) (eff : Limits)
    → refusal req eff ≡ none
    → (pos 0 ≤ℤ eff.min) × (pos 1 ≤ℤ eff.max) × (eff.min ≤ℤ eff.max)
unfolding refusal
refusal-none req eff h = ground arith

refusal-status :
    (req : ScaleRequest) (eff : Limits) (r : Response) → refusal req eff ≡ some r → status r ≡ 400
unfolding refusal status
refusal-status req eff r h = ground arith

-- What a success of the handler promises of the limits that it reports.
abbrev pub InForce : Pool → Overrides → Persisted → ℤ → ℤ → Source → Type 0
InForce pool o' p lo hi source =
    (limits_for (some o') pool ≡ record { min = lo; max = hi })
    × (p ≡ written)
    × (lo ≤ℤ hi)
    × (source ≡ from_override → (pos 0 ≤ℤ lo) × (pos 1 ≤ℤ hi))

stored-limits :
    (r : Response) (p : Persisted) (lo hi : ℤ) (source : Source)
    → stored r p ≡ limits_are lo hi source
    → (p ≡ written) × (r ≡ limits_are lo hi source)
unfolding stored
stored-limits r written lo hi source e = (refl, e)
stored-limits r write_failed lo hi source e = cc
stored-limits r rename_failed lo hi source e = cc

reported :
    {a b c d : ℤ} {s t : Source} → limits_are a b s ≡ limits_are c d t → (a ≡ c) × (b ≡ d) × (s ≡ t)
reported e = (cc, cc, cc)

apply_scale-InForce :
    (pool : Pool) (req : ScaleRequest) (p : Persisted) (o : Overrides) (lo hi : ℤ) (source : Source)
    → pool.min ≤ℤ pool.max
    → (apply_scale pool req p o).1 ≡ limits_are lo hi source
    → InForce pool (apply_scale pool req p o).0 p lo hi source
unfolding apply_scale set clear status refusal requested
apply_scale-InForce pool req p o lo hi source ordered e = elim (Bool-cases req.reset) [
  | inl resets ↦
      let (ok, same) =
        stored-limits _ (clear pool.name p o).1 lo hi source (rw (resets, apply_scale) at e) in
      let (a, b, c) = reported same in
      rw (resets, apply_scale)
        (
          limits_for_ordered (clear pool.name p o).0 pool (rw (overridden-clear pool p o) ordered)
              ∙ (overridden-clear pool p o ∙ rw (a, b) refl),
          ok,
          rw (← a, ← b) ordered,
          λ s. cc,
        )
  | inr sets ↦ elim (Option-cases (refusal req (requested req pool o))) [
    | inl fine ↦
        let (ok, same) =
          stored-limits _ (set pool.name req.min req.max p o).1 lo hi source
            (rw (sets, fine, apply_scale) at e) in
        let (a, b, c) = reported same in
        let (low, high, order) = refusal-none req (requested req pool o) fine in
        rw (sets, fine, apply_scale)
          (
            limits_for_ordered (set pool.name req.min req.max p o).0 pool
                  (rw (overridden-set pool req p o) order)
                ∙ (overridden-set pool req p o ∙ rw (← a, ← b) refl),
            ok,
            rw (← a, ← b) order,
            λ s. (rw (← a) low, rw (← b) high),
          )
    | inr (r, refused) ↦
        let bad : r ≡ limits_are lo hi source = rw (sets, refused, apply_scale) at e in
        absurd (
          let q = refusal-status req (requested req pool o) r refused in
          let st = ap status bad in omega (arith, q, st))
  ]
]

-- When handleScale answers with limits for a pool whose configured limits are in order, those limits
-- are in order, they are exactly what the orchestrator works with from then on, and they have been
-- stored; where they come from an override the minimum is at least 0 and the maximum at least 1.
pub handle_scale-InForce :
    (pools : List Pool) (name : Text) (body : Option ScaleRequest) (p : Persisted) (o : Overrides)
    (pool : Pool) (lo hi : ℤ) (source : Source)
    → pool_named pools name ≡ some pool
    → pool.min ≤ℤ pool.max
    → (handle_scale pools name body p o).1 ≡ limits_are lo hi source
    → InForce pool (handle_scale pools name body p o).0 p lo hi source
unfolding handle_scale
handle_scale-InForce pools name none p o pool lo hi source known ordered e =
    absurd (
      let q = rw (known, handle_scale) at e in let w : bad_body ≡ limits_are lo hi source = q in cc)
handle_scale-InForce pools name (some req) p o pool lo hi source known ordered e =
    rw (known, handle_scale)
      (apply_scale-InForce pool req p o lo hi source ordered (rw (known, handle_scale) at e))

-- A request that handleScale refuses, as unknown, malformed or out of bounds, changes nothing.
pub handle_scale_refused :
    (pools : List Pool) (name : Text) (body : Option ScaleRequest) (p : Persisted) (o : Overrides)
    → 400 ≤ status (handle_scale pools name body p o).1
    → status (handle_scale pools name body p o).1 < 500
    → (handle_scale pools name body p o).0 ≡ o
unfolding handle_scale apply_scale stored status
handle_scale_refused pools name body p o low high = ground arith
