-- ===== src/Api.antt =====
-- internal/api/server.go: the handlers of the control API, without the texts that they write. A
-- request's body and its number of lines are given as the standard library decodes them.
pub mod Scaling
pub mod Access
use action_runner_cluster.Prelude.{
  Bool, List, Option, Text, [], codes, false, if◌then◌else◌, ltb_ℤ, nat_eq, none, not, or_else, pos,
  some, strip_prefix, text_eq, true, ℕ, ℤ, ◌&&◌, ◌==◌,
}
use action_runner_cluster.Config.{Pool, pool_named}
use action_runner_cluster.Overrides.{
  Overrides, get, Persisted, written, write_failed, rename_failed, set, clear,
}
use action_runner_cluster.Orchestrator.{Settings, Orchestrator}
use action_runner_cluster.Orchestrator.Limiting.{overridden, set_drained}
use action_runner_cluster.Orchestrator.Failures.{Unhealthy, healthy}
use action_runner_cluster.Scale.{Limits}

-- Where a pool's limits come from.
pub data Source : Type 0 where
  from_config from_override : Source

pub data Response : Type 0 where
  unauthorized unknown_pool bad_body nothing_given min_negative max_too_small min_exceeds_max
        not_stored :
      Response
  limits_are : (min max : ℤ) → Source → Response
  drain_is : Bool → Response
  health_is : Option Unhealthy → Response

-- The status codes of net/http.
unfoldable pub status : Response → ℕ
status unauthorized = 401
status unknown_pool = 404
status bad_body = 400
status nothing_given = 400
status min_negative = 400
status max_too_small = 400
status min_exceeds_max = 400
status not_stored = 500
status (limits_are min max source) = 200
status (drain_is drained) = 200
status (health_is none) = 200
status (health_is (some why)) = 503

-- `auth`: whether the handler is called, given the configured token and the header.
unfoldable pub admits : Text → Text → Bool
unfolding strip_prefix
admits token header =
    if token == [] then true else or_else header (strip_prefix (codes "Bearer ") header) == token

unfoldable pub with_auth {ℓ} : {S : Type ℓ} → Text → Text → (S → S × Response) → S → S × Response
with_auth token header next s = if admits token header then next s else (s, unauthorized)

pub record ScaleRequest : Type 0 where
  pub min : Option ℤ
  pub max : Option ℤ
  pub reset : Bool

-- The response to a change that was asked to be stored.
unfoldable pub stored : Response → Persisted → Response
stored done written = done
stored done write_failed = not_stored
stored done rename_failed = not_stored

unfoldable pub is_none : Option ℤ → Bool
is_none none = true
is_none (some v) = false

-- The second `switch`, over the limits that the request would put in force.
unfoldable pub refusal : ScaleRequest → Limits → Option Response
unfolding is_none
refusal req eff =
    if is_none req.min && is_none req.max
    then some nothing_given
    else if ltb_ℤ eff.min (pos 0)
    then some min_negative
    else if ltb_ℤ eff.max (pos 1)
    then some max_too_small
    else if ltb_ℤ eff.max eff.min
    then some min_exceeds_max
    else none

-- The limits that the request would put in force.
unfoldable pub requested : ScaleRequest → Pool → Overrides → Limits
unfolding overridden
requested req pool o =
    let now : Limits = overridden pool (get o pool.name) in
    record { min = or_else now.min req.min; max = or_else now.max req.max }

-- The handler from the decoded body on, for a known pool; the disk's answer is an argument.
unfoldable pub apply_scale : Pool → ScaleRequest → Persisted → Overrides → Overrides × Response
unfolding stored
apply_scale pool req p o =
    let eff : Limits = requested req pool o in
    let change : Overrides × Persisted = set pool.name req.min req.max p o in
    let cleared : Overrides × Persisted = clear pool.name p o in
    if req.reset
    then (cleared.0, stored (limits_are pool.min pool.max from_config) cleared.1)
    else elim (refusal req eff) [
      | some refused ↦ (o, refused)
      | none ↦ (change.0, stored (limits_are eff.min eff.max from_override) change.1)
    ]

-- `handleScale`; no request stands for a body that does not decode.
unfoldable pub handle_scale :
    List Pool → Text → Option ScaleRequest → Persisted → Overrides → Overrides × Response
handle_scale pools name body p o = elim (pool_named pools name) [
  | none ↦ (o, unknown_pool)
  | some pool ↦ elim body [ none ↦ (o, bad_body) | some req ↦ apply_scale pool req p o ]
]

-- `setDrain`, for handleDrain and handleResume.
unfoldable pub set_drain : Settings → Text → Bool → Orchestrator → Orchestrator × Response
set_drain s pool drained o =
    let out : Orchestrator × Bool = set_drained s pool drained o in
    (out.0, if out.1 then drain_is drained else unknown_pool)

unfoldable pub handle_health : Settings → ℕ → Orchestrator → Response
handle_health s now o = health_is (healthy s now o)

-- The number of lines that handleLogs asks for.
unfoldable pub log_lines : Option ℤ → ℤ
log_lines none = pos 200
log_lines (some n) = if ltb_ℤ (pos 0) n && not (ltb_ℤ (pos 10000) n) then n else pos 200
