-- ===== src/Examples/Serving.antt =====
-- Requests to the control API, and whole configurations.
use action_runner_cluster.Prelude.{
  [], any, arith, codes, false, lookup, none, pos, refl, some, text_eq, trim_space, ◌∷◌, ◌≡◌,
}
use action_runner_cluster.Config.{Config, pool_named}
use action_runner_cluster.Config.Validation.{
  validate, account_errors, credential_errors, owner_errors, app_errors, add_if, check_pools,
  pool_errors, name_errors, label_errors, limit_errors, provider_errors, docker_errors,
  is_pool_name,
}
use action_runner_cluster.Config.Validation.Sound.{ValidConfig, validate_sound}
use action_runner_cluster.Overrides.{Overrides, missing, get, written, set}
use action_runner_cluster.Orchestrator.Limiting.{overridden}
use action_runner_cluster.Api.{
  from_override, limits_are, status, ScaleRequest, refusal, requested, stored, apply_scale,
  handle_scale,
}
use action_runner_cluster.Api.Scaling.{InForce, handle_scale-InForce}
use action_runner_cluster.Examples.Samples.{linux, pools, github}

abbrev empty : Overrides
empty = record { m = []; disk = missing }

abbrev grow : ScaleRequest
grow = record { min = none; max = some (pos 6); reset = false }

abbrev too_low : ScaleRequest
too_low = record grow { max = some (pos 0) }

found : pool_named pools (codes "linux") ≡ some linux
unfolding pool_named
found = refl

grows :
    (handle_scale pools (codes "linux") (some grow) written empty).1
    ≡ limits_are (pos 0) (pos 6) from_override
unfolding handle_scale apply_scale pool_named refusal requested stored get lookup set overridden
grows = refl

handle_scale-InForce_example :
    InForce linux
      (handle_scale pools (codes "linux") (some grow) written empty).0
      written
      (pos 0)
      (pos 6)
      from_override
handle_scale-InForce_example =
    handle_scale-InForce pools (codes "linux") (some grow) written empty linux (pos 0) (pos 6)
      from_override found (omega arith) grows

refused : status (handle_scale pools (codes "linux") (some too_low) written empty).1 ≡ 400
unfolding handle_scale apply_scale pool_named refusal requested stored get lookup set overridden
    status
refused = refl

abbrev config : Config
config = record {
  github = github;
  server = record { addr = []; state_dir = []; token = [] };
  pools = some (record linux { provider = codes "process" }) ∷ [];
  log = record { level = []; format = [] };
  path = [];
}

accepted : validate config ≡ []
unfolding validate account_errors credential_errors owner_errors app_errors add_if check_pools
    pool_errors name_errors label_errors limit_errors provider_errors docker_errors is_pool_name
    trim_space any
accepted = refl

validate_sound_example : ValidConfig config
validate_sound_example = validate_sound config accepted
