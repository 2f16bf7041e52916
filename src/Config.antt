-- ===== src/Config.antt =====
-- internal/config/config.go: the configuration. Strings are byte lists, durations and limits are
-- integers (durations in nanoseconds). The one field left out is `docker.cpus`, a float.
pub mod Validation
pub mod Defaults
pub mod Expansion
use action_runner_cluster.Prelude.{
  Bool, List, Map, Option, Text, [], if◌then◌else◌, nat_eq, none, some, text_eq, ℤ, ◌==◌, ◌∷◌,
}

pub record AppAuth : Type 0 where
  pub app_id : ℤ
  pub installation_id : ℤ
  pub private_key : Text
  pub private_key_path : Text

pub record RepoFilter : Type 0 where
  pub include : List Text
  pub include_url : Text
  pub exclude : List Text
  pub active_within : ℤ
  pub refresh_interval : ℤ
  pub archived : Bool

pub record GitHub : Type 0 where
  pub org : Text
  pub owner : Text
  pub token : Text
  pub app : Option AppAuth
  pub webhook : Bool
  pub api_url : Text
  pub web_url : Text
  pub runner_group : Text
  pub poll_interval : ℤ
  pub repos : RepoFilter

pub record Server : Type 0 where
  pub addr : Text
  pub state_dir : Text
  pub token : Text

pub record LogOutput : Type 0 where
  pub level : Text
  pub format : Text

pub record DockerTls : Type 0 where
  pub ca_file : Text
  pub cert_file : Text
  pub key_file : Text
  pub skip_verify : Bool

pub record RegistryAuth : Type 0 where
  pub username : Text
  pub password : Text
  pub server : Text

pub record DockerSpec : Type 0 where
  pub host : Text
  pub image : Text
  pub pull : Text
  pub platform : Text
  pub privileged : Bool
  pub network : Text
  pub isolation : Text
  pub volumes : List Text
  pub env : Map Text Text
  pub work_tmpfs : Bool
  pub work_tmpfs_size : Text
  pub work_dir : Text
  pub memory : Text
  pub shm_size : Text
  pub docker_in_docker : Bool
  pub tls : Option DockerTls
  pub registry_auth : Option RegistryAuth

pub record ProcessSpec : Type 0 where
  pub template_dir : Text
  pub instances_dir : Text
  pub env : Map Text Text
  pub user : Text
  pub preflight_script : Text

pub record Pool : Type 0 where
  pub name : Text
  pub labels : List Text
  pub provider : Text
  pub min : ℤ
  pub max : ℤ
  pub idle_timeout : ℤ
  pub job_timeout : ℤ
  pub runner_group : Text
  pub docker : Option DockerSpec
  pub process : Option ProcessSpec

-- An entry of `pools` that YAML leaves empty is a nil pointer.
pub record Config : Type 0 where
  pub github : GitHub
  pub server : Server
  pub pools : List (Option Pool)
  pub log : LogOutput
  pub path : Text

-- `GitHub.Entity`
unfoldable pub entity : GitHub → Text
entity g = if g.owner == [] then g.org else g.owner

-- `Config.EffectiveRunnerGroup`
unfoldable pub effective_runner_group : GitHub → Pool → Text
effective_runner_group g p = if p.runner_group == [] then g.runner_group else p.runner_group

-- `Config.Pool`, over the pools of a validated configuration, none of which is nil.
unfoldable pub pool_named : List Pool → Text → Option Pool
pool_named [] name = none
pool_named (p ∷ ps) name = if p.name == name then some p else pool_named ps name
