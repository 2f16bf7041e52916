-- ===== src/DockerProvider/Requests.antt =====
-- internal/provider/dockerprov/docker.go: the request that makes a container, and what List reads
-- of one. The layout of times and the parsing of sizes are arguments; ids are not negative.
pub mod Labels
use action_runner_cluster.Prelude.{
  Bool, List, Map, Option, Text, [], codes, decimal, false, if◌then◌else◌, int_eq, lookup,
  lookup_or, map, nat_eq, none, not, or_else, pair_eq, parse_int, pos, select, some, text_eq,
  trim_prefix, ℕ, ℤ, ◌&&◌, ◌++◌, ◌==◌, ◌∷◌,
}
use action_runner_cluster.Config.{DockerSpec}
use action_runner_cluster.Provider.{Instance}
use action_runner_cluster.DockerProvider.{docker_state, truncate_hostname}
use action_runner_cluster.DockerProvider.Hosts.{parse_bytes}
use action_runner_cluster.ProcessProvider.Creation.{Spec, settings_env}

-- Provider: the pool's name, its settings, and whether its labels say Windows.
pub record Docker : Type 0 where
  pub pool : Text
  pub settings : DockerSpec
  pub windows : Bool

-- The metadata keys of internal/provider/provider.go.
abbrev pub label_managed : Text
label_managed = codes "arc.managed"

abbrev pub label_pool : Text
label_pool = codes "arc.pool"

abbrev pub label_runner_name : Text
label_runner_name = codes "arc.runner-name"

abbrev pub label_runner_id : Text
label_runner_id = codes "arc.runner-id"

abbrev pub label_created : Text
label_created = codes "arc.created"

-- hostConfig
pub record HostConfig : Type 0 where
  pub auto_remove : Bool
  pub privileged : Bool
  pub network_mode : Text
  pub binds : List Text
  pub tmpfs : Map Text Text
  pub shm_size : ℤ
  pub memory : ℤ
  pub isolation : Text
  pub restart_policy : Text
  pub log_type : Text
  pub log_config : Map Text Text

-- createRequest
pub record CreateRequest : Type 0 where
  pub image : Text
  pub env : List Text
  pub labels : Map Text Text
  pub hostname : Text
  pub stop_signal : Text
  pub host_config : HostConfig

-- What is parsed and laid out by the libraries.
pub record Formats : Type 0 where
  pub scaled : Text → ℕ → Option ℤ
  pub show_time : ℕ → Text
  pub read_time : Text → Option ℕ

request_env : Docker → Spec → List Text
unfolding settings_env
request_env p spec =
    (codes "ARC_JITCONFIG=" ++ spec.jit_config)
    ∷ (codes "ARC_POOL=" ++ p.pool)
    ∷ (codes "ARC_RUNNER_NAME=" ++ spec.runner_name)
    ∷ codes "RUNNER_ALLOW_RUNASROOT=1"
    ∷ codes "DOTNET_SYSTEM_GLOBALIZATION_INVARIANT=0"
    ∷ settings_env p.settings.env

unfoldable pub request_labels : Formats → Docker → Spec → ℕ → Map Text Text
request_labels f p spec now =
    (label_managed, codes "true")
    ∷ (label_pool, p.pool)
    ∷ (label_runner_name, spec.runner_name)
    ∷ (label_runner_id, decimal spec.runner_id)
    ∷ (label_created, f.show_time now)
    ∷ []

unfoldable pub docker_socket : Text
docker_socket = codes "/var/run/docker.sock:/var/run/docker.sock"

-- None is the error of docker_in_docker on Windows.
unfoldable pub request_binds : Docker → Option (List Text)
unfolding docker_socket
request_binds p =
    if not p.settings.docker_in_docker
    then some p.settings.volumes
    else if p.windows
    then none
    else some (p.settings.volumes ++ docker_socket ∷ [])

request_tmpfs : Docker → Map Text Text
request_tmpfs p =
    if p.settings.work_tmpfs && not p.windows
    then (
      p.settings.work_dir,
      codes "rw,exec,mode=1777"
          ++ (if p.settings.work_tmpfs_size == []
              then []
              else codes ",size=" ++ p.settings.work_tmpfs_size),
    )
      ∷ []
    else []

-- A size that is empty stays zero.
unfoldable pub size_or_zero : Formats → Text → Option ℤ
unfolding parse_bytes
size_or_zero f s = if s == [] then some (pos 0) else parse_bytes f.scaled s

unfoldable pub request_with : Formats → Docker → Spec → ℕ → List Text → ℤ → ℤ → CreateRequest
unfolding request_env request_labels request_tmpfs truncate_hostname
request_with f p spec now binds shm memory = record {
  image = p.settings.image;
  env = request_env p spec;
  labels = request_labels f p spec now;
  hostname = truncate_hostname spec.runner_name;
  stop_signal = codes "SIGTERM";
  host_config = record {
    auto_remove = false;
    privileged = p.settings.privileged;
    network_mode = p.settings.network;
    binds = binds;
    tmpfs = request_tmpfs p;
    shm_size = shm;
    memory = memory;
    isolation = p.settings.isolation;
    restart_policy = codes "no";
    log_type = codes "json-file";
    log_config = (codes "max-size", codes "10m") ∷ (codes "max-file", codes "2") ∷ [];
  };
}

infixl 5 ◌>>=◌
abbrev ◌>>=◌ {ℓ κ} : {A : Type ℓ} {B : Type κ} → Option A → (A → Option B) → Option B
none >>= k = none
some a >>= k = k a

-- `buildCreateRequest`; none stands for its errors.
unfoldable pub build_create_request : Formats → Docker → Spec → ℕ → Option CreateRequest
unfolding request_binds size_or_zero request_with
build_create_request f p spec now = do
  binds ← request_binds p
  shm ← size_or_zero f p.settings.shm_size
  memory ← size_or_zero f p.settings.memory
  some (request_with f p spec now binds shm memory)

-- containerSummary
pub record ContainerSummary : Type 0 where
  pub id : Text
  pub names : List Text
  pub state : Text
  pub status : Text
  pub labels : Map Text Text

name_of : Text → List Text → Text
unfolding trim_prefix
name_of [] [] = []
name_of [] (n ∷ ns) = trim_prefix n (codes "/")
name_of (c ∷ labelled) names = c ∷ labelled

-- The body of List's loop; a label that is missing is the empty text.
unfoldable pub read_container : Formats → Docker → ContainerSummary → Instance
unfolding name_of docker_state lookup parse_int
read_container f p c = record {
  id = c.id;
  pool = p.pool;
  runner_name = name_of (lookup_or [] label_runner_name c.labels) c.names;
  runner_id = or_else 0 (parse_int (lookup_or [] label_runner_id c.labels));
  state = docker_state c.state;
  created_at = or_else 0 (f.read_time (lookup_or [] label_created c.labels));
  exit_code = pos 0;
  detail = c.status;
}

has_label : Text → Text → ContainerSummary → Bool
unfolding lookup
has_label key val c = elim (lookup key c.labels) [ none ↦ false | some v ↦ v == val ]

-- The filter that List hands to the daemon: the marker, and the pool.
unfoldable pub is_listed : Docker → ContainerSummary → Bool
unfolding has_label
is_listed p c = has_label label_managed (codes "true") c && has_label label_pool p.pool c

-- `List`, of the containers that the daemon has; the daemon applies the filter.
unfoldable pub list_containers : Formats → Docker → List ContainerSummary → List Instance
unfolding read_container is_listed select
list_containers f p containers = map (read_container f p) (select (is_listed p) containers)
