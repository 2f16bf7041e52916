-- ===== src/Config/Defaults.antt =====
-- internal/config/config.go: applyDefaults, HostPool, DefaultStateDir and Parse. What the
-- process finds of its host, the platform and the directories and DOCKER_HOST, is an argument.
pub mod Settled
use mathlib.Core.Option
use action_runner_cluster.Prelude.{
  Bool, List, Option, Text, [], codes, if◌then◌else◌, int_eq, leb, length, ltb_ℤ, map, nat_eq, none,
  not, or_else, pair_eq, pos, some, text_eq, ℕ, ℤ, ◌&&◌, ◌*◌, ◌++◌, ◌==◌, ◌∷◌,
}
use action_runner_cluster.Config.{
  AppAuth, RepoFilter, GitHub, Server, LogOutput, DockerSpec, ProcessSpec, Pool, Config,
}
use action_runner_cluster.Config.Expansion.{Expanded, expanded, undefined, expand_env}
use action_runner_cluster.Config.Validation.{ConfigError, is_windows_pool, validate, second}

-- runtime.GOOS and GOARCH, os.UserHomeDir, os.UserConfigDir, and DOCKER_HOST.
pub record Machine : Type 0 where
  pub goos : Text
  pub goarch : Text
  pub home : Option Text
  pub config_dir : Option Text
  pub docker_host : Text

is_zero : ℤ → Bool
is_zero n = n == pos 0

seconds_of : ℕ → ℤ
seconds_of n = pos (n * 1000000000)

or_text : Text → Text → Text
or_text given default = if given == [] then default else given

or_time : ℤ → ℤ → ℤ
unfolding is_zero
or_time given default = if is_zero given then default else given

slash : Text → Text → Text
slash dir name = dir ++ (b'/' ∷ name)

-- `DefaultStateDir`
unfoldable pub default_state_dir : Machine → Text
unfolding slash
default_state_dir m = elim m.config_dir [
  | none ↦ codes ".arc-state"
  | some dir ↦ slash dir (codes "action-runner-cluster")
]

-- `defaultDockerHost`
unfoldable pub default_docker_host : Machine → Text
default_docker_host m =
    if not (m.docker_host == [])
    then m.docker_host
    else if m.goos == codes "windows"
    then codes "npipe:////./pipe/docker_engine"
    else codes "unix:///var/run/docker.sock"

-- The repos of a personal account that no setting scopes are those with pushes of 30 days.
unfoldable pub default_active_within : GitHub → ℤ
unfolding is_zero seconds_of
default_active_within g =
    if not (g.owner == [])
      && leb (length g.repos.include) 0
      && (g.repos.include_url == [])
      && is_zero g.repos.active_within
    then seconds_of 2592000
    else g.repos.active_within

unfoldable pub default_github : GitHub → GitHub
unfolding or_time or_text default_active_within seconds_of
default_github g = record g {
  poll_interval = or_time g.poll_interval (if g.webhook then seconds_of 120 else seconds_of 15);
  api_url = or_text g.api_url (codes "https://api.github.com");
  web_url = or_text g.web_url (codes "https://github.com");
  repos = record g.repos {
    active_within = default_active_within g;
    refresh_interval = or_time g.repos.refresh_interval (seconds_of 600);
  };
}

unfoldable pub default_server : Machine → Server → Server
unfolding or_text default_state_dir
default_server m s = record s {
  addr = or_text s.addr (codes "127.0.0.1:8730");
  state_dir = or_text s.state_dir (default_state_dir m);
}

default_log : LogOutput → LogOutput
unfolding or_text
default_log l = record l {
  level = or_text l.level (codes "info");
  format = or_text l.format (codes "text");
}

default_provider : Machine → Text
default_provider m = if m.goos == codes "darwin" then codes "process" else codes "docker"

default_work_dir : Pool → Text
unfolding is_windows_pool
default_work_dir p =
    if is_windows_pool p then codes "C:\\actions-runner\\_work" else codes "/home/runner/_work"

default_docker : Machine → Pool → DockerSpec → DockerSpec
unfolding or_text default_work_dir default_docker_host
default_docker m p d = record d {
  pull = or_text d.pull (codes "missing");
  work_dir = or_text d.work_dir (default_work_dir p);
  host = or_text d.host (default_docker_host m);
}

empty_process : ProcessSpec
empty_process = record {
  template_dir = [];
  instances_dir = [];
  env = [];
  user = [];
  preflight_script = [];
}

-- Without a home directory the template stays unset.
default_template : Machine → Text
unfolding slash
default_template m = elim m.home [
  | none ↦ []
  | some home ↦ slash (slash home (codes ".arc")) (codes "runner-template")
]

default_instances : Machine → Text → Text → Text
unfolding slash
default_instances m state_dir name = elim m.home [
  | none ↦ slash (slash state_dir (codes "instances")) name
  | some home ↦ slash (slash (slash home (codes ".arc")) (codes "instances")) name
]

default_process : Machine → Text → Text → Option ProcessSpec → ProcessSpec
unfolding or_text empty_process default_template default_instances
default_process m state_dir name given =
    let s : ProcessSpec = or_else empty_process given in
    record s {
      template_dir = or_text s.template_dir (default_template m);
      instances_dir = or_text s.instances_dir (default_instances m state_dir name);
    }

-- The body of the loop over the pools; `group` is github.runner_group, `state_dir` as defaulted.
unfoldable pub default_pool : Machine → Text → Text → Pool → Pool
unfolding or_text or_time default_provider default_docker default_process seconds_of
default_pool m group state_dir p =
    let provider : Text = or_text p.provider (default_provider m) in
    record p {
      provider = provider;
      idle_timeout = or_time p.idle_timeout (seconds_of 300);
      job_timeout = or_time p.job_timeout (seconds_of 21600);
      runner_group = or_text p.runner_group group;
      docker = Option.map (default_docker m p) p.docker;
      process =
          if provider == codes "process"
          then some (default_process m state_dir p.name p.process)
          else p.process;
    }

-- `applyDefaults`
unfoldable pub apply_defaults : Machine → Config → Config
unfolding default_github default_server default_log default_pool
apply_defaults m c =
    let server : Server = default_server m c.server in
    record c {
      github = default_github c.github;
      server = server;
      log = default_log c.log;
      pools = map (Option.map (default_pool m c.github.runner_group server.state_dir)) c.pools;
    }

-- How Parse ends: with a configuration or with Validate's errors; with references to variables that
-- are not set; with a text that does not decode.
pub data Parsed : Type 0 where
  loaded : Config → Parsed
  rejected : List ConfigError → Parsed
  unset : List Text → Parsed
  undecoded : Parsed

unfoldable pub finish : Config → List ConfigError → Parsed
finish c [] = loaded c
finish c (e ∷ es) = rejected (e ∷ es)

unfoldable pub parse_decoded : Machine → Option Config → Parsed
unfolding finish apply_defaults validate
parse_decoded m none = undecoded
parse_decoded m (some c) = finish (apply_defaults m c) (validate (apply_defaults m c))

unfoldable pub parse_expanded : Machine → (Text → Option Config) → Expanded → Parsed
unfolding parse_decoded
parse_expanded m decode (expanded text) = parse_decoded m (decode text)
parse_expanded m decode (undefined names) = unset names

-- `Parse`; `env` is the environment, and `decode` the YAML decoder.
unfoldable pub parse : Machine → (Text → Option Text) → (Text → Option Config) → Text → Parsed
unfolding parse_expanded expand_env
parse m env decode raw = parse_expanded m decode (expand_env env raw)

arch_label : Text → Text
arch_label goarch = if goarch == codes "amd64" then codes "x64" else goarch

os_label : Text → Text
os_label goos =
    if goos == codes "darwin"
    then codes "macos"
    else if goos == codes "windows"
    then codes "windows"
    else codes "linux"

-- `HostPool`
unfoldable pub host_pool : Machine → ℤ → Pool
unfolding arch_label os_label
host_pool m max = record {
  name = os_label m.goos;
  labels = codes "self-hosted" ∷ os_label m.goos ∷ arch_label m.goarch ∷ [];
  provider = codes "process";
  min = pos 0;
  max = if ltb_ℤ max (pos 1) then pos 4 else max;
  idle_timeout = pos 0;
  job_timeout = pos 0;
  runner_group = [];
  docker = none;
  process = none;
}
