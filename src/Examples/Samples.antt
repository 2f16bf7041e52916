-- ===== src/Examples/Samples.antt =====
-- Pools, jobs, runners and an orchestrator that the examples share.
use action_runner_cluster.Prelude.{List, Map, Text, [], codes, false, none, pos, some, true, ℕ, ◌∷◌}
use action_runner_cluster.Config.{GitHub, Pool}
use action_runner_cluster.Ghapi.{Job, Runner}
use action_runner_cluster.Provider.{Instance, running, exited}
use action_runner_cluster.Scale.{Limits}
use action_runner_cluster.Orchestrator.{Settings, Env, removed, RateLimit, Orchestrator}

abbrev pub linux : Pool
linux = record {
  name = codes "linux";
  labels = codes "Linux" ∷ codes "x64" ∷ [];
  provider = codes "docker";
  min = pos 0;
  max = pos 2;
  idle_timeout = pos 300;
  job_timeout = pos 20000;
  runner_group = [];
  docker = none;
  process = none;
}

abbrev pub gpu : Pool
gpu = record linux {
  name = codes "linux-gpu";
  labels = codes "linux" ∷ codes "x64" ∷ codes "gpu" ∷ [];
  max = pos 1;
}

abbrev pub pools : List Pool
pools = linux ∷ gpu ∷ []

abbrev pub build_job : Job
build_job = record {
  id = 1;
  run_id = 10;
  repo = codes "app";
  branch = codes "main";
  name = codes "build";
  labels = codes "self-hosted" ∷ codes "linux" ∷ [];
  status = codes "queued";
  started = 0;
  queued_at = 0;
  runner = [];
}

abbrev pub train_job : Job
train_job = record build_job { id = 2; repo = codes "web"; labels = codes "GPU" ∷ [] }

abbrev pub mac_job : Job
mac_job = record build_job { id = 3; labels = codes "macos" ∷ [] }

abbrev pub jobs : List Job
jobs = build_job ∷ train_job ∷ mac_job ∷ []

abbrev pub limits : Map Text Limits
limits =
    (codes "linux", record { min = pos 0; max = pos 2 })
    ∷ (codes "linux-gpu", record { min = pos 0; max = pos 1 })
    ∷ []

abbrev pub live : Map Text ℕ
live = (codes "linux", 2) ∷ []

abbrev pub idle_runner : Runner
idle_runner = record {
  id = 7;
  name = codes "arc-linux-abcdef-00112233";
  os = codes "linux";
  status = codes "online";
  busy = false;
  labels = record { name = codes "linux"; kind = codes "custom" } ∷ [];
  repo = codes "app";
}

abbrev pub by_name : Map Text Runner
by_name = (idle_runner.name, idle_runner) ∷ []

abbrev pub idle_inst : Instance
idle_inst = record {
  id = codes "c1";
  pool = codes "linux";
  runner_name = codes "arc-linux-abcdef-00112233";
  runner_id = 7;
  state = running;
  created_at = 100;
  exit_code = pos 0;
  detail = [];
}

abbrev pub done_inst : Instance
done_inst = record idle_inst {
  id = codes "c2";
  runner_name = codes "arc-linux-abcdef-44556677";
  state = exited;
}

abbrev pub github : GitHub
github = record {
  org = [];
  owner = codes "chrisle";
  token = codes "t";
  app = none;
  webhook = false;
  api_url = [];
  web_url = [];
  runner_group = [];
  poll_interval = pos 15000000000;
  repos = record {
    include = [];
    include_url = [];
    exclude = [];
    active_within = pos 0;
    refresh_interval = pos 600;
    archived = false;
  };
}

abbrev pub settings : Settings
settings = record { github = github; pools = pools; host = codes "abcdef" }

-- Everything that the outside is asked for works, and registrations get the id 9.
abbrev pub willing : Env
willing = record {
  remove = λ calls r. removed;
  jit = λ calls repo name. some (record idle_runner { id = 9; name = name });
  create = λ calls pool name. true;
  destroy = λ calls pool id. true;
  group_known = λ calls group. true;
  random = λ calls. 1 ∷ 2 ∷ 3 ∷ 255 ∷ [];
}

abbrev pub no_rate : RateLimit
no_rate = record { limit = pos 0; remaining = pos 0; reset = 0; seen = 0 }

abbrev pub fresh : Orchestrator
fresh = record {
  snapshot = record {
    updated_at = none;
    org = [];
    pools = [];
    unassigned = [];
    rate_limit = no_rate;
    repos_watched = 0;
    last_error = none;
    consecutive_failures = 0;
  };
  repos = [];
  repos_fetched = 0;
  idle_since = [];
  drained = [];
  calls = [];
}
