-- ===== src/Examples/Containers.antt =====
-- The Docker provider: a log, a request and a container, and a daemon that fails once.
use action_runner_cluster.Prelude.{
  All, List, Text, [], arith, codes, decimal, false, length, none, or_else, pos, refl, replicate,
  some, true, ℕ, ◌++◌, ◌-◌, ◌∷◌, ◌≡◌, ◌≢◌,
}
use action_runner_cluster.Config.{DockerSpec}
use action_runner_cluster.ProcessProvider.Creation.{Spec}
use action_runner_cluster.DockerProvider.{replied, broken, engine_error, docker_state}
use action_runner_cluster.DockerProvider.Streams.{demux_logs}
use action_runner_cluster.DockerProvider.Streams.Frames.{
  header, frames, payloads, demux_logs-frames, demux_logs_cut_short,
}
use action_runner_cluster.DockerProvider.Requests.{
  Docker, Formats, CreateRequest, ContainerSummary, build_create_request, docker_socket,
  request_binds, size_or_zero, request_with, request_labels, read_container, is_listed,
}
use action_runner_cluster.DockerProvider.Requests.Labels.{IsMadeFrom, read_container-build}
use action_runner_cluster.DockerProvider.Running.{Once, Daemon, ensure_image, ensure_each, launch}
use action_runner_cluster.DockerProvider.Running.Kept.{IsLaunch, launch-IsLaunch}
use action_runner_cluster.DockerProvider.Running.Pulls.{ensure_image_once}

abbrev two_frames : List (ℕ × Text)
two_frames = (1, codes "out") ∷ (2, codes "err") ∷ []

demux_logs-frames_example : demux_logs (frames two_frames) ≡ some (payloads two_frames)
demux_logs-frames_example =
    demux_logs-frames two_frames ((omega arith, omega arith), ((omega arith, omega arith), tt))

demux_logs_cut_short_example :
    demux_logs (frames two_frames ++ (header 1 5 ++ codes "out"))
    ≡ some (payloads two_frames ++ (codes "out" ++ replicate (5 - length (codes "out")) 0))
demux_logs_cut_short_example =
    demux_logs_cut_short two_frames 1 5 (codes "out")
      ((omega arith, omega arith), ((omega arith, omega arith), tt)) (omega arith) (omega arith)
      (omega arith)

abbrev settings : DockerSpec
settings = record {
  host = codes "unix:///var/run/docker.sock";
  image = codes "runner";
  pull = codes "missing";
  platform = [];
  privileged = false;
  network = [];
  isolation = [];
  volumes = [];
  env = [];
  work_tmpfs = false;
  work_tmpfs_size = [];
  work_dir = codes "/w";
  memory = [];
  shm_size = [];
  docker_in_docker = true;
  tls = none;
  registry_auth = none;
}

abbrev docker : Docker
docker = record { pool = codes "linux"; settings = settings; windows = false }

abbrev spec : Spec
spec = record {
  pool = codes "linux";
  runner_name = codes "arc-linux-1";
  runner_id = 12;
  jit_config = codes "e30=";
}

abbrev formats : Formats
formats = record { scaled = λ s n. none; show_time = λ t. decimal t; read_time = λ s. none }

-- The daemon cannot be reached at first, and is there later.
abbrev daemon : Daemon
daemon = record {
  version = replied (codes "linux");
  image = replied 0;
  pull = replied [];
  created = replied (codes "c1");
  lost = none;
  start = broken;
  remove = λ id. engine_error 404;
}

abbrev away : Daemon
away = record daemon { image = broken }

abbrev fresh : Once
fresh = record { done = false; failed = false }

ensure_image_once_example :
    (All
      (λ b. b ≡ (ensure_image away (codes "missing") fresh).fine)
      (ensure_each (codes "missing") (away ∷ daemon ∷ []) fresh).0)
    × ((ensure_each (codes "missing") (away ∷ daemon ∷ []) fresh).1
        ≡ (ensure_image away (codes "missing") fresh).events)
ensure_image_once_example =
    ensure_image_once (codes "missing") away (daemon ∷ []) fresh (λ e. cc) (λ e. cc) refl

launch-IsLaunch_example : IsLaunch docker spec 5 daemon (
  (launch formats docker spec 5 daemon fresh).result,
  (launch formats docker spec 5 daemon fresh).events,
)
launch-IsLaunch_example = launch-IsLaunch formats docker spec 5 daemon fresh

abbrev request : CreateRequest
request = request_with formats docker spec 5 (docker_socket ∷ []) (pos 0) (pos 0)

requested : build_create_request formats docker spec 5 ≡ some request
unfolding build_create_request request_binds size_or_zero request_with docker_socket
requested = refl

abbrev container : ContainerSummary
container = record {
  id = codes "c1";
  names = codes "/arc-linux-1" ∷ [];
  state = codes "running";
  status = codes "Up";
  labels = request_labels formats docker spec 5;
}

made : IsMadeFrom request container
unfolding request_with
made = record { labels = refl }

read_container-build_example :
    (is_listed docker container ≡ true)
    × ((other : Docker) → other.pool ≢ docker.pool → is_listed other container ≡ false)
    × ((read_container formats docker container).id ≡ container.id)
    × ((read_container formats docker container).pool ≡ docker.pool)
    × ((read_container formats docker container).runner_name ≡ spec.runner_name)
    × ((read_container formats docker container).runner_id ≡ spec.runner_id)
    × ((read_container formats docker container).created_at
        ≡ or_else 0 (formats.read_time (formats.show_time 5)))
    × ((read_container formats docker container).state ≡ docker_state container.state)
read_container-build_example =
    read_container-build formats docker spec 5 container requested made (λ e. cc) (omega arith)
