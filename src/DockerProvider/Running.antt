-- ===== src/DockerProvider/Running.antt =====
-- internal/provider/dockerprov/docker.go: Preflight, ensureImage, Create, Destroy and Prune. What
-- the daemon answers is an argument, and what was asked of it is kept as a list of events.
pub mod Pulls
pub mod Kept
use action_runner_cluster.Prelude.{
  Bool, List, Option, Text, [], codes, false, if◌then◌else◌, nat_eq, none, not, or_else, pos, some,
  suc, text_eq, true, ℕ, ◌&&◌, ◌++◌, ◌==◌, ◌∷◌,
}
use action_runner_cluster.Config.{DockerSpec}
use action_runner_cluster.Provider.{State, starting, running, exited, unknown, Instance}
use action_runner_cluster.DockerProvider.{
  Reply, replied, engine_error, broken, image_exists, remove_container,
}
use action_runner_cluster.DockerProvider.Streams.{PullMessage, pull_image}
use action_runner_cluster.DockerProvider.Requests.{
  Docker, CreateRequest, Formats, build_create_request, ContainerSummary, list_containers,
}
use action_runner_cluster.ProcessProvider.Creation.{Spec}

-- pullOnce and pullErr.
pub record Once : Type 0 where
  pub done : Bool
  pub failed : Bool

pub data Event : Type 0 where
  asked_image pulled : Event
  made started start_failed removed remove_failed : Text → Event

-- The daemon's answers during one operation; a container that is created has an id. An answer to the
-- creation that is lost or cannot be read may stand for a container that was made, `lost`.
pub record Daemon : Type 0 where
  pub version : Reply Text
  pub image : Reply ℕ
  pub pull : Reply (List PullMessage)
  pub created : Reply Text
  pub lost : Option Text
  pub start : Reply ℕ
  pub remove : Text → Reply ℕ

pub record Ensured : Type 0 where
  pub fine : Bool
  pub events : List Event
  pub once : Once

ensure_never : Daemon → Once → Ensured
unfolding image_exists
ensure_never d o = record {
  fine = or_else false (image_exists d.image);
  events = asked_image ∷ [];
  once = o;
}

ensure_always : Daemon → Once → Ensured
unfolding pull_image
ensure_always d o = record { fine = pull_image d.pull; events = pulled ∷ []; once = o }

-- The function that pullOnce runs.
pull_missing : Daemon → Option Bool → Ensured
unfolding pull_image
pull_missing d none = record {
  fine = false;
  events = asked_image ∷ [];
  once = record { done = true; failed = true };
}
pull_missing d (some true) = record {
  fine = true;
  events = asked_image ∷ [];
  once = record { done = true; failed = false };
}
pull_missing d (some false) = record {
  fine = pull_image d.pull;
  events = asked_image ∷ pulled ∷ [];
  once = record { done = true; failed = not (pull_image d.pull) };
}

ensure_missing : Daemon → Once → Ensured
unfolding pull_missing image_exists
ensure_missing d o =
    if o.done
    then record { fine = not o.failed; events = []; once = o }
    else pull_missing d (image_exists d.image)

-- `ensureImage`, by the pull policy.
unfoldable pub ensure_image : Daemon → Text → Once → Ensured
unfolding ensure_never ensure_always ensure_missing
ensure_image d policy o =
    if policy == codes "never"
    then ensure_never d o
    else if policy == codes "always"
    then ensure_always d o
    else ensure_missing d o

-- One call after the other, each with the daemon's answers at its time.
unfoldable pub ensure_each : Text → List Daemon → Once → List Bool × List Event
unfolding ensure_image
ensure_each policy [] o = ([], [])
ensure_each policy (d ∷ ds) o =
    let e : Ensured = ensure_image d policy o in
    let rest : List Bool × List Event = ensure_each policy ds e.once in
    (e.fine ∷ rest.0, e.events ++ rest.1)

-- `Preflight`: a daemon that answers, of the right kind, and the image.
unfoldable pub docker_preflight : Docker → Daemon → Once → Bool × Once
unfolding ensure_image
docker_preflight p d o = elim d.version [
  | engine_error status ↦ (false, o)
  | broken ↦ (false, o)
  | replied os ↦
      if p.windows && not (os == codes "windows")
      then (false, o)
      else if not p.windows && os == codes "windows"
      then (false, o)
      else (let e : Ensured = ensure_image d p.settings.pull o in (e.fine, e.once))
]

pub record Launched : Type 0 where
  pub result : Option Instance
  pub events : List Event
  pub once : Once

unfoldable pub starting_instance : Docker → Spec → ℕ → Text → Instance
starting_instance p spec now id = record {
  id = id;
  pool = p.pool;
  runner_name = spec.runner_name;
  runner_id = spec.runner_id;
  state = starting;
  created_at = now;
  exit_code = pos 0;
  detail = [];
}

unfoldable pub is_reply {ℓ} : {A : Type ℓ} → Reply A → Bool
is_reply (replied a) = true
is_reply (engine_error status) = false
is_reply broken = false

-- A container that would not start is removed.
start_made : Docker → Spec → ℕ → Daemon → Text → Option Instance × List Event
unfolding is_reply starting_instance remove_container
start_made p spec now d id =
    if is_reply d.start
    then (some (starting_instance p spec now id), made id ∷ started id ∷ [])
    else (
      none,
      made id
          ∷ start_failed id
          ∷ (if remove_container (d.remove id) then removed id else remove_failed id)
          ∷ [],
    )

made_unseen : Option Text → List Event
made_unseen none = []
made_unseen (some id) = made id ∷ []

make_container : Docker → Spec → ℕ → Daemon → Reply Text → Option Instance × List Event
unfolding start_made made_unseen
make_container p spec now d (replied id) = start_made p spec now d id
make_container p spec now d (engine_error status) = (none, [])
make_container p spec now d broken = (none, made_unseen d.lost)

request_container : Docker → Spec → ℕ → Daemon → Option CreateRequest → Option Instance × List Event
unfolding make_container
request_container p spec now d none = (none, [])
request_container p spec now d (some req) = make_container p spec now d d.created

-- `Create`
unfoldable pub launch : Formats → Docker → Spec → ℕ → Daemon → Once → Launched
unfolding ensure_image request_container build_create_request
launch f p spec now d o =
    let e : Ensured = ensure_image d p.settings.pull o in
    let c : Option Instance × List Event =
      request_container p spec now d (build_create_request f p spec now) in
    if e.fine
    then record { result = c.0; events = e.events ++ c.1; once = e.once }
    else record { result = none; events = e.events; once = e.once }

unfoldable pub is_exited : State → Bool
is_exited exited = true
is_exited starting = false
is_exited running = false
is_exited unknown = false

-- `Destroy` of one container.
unfoldable pub destroy_container : Daemon → Text → Event
unfolding remove_container
destroy_container d id = if remove_container (d.remove id) then removed id else remove_failed id

-- The loop of Prune: how many are removed, and the events.
unfoldable pub prune_containers : Daemon → List Instance → ℕ × List Event
unfolding is_exited destroy_container remove_container
prune_containers d [] = (0, [])
prune_containers d (i ∷ more) =
    let rest : ℕ × List Event = prune_containers d more in
    if not (is_exited i.state) then rest else (
      if remove_container (d.remove i.id) then suc rest.0 else rest.0,
      destroy_container d i.id ∷ rest.1,
    )

-- `Prune`; none stands for the error of List.
unfoldable pub docker_prune :
    Formats → Docker → Daemon → Reply (List ContainerSummary) → Option (ℕ × List Event)
unfolding prune_containers list_containers
docker_prune f p d (replied containers) = some (prune_containers d (list_containers f p containers))
docker_prune f p d (engine_error status) = none
docker_prune f p d broken = none
