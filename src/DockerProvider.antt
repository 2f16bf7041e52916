-- ===== src/DockerProvider.antt =====
-- internal/provider/dockerprov/docker.go and engine.go: what the provider asks of the daemon and how
-- it reads the answers. JSON, URLs, times and the parsing of fractions are arguments; `docker.cpus`,
-- a float, is left out.
pub mod Hosts
pub mod Streams
pub mod Requests
pub mod Running
use action_runner_cluster.Prelude.{
  Bool, Option, Text, [], codes, false, if◌then◌else◌, int_eq, leb, length, ltb, nat_eq, none, not,
  pair_eq, some, take, text_eq, true, ℕ, ℤ, ◌==◌, ◌||◌,
}
use action_runner_cluster.Provider.{State, starting, running, exited, unknown}

-- How a call of the engine ends: an answer in the 200s, another status, or no answer.
pub data Reply {ℓ} (A : Type ℓ) : Type ℓ where
  replied : A → Reply A
  engine_error : ℕ → Reply A
  broken : Reply A

-- `isNotFound`
unfoldable pub is_not_found {ℓ} : {A : Type ℓ} → Reply A → Bool
is_not_found (replied a) = false
is_not_found (engine_error status) = status == 404
is_not_found broken = false

-- `removeContainer`: one that is not there is removed already.
unfoldable pub remove_container {ℓ} : {A : Type ℓ} → Reply A → Bool
unfolding is_not_found
remove_container (replied a) = true
remove_container (engine_error status) = is_not_found {A = ℕ} (engine_error status)
remove_container broken = false

-- `imageExists`; none stands for its error.
unfoldable pub image_exists {ℓ} : {A : Type ℓ} → Reply A → Option Bool
unfolding is_not_found
image_exists (replied a) = some true
image_exists (engine_error status) =
    if is_not_found {A = ℕ} (engine_error status) then some false else none
image_exists broken = none

-- `dockerState`
unfoldable pub docker_state : Text → State
docker_state s =
    if s == codes "created"
    then starting
    else if s == codes "running"
        || s == codes "restarting"
        || s == codes "paused"
        || s == codes "removing"
    then running
    else if s == codes "exited" || s == codes "dead"
    then exited
    else unknown

-- `short`
unfoldable pub short : Text → Text
short id = if ltb 12 (length id) then take 12 id else id

-- `truncateHostname`
unfoldable pub truncate_hostname : Text → Text
truncate_hostname name = if leb (length name) 63 then name else take 63 name

-- containerInspect, the state in it.
pub record Inspected : Type 0 where
  pub status : Text
  pub exit_code : ℤ
  pub oom_killed : Bool
  pub error : Text

-- `ExitCode`
unfoldable pub exit_detail : Inspected → ℤ × Text
exit_detail s = (
  s.exit_code,
  if s.oom_killed then codes "oom-killed" else if not (s.error == []) then s.error else s.status,
)
