-- ===== src/Orchestrator.antt =====
-- internal/orchestrator/orchestrator.go: the orchestrator's state, and the calls that it makes to
-- GitHub and to the providers. What they answer is an argument, `Env`: each answer may depend on
-- all calls made before. One reading of the clock serves a whole pass.
pub mod Trace
pub mod Destroy
pub mod Reap
pub mod Launch
pub mod Cull
pub mod PoolPass
pub mod Limiting
pub mod Foreign
pub mod Failures
pub mod Frame
pub mod Pass
pub mod Teardown
use action_runner_cluster.Prelude.{
  Bool, List, Map, Option, Text, [], nat_eq, not, text_eq, ℕ, ℤ, ◌==◌, ◌∷◌,
}
use action_runner_cluster.Config.{GitHub, Pool}
use action_runner_cluster.Ghapi.{Job, Repo, Runner}
use action_runner_cluster.Provider.{Instance, State}
use action_runner_cluster.Scale.{Limits, Reason}

-- A validated configuration, and the id of this host.
pub record Settings : Type 0 where
  pub github : GitHub
  pub pools : List Pool
  pub host : Text

-- `Client.RepoLevel`: runners are registered per repository.
abbrev pub repo_level : Settings → Bool
repo_level s = not (s.github.owner == [])

-- A call that changes something outside the process.
pub data Call : Type 0 where
  deregisters : Runner → Call
  registers : (repo name : Text) → Call
  creates : (pool name : Text) → Call
  destroys : (pool id : Text) → Call

-- What `RemoveRunner` answers; a runner that is gone counts as removed.
pub data Removal : Type 0 where
  removed runner_busy remove_failed : Removal

-- What the outside answers, given the calls so far, newest first.
pub record Env : Type 0 where
  pub remove : List Call → Runner → Removal
  pub jit : List Call → Text → Text → Option Runner
  pub create : List Call → Text → Text → Bool
  pub destroy : List Call → Text → Text → Bool
  pub group_known : List Call → Text → Bool
  pub random : List Call → List ℕ

pub record InstanceSnapshot : Type 0 where
  pub name : Text
  pub id : Text
  pub runner_id : ℕ
  pub state : State
  pub online : Bool
  pub busy : Bool
  pub age : ℤ  -- Go prints it, rounded to seconds
  pub created_at : ℕ
  pub detail : Text
  pub repo : Text
  pub branch : Text
  pub job : Text

pub record PoolSnapshot : Type 0 where
  pub name : Text
  pub provider : Text
  pub labels : List Text
  pub min : ℤ
  pub max : ℤ
  pub desired : ℤ
  pub live : ℕ
  pub busy : ℕ
  pub idle : ℕ
  pub starting : ℕ
  pub queued : ℕ
  pub drained : Bool
  pub reason : Reason
  pub error : Bool  -- whether the listing of its instances failed
  pub instances : List InstanceSnapshot

-- Why a pass failed, or what part of it.
pub data PassError : Type 0 where
  rate_limited list_repos_failed list_runners_failed poll_failed poll_partial : PassError

pub record RateLimit : Type 0 where
  pub limit : ℤ
  pub remaining : ℤ
  pub reset : ℕ
  pub seen : ℕ

pub record Snapshot : Type 0 where
  pub updated_at : Option ℕ  -- the zero time is none
  pub org : Text
  pub pools : List PoolSnapshot
  pub unassigned : List Job
  pub rate_limit : RateLimit
  pub repos_watched : ℕ
  pub last_error : Option PassError
  pub consecutive_failures : ℕ

-- The fields of `Orchestrator` that change, and the calls made, newest first.
pub record Orchestrator : Type 0 where
  pub snapshot : Snapshot
  pub repos : List Repo  -- nil is the empty list
  pub repos_fetched : ℕ
  pub idle_since : Map Text ℕ
  pub drained : Map Text Bool
  pub calls : List Call

unfoldable pub log : Call → Orchestrator → Orchestrator
log c o = record o { calls = c ∷ o.calls }

pub data Destroyed : Type 0 where
  gone left_busy destroy_failed : Destroyed
