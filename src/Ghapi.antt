-- ===== src/Ghapi.antt =====
-- internal/ghapi: what the client hands to the rest of the program.
pub mod SelfHosted
pub mod Polling
pub mod Requests
pub mod Paging
pub mod Globs
pub mod Repos
pub mod Hooks
use action_runner_cluster.Prelude.{Bool, List, Text, codes, nat_eq, text_eq, ℕ, ◌==◌}

-- ghapi.Repo; times are nanoseconds.
pub record Repo : Type 0 where
  pub name : Text
  pub full_name : Text
  pub archived : Bool
  pub disabled : Bool
  pub fork : Bool
  pub pushed_at : ℕ
  pub owner : Text

-- ghapi.Job
pub record Job : Type 0 where
  pub id : ℕ
  pub run_id : ℕ
  pub repo : Text
  pub branch : Text
  pub name : Text
  pub labels : List Text
  pub status : Text
  pub started : ℕ
  pub queued_at : ℕ
  pub runner : Text

pub record Jobs : Type 0 where
  pub queued : List Job
  pub running : List Job

pub record RunnerLabel : Type 0 where
  pub name : Text
  pub kind : Text

-- ghapi.Runner
pub record Runner : Type 0 where
  pub id : ℕ
  pub name : Text
  pub os : Text
  pub status : Text
  pub busy : Bool
  pub labels : List RunnerLabel
  pub repo : Text

unfoldable pub online : Runner → Bool
online r = r.status == codes "online"
