-- ===== src/Provider.antt =====
-- internal/provider/provider.go: an instance as the providers report it. Times are nanoseconds.
use action_runner_cluster.Prelude.{Text, pos, ℕ, ℤ, ◌-ℤ◌}

pub data State : Type 0 where
  starting running exited unknown : State

pub record Instance : Type 0 where
  pub id : Text
  pub pool : Text
  pub runner_name : Text
  pub runner_id : ℕ
  pub state : State
  pub created_at : ℕ
  pub exit_code : ℤ
  pub detail : Text

-- `Instance.Age`, with the clock's reading as an argument.
unfoldable pub age : ℕ → Instance → ℤ
age now inst = pos now -ℤ pos inst.created_at
