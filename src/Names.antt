-- ===== src/Names.antt =====
-- Runner names: runnerName, belongsToPool and instanceKey of internal/orchestrator/orchestrator.go,
-- and the host id of internal/hostid/hostid.go. The random bytes, the hostname and SHA-256 are
-- arguments.
pub mod Ownership
use action_runner_cluster.Prelude.{
  Bool, List, Text, [], codes, false, if◌then◌else◌, leb, length, ltb, nat_eq, none, some,
  strip_prefix, take, text_eq, true, ℕ, ◌%◌, ◌&&◌, ◌++◌, ◌+◌, ◌-◌, ◌/◌, ◌==◌, ◌||◌, ◌∷◌,
}

-- encoding/hex: two digits for a byte.
hex_digit : ℕ → ℕ
hex_digit n = if ltb n 10 then n + b'0' else n - 10 + b'a'

unfoldable pub hex_encode : List ℕ → Text
unfolding hex_digit
hex_encode [] = []
hex_encode (b ∷ bs) = hex_digit (b / 16) ∷ hex_digit (b % 16) ∷ hex_encode bs

abbrev pub host_id_length : ℕ
host_id_length = 6

-- `hostid.ID`; no hostname stands for the error and for the empty name.
pub host_id : (List ℕ → List ℕ) → Text → Text
unfolding hex_encode
host_id sha256 [] = codes "000000"
host_id sha256 (c ∷ name) = take host_id_length (hex_encode (sha256 (c ∷ name)))

abbrev pub runner_suffix_len : ℕ
runner_suffix_len = 8

-- Everything of a runner's name before the random suffix.
name_prefix : Text → Text → Text
name_prefix host pool = codes "arc-" ++ (pool ++ (codes "-" ++ (host ++ codes "-")))

unfoldable pub runner_name : Text → Text → List ℕ → Text
unfolding name_prefix hex_encode
runner_name host pool random = name_prefix host pool ++ hex_encode random

is_hex : ℕ → Bool
is_hex c = (leb b'0' c && leb c b'9') || (leb b'a' c && leb c b'f')

all_hex : Text → Bool
unfolding is_hex
all_hex [] = true
all_hex (c ∷ cs) = if is_hex c then all_hex cs else false

unfoldable pub belongs_to_pool : Text → Text → Text → Bool
unfolding name_prefix all_hex strip_prefix
belongs_to_pool host runner pool = elim (strip_prefix (name_prefix host pool) runner) [
  | none ↦ false
  | some suffix ↦ if length suffix == runner_suffix_len then all_hex suffix else false
]

-- The key of the idle clock.
unfoldable pub instance_key : Text → Text → Text
instance_key pool runner = pool ++ (codes "/" ++ runner)
