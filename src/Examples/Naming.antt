-- ===== src/Examples/Naming.antt =====
-- Runner names at concrete hosts and pools.
use action_runner_cluster.Prelude.{List, Text, [], codes, false, refl, true, ℕ, ◌∷◌, ◌≡◌}
use action_runner_cluster.Names.{runner_name, belongs_to_pool}
use action_runner_cluster.Names.Ownership.{belongs_to_pool_unique}

abbrev host : Text
host = codes "abcdef"

abbrev random : List ℕ
random = 0 ∷ 17 ∷ 34 ∷ 255 ∷ []

abbrev gpu_name : Text
gpu_name = codes "arc-linux-gpu-abcdef-001122ff"

spelled : runner_name host (codes "linux-gpu") random ≡ gpu_name
unfolding runner_name
spelled = refl

-- The pool `linux` does not claim a runner of the pool `linux-gpu`.
not_claimed : belongs_to_pool host gpu_name (codes "linux") ≡ false
unfolding belongs_to_pool
not_claimed = refl

claimed : belongs_to_pool host gpu_name (codes "linux-gpu") ≡ true
unfolding belongs_to_pool
claimed = refl

belongs_to_pool_unique_example : (codes "linux-gpu" ≡ codes "linux-gpu") × (host ≡ host)
belongs_to_pool_unique_example =
    belongs_to_pool_unique host host gpu_name (codes "linux-gpu") (codes "linux-gpu") refl claimed
      claimed
