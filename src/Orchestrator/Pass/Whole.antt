-- ===== src/Orchestrator/Pass/Whole.antt =====
-- internal/orchestrator/orchestrator.go: reconcileOnce asks only for what its readings allow.
use action_runner_cluster.Prelude.{All, List, Map, Option, Text, [], none, some, text_eq}
use action_runner_cluster.Ghapi.{Repo, Runner}
use action_runner_cluster.Provider.{Instance}
use action_runner_cluster.Overrides.{Overrides}
use action_runner_cluster.Orchestrator.{Orchestrator}
use action_runner_cluster.Orchestrator.Pass.{Readings, Reaped, index_runners}
use action_runner_cluster.Orchestrator.Pass.Safety.{Listed}

-- What is kept of each pool's instances was listed by its provider.
abbrev pub Kept : Readings → Reaped → Type 0
Kept rd acc = All (λ (kv : Text × List Instance). All (Listed rd kv.0) kv.1) acc.live

-- The runners that a pass goes by.
abbrev pub seen : Readings → Option (List Repo) → Map Text Runner
seen rd none = []
seen rd (some repos) = elim (rd.list_runners repos) [ none ↦ [] | some rs ↦ index_runners rs [] ]
