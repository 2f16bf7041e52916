-- ===== src/Webhook/Manager/Apart.antt =====
-- Unregister deletes the hooks of this host, and never another host's.
use action_runner_cluster.Prelude.{
  All, Any, List, Option, Text, [], if◌then◌else◌, length, map, nat_eq, some, text_eq, ◌==◌, ◌∷◌,
  ◌≡◌, ◌≢◌,
}
use action_runner_cluster.Ghapi.Hooks.{Hook, HookCall, deleted}
use action_runner_cluster.Ghapi.Hooks.Apart.{own_hooks}
use action_runner_cluster.Webhook.Manager.{HookClient, placed}
use action_runner_cluster.Webhook.Manager.Ownership.{IsOfHost}

-- A request that Unregister sends: the deletion of a hook that GitHub lists for the repository, that
-- is registered for this host, and for no other host with an id of the same length.
abbrev pub IsOurs : HookClient → Text → Text × HookCall → Type 0
IsOurs c host (repo, k) =
    (hooks : List Hook) × (c.hooks_of repo ≡ some hooks)
    × Any
        (λ h.
          (k ≡ deleted h.id)
          × IsOfHost host h
          × ((other : Text) → length other ≡ length host → other ≢ host → ¬ IsOfHost other h))
        hooks

-- Every hook of this host that GitHub lists for the repository has been asked to be deleted.
abbrev pub IsCleared : HookClient → Text → List (Text × HookCall) → Text → Type 0
IsCleared c host calls repo =
    (hooks : List Hook) × (c.hooks_of repo ≡ some hooks)
    × All (λ h. IsOfHost host h → Any (λ call. call ≡ (repo, deleted h.id)) calls) hooks

-- The repositories that Unregister goes through.
abbrev pub visited : Text → Option (List Text) → Option (List Text)
visited owner repos = if owner == [] then some ([] ∷ []) else repos

-- The deletions of the hooks that bear the marker.
abbrev deletions : Text → Text → List Hook → List (Text × HookCall)
deletions marker repo hs = placed repo (map (λ q. deleted q.id) (own_hooks marker hs))
