-- ===== src/Uninstall.antt =====
-- cmd/arc/uninstall.go: cmdUninstall and the paths that it deletes. What the host, GitHub and the
-- person at the prompt answer is an argument; times are milliseconds. What is printed is left out.
pub mod Careful
pub mod Targets
use action_runner_cluster.Prelude.{
  Bool, List, Option, Text, [], any, codes, false, if◌then◌else◌, is_some, ltb, nat_eq, none, not,
  or_else, some, suc, text_eq, to_lower, trim_space, true, zero, ℕ, ◌&&◌, ◌++◌, ◌+◌, ◌==◌, ◌||◌,
  ◌∷◌,
}
use action_runner_cluster.Config.{Pool, Config}

-- The closure `add` of uninstallTargets: a path that is empty or listed already is not added.
unfoldable pub add_target : Text → List Text → List Text
unfolding any
add_target path targets =
    if path == [] || any (λ t. t == path) targets then targets else targets ++ path ∷ []

unfoldable pub add_instances : List (Option Pool) → List Text → List Text
unfolding add_target
add_instances [] targets = targets
add_instances (none ∷ more) targets = add_instances more targets
add_instances (some p ∷ more) targets = elim p.process [
  | none ↦ add_instances more targets
  | some spec ↦ add_instances more (add_target spec.instances_dir targets)
]

-- The paths that arc knows of by itself; `local_log` is empty elsewhere than on Windows.
pub record ArcPaths : Type 0 where
  pub arc_dir : Text
  pub local_log : Text
  pub default_state_dir : Text
  pub user_path : Text
  pub cache_path : Text

unfoldable pub state_targets : ArcPaths → Option Config → List Text
unfolding add_target add_instances
state_targets paths none = add_target paths.default_state_dir []
state_targets paths (some c) = add_instances c.pools (add_target c.server.state_dir [])

unfoldable pub runtime_targets : ArcPaths → Option Config → List Text
unfolding add_target state_targets
runtime_targets paths config = add_target paths.local_log (
    add_target (paths.arc_dir ++ codes "/arc.log")
      (add_target (paths.arc_dir ++ codes "/instances") (state_targets paths config)))

-- `uninstallTargets`
unfoldable pub uninstall_targets : ArcPaths → Option Config → Bool → List Text
unfolding add_target runtime_targets
uninstall_targets paths config keep_config =
    let targets : List Text = runtime_targets paths config in
    if keep_config
    then targets
    else add_target (paths.arc_dir ++ codes "/runner-template")
        (add_target paths.cache_path (add_target paths.user_path targets))

-- `confirm`, of the line that is read, none without one.
unfoldable pub confirms : Option Text → Bool
confirms none = false
confirms (some line) =
    let answer : Text = to_lower (trim_space line) in answer == codes "y" || answer == codes "yes"

-- The loop of checkNotRunning, from the probe at `now` on: true where the API still answers after
-- the deadline. None would mean that the fuel ran out.
unfoldable pub still_answers : ℕ → (ℕ → Bool) → ℕ → Option Bool
still_answers zero answers now = none
still_answers (suc fuel) answers now =
    let rest : Option Bool = still_answers fuel answers (now + 250) in
    if not (answers now) then some false else if ltb 5000 now then some true else rest

abbrev pub probes : ℕ
probes = 22

unfoldable pub still_running : (ℕ → Bool) → Bool
unfolding still_answers
still_running answers = or_else true (still_answers probes answers 0)

-- The flags, and what is found and answered during one uninstall.
pub record Uninstalling : Type 0 where
  pub yes : Bool
  pub force : Bool
  pub keep_config : Bool
  pub needs_root : Bool
  pub config : Option Config
  pub reachable : Bool
  pub busy : Option (List Text)
  pub answer : Option Text
  pub service_stops : Bool
  pub answers : ℕ → Bool
  pub exists : Text → Bool
  pub removable : Text → Bool

pub data UninstallStep : Type 0 where
  service_removed torn_down hooks_removed : UninstallStep
  deleted : Text → UninstallStep

-- Whether there is an orchestrator, for which the configuration must have loaded.
unfoldable pub has_orchestrator : Uninstalling → Bool
has_orchestrator u = is_some u.config && u.reachable

-- `checkNoBusyRunners`: only runners that are known to be busy are in the way.
unfoldable pub blocks : Option (List Text) → Bool
blocks none = false
blocks (some []) = false
blocks (some (r ∷ rs)) = true

-- `removeTargets`: a path that is not there, or that cannot be deleted, is passed over.
unfoldable pub delete_targets : Uninstalling → List Text → List UninstallStep
delete_targets u [] = []
delete_targets u (t ∷ more) =
    let rest : List UninstallStep = delete_targets u more in
    if u.exists t && u.removable t then deleted t ∷ rest else rest

unfoldable pub clean_up : Uninstalling → List UninstallStep
unfolding has_orchestrator
clean_up u = if has_orchestrator u then torn_down ∷ hooks_removed ∷ [] else []

-- What is done once the service is gone.
after_service : ArcPaths → Uninstalling → Bool × List UninstallStep
unfolding still_running clean_up delete_targets uninstall_targets
after_service paths u =
    if is_some u.config && not u.force && still_running u.answers
    then (false, service_removed ∷ [])
    else (
      true,
      service_removed
          ∷ (clean_up u ++ delete_targets u (uninstall_targets paths u.config u.keep_config)),
    )

-- `cmdUninstall`: whether it ends without an error, and what it has changed.
unfoldable pub uninstall : ArcPaths → Uninstalling → Bool × List UninstallStep
unfolding after_service has_orchestrator blocks confirms
uninstall paths u =
    if u.needs_root
    then (false, [])
    else if has_orchestrator u && not u.force && blocks u.busy
    then (false, [])
    else if not u.yes && not (confirms u.answer)
    then (false, [])
    else if not u.service_stops
    then (false, [])
    else after_service paths u
