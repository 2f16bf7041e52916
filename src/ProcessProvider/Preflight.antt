-- ===== src/ProcessProvider/Preflight.antt =====
-- internal/provider/processprov/process.go: Preflight and checkRunnerDeps. What each call of the system
-- comes to is an argument.
pub mod Demands
use action_runner_cluster.Prelude.{
  Bool, List, Option, Text, [], any, codes, false, has_part, if◌then◌else◌, nat_eq, none, not, some,
  text_eq, to_lower, trim_space, ◌&&◌, ◌++◌, ◌==◌, ◌∷◌,
}
use action_runner_cluster.ProcessProvider.Cloning.{
  Platform, darwin, linux, windows, elsewhere, runner_entrypoint, copy_tool,
}
use action_runner_cluster.ProcessProvider.Template.{Disk, Tree, Setup, has_file, ensure_template}

pub data PreflightError : Type 0 where
  no_template template_unreadable not_a_directory no_entrypoint instances_dir no_copy_tool
        no_preflight_script missing_libraries :
      PreflightError
  stale_file : Text → PreflightError

-- How the probe of the runner's version ends: its output and the text of its error.
pub data VersionProbe : Type 0 where
  no_listener works : VersionProbe
  fails : Text → Text → VersionProbe

library_markers : List Text
library_markers =
    codes "icu"
    ∷ codes "shared librar"
    ∷ codes "globalization"
    ∷ codes "dotnet"
    ∷ codes "no such file"
    ∷ []

-- `checkRunnerDeps`: only a failure that names a missing library is an error.
unfoldable pub deps_missing : VersionProbe → Bool
unfolding library_markers has_part any to_lower trim_space
deps_missing no_listener = false
deps_missing works = false
deps_missing (fails output err) =
    any (λ marker. has_part (to_lower (trim_space output ++ (codes " " ++ err))) marker)
      library_markers

-- What Preflight asks of the host.
pub record Checks : Type 0 where
  pub stat_works : Bool
  pub instances_made : Bool
  pub tool_found : Bool
  pub script_found : Bool
  pub probe : VersionProbe

check_host : Checks → Platform → Text → Option PreflightError
unfolding deps_missing
check_host c os script =
    if not c.instances_made
    then some instances_dir
    else if not c.tool_found
    then some no_copy_tool
    else if not (script == []) && not c.script_found
    then some no_preflight_script
    else elim os [
      | linux ↦ if deps_missing c.probe then some missing_libraries else none
      | darwin ↦ none
      | windows ↦ none
      | elsewhere ↦ none
    ]

check_tree : Checks → Platform → Text → Tree → Option PreflightError
unfolding check_host has_file runner_entrypoint
check_tree c os script t =
    if not t.is_dir
    then some not_a_directory
    else if not (has_file (runner_entrypoint os) t.files)
    then some no_entrypoint
    else if has_file (codes ".runner") t.files
    then some (stale_file (codes ".runner"))
    else if has_file (codes ".credentials") t.files
    then some (stale_file (codes ".credentials"))
    else check_host c os script

check_template : Checks → Platform → Text → Option Tree → Option PreflightError
unfolding check_tree
check_template c os script none = some template_unreadable
check_template c os script (some t) =
    if not c.stat_works then some template_unreadable else check_tree c os script t

-- `Preflight`, its error and the disk after it; the tool for copies is `copy_tool` of the platform.
unfoldable pub preflight :
    Setup → Checks → (template_dir script : Text) → Disk → Option PreflightError × Disk
unfolding check_template ensure_template
preflight s c template_dir script d =
    let ready : Bool × Disk = ensure_template s template_dir d in
    if not ready.0
    then (some no_template, ready.1)
    else (check_template c s.platform script ready.1.template, ready.1)
