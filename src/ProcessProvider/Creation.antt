-- ===== src/ProcessProvider/Creation.antt =====
-- internal/provider/processprov/process.go: Create and buildEnv. What each
-- call of the system comes to is an argument; runner names hold no slash and are no dots, so that
-- the directory is the entry of that name.
pub mod Building
pub mod Undone
pub mod Shown
use action_runner_cluster.Prelude.{
  Bool, List, Map, Option, Text, [], codes, delete, false, if◌then◌else◌, insert, int_eq, nat_eq,
  none, not, pair_eq, pos, some, text_eq, true, ℕ, ℤ, ◌&&◌, ◌++◌, ◌==◌, ◌∷◌,
}
use action_runner_cluster.Provider.{starting, Instance}
use action_runner_cluster.ProcessProvider.{
  InstanceState, Contents, directory, Host, Provider, dir_of,
}
use action_runner_cluster.ProcessProvider.Removal.{Signal, sigkill, Os, remove_all}
use action_runner_cluster.ProcessProvider.Cloning.{Platform, runner_entrypoint, Ended, clone_tree}

-- provider.Spec, the request for a runner.
pub record Spec : Type 0 where
  pub pool : Text
  pub runner_name : Text
  pub runner_id : ℕ
  pub jit_config : Text

-- What the calls of one Create come to. A process that starts has a pid; `interpreter` is what
-- stands before the script in its command line. `kill_lands` tells whether SIGKILL, whose error is
-- dropped and whose effect is not awaited, has ended the process when Create returns.
pub record Calls : Type 0 where
  pub platform : Platform
  pub parent_made : Bool
  pub dir_made : Bool
  pub runs : List Text → Ended
  pub scratch_made : Bool
  pub preflight_passes : Bool
  pub log_opened : Bool
  pub pid : Option ℤ
  pub interpreter : Text
  pub state_written : Bool
  pub kill_lands : Bool
  pub now : ℕ

pub record Created : Type 0 where
  pub result : Option Instance
  pub signals : List Signal
  pub host : Host

unfoldable pub put_dir : Text → Contents → Host → Host
put_dir name c h = record h { entries = insert name (directory c) h.entries }

refused : Host → Created
refused h = record { result = none; signals = []; host = h }

-- The deferred removal of a directory that is half built; its own error is dropped.
undo : Os → Text → List Signal → Host → Created
unfolding remove_all
undo os name signals h = record {
  result = none;
  signals = signals;
  host = (remove_all os name h).1;
}

-- The command line of the runner: its script, `--jitconfig` and the configuration.
unfoldable pub command_line : Calls → Provider → Spec → Text
unfolding runner_entrypoint
command_line calls p spec =
    calls.interpreter
    ++ (dir_of p spec.runner_name
        ++ (codes "/"
            ++ (runner_entrypoint calls.platform ++ (codes " --jitconfig " ++ spec.jit_config))))

abbrev pub bare_dir : Contents
bare_dir = record { saved = none; scratch = false; log = none }

unfoldable pub saved_state : Calls → Provider → Spec → ℤ → InstanceState
saved_state calls p spec pid = record {
  pool = p.pool;
  runner_name = spec.runner_name;
  runner_id = spec.runner_id;
  pid = pid;
  created_at = calls.now;
}

unfoldable pub started : Calls → Provider → Spec → Instance
started calls p spec = record {
  id = spec.runner_name;
  pool = p.pool;
  runner_name = spec.runner_name;
  runner_id = spec.runner_id;
  state = starting;
  created_at = calls.now;
  exit_code = pos 0;
  detail = [];
}

-- The process has started with `pid`: its state is written, or it is sent SIGKILL and the directory
-- goes, with what a write that failed has left in it.
unfoldable pub keep_started : Os → Calls → Provider → Spec → ℤ → Host → Created
unfolding undo saved_state started put_dir command_line
keep_started os calls p spec pid h =
    let h1 : Host = record h { processes = insert pid (command_line calls p spec) h.processes } in
    if calls.state_written
    then record {
      result = some (started calls p spec);
      signals = [];
      host =
          put_dir spec.runner_name
            (record { saved = some (saved_state calls p spec pid); scratch = true; log = some [] })
            h1;
    }
    else undo os spec.runner_name (sigkill pid ∷ []) (record h1 {
      processes = if calls.kill_lands then delete pid h1.processes else h1.processes;
    })

-- From the preflight script on, every failure is undone.
unfoldable pub build_instance : Os → Calls → Provider → Spec → Host → Created
unfolding undo put_dir keep_started
build_instance os calls p spec h =
    if not (p.settings.preflight_script == []) && not calls.preflight_passes
    then undo os spec.runner_name [] h
    else if not calls.log_opened
    then undo os spec.runner_name [] h
    else elim calls.pid [
      | none ↦ undo os spec.runner_name [] h
      | some pid ↦ keep_started os calls p spec pid h
    ]

-- The clone of the template, and the directory for temporary files in it.
unfoldable pub make_dir : Os → Calls → Provider → Spec → Host → Created
unfolding refused put_dir build_instance clone_tree
make_dir os calls p spec h =
    if not calls.dir_made
    then refused h
    else (let h1 : Host = put_dir spec.runner_name bare_dir h in
        if not
          (clone_tree calls.runs calls.platform p.settings.template_dir (dir_of p spec.runner_name))
        then refused h1
        else if not calls.scratch_made
        then refused h1
        else build_instance os calls p spec
            (put_dir spec.runner_name (record bare_dir { scratch = true }) h))

-- `Create`
unfoldable pub create : Os → Calls → Provider → Spec → Host → Created
unfolding refused make_dir remove_all
create os calls p spec h =
    let cleared : Bool × Host = remove_all os spec.runner_name h in
    if not cleared.0
    then refused cleared.1
    else if not calls.parent_made
    then refused cleared.1
    else make_dir os calls p spec (record cleared.1 { present = true })

-- `buildEnv`, on the environment of arc itself.
unfoldable pub settings_env : Map Text Text → List Text
settings_env [] = []
settings_env ((key, val) ∷ more) = (key ++ (codes "=" ++ val)) ∷ settings_env more

unfoldable pub build_env : List Text → Provider → Text → Spec → List Text
unfolding settings_env
build_env inherited p dir spec =
    inherited
    ++ ((codes "ARC_POOL=" ++ p.pool)
        ∷ (codes "ARC_RUNNER_NAME=" ++ spec.runner_name)
        ∷ (codes "ARC_INSTANCE_DIR=" ++ dir)
        ∷ (codes "RUNNER_TEMP=" ++ (dir ++ codes "/_work/_temp"))
        ∷ (codes "TMPDIR=" ++ (dir ++ codes "/_temp"))
        ∷ settings_env p.settings.env)
