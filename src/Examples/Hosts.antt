-- ===== src/Examples/Hosts.antt =====
-- The process provider on a host with one instance, debris and a file.
use action_runner_cluster.Prelude.{
  Any, List, [], arith, codes, delete, false, insert, int_eq, lookup, ltb, ltb_ℤ, none, pair_eq,
  pos, refl, some, text_eq, true, ℤ, ◌∷◌, ◌≡◌, ◌≢◌,
}
use action_runner_cluster.Config.{ProcessSpec}
use action_runner_cluster.Provider.{Instance, running, starting}
use action_runner_cluster.ProcessProvider.{
  InstanceState, plain_file, directory, Host, Provider, list, list_when, list_entries, no_state,
  seen_as, report, process_alive, process_matches, looks_ours, state_in, dir_of,
}
use action_runner_cluster.ProcessProvider.Removal.{
  Os, gone, Pruned, prune, prune_each, is_live, destroy, destroy_at, place_of, filepath_base,
  drop_slashes, before_slash, non_empty, stop_runner, stop_known, remove_all, remove_entry,
}
use action_runner_cluster.ProcessProvider.Removal.Places.{IsFileName}
use action_runner_cluster.ProcessProvider.Removal.Reclaimed.{IsReclaimed, destroy-IsReclaimed}
use action_runner_cluster.ProcessProvider.Removal.Listed.{IsDirectory}
use action_runner_cluster.ProcessProvider.Removal.Pruning.{IsPruned, prune-IsPruned}
use action_runner_cluster.ProcessProvider.Creation.{
  Spec, Calls, create, make_dir, build_instance, keep_started, put_dir, saved_state, started,
}
use action_runner_cluster.ProcessProvider.Cloning.{
  fine, linux, clone_tree, try_copies, copied, copy_attempts,
}
use action_runner_cluster.ProcessProvider.Creation.Undone.{IsTidy, create-IsTidy}
use action_runner_cluster.ProcessProvider.Creation.Shown.{create_shown}

abbrev settings : ProcessSpec
settings = record {
  template_dir = codes "/t";
  instances_dir = codes "/i";
  env = [];
  user = [];
  preflight_script = [];
}

abbrev here : Provider
here = record { pool = codes "mac"; settings = settings }

abbrev saved : InstanceState
saved = record {
  pool = codes "mac";
  runner_name = codes "r1";
  runner_id = 7;
  pid = pos 42;
  created_at = 5;
}

-- `r1` runs, `r2` is debris, and `f` is no directory.
abbrev host : Host
host = record {
  present = true;
  entries =
      (codes "r1", directory (record { saved = some saved; scratch = true; log = none }))
      ∷ (codes "r2", directory (record { saved = none; scratch = false; log = none }))
      ∷ (codes "f", plain_file)
      ∷ [];
  processes = (pos 42, codes "sh /i/r1/run.sh") ∷ [];
  seen = [];
}

-- A process exits a second after SIGTERM, and everything can be removed.
abbrev os : Os
os = record {
  ps_works = true;
  readable = true;
  after_term = λ pid t. ltb t 1000;
  after_kill = λ pid t. false;
  remove = λ name. gone;
}

r1-IsFileName : IsFileName (codes "r1")
r1-IsFileName = record {
  not_empty = λ e. cc;
  no_slash = ((λ e. omega (arith, e)), ((λ e. omega (arith, e)), tt));
  not_dot = λ e. cc;
  not_dots = λ e. cc;
}

destroy-IsReclaimed_example :
    IsReclaimed os here (codes "r1") host (destroy os here (codes "r1") host)
destroy-IsReclaimed_example = destroy-IsReclaimed os here (codes "r1") host r1-IsFileName

r2-IsFileName : IsFileName (codes "r2")
r2-IsFileName = record {
  not_empty = λ e. cc;
  no_slash = ((λ e. omega (arith, e)), ((λ e. omega (arith, e)), tt));
  not_dot = λ e. cc;
  not_dots = λ e. cc;
}

-- Debris, the instance gone from the processes, and no file.
abbrev dead : Host
dead = record host {
  entries =
      (codes "r1", directory (record { saved = some saved; scratch = true; log = none }))
      ∷ (codes "r2", directory (record { saved = none; scratch = false; log = none }))
      ∷ [];
  processes = [];
}

dead-IsDirectory : IsDirectory dead.entries
unfolding lookup
dead-IsDirectory = ((r1-IsFileName, refl), ((r2-IsFileName, refl), tt))

abbrev pruned : Pruned
pruned = record { count = 2; signals = []; host = record dead { entries = [] } }

prune_dead : prune os here dead ≡ some pruned
unfolding prune prune_each is_live list list_when list_entries no_state seen_as report process_alive
    process_matches looks_ours state_in dir_of destroy destroy_at place_of filepath_base
    drop_slashes before_slash non_empty stop_runner stop_known remove_all remove_entry lookup delete
    insert
prune_dead = refl

abbrev spec : Spec
spec = record {
  pool = codes "mac";
  runner_name = codes "r3";
  runner_id = 9;
  jit_config = codes "e30=";
}

abbrev calls : Calls
calls = record {
  platform = linux;
  parent_made = true;
  dir_made = true;
  runs = λ args. fine;
  scratch_made = true;
  preflight_passes = true;
  log_opened = true;
  pid = some (pos 50);
  interpreter = codes "sh ";
  state_written = true;
  kill_lands = true;
  now = 6;
}

create-IsTidy_example : IsTidy os calls here spec refl host (create os calls here spec host)
create-IsTidy_example = create-IsTidy os calls here spec refl host

positive : {pid : ℤ} → some (pos 50) ≡ some pid → ltb_ℤ (pos 0) pid ≡ true
positive {pid} e = let same : pos 50 ≡ pid = cc in rw (← same) refl

abbrev shown : Instance
shown = record {
  id = codes "r3";
  pool = codes "mac";
  runner_name = codes "r3";
  runner_id = 9;
  state = starting;
  created_at = 6;
  exit_code = pos 0;
  detail = [];
}

creates : (create os calls here spec host).result ≡ some shown
unfolding create make_dir build_instance keep_started put_dir clone_tree try_copies copied
    copy_attempts saved_state started remove_all remove_entry lookup insert delete
creates = refl

not_seen :
    (pid : ℤ)
    → lookup (pid, dir_of here (codes "r3")) (create os calls here spec host).host.seen ≢ some false
unfolding create make_dir build_instance keep_started put_dir clone_tree try_copies copied
    copy_attempts saved_state started remove_all remove_entry lookup insert delete
not_seen pid e = absurd (let q : none ≡ some false = e in cc)

create_shown_example :
    (instances : List Instance) × ((list true true here (create os calls here spec host).host).0
      ≡ some instances)
    × Any
        (λ j.
          (j.id ≡ shown.id)
          × (j.state ≡ running)
          × (j.runner_name ≡ spec.runner_name)
          × (j.runner_id ≡ spec.runner_id))
        instances
create_shown_example =
    create_shown os calls here spec host refl (λ pid e. positive e) not_seen creates

prune-IsPruned_example :
    (instances : List Instance) × ((list true true here dead).0 ≡ some instances)
    × IsPruned os dead instances pruned
prune-IsPruned_example = prune-IsPruned os here dead dead-IsDirectory prune_dead
