-- ===== src/ProcessProvider.antt =====
-- internal/provider/processprov/process.go, with proc_unix.go: the state of the process provider and
-- what it reads. The disk is the directory of instances, the processes are their command lines by
-- pid; the platform is one with `ps`. A runner's command line, the time and the failures of the
-- system's calls are arguments.
pub mod Removal
pub mod Cloning
pub mod Creation
pub mod Template
pub mod Preflight
use action_runner_cluster.Prelude.{
  Bool, List, Map, Option, Text, [], codes, decimal, drop, false, has_part, if◌then◌else◌, insert,
  int_eq, is_some, join_with, length, lookup, ltb, ltb_ℤ, nat_beq, negsuc, none, not, pair_eq, pos,
  pos_part, reverse, some, split_at, suc, text_eq, true, zero, ℕ, ℤ, ◌&&◌, ◌++◌, ◌-◌, ◌||◌, ◌∷◌,
}
use action_runner_cluster.Config.{ProcessSpec}
use action_runner_cluster.Provider.{State, starting, running, exited, unknown, Instance}

-- instanceState, as the state file keeps it.
pub record InstanceState : Type 0 where
  pub pool : Text
  pub runner_name : Text
  pub runner_id : ℕ
  pub pid : ℤ
  pub created_at : ℕ

-- What an instance's directory holds. No state stands for a state file that is missing or that does
-- not decode; no log for a log that cannot be read.
pub record Contents : Type 0 where
  pub saved : Option InstanceState
  pub scratch : Bool
  pub log : Option Text

pub data DirEntry : Type 0 where
  plain_file : DirEntry
  directory : Contents → DirEntry

-- The host: `instances_dir`, if it is there, the processes, and the verdicts of `verifier`.
pub record Host : Type 0 where
  pub present : Bool
  pub entries : Map Text DirEntry
  pub processes : Map ℤ Text
  pub seen : Map (ℤ × Text) Bool

-- Provider: the pool's name and its settings.
pub record Provider : Type 0 where
  pub pool : Text
  pub settings : ProcessSpec

-- filepath.Join of `instances_dir` and a name.
unfoldable pub dir_of : Provider → Text → Text
dir_of p name = p.settings.instances_dir ++ (b'/' ∷ name)

-- `readState` of what lies under a name.
unfoldable pub state_in : Option DirEntry → Option InstanceState
state_in none = none
state_in (some plain_file) = none
state_in (some (directory c)) = c.saved

-- `processAlive`
unfoldable pub process_alive : Host → ℤ → Bool
process_alive h pid = ltb_ℤ (pos 0) pid && is_some (lookup pid h.processes)

-- What `ps` tells of a pid; where it tells nothing, the pid is taken to be ours.
unfoldable pub looks_ours : Bool → Option Text → Text → Bool
unfolding has_part
looks_ours false shown dir = true
looks_ours true none dir = true
looks_ours true (some cmdline) dir =
    has_part cmdline dir
    || has_part cmdline (codes "Runner.Listener")
    || has_part cmdline (codes "run.sh")

-- `processMatches`: each pid is checked for a directory once, and the answer is remembered.
unfoldable pub process_matches : Bool → ℤ → Text → Host → Bool × Host
unfolding looks_ours
process_matches ps_works pid dir h = elim (lookup (pid, dir) h.seen) [
  | some verdict ↦ (verdict, h)
  | none ↦
      let ours : Bool = looks_ours ps_works (lookup pid h.processes) dir in
      (ours, record h { seen = insert (pid, dir) ours h.seen })
]

unfoldable pub no_state : Provider → Text → Instance
no_state p name = record {
  id = name;
  pool = p.pool;
  runner_name = name;
  runner_id = 0;
  state = unknown;
  created_at = 0;
  exit_code = pos 0;
  detail = codes "no instance state";
}

-- An instance with its state file, and what is known of its process.
unfoldable pub seen_as : Provider → Text → InstanceState → State → Text → Instance
seen_as p name st state detail = record {
  id = name;
  pool = p.pool;
  runner_name = st.runner_name;
  runner_id = st.runner_id;
  state = state;
  created_at = st.created_at;
  exit_code = pos 0;
  detail = detail;
}

-- The switch on the process of an instance.
unfoldable pub report : Bool → Provider → Text → InstanceState → Host → Instance × Host
unfolding seen_as process_alive
report ps_works p name st h =
    if not (process_alive h st.pid)
    then (seen_as p name st exited (codes "process exited"), h)
    else (let matched : Bool × Host = process_matches ps_works st.pid (dir_of p name) h in
        (
          if not matched.0
              then seen_as p name st exited (codes "pid recycled by another process")
              else seen_as p name st running (codes "pid " ++ decimal (pos_part st.pid)),
          matched.1,
        ))

-- The loop over the entries.
unfoldable pub list_entries : Bool → Provider → Map Text DirEntry → Host → List Instance × Host
unfolding no_state report
list_entries ps_works p [] h = ([], h)
list_entries ps_works p ((name, plain_file) ∷ more) h = list_entries ps_works p more h
list_entries ps_works p ((name, directory c) ∷ more) h = elim c.saved [
  | none ↦
      let rest : List Instance × Host = list_entries ps_works p more h in
      (no_state p name ∷ rest.0, rest.1)
  | some st ↦
      let shown : Instance × Host = report ps_works p name st h in
      let rest : List Instance × Host = list_entries ps_works p more shown.1 in
      (shown.0 ∷ rest.0, rest.1)
]

-- `List`, by whether the directory is there and can be read.
unfoldable pub list_when : Bool → Bool → Bool → Provider → Host → Option (List Instance) × Host
unfolding list_entries
list_when false readable ps_works p h = (some [], h)
list_when true false ps_works p h = (none, h)
list_when true true ps_works p h =
    let all : List Instance × Host = list_entries ps_works p h.entries h in (some all.0, all.1)

-- `List`; none stands for the error of a directory that is there and cannot be read.
unfoldable pub list : Bool → Bool → Provider → Host → Option (List Instance) × Host
unfolding list_when
list ps_works readable p h = list_when h.present readable ps_works p h

-- `Logs`, from the bytes of the log.
strip_newlines : Text → Text
strip_newlines [] = []
strip_newlines (c ∷ s) = if nat_beq c 10 then strip_newlines s else c ∷ s

-- strings.TrimRight of the newlines.
trim_newlines : Text → Text
unfolding strip_newlines
trim_newlines s = reverse (strip_newlines (reverse s))

last_lines : ℕ → List Text → List Text
last_lines n ls = if ltb n (length ls) then drop (length ls - n) ls else ls

lines_asked : ℤ → ℕ
lines_asked (pos zero) = 100
lines_asked (pos (suc n)) = suc n
lines_asked (negsuc n) = 100

unfoldable pub log_tail : ℤ → Text → Text
unfolding trim_newlines last_lines lines_asked split_at join_with
log_tail lines written =
    join_with (10 ∷ []) (last_lines (lines_asked lines) (split_at 10 (trim_newlines written)))
