-- ===== src/ProcessProvider/Removal.antt =====
-- internal/provider/processprov/process.go: Destroy, waitForExit and Prune. Times are milliseconds
-- from the moment that a signal is sent. How processes answer signals, and what os.RemoveAll comes
-- to, are arguments.
pub mod Places
pub mod Reclaimed
pub mod Waiting
pub mod Verdicts
pub mod Listed
pub mod Pruning
use action_runner_cluster.Prelude.{
  Bool, List, Option, Text, [], codes, delete, false, if◌then◌else◌, insert, int_eq, lookup, ltb,
  nat_beq, nat_eq, none, not, or_else, pair_eq, reverse, some, suc, text_eq, true, zero, ℕ, ℤ, ◌++◌,
  ◌+◌, ◌/◌, ◌==◌, ◌||◌, ◌∷◌,
}
use action_runner_cluster.Provider.{State, starting, running, exited, unknown, Instance}
use action_runner_cluster.ProcessProvider.{
  InstanceState, Contents, DirEntry, plain_file, directory, Host, Provider, dir_of, state_in,
  process_alive, process_matches, list,
}

pub data Signal : Type 0 where
  sigterm sigkill : ℤ → Signal

-- os.RemoveAll of one entry: it is gone, or some of it is left, with the state file or without.
pub data RemoveAll : Type 0 where
  gone : RemoveAll
  stuck : Bool → RemoveAll

-- What the host does by itself: `ps`, the reading of the directory, how long a process group stays
-- alive after a signal, and the removal of an entry.
pub record Os : Type 0 where
  pub ps_works : Bool
  pub readable : Bool
  pub after_term : ℤ → ℕ → Bool
  pub after_kill : ℤ → ℕ → Bool
  pub remove : Text → RemoveAll

-- filepath.Base
unfoldable pub drop_slashes : Text → Text
drop_slashes [] = []
drop_slashes (c ∷ s) = if nat_beq c b'/' then drop_slashes s else c ∷ s

unfoldable pub before_slash : Text → Text
before_slash [] = []
before_slash (c ∷ s) = if nat_beq c b'/' then [] else c ∷ before_slash s

unfoldable pub non_empty : Text → Text
non_empty [] = codes "/"
non_empty (c ∷ s) = reverse (before_slash (c ∷ s))

unfoldable pub filepath_base : Text → Text
unfolding drop_slashes before_slash non_empty
filepath_base [] = codes "."
filepath_base (c ∷ s) = non_empty (drop_slashes (reverse (c ∷ s)))

-- What filepath.Join of `instances_dir` and a base name is: a name in it, the directory itself, or
-- the one above.
pub data Place : Type 0 where
  under : Text → Place
  itself above : Place

unfoldable pub place_of : Text → Place
unfolding filepath_base
place_of id =
    let base : Text = filepath_base id in
    if base == codes "." || base == codes "/"
    then itself
    else if base == codes ".."
    then above
    else under base

-- `waitForExit`: it looks every 200 ms until the deadline, and once more then. `alive` tells of each
-- time whether the process runs.
unfoldable pub wait_for_exit : ℕ → (ℕ → Bool) → ℕ → ℕ → Option Bool
wait_for_exit zero alive now deadline = none
wait_for_exit (suc fuel) alive now deadline =
    let rest : Option Bool = wait_for_exit fuel alive (now + 200) deadline in
    if ltb now deadline then (if alive now then rest else some true) else some (not (alive now))

abbrev pub rounds : ℕ → ℕ
rounds timeout = timeout / 200 + 2

unfoldable pub exits_within : (ℕ → Bool) → ℕ → Bool
unfolding wait_for_exit
exits_within alive timeout = or_else false (wait_for_exit (rounds timeout) alive 0 timeout)

unfoldable pub forget_process : ℤ → Host → Host
forget_process pid h = record h { processes = delete pid h.processes }

-- SIGTERM, twenty seconds, SIGKILL, five seconds.
unfoldable pub stop_group : Os → ℤ → Host → List Signal × Host
unfolding exits_within forget_process
stop_group os pid h =
    if exits_within (os.after_term pid) 20000 then (sigterm pid ∷ [], forget_process pid h) else (
      sigterm pid ∷ sigkill pid ∷ [],
      if exits_within (os.after_kill pid) 5000 then forget_process pid h else h,
    )

-- The guard of Destroy: a state that is readable, a process that is alive, and that is ours.
unfoldable pub stop_known : Os → Provider → Text → Option InstanceState → Host → List Signal × Host
unfolding stop_group process_alive process_matches
stop_known os p name none h = ([], h)
stop_known os p name (some st) h =
    if not (process_alive h st.pid)
    then ([], h)
    else (let matched : Bool × Host = process_matches os.ps_works st.pid (dir_of p name) h in
        if matched.0 then stop_group os st.pid matched.1 else ([], matched.1))

unfoldable pub stop_runner : Os → Provider → Text → Host → List Signal × Host
unfolding stop_known state_in
stop_runner os p name h = stop_known os p name (state_in (lookup name h.entries)) h

left_over : Bool → DirEntry → DirEntry
left_over with_state plain_file = plain_file
left_over with_state (directory c) =
    directory (record c { saved = if with_state then c.saved else none })

unfoldable pub remove_entry : RemoveAll → Text → Option DirEntry → Host → Bool × Host
unfolding left_over
remove_entry how name none h = (true, h)
remove_entry gone name (some e) h = (true, record h { entries = delete name h.entries })
remove_entry (stuck with_state) name (some e) h =
    (false, record h { entries = insert name (left_over with_state e) h.entries })

-- os.RemoveAll of the entry `name`; an entry that is not there is no error.
unfoldable pub remove_all : Os → Text → Host → Bool × Host
unfolding remove_entry
remove_all os name h = remove_entry (os.remove name) name (lookup name h.entries) h

pub record Destroyed : Type 0 where
  pub done : Bool
  pub signals : List Signal
  pub host : Host

-- Removing `instances_dir` itself, or the directory above, removes every entry.
wipe : Host → Host
wipe h = record h { present = false; entries = [] }

-- No state file lies in `instances_dir` itself or above, so that nothing is signalled there.
unfoldable pub destroy_at : Os → Provider → Place → Host → Destroyed
unfolding stop_runner remove_all wipe
destroy_at os p (under name) h =
    let stopped : List Signal × Host = stop_runner os p name h in
    let removed : Bool × Host = remove_all os name stopped.1 in
    record { done = removed.0; signals = stopped.0; host = removed.1 }
destroy_at os p itself h = record { done = true; signals = []; host = wipe h }
destroy_at os p above h = record { done = true; signals = []; host = wipe h }

-- `Destroy`
unfoldable pub destroy : Os → Provider → Text → Host → Destroyed
unfolding destroy_at place_of
destroy os p id h = destroy_at os p (place_of id) h

unfoldable pub is_live : State → Bool
is_live starting = true
is_live running = true
is_live exited = false
is_live unknown = false

pub record Pruned : Type 0 where
  pub count : ℕ
  pub signals : List Signal
  pub host : Host

-- The loop of Prune: a destroy that fails is logged and not counted.
unfoldable pub prune_each : Os → Provider → List Instance → Host → Pruned
unfolding destroy is_live
prune_each os p [] h = record { count = 0; signals = []; host = h }
prune_each os p (i ∷ more) h = elim (is_live i.state) [
  | true ↦ prune_each os p more h
  | false ↦
      let d : Destroyed = destroy os p i.id h in
      let rest : Pruned = prune_each os p more d.host in
      record {
        count = if d.done then suc rest.count else rest.count;
        signals = d.signals ++ rest.signals;
        host = rest.host;
      }
]

-- `Prune`; none stands for the error of List.
unfoldable pub prune : Os → Provider → Host → Option Pruned
unfolding prune_each list
prune os p h = elim (list os.ps_works os.readable p h).0 [
  | none ↦ none
  | some instances ↦ some (prune_each os p instances (list os.ps_works os.readable p h).1)
]
