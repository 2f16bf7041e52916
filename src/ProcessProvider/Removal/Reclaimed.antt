-- ===== src/ProcessProvider/Removal/Reclaimed.antt =====
-- What Destroy of the process provider does to the disk, and which processes it signals.
use action_runner_cluster.Prelude.{
  All, All-map, Bool, Bool-cases, Option, Text, [], ap, arith, eq_self, false, inl, inr, int_eq,
  lookup, lookup-delete, lookup-insert, none, pair_eq, refl, some, sym, text_beq_iff, text_eq, true,
  ℕ, ℤ, ◌*◌, ◌+◌, ◌∙◌, ◌≡◌, ◌≢◌,
}
use action_runner_cluster.ProcessProvider.{
  InstanceState, DirEntry, Host, Provider, dir_of, state_in, process_alive, process_matches,
}
use action_runner_cluster.ProcessProvider.Removal.{
  RemoveAll, Signal, sigterm, sigkill, gone, stuck, Os, under, exits_within, stop_group,
  stop_runner, stop_known, remove_entry, remove_all, left_over, Destroyed, destroy, destroy_at,
  forget_process,
}
use action_runner_cluster.ProcessProvider.Removal.Waiting.{wait_for_exit_ends}
use action_runner_cluster.ProcessProvider.Removal.Places.{IsFileName, place_of_name}

-- The process of the instance `name`: recorded by its state file, alive, and taken for ours.
pub record IsTarget (os : Os) (p : Provider) (h : Host) (name : Text) (pid : ℤ) : Type 0 where
  pub st : InstanceState
  pub recorded : state_in (lookup name h.entries) ≡ some st
  pub its_pid : st.pid ≡ pid
  pub alive : process_alive h pid ≡ true
  pub ours : (process_matches os.ps_works pid (dir_of p name) h).0 ≡ true

abbrev pub signalled : Signal → ℤ
signalled (sigterm pid) = pid
signalled (sigkill pid) = pid

-- SIGKILL goes only to a process that is still there twenty seconds after SIGTERM.
abbrev pub IsPatient : Os → Signal → Type 0
IsPatient os (sigterm pid) = Unit
IsPatient os (sigkill pid) = os.after_term pid 20000 ≡ true

same_entries :
    (ps : Bool) (pid : ℤ) (dir : Text) (h : Host)
    → (process_matches ps pid dir h).1.entries ≡ h.entries
unfolding process_matches
same_entries ps pid dir h = ground arith

stop_group-entries : (os : Os) (pid : ℤ) (h : Host) → (stop_group os pid h).1.entries ≡ h.entries
unfolding stop_group forget_process
stop_group-entries os pid h = ground arith

stop_known-entries :
    (os : Os) (p : Provider) (name : Text) (st : Option InstanceState) (h : Host)
    → (stop_known os p name st h).1.entries ≡ h.entries
unfolding stop_known
stop_known-entries os p name none h = refl
stop_known-entries os p name (some st) h = elim (Bool-cases (process_alive h st.pid)) [
  | inr dead ↦ rw dead refl
  | inl alive ↦
      let matched : Bool × Host = process_matches os.ps_works st.pid (dir_of p name) h in
      elim (Bool-cases matched.0) [
        | inr foreign ↦ rw (alive, foreign) (same_entries os.ps_works st.pid (dir_of p name) h)
        | inl ours ↦
            rw (alive, ours)
              (stop_group-entries os st.pid matched.1
                ∙ same_entries os.ps_works st.pid (dir_of p name) h)
      ]
]

not_gone :
    (alive : ℕ → Bool) (timeout : ℕ)
    → exits_within alive (200 * timeout) ≡ false
    → alive (200 * timeout) ≡ true
unfolding exits_within
not_gone alive timeout e =
    let (b, same, answer) = wait_for_exit_ends alive (200 * timeout) in
    let still : b ≡ false = rw same at e in
    let at : 0 + 200 * timeout ≡ 200 * timeout = omega arith in
    rw at at (answer.always_there still timeout (omega arith))

stop_group-IsPatient : (os : Os) (pid : ℤ) (h : Host) → All (IsPatient os) (stop_group os pid h).0
unfolding stop_group
stop_group-IsPatient os pid h = elim (Bool-cases (exits_within (os.after_term pid) 20000)) [
  | inl soon ↦ rw soon (tt, tt)
  | inr late ↦ rw late (tt, (not_gone (os.after_term pid) 100 late, tt))
]

stop_known-IsPatient :
    (os : Os) (p : Provider) (name : Text) (recorded : Option InstanceState) (h : Host)
    → All (IsPatient os) (stop_known os p name recorded h).0
unfolding stop_known
stop_known-IsPatient os p name none h = tt
stop_known-IsPatient os p name (some st) h = elim (Bool-cases (process_alive h st.pid)) [
  | inr dead ↦ rw dead tt
  | inl alive ↦
      let matched : Bool × Host = process_matches os.ps_works st.pid (dir_of p name) h in
      elim (Bool-cases matched.0) [
        | inr foreign ↦ rw (alive, foreign) tt
        | inl ours ↦ rw (alive, ours) (stop_group-IsPatient os st.pid matched.1)
      ]
]

stop_group-signals :
    (os : Os) (pid : ℤ) (h : Host) → All (λ s. signalled s ≡ pid) (stop_group os pid h).0
unfolding stop_group
stop_group-signals os pid h = ground arith

stop_known-signals :
    (os : Os) (p : Provider) (name : Text) (recorded : Option InstanceState) (h : Host)
    → state_in (lookup name h.entries) ≡ recorded
    → All (λ s. IsTarget os p h name (signalled s)) (stop_known os p name recorded h).0
unfolding stop_known
stop_known-signals os p name none h e = tt
stop_known-signals os p name (some st) h e = elim (Bool-cases (process_alive h st.pid)) [
  | inr dead ↦ rw dead tt
  | inl alive ↦ elim (Bool-cases (process_matches os.ps_works st.pid (dir_of p name) h).0) [
    | inr foreign ↦ rw (alive, foreign) tt
    | inl ours ↦
        rw (alive, ours)
          (All-map (λ s. signalled s ≡ st.pid) _
            (stop_group os st.pid (process_matches os.ps_works st.pid (dir_of p name) h).1).0
            (λ s same. record {
              st = st;
              recorded = e;
              its_pid = sym same;
              alive = rw same alive;
              ours = rw same ours;
            })
            (stop_group-signals os st.pid (process_matches os.ps_works st.pid (dir_of p name) h).1))
  ]
]

-- What is removed, what is kept, and what a failure says.
pub record IsRemoval (how : RemoveAll) (name : Text) (h : Host) (r : Bool × Host) : Type 0 where
  pub removed : r.0 ≡ true → lookup name r.1.entries ≡ none
  pub kept : (other : Text) → name ≢ other → lookup other r.1.entries ≡ lookup other h.entries
  pub failed : r.0 ≡ false → how ≢ gone

remove_entry_lem :
    (how : RemoveAll) (name : Text) (h : Host) (e : Option DirEntry)
    → lookup name h.entries ≡ e
    → IsRemoval how name h (remove_entry how name e h)
unfolding remove_entry
remove_entry_lem how name h none e = record {
  removed = λ _. e;
  kept = λ other n. refl;
  failed = λ f. absurd (let q : true ≡ false = f in cc);
}
remove_entry_lem gone name h (some d) e = record {
  removed = λ _. rw (lookup-delete name name h.entries, eq_self name) refl;
  kept = λ other n.
      rw (lookup-delete name other h.entries) (ground (arith, n, text_beq_iff name other));
  failed = λ f. absurd (let q : true ≡ false = f in cc);
}
remove_entry_lem (stuck with_state) name h (some d) e = record {
  removed = λ f. absurd (let q : false ≡ true = f in cc);
  kept = λ other n.
      rw (lookup-insert name other (left_over with_state d) h.entries)
        (ground (arith, n, text_beq_iff name other));
  failed = λ _ q. cc;
}

pub remove_all_lem :
    (os : Os) (name : Text) (h : Host) → IsRemoval (os.remove name) name h (remove_all os name h)
unfolding remove_all
remove_all_lem os name h = remove_entry_lem (os.remove name) name h (lookup name h.entries) refl

-- What Destroy promises of the instance `name`.
pub record IsReclaimed (os : Os) (p : Provider) (name : Text) (h : Host) (d : Destroyed)
    : Type 0 where
  pub reclaimed : d.done ≡ true → lookup name d.host.entries ≡ none
  pub kept : (other : Text) → name ≢ other → lookup other d.host.entries ≡ lookup other h.entries
  pub aimed : All (λ s. IsTarget os p h name (signalled s)) d.signals
  pub patient : All (IsPatient os) d.signals
  pub failed : d.done ≡ false → os.remove name ≢ gone

destroy_named :
    (os : Os) (p : Provider) (name : Text) (h : Host)
    → IsReclaimed os p name h (destroy_at os p (under name) h)
unfolding destroy_at stop_runner
destroy_named os p name h =
    let saved : Option InstanceState = state_in (lookup name h.entries) in
    let stopped : Host = (stop_known os p name saved h).1 in
    let r : IsRemoval (os.remove name) name stopped (remove_all os name stopped) =
      remove_all_lem os name stopped in
    record {
      reclaimed = r.removed;
      kept = λ other n. r.kept other n ∙ ap (lookup other) (stop_known-entries os p name saved h);
      aimed = stop_known-signals os p name saved h refl;
      patient = stop_known-IsPatient os p name saved h;
      failed = r.failed;
    }

-- Destroy of a name that the directory can hold: where it reports success, nothing is left under the
-- name; all other entries are as they were; it signals no process but the one that the instance's
-- state file records, and that only if it is alive and taken for the instance's own when Destroy
-- starts; it sends SIGKILL only if the process is still there twenty seconds after SIGTERM; and it
-- fails only if the removal of the entry does.
pub destroy-IsReclaimed :
    (os : Os) (p : Provider) (name : Text) (h : Host)
    → IsFileName name
    → IsReclaimed os p name h (destroy os p name h)
unfolding destroy
destroy-IsReclaimed os p name h f = rw (place_of_name name f) (destroy_named os p name h)

pub destroy_absent :
    (os : Os) (p : Provider) (name : Text) (h : Host)
    → IsFileName name
    → lookup name h.entries ≡ none
    → destroy os p name h ≡ record { done = true; signals = []; host = h }
unfolding destroy destroy_at stop_runner stop_known remove_all remove_entry state_in
destroy_absent os p name h f e = rw (place_of_name name f, e, stop_known, e) refl

-- Destroy is idempotent: once it has succeeded, it succeeds again, signals nothing and changes
-- nothing.
pub destroy_twice :
    (os again : Os) (p : Provider) (name : Text) (h : Host)
    → IsFileName name
    → (destroy os p name h).done ≡ true
    → destroy again p name (destroy os p name h).host
      ≡ record { done = true; signals = []; host = (destroy os p name h).host }
destroy_twice os again p name h f e =
    destroy_absent again p name (destroy os p name h).host f
      ((destroy-IsReclaimed os p name h f).reclaimed e)
