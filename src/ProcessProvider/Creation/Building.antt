-- ===== src/ProcessProvider/Creation/Building.antt =====
-- Create of the process provider from the preflight script on: a runner that is started, or all undone.
use action_runner_cluster.Prelude.{
  Bool, Bool-cases, Map, Option, Option-cases, Text, [], ap, arith, delete, eq_self, false,
  if◌then◌else◌, inl, inr, insert, int_eq, lookup, lookup-delete, lookup-insert, nat_eq, none, not,
  pair_eq, refl, some, text_beq_iff, text_eq, true, ℤ, ◌&&◌, ◌==◌, ◌∙◌, ◌∷◌, ◌≡◌, ◌≢◌, ◌⊎◌,
}
use action_runner_cluster.Provider.{Instance}
use action_runner_cluster.ProcessProvider.{Contents, DirEntry, directory, Host, Provider}
use action_runner_cluster.ProcessProvider.Removal.{
  RemoveAll, gone, stuck, Os, sigkill, remove_all, remove_entry,
}
use action_runner_cluster.ProcessProvider.Removal.Reclaimed.{IsRemoval, remove_all_lem}
use action_runner_cluster.ProcessProvider.Creation.{
  Spec, Calls, Created, put_dir, undo, command_line, saved_state, started, keep_started,
  build_instance,
}

abbrev pub Same : Text → Host → Host → Type 0
Same name h h' = (other : Text) → name ≢ other → lookup other h'.entries ≡ lookup other h.entries

pub put_dir-Same : (name : Text) (c : Contents) (h : Host) → Same name h (put_dir name c h)
unfolding put_dir
put_dir-Same name c h other n =
    rw (lookup-insert name other (directory c) h.entries)
      (ground (arith, n, text_beq_iff name other))

pub put_dir-lookup :
    (name : Text) (c : Contents) (h : Host)
    → lookup name (put_dir name c h).entries ≡ some (directory c)
unfolding put_dir
put_dir-lookup name c h = rw (lookup-insert name name (directory c) h.entries, eq_self name) refl

-- What the new instance's directory holds, and what runs in it.
pub record IsStarted (calls : Calls) (p : Provider) (spec : Spec) (h : Host) (i : Instance)
    : Type 0 where
  pub pid : ℤ
  pub came_up : calls.pid ≡ some pid
  pub shown : i ≡ started calls p spec
  pub saved :
      lookup spec.runner_name h.entries
      ≡ some (
          directory
            (record { saved = some (saved_state calls p spec pid); scratch = true; log = some [] }))
  pub runs : lookup pid h.processes ≡ some (command_line calls p spec)
  pub there : h.present ≡ true

-- A Create that fails starts no process, or it is one whose state could not be written, and that has
-- been sent SIGKILL.
abbrev pub IsEnded : Calls → Host → Created → Type 0
IsEnded calls h c =
    ((c.signals ≡ []) × (c.host.processes ≡ h.processes))
    ⊎ ((pid : ℤ) × (calls.pid ≡ some pid)
        × (calls.state_written ≡ false)
        × (c.signals ≡ sigkill pid ∷ [])
        × (calls.kill_lands ≡ true → lookup pid c.host.processes ≡ none))

killed_gone :
    (lands : Bool) (pid : ℤ) (processes : Map ℤ Text)
    → lands ≡ true
    → lookup pid (if lands then delete pid processes else processes) ≡ none
killed_gone true pid processes e = rw (lookup-delete pid pid processes, eq_self pid) refl
killed_gone false pid processes e = absurd (let q : false ≡ true = e in cc)

remove_entry-processes :
    (how : RemoveAll) (name : Text) (e : Option DirEntry) (h : Host)
    → (remove_entry how name e h).1.processes ≡ h.processes
unfolding remove_entry
remove_entry-processes how name none h = refl
remove_entry-processes gone name (some d) h = refl
remove_entry-processes (stuck kept) name (some d) h = refl

pub remove_all-processes :
    (os : Os) (name : Text) (h : Host) → (remove_all os name h).1.processes ≡ h.processes
unfolding remove_all
remove_all-processes os name h =
    remove_entry-processes (os.remove name) name (lookup name h.entries) h

-- Create from the preflight script on: a success starts the runner, a failure leaves nothing, and
-- no other entry changes.
pub record IsUndone (calls : Calls) (p : Provider) (spec : Spec) (h : Host) (c : Created)
    : Type 0 where
  pub fresh : (i : Instance) → c.result ≡ some i → IsStarted calls p spec c.host i
  pub undone : c.result ≡ none → lookup spec.runner_name c.host.entries ≡ none
  pub ended : c.result ≡ none → IsEnded calls h c
  pub others : Same spec.runner_name h c.host

module _ (os : Os) (calls : Calls) (p : Provider) (spec : Spec)
    (removable : os.remove spec.runner_name ≡ gone) where
  pub removed_now :
      (h : Host) → lookup spec.runner_name (remove_all os spec.runner_name h).1.entries ≡ none
  removed_now h =
      let r : IsRemoval (os.remove spec.runner_name) spec.runner_name h
          (remove_all os spec.runner_name h) =
        remove_all_lem os spec.runner_name h in
      elim (Bool-cases (remove_all os spec.runner_name h).0) [
        | inl done ↦ r.removed done
        | inr fails ↦ absurd (r.failed fails removable)
      ]

  pub removed-Same : (h : Host) → Same spec.runner_name h (remove_all os spec.runner_name h).1
  removed-Same h = (remove_all_lem os spec.runner_name h).kept

  undo_lem : (h : Host) → IsUndone calls p spec h (undo os spec.runner_name [] h)
  unfolding undo
  undo_lem h = record {
    fresh = λ i e. absurd (let q : none ≡ some i = e in cc);
    undone = λ _. removed_now h;
    ended = λ _. inl (refl, remove_all-processes os spec.runner_name h);
    others = removed-Same h;
  }

  undo_killed :
      (pid : ℤ) (h : Host)
      → calls.pid ≡ some pid
      → calls.state_written ≡ false
      → IsUndone calls p spec h (
          undo os spec.runner_name (sigkill pid ∷ []) (record h {
            processes =
                if calls.kill_lands
                then delete pid (insert pid (command_line calls p spec) h.processes)
                else insert pid (command_line calls p spec) h.processes;
          }))
  unfolding undo
  undo_killed pid h up lost =
      let started_then : Map ℤ Text = insert pid (command_line calls p spec) h.processes in
      let killed : Host = record h {
        processes = if calls.kill_lands then delete pid started_then else started_then;
      } in
      record {
        fresh = λ i e. absurd (let q : none ≡ some i = e in cc);
        undone = λ _. removed_now killed;
        ended = λ _. inr (
          pid,
          up,
          lost,
          refl,
          λ lands.
              ap (lookup pid) (remove_all-processes os spec.runner_name killed)
              ∙ killed_gone calls.kill_lands pid started_then lands,
        );
        others = removed-Same killed;
      }

  keep_started_lem :
      (pid : ℤ) (h : Host)
      → calls.pid ≡ some pid
      → h.present ≡ true
      → IsUndone calls p spec h (keep_started os calls p spec pid h)
  unfolding keep_started put_dir
  keep_started_lem pid h up there = elim (Bool-cases calls.state_written) [
    | inl written ↦
        simp (written, keep_started)
          (record {
            fresh = λ i e. record {
              pid = pid;
              came_up = up;
              shown = (cc);
              saved =
                  rw
                    (
                      lookup-insert spec.runner_name spec.runner_name _ h.entries,
                      eq_self spec.runner_name,
                    )
                    refl;
              runs =
                  rw (lookup-insert pid pid (command_line calls p spec) h.processes, eq_self pid)
                    refl;
              there = there;
            };
            undone = λ e. absurd (let q : some (started calls p spec) ≡ none = e in cc);
            ended = λ e. absurd (let q : some (started calls p spec) ≡ none = e in cc);
            others = λ other n.
                rw (lookup-insert spec.runner_name other _ h.entries)
                  (ground (arith, n, text_beq_iff spec.runner_name other));
          })
    | inr lost ↦ simp (lost, keep_started) (undo_killed pid h up lost)
  ]

  pub build_instance_lem :
      (h : Host) → h.present ≡ true → IsUndone calls p spec h (build_instance os calls p spec h)
  unfolding build_instance
  build_instance_lem h there =
      elim (Bool-cases (not (p.settings.preflight_script == []) && not calls.preflight_passes)) [
        | inl bad ↦ simp (bad, build_instance) (undo_lem h)
        | inr fine ↦ elim (Bool-cases calls.log_opened) [
          | inr bad ↦ simp (fine, bad, build_instance) (undo_lem h)
          | inl opened ↦ elim (Option-cases calls.pid) [
            | inl bad ↦ simp (fine, opened, bad, build_instance) (undo_lem h)
            | inr (pid, up) ↦
                simp (fine, opened, up, build_instance) (keep_started_lem pid h up there)
          ]
        ]
      ]
