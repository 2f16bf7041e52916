-- ===== src/ProcessProvider/Creation/Shown.antt =====
-- A runner that Create has started is listed as running, also by an arc that restarts: List reads
-- the disk and the processes alone.
use action_runner_cluster.Prelude.{
  Any, Bool, Bool-cases, List, Map, Option, Option-cases, Text, [], false, has_part-append, inl,
  inr, int_eq, lookup, lookup-insert, ltb_ℤ, nat_eq, none, pair_eq, pos, refl, same_pair_iff, some,
  sym, text_beq_iff, text_eq, true, ℤ, ◌==◌, ◌∙◌, ◌∷◌, ◌≡◌, ◌≢◌,
}
use action_runner_cluster.Provider.{running, Instance}
use action_runner_cluster.ProcessProvider.{
  InstanceState, Contents, DirEntry, plain_file, directory, Host, Provider, dir_of, process_alive,
  process_matches, looks_ours, report, seen_as, list_entries, list, list_when,
}
use action_runner_cluster.ProcessProvider.Removal.{gone, Os}
use action_runner_cluster.ProcessProvider.Creation.{
  Spec, Calls, command_line, saved_state, started, create,
}
use action_runner_cluster.ProcessProvider.Creation.Building.{IsStarted}
use action_runner_cluster.ProcessProvider.Creation.Undone.{create-IsTidy}

-- The process `pid` runs with a command line that names the directory, and no verdict says other.
record IsTrusted (pid : ℤ) (dir : Text) (h : Host) : Type 0 where
  alive : process_alive h pid ≡ true
  names_dir : (ps : Bool) → looks_ours ps (lookup pid h.processes) dir ≡ true
  not_foreign : lookup (pid, dir) h.seen ≢ some false

matched-IsTrusted :
    (ps : Bool) (asked : ℤ) (at : Text) (pid : ℤ) (dir : Text) (h : Host)
    → IsTrusted pid dir h
    → IsTrusted pid dir (process_matches ps asked at h).1
unfolding process_matches process_alive
matched-IsTrusted ps asked at pid dir h t = elim (Option-cases (lookup (asked, at) h.seen)) [
  | inr (v, known) ↦ rw (known, process_matches) t
  | inl new ↦
      rw (new, process_matches)
        (record {
          alive = t.alive;
          names_dir = t.names_dir;
          not_foreign = λ e. elim (Bool-cases (◌==◌ {K = ℤ × Text} (asked, at) (pid, dir))) [
            | inr other ↦ t.not_foreign (
                rw
                  (
                    lookup-insert {K = ℤ × Text} (asked, at) (pid, dir)
                        (looks_ours ps (lookup asked h.processes) at) h.seen,
                    other,
                  )
                  at e)
            | inl same ↦ absurd (
                same_key ((same_pair_iff (asked, at) (pid, dir)).0 same) (
                  some_inj (
                    rw
                      (
                        lookup-insert {K = ℤ × Text} (asked, at) (pid, dir)
                            (looks_ours ps (lookup asked h.processes) at) h.seen,
                        same,
                      )
                      at e)))
          ];
        })
]
  where
    some_inj : {b c : Bool} → some b ≡ some c → b ≡ c
    some_inj e = cc

    same_key :
        ◌≡◌ {A = ℤ × Text} (asked, at) (pid, dir)
        → looks_ours ps (lookup asked h.processes) at ≡ false
        → ⊥
    same_key e wrong =
        let a : asked ≡ pid = cc in
        let b : at ≡ dir = cc in
        let q : looks_ours ps (lookup pid h.processes) dir ≡ false = rw (← a, ← b) wrong in
        let q' : true ≡ false = sym (t.names_dir ps) ∙ q in cc

report-IsTrusted :
    (ps : Bool) (p : Provider) (name : Text) (st : InstanceState) (pid : ℤ) (dir : Text) (h : Host)
    → IsTrusted pid dir h
    → IsTrusted pid dir (report ps p name st h).1
unfolding report
report-IsTrusted ps p name st pid dir h t = elim (Bool-cases (process_alive h st.pid)) [
  | inr dead ↦ simp dead t
  | inl alive ↦ simp alive (matched-IsTrusted ps st.pid (dir_of p name) pid dir h t)
]

-- The instance is reported as running, with the name and the id of its runner.
abbrev pub Runs : Text → InstanceState → Instance → Type 0
Runs name st i =
    (i.id ≡ name)
    × (i.state ≡ running)
    × (i.runner_name ≡ st.runner_name)
    × (i.runner_id ≡ st.runner_id)

matched_true :
    (ps : Bool) (pid : ℤ) (dir : Text) (h : Host)
    → IsTrusted pid dir h
    → (process_matches ps pid dir h).0 ≡ true
unfolding process_matches
matched_true ps pid dir h t = elim (Option-cases (lookup (pid, dir) h.seen)) [
  | inl new ↦ rw (new, process_matches) (t.names_dir ps)
  | inr (true, known) ↦ rw (known, process_matches) refl
  | inr (false, known) ↦ absurd (t.not_foreign known)
]

report-Runs :
    (ps : Bool) (p : Provider) (name : Text) (st : InstanceState) (h : Host)
    → IsTrusted st.pid (dir_of p name) h
    → Runs name st (report ps p name st h).0
unfolding report seen_as
report-Runs ps p name st h t =
    simp (t.alive, matched_true ps st.pid (dir_of p name) h t) (refl, refl, refl, refl)

list_entries-Runs :
    (ps : Bool) (p : Provider) (name : Text) (c : Contents) (st : InstanceState)
    (es : Map Text DirEntry) (h : Host)
    → c.saved ≡ some st
    → lookup name es ≡ some (directory c)
    → IsTrusted st.pid (dir_of p name) h
    → Any (Runs name st) (list_entries ps p es h).0
unfolding list_entries lookup
list_entries-Runs ps p name c st [] h s e t = cc
list_entries-Runs ps p name c st ((k, plain_file) ∷ more) h s e t =
    list_entries-Runs ps p name c st more h s (later (k == name) refl) t
  where
    later : (b : Bool) → (k == name) ≡ b → lookup name more ≡ some (directory c)
    later true q = absurd (let w : some plain_file ≡ some (directory c) = rw (q, lookup) at e in cc)
    later false q = rw (q, lookup) at e
list_entries-Runs ps p name c st ((k, directory d) ∷ more) h s e t = elim (Bool-cases (k == name)) [
  | inl hit ↦
      let found : some (directory d) ≡ some (directory c) = rw (hit, lookup) at e in
      let same : d ≡ c = cc in
      let named : k ≡ name = (text_beq_iff k name).0 hit in
      simp (same, s, list_entries) (inl (rw named (report-Runs ps p name st h t)))
  | inr miss ↦
      skip d.saved refl (rw (miss, lookup) at e)
        (λ h' e' t'. list_entries-Runs ps p name c st more h' s e' t')
]
  where
    skip :
        (saved : Option InstanceState)
        → d.saved ≡ saved
        → lookup name more ≡ some (directory c)
        → ((h' : Host)
            → lookup name more ≡ some (directory c)
            → IsTrusted st.pid (dir_of p name) h'
            → Any (Runs name st) (list_entries ps p more h').0)
        → Any (Runs name st) (list_entries ps p ((k, directory d) ∷ more) h).0
    skip none q e' ih = simp (q, list_entries) (inr (ih h e' t))
    skip (some other) q e' ih =
        simp (q, list_entries)
          (inr (
            ih (report ps p k other h).1 e'
              (report-IsTrusted ps p k other st.pid (dir_of p name) h t)))

alive_of :
    (h : Host) (pid : ℤ) (cmdline : Text)
    → ltb_ℤ (pos 0) pid ≡ true
    → lookup pid h.processes ≡ some cmdline
    → process_alive h pid ≡ true
unfolding process_alive
alive_of h pid cmdline positive found = rw (positive, found) refl

-- The command line of a runner names its directory.
shows_dir :
    (calls : Calls) (p : Provider) (spec : Spec) (ps : Bool) (shown : Option Text)
    → shown ≡ some (command_line calls p spec)
    → looks_ours ps shown (dir_of p spec.runner_name) ≡ true
unfolding looks_ours command_line
shows_dir calls p spec false shown e = refl
shows_dir calls p spec true shown e =
    rw (e, has_part-append calls.interpreter (dir_of p spec.runner_name) _) refl

-- A runner that Create has started is reported by List as running, under its name and with its
-- registration's id: from the disk and the processes alone, and as long as the process is there.
-- The old directory could be removed, the pid is positive as pids are, and no verdict of an earlier
-- process with this pid and directory is remembered.
pub create_shown :
    (os : Os) (calls : Calls) (p : Provider) (spec : Spec) (h : Host) {i : Instance}
    → os.remove spec.runner_name ≡ gone
    → ((pid : ℤ) → calls.pid ≡ some pid → ltb_ℤ (pos 0) pid ≡ true)
    → ((pid : ℤ)
        → lookup (pid, dir_of p spec.runner_name) (create os calls p spec h).host.seen ≢ some false)
    → (create os calls p spec h).result ≡ some i
    → (instances : List Instance) × ((list os.ps_works true p (create os calls p spec h).host).0
        ≡ some instances)
      × Any
          (λ j.
            (j.id ≡ i.id)
            × (j.state ≡ running)
            × (j.runner_name ≡ spec.runner_name)
            × (j.runner_id ≡ spec.runner_id))
          instances
unfolding list list_when started saved_state
create_shown os calls p spec h {i} removable positive new made =
    let h' : Host = (create os calls p spec h).host in
    let s : IsStarted calls p spec h' i =
      (create-IsTidy os calls p spec removable h).fresh i made in
    let t : IsTrusted s.pid (dir_of p spec.runner_name) h' = record {
      alive = alive_of h' s.pid (command_line calls p spec) (positive s.pid s.came_up) s.runs;
      names_dir = λ ps. shows_dir calls p spec ps (lookup s.pid h'.processes) s.runs;
      not_foreign = new s.pid;
    } in
    (
      (list_entries os.ps_works p h'.entries h').0,
      when_there h'.present s.there,
      rw s.shown (
          list_entries-Runs os.ps_works p spec.runner_name _ (saved_state calls p spec s.pid)
            h'.entries h' refl s.saved t),
    )
  where
    when_there :
        (there : Bool)
        → there ≡ true
        → (list_when there true os.ps_works p (create os calls p spec h).host).0
          ≡ some
              (list_entries os.ps_works p
                (create os calls p spec h).host.entries
                (create os calls p spec h).host).0
    when_there true e = refl
    when_there false e = cc
