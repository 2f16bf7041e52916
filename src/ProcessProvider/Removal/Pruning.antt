-- ===== src/ProcessProvider/Removal/Pruning.antt =====
-- Prune of the process provider: it signals nothing, and removes exactly what does not run.
use action_runner_cluster.Prelude.{
  All, All-map, Any, Bool, Bool-cases, List, Map, Option, Option-cases, Text, [], ap, arith, delete,
  false, if◌then◌else◌, inl, inr, insert, int_eq, length, lookup, lookup-delete, lookup-insert,
  nat_eq, none, not, pair_eq, refl, select, some, subst, suc, sym, text_beq_iff, text_eq, true, ℕ,
  ◌==◌, ◌∙◌, ◌∷◌, ◌≡◌, ◌≢◌, ◌≤◌, ◌⊎◌,
}
use action_runner_cluster.Provider.{Instance}
use action_runner_cluster.ProcessProvider.{
  InstanceState, DirEntry, plain_file, directory, Host, Provider, dir_of, state_in, process_alive,
  process_matches, list,
}
use action_runner_cluster.ProcessProvider.Removal.{
  RemoveAll, gone, stuck, Os, stop_known, stop_runner, remove_entry, remove_all, left_over,
  Destroyed, destroy, destroy_at, is_live, Pruned, prune_each, prune,
}
use action_runner_cluster.ProcessProvider.Removal.Places.{IsFileName, place_of_name}
use action_runner_cluster.ProcessProvider.Removal.Reclaimed.{
  IsReclaimed, destroy_absent, destroy-IsReclaimed,
}
use action_runner_cluster.ProcessProvider.Removal.Verdicts.{Idle, Extends, Extends-refl}
use action_runner_cluster.ProcessProvider.Removal.Listed.{
  IsDirectory, IsPrunable, IsPrunable-Extends, list_lem,
}

-- Destroying an idle instance signals nothing, and what is left is a host that only lost entries.
stop_known-idle :
    (os : Os) (p : Provider) (name : Text) (saved : Option InstanceState) (h : Host)
    → ((st : InstanceState)
        → saved ≡ some st
        → (process_alive h st.pid ≡ false) ⊎ (lookup (st.pid, dir_of p name) h.seen ≡ some false))
    → ((stop_known os p name saved h).0 ≡ []) × ((stop_known os p name saved h).1 ≡ h)
unfolding stop_known
stop_known-idle os p name none h idle = (refl, refl)
stop_known-idle os p name (some st) h idle = elim (idle st refl) [
  | inl dead ↦ rw dead (refl, refl)
  | inr foreign ↦ elim (Bool-cases (process_alive h st.pid)) [
    | inr dead ↦ rw dead (refl, refl)
    | inl alive ↦ rw (alive, process_matches, foreign) (refl, refl)
  ]
]

left_over-state :
    (with_state : Bool) (d : DirEntry) (st : InstanceState)
    → state_in (some (left_over with_state d)) ≡ some st
    → state_in (some d) ≡ some st
unfolding state_in left_over
left_over-state w plain_file st e = e
left_over-state true (directory c) st e = e
left_over-state false (directory c) st e = cc

without_state :
    (name other : Text) (st : InstanceState) (m : Map Text DirEntry)
    → state_in (lookup other (delete name m)) ≡ some st
    → state_in (lookup other m) ≡ some st
unfolding state_in
without_state name other st m e = elim (Bool-cases (name == other)) [
  | inr apart ↦ rw (lookup-delete name other m, apart) at e
  | inl same ↦
      absurd (let q : none ≡ some st = rw (lookup-delete name other m, same, state_in) at e in cc)
]

with_left_over :
    (w : Bool) (d : DirEntry) (name other : Text) (st : InstanceState) (m : Map Text DirEntry)
    → lookup name m ≡ some d
    → state_in (lookup other (insert name (left_over w d) m)) ≡ some st
    → state_in (lookup other m) ≡ some st
with_left_over w d name other st m there e = elim (Bool-cases (name == other)) [
  | inr apart ↦ rw (lookup-insert name other (left_over w d) m, apart) at e
  | inl same ↦
      let q : state_in (some (left_over w d)) ≡ some st =
        rw (lookup-insert name other (left_over w d) m, same) at e in
      rw (← (text_beq_iff name other).0 same, there) (left_over-state w d st q)
]

removed-states :
    (how : RemoveAll) (name : Text) (h : Host) (e : Option DirEntry)
    → lookup name h.entries ≡ e
    → Extends h (remove_entry how name e h).1
unfolding remove_entry
removed-states how name h none e = Extends-refl h
removed-states gone name h (some d) e = record {
  processes = refl;
  verdicts = λ k v r. r;
  states = λ n st r. without_state name n st h.entries r;
}
removed-states (stuck with_state) name h (some d) e = record {
  processes = refl;
  verdicts = λ k v r. r;
  states = λ n st r. with_left_over with_state d name n st h.entries e r;
}

-- Destroying an idle instance.
destroy-Idle :
    (os : Os) (p : Provider) (name : Text) (h : Host)
    → IsFileName name
    → Idle p h name
    → ((destroy os p name h).signals ≡ []) × Extends h (destroy os p name h).host
unfolding destroy destroy_at stop_runner remove_all
destroy-Idle os p name h f idle =
    let (quiet, same) = stop_known-idle os p name (state_in (lookup name h.entries)) h idle in
    rw (place_of_name name f, quiet, same)
      (refl, removed-states (os.remove name) name h (lookup name h.entries) refl)

abbrev pub idle_ones : List Instance → List Instance
idle_ones instances = select (λ i. not (is_live i.state)) instances

-- What a prune does, given the instances that List reported.
pub record IsPruned (os : Os) (h : Host) (instances : List Instance) (r : Pruned) : Type 0 where
  pub quiet : r.signals ≡ []
  pub kept :
      (name : Text)
      → All (λ i. is_live i.state ≡ false → i.id ≢ name) instances
      → lookup name r.host.entries ≡ lookup name h.entries
  pub cleaned :
      (name : Text)
      → Any (λ i. (is_live i.state ≡ false) × (i.id ≡ name) × (os.remove name ≡ gone)) instances
      → lookup name r.host.entries ≡ none
  pub absent : (name : Text) → lookup name h.entries ≡ none → lookup name r.host.entries ≡ none
  pub counted : r.count ≤ length (idle_ones instances)

-- What Destroy does to one entry: it is removed, as it can be, and no entry appears.
destroyed_gone :
    (os : Os) (p : Provider) (name : Text) (h : Host)
    → IsFileName name
    → os.remove name ≡ gone
    → lookup name (destroy os p name h).host.entries ≡ none
destroyed_gone os p name h f g =
    let r : IsReclaimed os p name h (destroy os p name h) = destroy-IsReclaimed os p name h f in
    elim (Bool-cases (destroy os p name h).done) [
      | inl done ↦ r.reclaimed done
      | inr fails ↦ absurd (r.failed fails g)
    ]

destroyed_absent :
    (os : Os) (p : Provider) (name other : Text) (h : Host)
    → IsFileName name
    → lookup other h.entries ≡ none
    → lookup other (destroy os p name h).host.entries ≡ none
destroyed_absent os p name other h f e = elim (Bool-cases (name == other)) [
  | inl same ↦
      let q : name ≡ other = (text_beq_iff name other).0 same in
      let e' : lookup name h.entries ≡ none = rw q e in rw (destroy_absent os p name h f e') e
  | inr apart ↦
      (destroy-IsReclaimed os p name h f).kept other
        (λ q. let t : true ≡ false = sym ((text_beq_iff name other).1 q) ∙ apart in cc)
      ∙ e
]

counted_one : (b : Bool) (n m : ℕ) → n ≤ m → (if b then suc n else n) ≤ suc m
counted_one true n m h = omega arith
counted_one false n m h = omega arith

prune_each_lem :
    (os : Os) (p : Provider) (instances : List Instance) (h : Host)
    → All (IsPrunable p h) instances
    → IsPruned os h instances (prune_each os p instances h)
unfolding prune_each select
prune_each_lem os p [] h ok = record {
  quiet = refl;
  kept = λ n a. refl;
  cleaned = λ n a. absurd a;
  absent = λ n e. e;
  counted = omega arith;
}
prune_each_lem os p (i ∷ more) h ok = elim (Bool-cases (is_live i.state)) [
  | inl live ↦
      let rest : IsPruned os h more (prune_each os p more h) = prune_each_lem os p more h ok.1 in
      rw (live, prune_each)
        (record {
          quiet = rest.quiet;
          kept = λ n a. rest.kept n a.1;
          cleaned = λ n a. elim a [
            | inl (off, _, _) ↦ absurd (let q : true ≡ false = sym live ∙ off in cc)
            | inr later ↦ rest.cleaned n later
          ];
          absent = rest.absent;
          counted = rw (select, live) rest.counted;
        })
  | inr idle ↦
      let d : Destroyed = destroy os p i.id h in
      let (quiet, ext) = destroy-Idle os p i.id h ok.0.0 (ok.0.1 idle) in
      let r : IsReclaimed os p i.id h d = destroy-IsReclaimed os p i.id h ok.0.0 in
      let rest : IsPruned os d.host more (prune_each os p more d.host) =
        prune_each_lem os p more d.host (All-map _ _ more (IsPrunable-Extends p ext) ok.1) in
      rw (idle, prune_each)
        (record {
          quiet = rw quiet rest.quiet;
          kept = λ n a. rest.kept n a.1 ∙ r.kept n (a.0 idle);
          cleaned = λ n a. elim a [
            | inl (off, same, g) ↦
                rest.absent n (rw (← same) (destroyed_gone os p i.id h ok.0.0 (rw same g)))
            | inr later ↦ rest.cleaned n later
          ];
          absent = λ n e. rest.absent n (destroyed_absent os p i.id n h ok.0.0 e);
          counted = rw (select, idle) (counted_one d.done _ _ rest.counted);
        })
]

-- Prune of a directory whose entries have names that a directory can hold, each once: it signals no
-- process; it removes what List reports as neither running nor starting, where the removal does not
-- fail; every entry of a name that no such instance has is left as it was; and it counts no more
-- than those instances.
pub prune-IsPruned :
    (os : Os) (p : Provider) (h : Host) {r : Pruned}
    → IsDirectory h.entries
    → prune os p h ≡ some r
    → (instances : List Instance) × ((list os.ps_works os.readable p h).0 ≡ some instances)
      × IsPruned os h instances r
unfolding prune list
prune-IsPruned os p h {r} dir e = elim (Option-cases (list os.ps_works os.readable p h).0) [
  | inl bad ↦ absurd (let q : none ≡ some r = rw (bad, prune) at e in cc)
  | inr (instances, listed) ↦
      let h' : Host = (list os.ps_works os.readable p h).1 in
      let (ok, same) = list_lem h.present os.readable os.ps_works p h dir listed in
      let q : some (prune_each os p instances h') ≡ some r = rw (listed, prune) at e in
      let q' : prune_each os p instances h' ≡ r = cc in
      let all : IsPruned os h' instances r =
        subst (IsPruned os h' instances) q' (prune_each_lem os p instances h' ok) in
      (
        instances,
        listed,
        record {
          quiet = all.quiet;
          kept = λ n a. all.kept n a ∙ ap (lookup n) same;
          cleaned = all.cleaned;
          absent = λ n m. all.absent n (ap (lookup n) same ∙ m);
          counted = all.counted;
        },
      )
]
