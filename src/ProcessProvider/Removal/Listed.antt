-- ===== src/ProcessProvider/Removal/Listed.antt =====
-- What List of the process provider says of an instance that is not live.
use action_runner_cluster.Prelude.{
  All, Bool, Bool-cases, List, Map, Option-cases, Text, [], ap, false, inl, inr, int_eq, lookup,
  none, pair_eq, refl, some, sym, text_eq, true, ◌∙◌, ◌∷◌, ◌≡◌, ◌⊎◌,
}
use action_runner_cluster.Provider.{Instance}
use action_runner_cluster.ProcessProvider.{
  InstanceState, Contents, DirEntry, plain_file, directory, Host, Provider, dir_of, state_in,
  process_alive, process_matches, report, seen_as, list_entries, list_when,
}
use action_runner_cluster.ProcessProvider.Removal.{is_live}
use action_runner_cluster.ProcessProvider.Removal.Places.{IsFileName}
use action_runner_cluster.ProcessProvider.Removal.Verdicts.{
  Idle, Extends, Extends-refl, Extends-trans, Idle-Extends, matched-Extends, matched_kept,
}

-- One report: the host only learns, and an instance that is not live is idle.
record IsReport (p : Provider) (name : Text) (st : InstanceState) (h : Host) (r : Instance × Host)
    : Type 0 where
  same_id : r.0.id ≡ name
  extends : Extends h r.1
  idle :
      is_live r.0.state ≡ false
      → (process_alive r.1 st.pid ≡ false) ⊎ (lookup (st.pid, dir_of p name) r.1.seen ≡ some false)

report_lem :
    (ps : Bool) (p : Provider) (name : Text) (st : InstanceState) (h : Host)
    → IsReport p name st h (report ps p name st h)
unfolding report seen_as is_live
report_lem ps p name st h = elim (Bool-cases (process_alive h st.pid)) [
  | inr dead ↦ rw dead (record { same_id = refl; extends = Extends-refl h; idle = λ _. inl dead })
  | inl alive ↦
      let dir : Text = dir_of p name in
      elim (Bool-cases (process_matches ps st.pid dir h).0) [
        | inr foreign ↦
            rw (alive, foreign)
              (record {
                same_id = refl;
                extends = matched-Extends ps st.pid dir h;
                idle = λ _. inr (matched_kept ps st.pid dir h ∙ ap some foreign);
              })
        | inl ours ↦
            rw (alive, ours)
              (record {
                same_id = refl;
                extends = matched-Extends ps st.pid dir h;
                idle = λ e. absurd (let q : true ≡ false = e in cc);
              })
      ]
]

-- The entries of a directory: names that it can hold, each once.
abbrev pub IsDirectory : Map Text DirEntry → Type 0
IsDirectory es = All (λ e. IsFileName e.0 × (lookup e.0 es ≡ some e.1)) es

abbrev Listed : Map Text DirEntry → Map Text DirEntry → Type 0
Listed all = All (λ e. IsFileName e.0 × (lookup e.0 all ≡ some e.1))

abbrev pub IsPrunable : Provider → Host → Instance → Type 0
IsPrunable p h i = IsFileName i.id × (is_live i.state ≡ false → Idle p h i.id)

pub IsPrunable-Extends :
    (p : Provider) {h h' : Host}
    → Extends h h'
    → (i : Instance) → IsPrunable p h i
    → IsPrunable p h' i
IsPrunable-Extends p x i (f, idle) = (f, λ e. Idle-Extends p i.id x (idle e))

pub record IsListing (p : Provider) (h : Host) (r : List Instance × Host) : Type 0 where
  pub extends : Extends h r.1
  pub same_entries : r.1.entries ≡ h.entries
  pub prunable : All (IsPrunable p r.1) r.0

report-entries :
    (ps : Bool) (p : Provider) (name : Text) (st : InstanceState) (h : Host)
    → (report ps p name st h).1.entries ≡ h.entries
unfolding report process_matches
report-entries ps p name st h = elim (Bool-cases (process_alive h st.pid)) [
  | inr dead ↦ rw dead refl
  | inl alive ↦ elim (Option-cases (lookup (st.pid, dir_of p name) h.seen)) [
    | inr (v, known) ↦ rw (alive, known, process_matches) refl
    | inl new ↦ rw (alive, new, process_matches) refl
  ]
]

-- The state of an entry that is found.
state_found :
    (es : Map Text DirEntry) (name : Text) (c : Contents)
    → lookup name es ≡ some (directory c)
    → state_in (lookup name es) ≡ c.saved
unfolding state_in
state_found es name c e = rw e refl

no_state-Idle :
    (p : Provider) (h : Host) (name : Text) (c : Contents)
    → lookup name h.entries ≡ some (directory c)
    → c.saved ≡ none
    → Idle p h name
no_state-Idle p h name c e bare st found =
    absurd (let q : none ≡ some st = sym (state_found h.entries name c e ∙ bare) ∙ found in cc)

known-Idle :
    (p : Provider) (h : Host) (name : Text) (c : Contents) (st : InstanceState)
    → lookup name h.entries ≡ some (directory c)
    → c.saved ≡ some st
    → (process_alive h st.pid ≡ false) ⊎ (lookup (st.pid, dir_of p name) h.seen ≡ some false)
    → Idle p h name
known-Idle p h name c st e saved idle st' found =
    let q : some st ≡ some st' = sym (state_found h.entries name c e ∙ saved) ∙ found in
    let same : st ≡ st' = cc in rw (← same) idle

list_entries_lem :
    (ps : Bool) (p : Provider) (es : Map Text DirEntry) (h : Host)
    → Listed h.entries es
    → IsListing p h (list_entries ps p es h)
unfolding list_entries
list_entries_lem ps p [] h l = record {
  extends = Extends-refl h;
  same_entries = refl;
  prunable = tt;
}
list_entries_lem ps p ((name, plain_file) ∷ more) h l = list_entries_lem ps p more h l.1
list_entries_lem ps p ((name, directory c) ∷ more) h l = elim (Option-cases c.saved) [
  | inl bare ↦
      let rest : IsListing p h (list_entries ps p more h) = list_entries_lem ps p more h l.1 in
      rw (bare, list_entries)
        (record {
          extends = rest.extends;
          same_entries = rest.same_entries;
          prunable = (
            (
              l.0.0,
              λ _.
                  no_state-Idle p (list_entries ps p more h).1 name c (rw rest.same_entries l.0.1)
                    bare,
            ),
            rest.prunable,
          );
        })
  | inr (st, saved) ↦
      let shown : Instance × Host = report ps p name st h in
      let r : IsReport p name st h shown = report_lem ps p name st h in
      let rest : IsListing p shown.1 (list_entries ps p more shown.1) =
        list_entries_lem ps p more shown.1 (rw (report-entries ps p name st h) l.1) in
      rw (saved, list_entries)
        (record {
          extends = Extends-trans r.extends rest.extends;
          same_entries = rest.same_entries ∙ report-entries ps p name st h;
          prunable = (
            (
              rw r.same_id l.0.0,
              λ off. rw r.same_id (
                  Idle-Extends p name rest.extends (
                    known-Idle p shown.1 name c st (rw (report-entries ps p name st h) l.0.1) saved
                      (r.idle off))),
            ),
            rest.prunable,
          );
        })
]

pub list_lem :
    (present readable ps : Bool) (p : Provider) (h : Host) {instances : List Instance}
    → IsDirectory h.entries
    → (list_when present readable ps p h).0 ≡ some instances
    → (All (IsPrunable p (list_when present readable ps p h).1) instances)
      × ((list_when present readable ps p h).1.entries ≡ h.entries)
unfolding list_when
list_lem false readable ps p h {instances} dir e =
    let none_there : [] ≡ instances = cc in rw (← none_there) (tt, refl)
list_lem true false ps p h dir e = absurd (cc)
list_lem true true ps p h {instances} dir e =
    let l : IsListing p h (list_entries ps p h.entries h) = list_entries_lem ps p h.entries h dir in
    let same : (list_entries ps p h.entries h).0 ≡ instances = cc in
    rw (← same) (l.prunable, l.same_entries)
