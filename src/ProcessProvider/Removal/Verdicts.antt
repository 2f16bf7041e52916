-- ===== src/ProcessProvider/Removal/Verdicts.antt =====
-- processMatches and its memory: what it has learnt of a pid stays.
use action_runner_cluster.Prelude.{
  Bool, Bool-cases, Option-cases, Text, eq_self, false, inl, inr, int_eq, lookup, lookup-insert,
  nat_eq, none, pair_eq, refl, same_pair_iff, some, text_eq, ℤ, ◌==◌, ◌∙◌, ◌≡◌, ◌⊎◌,
}
use action_runner_cluster.ProcessProvider.{
  InstanceState, Host, Provider, dir_of, state_in, process_alive, process_matches, looks_ours,
}

-- The process of the instance is dead, or it has been found to be another one.
abbrev pub Idle : Provider → Host → Text → Type 0
Idle p h name =
    (st : InstanceState)
    → state_in (lookup name h.entries) ≡ some st
    → (process_alive h st.pid ≡ false) ⊎ (lookup (st.pid, dir_of p name) h.seen ≡ some false)

-- No process comes or goes, no verdict is taken back, no state file appears.
pub record Extends (h h' : Host) : Type 0 where
  pub processes : h'.processes ≡ h.processes
  pub verdicts :
      (key : ℤ × Text) (v : Bool) → lookup key h.seen ≡ some v → lookup key h'.seen ≡ some v
  pub states :
      (name : Text) (st : InstanceState)
      → state_in (lookup name h'.entries) ≡ some st
      → state_in (lookup name h.entries) ≡ some st

pub Extends-refl : (h : Host) → Extends h h
Extends-refl h = record { processes = refl; verdicts = λ k v e. e; states = λ n st e. e }

pub Extends-trans : {a b c : Host} → Extends a b → Extends b c → Extends a c
Extends-trans x y = record {
  processes = y.processes ∙ x.processes;
  verdicts = λ k v e. y.verdicts k v (x.verdicts k v e);
  states = λ n st e. x.states n st (y.states n st e);
}

pub Idle-Extends :
    (p : Provider) {h h' : Host} (name : Text) → Extends h h' → Idle p h name → Idle p h' name
unfolding process_alive
Idle-Extends p {h} {h'} name x idle st e = elim (idle st (x.states name st e)) [
  | inl dead ↦ inl (rw x.processes dead)
  | inr foreign ↦ inr (x.verdicts (st.pid, dir_of p name) false foreign)
]

pub matched-Extends :
    (ps : Bool) (pid : ℤ) (dir : Text) (h : Host) → Extends h (process_matches ps pid dir h).1
unfolding process_matches
matched-Extends ps pid dir h = elim (Option-cases (lookup (pid, dir) h.seen)) [
  | inr (v, known) ↦ rw (known, process_matches) (Extends-refl h)
  | inl new ↦
      rw (new, process_matches)
        (record {
          processes = refl;
          verdicts = λ k v e.
              rw (lookup-insert (pid, dir) k (looks_ours ps (lookup pid h.processes) dir) h.seen)
                (elim (Bool-cases ((pid, dir) == k)) [
                  | inr other ↦ rw other e
                  | inl same ↦ absurd (taken_new k v e ((same_pair_iff (pid, dir) k).0 same) new)
                ]);
          states = λ n st e. e;
        })
]
  where
    taken_new :
        (k : ℤ × Text) (v : Bool)
        → lookup k h.seen ≡ some v
        → (pid, dir) ≡ k
        → lookup (pid, dir) h.seen ≡ none
        → ⊥
    taken_new k v e same new = let found : lookup (pid, dir) h.seen ≡ some v = rw same e in cc

pub matched_kept :
    (ps : Bool) (pid : ℤ) (dir : Text) (h : Host)
    → lookup (pid, dir) (process_matches ps pid dir h).1.seen
      ≡ some (process_matches ps pid dir h).0
unfolding process_matches
matched_kept ps pid dir h = elim (Option-cases (lookup (pid, dir) h.seen)) [
  | inr (v, known) ↦ rw (known, process_matches) known
  | inl new ↦
      rw (new, process_matches)
        (rw
          (
            lookup-insert (pid, dir) (pid, dir) (looks_ours ps (lookup pid h.processes) dir) h.seen,
            eq_self {K = ℤ × Text} (pid, dir),
          )
          refl)
]
