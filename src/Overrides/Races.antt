-- ===== src/Overrides/Races.antt =====
-- internal/state/overrides.go: several goroutines in Set and Clear. The memory is changed under the
-- lock; the snapshot taken there is written to disk after the lock is released.
use action_runner_cluster.Prelude.{
  List, Map, Option, Text, [], ap, delete, eq_self, int_eq, lookup, lookup-insert, lookup_or, none,
  pair_eq, some, sym, text_eq, ℤ, ◌++◌, ◌∙◌, ◌∷◌, ◌≡◌, ◌≢◌,
}
use action_runner_cluster.Overrides.{
  Override, OnDisk, holds, Overrides, written, persist, set_memory, inherit, given_or,
}

-- The overrides, and the snapshots that goroutines have taken and not yet written.
pub record Shared : Type 0 where
  pub now : Overrides
  pub pending : List (Map Text Override)

-- Take out the snapshot at a place in the list.
pub data Picks
    : Map Text Override → List (Map Text Override) → List (Map Text Override) → Type 0 where
  first : {s : Map Text Override} {rest : List (Map Text Override)} → Picks s (s ∷ rest) rest
  later :
      {s t : Map Text Override} {before after : List (Map Text Override)}
      → Picks s before after
      → Picks s (t ∷ before) (t ∷ after)

-- One step of some goroutine, when the disk makes no error.
pub data Step : Shared → Shared → Type 0 where
  sets :
      (s : Shared) (pool : Text) (min max : Option ℤ)
      → Step s (record {
        now = record s.now { m = set_memory pool min max s.now.m };
        pending = s.pending ++ set_memory pool min max s.now.m ∷ [];
      })
  clears :
      (s : Shared) (pool : Text)
      → Step s (record {
        now = record s.now { m = delete pool s.now.m };
        pending = s.pending ++ delete pool s.now.m ∷ [];
      })
  writes :
      (s : Shared) (snapshot : Map Text Override) (rest : List (Map Text Override))
      → Picks snapshot s.pending rest
      → Step s (record {
        now = record s.now { disk = persist snapshot written s.now.disk };
        pending = rest;
      })

abbrev lookup_held : Text → OnDisk → Option Override
lookup_held k (holds m) = lookup k m
lookup_held k _ = none

abbrev pub quiet : Map Text Override → OnDisk → Shared
quiet m d = record { now = record { m = m; disk = d }; pending = [] }

lookup-set_memory_min :
    (b : Text) (v : ℤ) (b_max : Option ℤ) (m : Map Text Override)
    → lookup b (set_memory b (some v) b_max m) ≢ none
unfolding set_memory
lookup-set_memory_min b v b_max m =
    rw
      (
        lookup-insert b b
            (record { min = some v; max = given_or b_max (lookup_or inherit b m).max }) m,
        eq_self b,
      )
      (λ e. cc)

-- With no failure of the disk, two concurrent calls of `Set`, the second of which gives a minimum to
-- a pool without an override, can end with a file that differs from the memory: the first changes
-- the memory, the second changes the memory, the second writes its snapshot, the first writes its
-- own; then nothing is left to write, the memory is what the two calls made of it in turn, and the
-- file is the snapshot of the first.
pub two_sets_diverge :
    (m : Map Text Override) (d : OnDisk) (a b : Text) (a_min a_max b_max : Option ℤ) (v : ℤ)
    → lookup b (set_memory a a_min a_max m) ≡ none
    → let m1 = set_memory a a_min a_max m in
      let m2 = set_memory b (some v) b_max m1 in
      let both : List (Map Text Override) = m1 ∷ m2 ∷ [] in
      let after : OnDisk → List (Map Text Override) → Shared =
        λ disk pending. record { now = record { m = m2; disk = disk }; pending = pending } in
      Step (quiet m d) (record { now = record { m = m1; disk = d }; pending = m1 ∷ [] })
      × Step (record { now = record { m = m1; disk = d }; pending = m1 ∷ [] }) (after d both)
      × Step (after d both) (after (holds m2) (m1 ∷ []))
      × Step (after (holds m2) (m1 ∷ [])) (quiet m2 (holds m1))
      × (holds m1 ≢ holds m2)
unfolding persist
two_sets_diverge m d a b a_min a_max b_max v h =
    let m1 = set_memory a a_min a_max m in
    let m2 = set_memory b (some v) b_max m1 in
    (
      sets (quiet m d) a a_min a_max,
      sets _ b (some v) b_max,
      writes _ m2 (m1 ∷ []) (later first),
      writes _ m1 [] first,
      λ e. lookup-set_memory_min b v b_max m1 (ap (lookup_held b) (sym e) ∙ h),
    )
