-- ===== src/Examples/Stored.antt =====
-- The overrides at concrete pools and limits.
use action_runner_cluster.Prelude.{
  List, Map, Text, [], codes, insert, lookup, none, pos, refl, some, text_eq, ◌∷◌, ◌≡◌, ◌≢◌,
}
use action_runner_cluster.Overrides.{Override, OnDisk, Overrides, holds, set_memory}
use action_runner_cluster.Overrides.Races.{Shared, Step, quiet, two_sets_diverge}

abbrev two : Override
two = record { min = none; max = some (pos 2) }

abbrev kept : Map Text Override
kept = (codes "linux", two) ∷ []

abbrev o : Overrides
o = record { m = kept; disk = holds kept }

-- The first `Set` is for another pool, so the second pool has no override yet.
none_yet : lookup (codes "gpu") (set_memory (codes "linux") (some (pos 1)) none kept) ≡ none
unfolding set_memory lookup insert
none_yet = refl

two_sets_diverge_example :
    let m1 = set_memory (codes "linux") (some (pos 1)) none kept in
    let m2 = set_memory (codes "gpu") (some (pos 3)) none m1 in
    let both : List (Map Text Override) = m1 ∷ m2 ∷ [] in
    let after : OnDisk → List (Map Text Override) → Shared =
      λ disk pending. record { now = record { m = m2; disk = disk }; pending = pending } in
    let one : Shared = record { now = record { m = m1; disk = holds kept }; pending = m1 ∷ [] } in
    Step (quiet kept (holds kept)) one
    × Step one (after (holds kept) both)
    × Step (after (holds kept) both) (after (holds m2) (m1 ∷ []))
    × Step (after (holds m2) (m1 ∷ [])) (quiet m2 (holds m1))
    × (holds m1 ≢ holds m2)
two_sets_diverge_example =
    two_sets_diverge kept (holds kept) (codes "linux") (codes "gpu") (some (pos 1)) none none
      (pos 3) none_yet
