-- ===== src/Overrides/Laws.antt =====
-- internal/state/overrides.go: what Get answers after Set and Clear, and what a restart reads.
use action_runner_cluster.Prelude.{
  Option, Text, arith, if◌then◌else◌, lookup-delete, lookup-insert, lookup_or, nat_eq, none,
  or_else, refl, text_beq_iff, text_eq, true, ℤ, ◌==◌, ◌∙◌, ◌≡◌, ◌≢◌,
}
use action_runner_cluster.Overrides.{
  Override, inherit, Overrides, loaded, load_overrides, get, Persisted, written, write_failed,
  rename_failed, given_or, set_memory, set, clear,
}

-- The limits that an answer of `Get` pins down; no override pins neither.
abbrev pub effective : Option Override → Override
effective = or_else inherit

-- After `Set` a pool's override has the limits that were given and keeps the others; every other
-- pool has what it had, whatever the disk answers.
pub get-set :
    (pool j : Text) (min max : Option ℤ) (p : Persisted) (o : Overrides)
    → effective (get (set pool min max p o).0 j) ≡ (
        if pool == j
        then record {
          min = given_or min (effective (get o pool)).min;
          max = given_or max (effective (get o pool)).max;
        }
        else effective (get o j))
unfolding get set
get-set pool j min max p o = ground (
  arith,
  lookup-delete pool j o.m,
  lookup-insert pool j
      (record {
        min = given_or min (lookup_or inherit pool o.m).min;
        max = given_or max (lookup_or inherit pool o.m).max;
      })
      o.m,
)

-- What a restart reads back: after a `Set` or a `Clear` that reports success it is the memory, and
-- after one that reports a failure it is what the file held before, though the memory has changed.
pub persist_roundtrip :
    (pool : Text) (min max : Option ℤ) (p : Persisted) (o : Overrides)
    → (p ≡ written
        → (load_overrides true (set pool min max p o).0.disk ≡ loaded (set pool min max p o).0)
          × (load_overrides true (clear pool p o).0.disk ≡ loaded (clear pool p o).0))
      × (p ≢ written
          → ((set pool min max p o).0.disk ≡ o.disk)
            × ((clear pool p o).0.disk ≡ o.disk)
            × ((set pool min max p o).0.m ≡ set_memory pool min max o.m))
unfolding load_overrides set clear
persist_roundtrip pool min max written o = ((λ _. (refl, refl)), λ n. absurd (n refl))
persist_roundtrip pool min max write_failed o = ((λ e. cc), λ _. (refl, refl, refl))
persist_roundtrip pool min max rename_failed o = ((λ e. cc), λ _. (refl, refl, refl))

-- `Set` with neither limit changes no override: one that was there stays, though the comment on the
-- method says that it is cleared.
pub set_nothing_keeps :
    (pool j : Text) (p : Persisted) (o : Overrides)
    → effective (get (set pool none none p o).0 j) ≡ effective (get o j)
set_nothing_keeps pool j p o = get-set pool j none none p o ∙ ground (arith, text_beq_iff pool j)
