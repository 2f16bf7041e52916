-- ===== src/Overrides.antt =====
-- internal/state/overrides.go: the overrides of pool limits, in memory and on disk. The file is
-- modelled by the map that its JSON encodes; what the file system answers is an argument.
pub mod Laws
pub mod Races
use action_runner_cluster.Prelude.{
  Bool, Map, Option, Text, [], delete, false, if◌then◌else◌, insert, lookup, lookup_or, none, some,
  text_eq, true, ℤ, ◌&&◌,
}

-- A nil pointer means: inherit from the configuration.
pub record Override : Type 0 where
  pub min : Option ℤ
  pub max : Option ℤ

abbrev pub inherit : Override
inherit = record { min = none; max = none }

-- What stands at `overrides.json`.
pub data OnDisk : Type 0 where
  missing : OnDisk
  unreadable : OnDisk
  corrupt : OnDisk
  holds : Map Text Override → OnDisk

pub record Overrides : Type 0 where
  pub m : Map Text Override
  pub disk : OnDisk

pub data LoadError : Type 0 where
  no_state_dir read_failed parse_failed : LoadError

pub data Loaded : Type 0 where
  loaded : Overrides → Loaded
  failed : LoadError → Loaded

-- `LoadOverrides`; the test says whether the state directory could be made.
unfoldable pub load_overrides : Bool → OnDisk → Loaded
load_overrides false disk = failed no_state_dir
load_overrides true missing = loaded (record { m = []; disk = missing })
load_overrides true unreadable = failed read_failed
load_overrides true corrupt = failed parse_failed
load_overrides true (holds m) = loaded (record { m = m; disk = holds m })

unfoldable pub get : Overrides → Text → Option Override
get o pool = lookup pool o.m

-- What the write of the temporary file and the rename came to.
pub data Persisted : Type 0 where
  written write_failed rename_failed : Persisted

unfoldable pub persist : Map Text Override → Persisted → OnDisk → OnDisk
persist snapshot written disk = holds snapshot
persist snapshot write_failed disk = disk
persist snapshot rename_failed disk = disk

-- A pointer that is given replaces the one that was there.
abbrev pub given_or : Option ℤ → Option ℤ → Option ℤ
given_or none old = old
given_or (some v) old = some v

abbrev is_nil : Option ℤ → Bool
is_nil none = true
is_nil (some v) = false

-- The part of `Set` under the lock.
unfoldable pub set_memory : Text → Option ℤ → Option ℤ → Map Text Override → Map Text Override
set_memory pool min max m =
    let existing : Override = lookup_or inherit pool m in
    let merged : Override = record {
      min = given_or min existing.min;
      max = given_or max existing.max;
    } in
    if is_nil merged.min && is_nil merged.max then delete pool m else insert pool merged m

unfoldable pub set : Text → Option ℤ → Option ℤ → Persisted → Overrides → Overrides × Persisted
unfolding persist set_memory
set pool min max p o =
    let m : Map Text Override = set_memory pool min max o.m in
    (record { m = m; disk = persist m p o.disk }, p)

unfoldable pub clear : Text → Persisted → Overrides → Overrides × Persisted
unfolding persist
clear pool p o =
    let m : Map Text Override = delete pool o.m in (record { m = m; disk = persist m p o.disk }, p)
